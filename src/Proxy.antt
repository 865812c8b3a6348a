-- ===== src/Proxy.antt =====
-- The S3 proxy's counters (internal/proxy/proxy.go) and the key that a request counts under
-- (internal/proxy/parse.go). Counters are taken as unbounded.
pub mod Totals
use Prim.Native.Char.{code}
use buktio.Base.{
  ℕ, ◌+◌, ◌==◌, String, Bool, ◌&&◌, ◌||◌, Option, none, some, List, [], ◌∷◌, ltb, str_eq,
  if◌then◌else◌,
}
use buktio.Base.Int.{ℤ, pos, negsuc}

pub record Key : Type 0 where
  pub access_key_id : String
  pub bucket : String
  pub method : String

pub record Counter : Type 0 where
  pub requests : ℕ
  pub bytes_in : ℕ
  pub bytes_out : ℕ

pub record Sample : Type 0 where
  pub key : Key
  pub requests : ℕ
  pub bytes_in : ℕ
  pub bytes_out : ℕ

-- What the proxy reads of a request: the Authorization header and the X-Amz-Credential parameter,
-- "" where there is none, the path, the method and the length, -1 where it is not known.
pub record Request : Type 0 where
  pub authorization : String
  pub amz_credential : String
  pub path : String
  pub method : String
  pub content_length : ℤ

unfoldable pub before_slash : String → String
before_slash String.[] = ""
before_slash (String.◌∷◌ c s) =
    let rest = before_slash s in if code c == b'/' then "" else String.◌∷◌ c rest

unfoldable pub bucket_from_path : String → String
unfolding before_slash
bucket_from_path String.[] = ""
bucket_from_path (String.◌∷◌ c s) =
    if code c == b'/' then before_slash s else before_slash (String.◌∷◌ c s)

-- Up to the next comma or space.
unfoldable pub before_separator : String → String
before_separator String.[] = ""
before_separator (String.◌∷◌ c s) =
    let rest = before_separator s in
    if code c == b',' || code c == b' ' then "" else String.◌∷◌ c rest

-- The text without a prefix, if it has it.
unfoldable pub strip_prefix : String → String → Option String
strip_prefix String.[] s = some s
strip_prefix (String.◌∷◌ p ps) String.[] = none
strip_prefix (String.◌∷◌ p ps) (String.◌∷◌ c s) =
    let rest = strip_prefix ps s in if code p == code c then rest else none

-- The text behind the first occurrence of a marker.
unfoldable pub after_first : String → String → Option String
unfolding strip_prefix
after_first marker String.[] = strip_prefix marker ""
after_first marker (String.◌∷◌ c s) =
    let later = after_first marker s in
    elim (strip_prefix marker (String.◌∷◌ c s)) [ some rest ↦ some rest | none ↦ later ]

unfoldable pub credential_from_auth : String → String
unfolding after_first before_separator before_slash
credential_from_auth auth = elim (after_first "Credential=" auth) [
  | none ↦ ""
  | some rest ↦ before_slash (before_separator rest)
]

unfoldable pub access_key_id : Request → String
unfolding credential_from_auth before_slash
access_key_id r =
    let cred = credential_from_auth r.authorization in
    if str_eq cred "" then before_slash r.amz_credential else cred

unfoldable pub key_for : Request → Key
unfolding access_key_id bucket_from_path
key_for r = record {
  access_key_id = access_key_id r;
  bucket = bucket_from_path r.path;
  method = r.method;
}

abbrev pub same_key : Key → Key → Bool
same_key a b =
    str_eq a.access_key_id b.access_key_id && str_eq a.bucket b.bucket && str_eq a.method b.method

-- The map of the aggregator.
abbrev pub Counters : Type 0
Counters = List (Key × Counter)

unfoldable pub add : Key → ℕ → ℕ → Counters → Counters
add k bytes_in bytes_out [] =
    (k, record { requests = 1; bytes_in = bytes_in; bytes_out = bytes_out }) ∷ []
add k bytes_in bytes_out (entry ∷ cs) =
    let rest = add k bytes_in bytes_out cs in
    let c = entry.1 in
    if same_key entry.0 k
    then (
      entry.0,
      record {
        requests = c.requests + 1;
        bytes_in = c.bytes_in + bytes_in;
        bytes_out = c.bytes_out + bytes_out;
      },
    )
      ∷ cs
    else entry ∷ rest

abbrev pub samples : Counters → List Sample
samples [] = []
samples ((k, c) ∷ cs) =
    record { key = k; requests = c.requests; bytes_in = c.bytes_in; bytes_out = c.bytes_out }
    ∷ samples cs

-- The samples, and the empty map that takes the old one's place.
unfoldable pub drain : Counters → List Sample × Counters
drain cs = (samples cs, [])

abbrev pub length_of_body : ℤ → ℕ
length_of_body (pos n) = n
length_of_body (negsuc n) = 0

-- A request whose response had so many bytes, where the reverse proxy returns: one that panics
-- (http.ErrAbortHandler) is not counted.
unfoldable pub serve_http : Request → ℕ → Counters → Counters
unfolding key_for
serve_http r written cs = add (key_for r) (length_of_body r.content_length) written cs
