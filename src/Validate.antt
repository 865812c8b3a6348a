-- ===== src/Validate.antt =====
-- The checks of names and addresses (internal/service/validate.go). The regular expressions of that
-- file are runs of character classes, each with its least and greatest number of repetitions.
pub mod Names
use Prim.Native.Char.{code}
use Prim.Native.String.{len}
use buktio.Base.{
  ℕ, zero, suc, String, Bool, true, false, not, ◌&&◌, ◌||◌, Option, none, some, List, [], ◌∷◌, ltb,
  leb, ◌==◌, if◌then◌else◌,
}
use buktio.Runtime.World.{Result, ok, err}

-- The code points of a text.
abbrev pub codes : String → List ℕ
codes String.[] = []
codes (String.◌∷◌ c s) = code c ∷ codes s

-- A character class that is repeated at least `least` times and, if there is a `most`, at most so
-- often.
pub record Run : Type 0 where
  pub class : ℕ → Bool
  pub least : ℕ
  pub most : Option ℕ

abbrev pub once : (ℕ → Bool) → Run
once c = record { class = c; least = 1; most = some 1 }

abbrev pub some_of : (ℕ → Bool) → Run
some_of c = record { class = c; least = 1; most = none }

abbrev pub may_repeat : Option ℕ → Bool
may_repeat none = true
may_repeat (some zero) = false
may_repeat (some (suc n)) = true

abbrev pub less_one : Option ℕ → Option ℕ
less_one none = none
less_one (some zero) = some zero
less_one (some (suc n)) = some n

abbrev pub pred_or_zero : ℕ → ℕ
pred_or_zero zero = zero
pred_or_zero (suc n) = n

-- Whether a text as a whole is a sequence of the runs (`^…$`).
unfoldable pub matches : List Run → List ℕ → Bool
matches [] [] = true
matches [] (c ∷ s) = false
matches (r ∷ rs) [] = let rest = matches rs [] in r.least == 0 && rest
matches (r ∷ rs) (c ∷ s) =
    let here = matches (record r { least = pred_or_zero r.least; most = less_one r.most } ∷ rs) s in
    let later = matches rs (c ∷ s) in
    (r.class c && may_repeat r.most && here) || (r.least == 0 && later)

abbrev pub is_lower : ℕ → Bool
is_lower c = leb b'a' c && leb c b'z'

abbrev pub is_upper : ℕ → Bool
is_upper c = leb b'A' c && leb c b'Z'

abbrev pub is_digit : ℕ → Bool
is_digit c = leb b'0' c && leb c b'9'

-- [a-z0-9]
unfoldable pub is_bucket_end : ℕ → Bool
is_bucket_end c = is_lower c || is_digit c

-- [a-z0-9-]
unfoldable pub is_bucket_char : ℕ → Bool
is_bucket_char c = is_lower c || is_digit c || c == b'-'

-- [A-Za-z0-9]
unfoldable pub is_key_start : ℕ → Bool
is_key_start c = is_upper c || is_lower c || is_digit c

-- [A-Za-z0-9 _.-]
unfoldable pub is_key_char : ℕ → Bool
is_key_char c =
    is_upper c || is_lower c || is_digit c || c == b' ' || c == b'_' || c == b'.' || c == b'-'

-- \s is [\t\n\f\r ].
abbrev pub is_space : ℕ → Bool
is_space c = c == 9 || c == 10 || c == 12 || c == 13 || c == 32

-- [^@\s]
unfoldable pub is_address_char : ℕ → Bool
is_address_char c = not (c == b'@' || is_space c)

unfoldable pub bucket_name_re : List Run
bucket_name_re =
    once is_bucket_end
    ∷ record { class = is_bucket_char; least = 1; most = some 61 }
    ∷ once is_bucket_end
    ∷ []

unfoldable pub key_name_re : List Run
key_name_re = once is_key_start ∷ record { class = is_key_char; least = 0; most = some 63 } ∷ []

unfoldable pub email_re : List Run
email_re =
    some_of is_address_char
    ∷ once (λ c. c == b'@')
    ∷ some_of is_address_char
    ∷ once (λ c. c == b'.')
    ∷ some_of is_address_char
    ∷ []

unfoldable pub validate_bucket_name : String → Result String (Unit {0})
unfolding matches bucket_name_re is_bucket_end is_bucket_char
validate_bucket_name name =
    if ltb (len name) 3 || ltb 63 (len name)
    then err "bucket name must be 3-63 characters"
    else if not (matches bucket_name_re (codes name))
    then err
        "bucket name may contain only lowercase letters, digits and hyphens, and must start/end with a letter or digit"
    else ok tt

unfoldable pub validate_key_name : String → Result String (Unit {0})
unfolding matches key_name_re is_key_start is_key_char
validate_key_name name =
    if not (matches key_name_re (codes name))
    then err "key name must be 1-64 characters (letters, digits, space, _.-)"
    else ok tt

unfoldable pub valid_email : String → Bool
unfolding matches email_re is_address_char
valid_email email = matches email_re (codes email)
