-- ===== src/Secret.antt =====
-- The sealing of secrets under a master key (internal/secret/envelope.go, secret.go, kek.go,
-- files.go). A byte string is a list of numbers. The ciphers, the random source, base64 and the
-- operating system are a parameter; `n` counts the reads of the random source so far.
pub mod RoundTrip
use buktio.Base.{
  ℕ, ◌+◌, ◌%◌, ◌==◌, String, ◌<>◌, Bool, not, ◌&&◌, Option, none, some, List, [], ◌∷◌, ◌++◌, str_eq,
  ltb, length, take, drop, if◌then◌else◌,
}
use buktio.Runtime.World.{Result, ok, err, ok?}

abbrev pub Bytes : Type 0
Bytes = List ℕ

-- Go's crypto/aes, crypto/cipher, crypto/rand, encoding/base64, encoding/hex, strings and os.
pub record Platform : Type 0 where
  -- aes.NewCipher and cipher.NewGCM of a key: the error, if there is one.
  pub new_cipher : Bytes → Option String
  pub new_gcm : Bytes → Option String
  -- AEAD.Seal and AEAD.Open with a key and a nonce, without additional data.
  pub gcm_seal : Bytes → Bytes → Bytes → Bytes
  pub gcm_open : Bytes → Bytes → Bytes → Result String Bytes
  -- The n-th read of the random source, of so many bytes.
  pub random : ℕ → ℕ → Result String Bytes
  -- base64.StdEncoding, RawStdEncoding and RawURLEncoding, and hex.
  pub base64_decode : Bytes → Result String Bytes
  pub base64_decode_raw : Bytes → Result String Bytes
  pub base64_encode : Bytes → String
  pub base64_encode_url : Bytes → String
  pub hex_encode : Bytes → String
  pub trim_space : Bytes → Bytes
  pub itoa : ℕ → String
  -- `%#o`
  pub octal : ℕ → String
  -- os.Getenv, os.ReadFile, and the permission bits of os.Stat.
  pub getenv : String → Bytes
  pub path_of : Bytes → String
  pub read_file : String → Result String Bytes
  pub stat_perm : String → Result String ℕ

infixl 5 ◌>>=◌ ◌>>◌
abbrev pub ◌>>=◌ : {A B : Type 0} → Result String A → (A → Result String B) → Result String B
ok a >>= f = f a
err e >>= f = err e

abbrev pub ◌>>◌ : {B : Type 0} → Result String (Unit {0}) → Result String B → Result String B
m >> k = m >>= λ _. k

-- `if err != nil { return fmt.Errorf(prefix + "%w", err) }`
abbrev pub wrap : {A : Type 0} → String → Result String A → Result String A
wrap prefix (ok a) = ok a
wrap prefix (err e) = err (prefix <> e)

abbrev pub fails : Option String → Result String (Unit {0})
fails none = ok tt
fails (some e) = err e

abbrev pub kek_size : ℕ
kek_size = 32

abbrev pub dek_size : ℕ
dek_size = 32

abbrev pub nonce_size : ℕ
nonce_size = 12

abbrev pub gcm_overhead : ℕ
gcm_overhead = 16

abbrev pub env_version : ℕ
env_version = 1

abbrev pub wrapped_dek_size : ℕ
wrapped_dek_size = dek_size + gcm_overhead

abbrev pub header_len : ℕ
header_len = 1 + nonce_size + wrapped_dek_size + nonce_size

module _ (p : Platform) where
  -- An EnvelopeSealer is known by its key.
  unfoldable pub new_envelope_sealer : Bytes → Result String Bytes
  new_envelope_sealer kek =
      if not (length kek == kek_size)
      then err ("secret: KEK must be 32 bytes, got " <> p.itoa (length kek))
      else do
        wrap "secret: new KEK cipher: " (fails (p.new_cipher kek))
        wrap "secret: new KEK gcm: " (fails (p.new_gcm kek))
        ok kek

  unfoldable pub new_gcm : Bytes → Result String Bytes
  new_gcm key = do
    wrap "secret: new cipher: " (fails (p.new_cipher key))
    wrap "secret: new gcm: " (fails (p.new_gcm key))
    ok key

  unfoldable pub seal : Bytes → ℕ → Bytes → Result String Bytes
  unfolding new_gcm
  seal kek n plaintext = do
    dek ← wrap "secret: gen DEK: " (p.random n dek_size)
    data_key ← new_gcm dek
    data_nonce ← wrap "secret: gen data nonce: " (p.random (n + 1) nonce_size)
    let ciphertext = p.gcm_seal data_key data_nonce plaintext
    kek_nonce ← wrap "secret: gen KEK nonce: " (p.random (n + 2) nonce_size)
    let wrapped_dek = p.gcm_seal kek kek_nonce dek
    ok (env_version ∷ (kek_nonce ++ (wrapped_dek ++ (data_nonce ++ ciphertext))))

  -- The parts of a blob that is long enough.
  unfoldable pub open_parts : Bytes → Bytes → Result String Bytes
  unfolding new_gcm
  open_parts kek blob = do
    let kek_nonce = take nonce_size (drop 1 blob)
    let wrapped_dek = take wrapped_dek_size (drop (1 + nonce_size) blob)
    let data_nonce = take nonce_size (drop (1 + nonce_size + wrapped_dek_size) blob)
    let ciphertext = drop header_len blob
    dek ← wrap "secret: unwrap DEK (wrong KEK or tampered): " (p.gcm_open kek kek_nonce wrapped_dek)
    data_key ← new_gcm dek
    wrap "secret: decrypt (tampered): " (p.gcm_open data_key data_nonce ciphertext)

  unfoldable pub open_blob : Bytes → Bytes → Result String Bytes
  unfolding open_parts
  open_blob kek [] = err "secret: blob too short"
  open_blob kek (version ∷ rest) =
      if ltb (length (version ∷ rest)) header_len
      then err "secret: blob too short"
      else if not (version == env_version)
      then err ("secret: unsupported blob version " <> p.itoa version)
      else open_parts kek (version ∷ rest)

  unfoldable pub random_bytes : ℕ → ℕ → Result String Bytes
  random_bytes n size = wrap "secret: read random: " (p.random n size)

  unfoldable pub new_rpc_secret : ℕ → Result String String
  unfolding random_bytes
  new_rpc_secret n = do b ← random_bytes n 32; ok (p.hex_encode b)

  unfoldable pub new_token : ℕ → Result String String
  unfolding random_bytes
  new_token n = do b ← random_bytes n 32; ok (p.base64_encode b)

  unfoldable pub new_password : ℕ → ℕ → Result String String
  unfolding random_bytes
  new_password n size =
      if ltb size 16
      then err ("secret: password length " <> p.itoa size <> " too short (min 16)")
      else do b ← random_bytes n size; ok (p.base64_encode_url b)

  unfoldable pub new_kek : ℕ → Result String Bytes
  unfolding random_bytes
  new_kek n = random_bytes n kek_size

  -- `err == nil && len(raw) == KEKSize`
  abbrev pub is_kek : Result String Bytes → Bool
  is_kek (ok raw) = length raw == kek_size
  is_kek (err e) = Bool.false

  unfoldable pub decode_kek : Bytes → Result String Bytes
  decode_kek v =
      let s = p.trim_space v in
      if is_kek (p.base64_decode s)
      then p.base64_decode s
      else if is_kek (p.base64_decode_raw s)
      then p.base64_decode_raw s
      else if length v == kek_size
      then ok v
      else err "secret: KEK must be 32 bytes (base64 or raw)"

  unfoldable pub check_perms : String → Result String (Unit {0})
  check_perms path = do
    perm ← wrap ("secret: stat " <> path <> ": ") (p.stat_perm path)
    if not (perm % 64 == 0)
        then err (
            "secret: "
            <> path
            <> " has insecure permissions "
            <> p.octal perm
            <> " (must be group/world-unreadable, e.g. 0600)")
        else ok tt

  unfoldable pub kek_from_file : String → Result String Bytes
  unfolding decode_kek check_perms
  kek_from_file path = do
    check_perms path
    content ← wrap "secret: read KEK file: " (p.read_file path)
    decode_kek content

  -- EnvFileProvider.KEK with the names of its two variables.
  unfoldable pub kek : String → String → Result String Bytes
  unfolding decode_kek kek_from_file
  kek env_name file_name =
      let env_var = if str_eq env_name "" then "BUKTIO_MASTER_KEY" else env_name in
      let file_var = if str_eq file_name "" then "BUKTIO_MASTER_KEY_FILE" else file_name in
      if not (length (p.getenv env_var) == 0)
      then decode_kek (p.getenv env_var)
      else if not (length (p.getenv file_var) == 0)
      then kek_from_file (p.path_of (p.getenv file_var))
      else err ("secret: no KEK configured (set " <> env_var <> " or " <> file_var <> ")")
