-- ===== src/Secret/RoundTrip.antt =====
-- What was sealed is opened, and every key that is found can seal (internal/secret).
use buktio.Base.{
  ℕ, ◌+◌, ◌≡◌, refl, ◌∙◌, ap, Bool, true, false, none, List, [], ◌∷◌, ◌++◌, arith, ltb, suc, String,
  if◌then◌else◌, length, length-append, take, drop,
}
use buktio.Runtime.World.{Result, ok, err}
use buktio.Secret.{
  Bytes, Platform, dek_size, nonce_size, gcm_overhead, wrapped_dek_size, header_len, is_kek, seal,
  open_blob, open_parts, new_gcm, new_envelope_sealer, decode_kek, kek, kek_from_file, check_perms,
  ◌>>=◌, wrap,
}

module _ {ℓ} {A : Type ℓ} where
  take-length : (xs ys : List A) → take (length xs) (xs ++ ys) ≡ xs
  take-length [] ys = refl
  take-length (x ∷ xs) ys = ap (λ l. x ∷ l) (take-length xs ys)

  drop-length : (n : ℕ) (xs ys : List A) → drop (length xs + n) (xs ++ ys) ≡ drop n ys
  drop-length n [] ys = ground arith
  drop-length n (x ∷ xs) ys =
      let e : suc (length xs) + n ≡ suc (length xs + n) = omega arith in rw e (drop-length n xs ys)

  pub take-append : (m : ℕ) (xs ys : List A) → length xs ≡ m → take m (xs ++ ys) ≡ xs
  take-append m xs ys h = rw (← h) (take-length xs ys)

  pub drop-append : (m n : ℕ) (xs ys : List A) → length xs ≡ m → drop (m + n) (xs ++ ys) ≡ drop n ys
  drop-append m n xs ys h = rw (← h) (drop-length n xs ys)

-- What Go documents of its ciphers and of its random source.
pub record IsCipher (p : Platform) : Type 0 where
  pub key_accepted : (key : Bytes) → length key ≡ 32 → p.new_cipher key ≡ none
  pub gcm_accepted : (key : Bytes) → length key ≡ 32 → p.new_gcm key ≡ none
  pub opens : (key nonce text : Bytes) → p.gcm_open key nonce (p.gcm_seal key nonce text) ≡ ok text
  pub overhead :
      (key nonce text : Bytes) → length (p.gcm_seal key nonce text) ≡ length text + gcm_overhead

module _ (p : Platform) (c : IsCipher p) where
  new_gcm_accepts : (key : Bytes) → length key ≡ 32 → new_gcm p key ≡ ok key
  unfolding new_gcm
  new_gcm_accepts key h = rw (c.key_accepted key h, c.gcm_accepted key h)

  -- A blob put together from its parts is taken apart into them.
  open_parts-join :
      (key kek_nonce data_nonce wrapped text : Bytes)
      → length kek_nonce ≡ nonce_size
      → length wrapped ≡ wrapped_dek_size
      → length data_nonce ≡ nonce_size
      → open_parts p key (1 ∷ (kek_nonce ++ (wrapped ++ (data_nonce ++ text)))) ≡ (
          wrap "secret: unwrap DEK (wrong KEK or tampered): " (p.gcm_open key kek_nonce wrapped)
          >>= λ dek. new_gcm p dek >>= λ key.
              wrap "secret: decrypt (tampered): " (p.gcm_open key data_nonce text))
  unfolding open_parts
  open_parts-join key kek_nonce data_nonce wrapped text hk hw hd = rw (
    take-append 12 kek_nonce (wrapped ++ (data_nonce ++ text)) hk,
    drop-append 12 0 kek_nonce (wrapped ++ (data_nonce ++ text)) hk,
    drop-append 12 48 kek_nonce (wrapped ++ (data_nonce ++ text)) hk,
    drop-append 12 60 kek_nonce (wrapped ++ (data_nonce ++ text)) hk,
    take-append 48 wrapped (data_nonce ++ text) hw,
    drop-append 48 0 wrapped (data_nonce ++ text) hw,
    drop-append 48 12 wrapped (data_nonce ++ text) hw,
    take-append 12 data_nonce text hd,
    drop-append 12 0 data_nonce text hd,
  )

  join_length :
      (kek_nonce wrapped data_nonce text : Bytes)
      → length kek_nonce ≡ nonce_size
      → length wrapped ≡ wrapped_dek_size
      → length data_nonce ≡ nonce_size
      → length (1 ∷ (kek_nonce ++ (wrapped ++ (data_nonce ++ text)))) ≡ header_len + length text
  join_length kn w dn text hk hw hd = omega (
    arith,
    length-append kn (w ++ (dn ++ text)),
    length-append w (dn ++ text),
    length-append dn text,
  )

  not_short : (n t : ℕ) → n ≡ header_len + t → ltb n header_len ≡ false
  not_short n t h = ground arith

  open_blob_long :
      (key rest : Bytes)
      → ltb (length (1 ∷ rest)) header_len ≡ false
      → open_blob p key (1 ∷ rest) ≡ open_parts p key (1 ∷ rest)
  unfolding open_blob
  open_blob_long key rest h = rw h

  module _ (key : Bytes) (n : ℕ) (dek data_nonce kek_nonce text : Bytes)
      (dek_read : p.random n dek_size ≡ ok dek)
      (data_nonce_read : p.random (n + 1) nonce_size ≡ ok data_nonce)
      (kek_nonce_read : p.random (n + 2) nonce_size ≡ ok kek_nonce)
      (dek_long : length dek ≡ dek_size) (data_nonce_long : length data_nonce ≡ nonce_size)
      (kek_nonce_long : length kek_nonce ≡ nonce_size) where
    sealed : Bytes
    sealed =
        1
        ∷ (kek_nonce
            ++ (p.gcm_seal key kek_nonce dek ++ (data_nonce ++ p.gcm_seal dek data_nonce text)))

    seal_lem : seal p key n text ≡ ok sealed
    unfolding seal sealed
    seal_lem = rw (dek_read, data_nonce_read, kek_nonce_read, new_gcm_accepts dek dek_long)

    wrapped_long : length (p.gcm_seal key kek_nonce dek) ≡ wrapped_dek_size
    wrapped_long = omega (arith, c.overhead key kek_nonce dek)

    open_blob_lem : open_blob p key sealed ≡ ok text
    unfolding sealed
    open_blob_lem =
        open_blob_long key _ (
          not_short _ _
            (join_length kek_nonce _ data_nonce _ kek_nonce_long wrapped_long data_nonce_long))
        ∙ open_parts-join key kek_nonce data_nonce _ _ kek_nonce_long wrapped_long data_nonce_long
        ∙ rw (c.opens key kek_nonce dek, new_gcm_accepts dek dek_long, c.opens dek data_nonce text)

    length-sealed : length sealed ≡ length text + 89
    unfolding sealed
    length-sealed =
        join_length kek_nonce _ data_nonce _ kek_nonce_long wrapped_long data_nonce_long
        ∙ omega (arith, c.overhead dek data_nonce text)

  is_kek_lem : (r : Result String Bytes) (k : Bytes) → is_kek p r ≡ true → r ≡ ok k → length k ≡ 32
  is_kek_lem (ok raw) k h e = ground arith
  is_kek_lem (err m) k h e = ground arith

  length-decode_kek : (v k : Bytes) → decode_kek p v ≡ ok k → length k ≡ 32
  unfolding decode_kek
  length-decode_kek v k e =
      let standard = p.base64_decode (p.trim_space v) in
      let raw = p.base64_decode_raw (p.trim_space v) in
      ground (arith, is_kek_lem standard k, is_kek_lem raw k)

  length-kek_from_file : (path : String) (k : Bytes) → kek_from_file p path ≡ ok k → length k ≡ 32
  unfolding kek_from_file check_perms
  length-kek_from_file path k e = ground (arith, length-decode_kek _ k)

  -- What holds of the results of three branches.
  by_branch :
      (b c : Bool) (x y : Result String Bytes) (message : String) (k : Bytes)
      → (x ≡ ok k → length k ≡ 32)
      → (y ≡ ok k → length k ≡ 32)
      → (if b then x else if c then y else err message) ≡ ok k
      → length k ≡ 32
  by_branch true c x y m k hx hy e = hx e
  by_branch false true x y m k hx hy e = hy e
  by_branch false false x y m k hx hy e = cc

  length-kek :
      (env_name file_name : String) (k : Bytes) → kek p env_name file_name ≡ ok k → length k ≡ 32
  unfolding kek
  length-kek env_name file_name k e =
      by_branch _ _ _ _ _ k (length-decode_kek _ k) (length-kek_from_file _ k) e

-- With ciphers that take keys of 32 bytes: whatever key the provider finds, in the variable or in
-- the file, a sealer is made of it.
pub kek-new_envelope_sealer :
    (p : Platform)
    → IsCipher p
    → (env_name file_name : String) (k : Bytes) → kek p env_name file_name ≡ ok k
    → new_envelope_sealer p k ≡ ok k
unfolding new_envelope_sealer
kek-new_envelope_sealer p c env_name file_name k e =
    let long = length-kek p c env_name file_name k e in
    rw (long, c.key_accepted k long, c.gcm_accepted k long)

-- With ciphers that open what they sealed, under the nonce and the key of the seal, and with a
-- random source that gives as many bytes as it is asked for: sealing a text succeeds, and under the
-- same master key the blob opens to the text. It is 89 bytes longer than the text.
pub open_blob-seal :
    (p : Platform)
    → IsCipher p
    → (key : Bytes) (n : ℕ) (dek data_nonce kek_nonce text : Bytes) → p.random n dek_size ≡ ok dek
    → p.random (n + 1) nonce_size ≡ ok data_nonce
    → p.random (n + 2) nonce_size ≡ ok kek_nonce
    → length dek ≡ dek_size
    → length data_nonce ≡ nonce_size
    → length kek_nonce ≡ nonce_size
    → (blob : Bytes) × (seal p key n text ≡ ok blob)
      × (open_blob p key blob ≡ ok text)
      × (length blob ≡ length text + 89)
open_blob-seal p c key n dek dn kn text hd hdn hkn ld ldn lkn = (
  sealed p c key n dek dn kn text hd hdn hkn ld ldn lkn,
  seal_lem p c key n dek dn kn text hd hdn hkn ld ldn lkn,
  open_blob_lem p c key n dek dn kn text hd hdn hkn ld ldn lkn,
  length-sealed p c key n dek dn kn text hd hdn hkn ld ldn lkn,
)
