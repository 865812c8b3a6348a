-- ===== src/Tests/Secrets.antt =====
-- The theorems on secrets, applied to a cipher that puts sixteen zeros in front of a text.
use buktio.Base.{ℕ, zero, suc, ◌+◌, ◌≡◌, refl, none, [], ◌∷◌, ◌++◌, arith, length, drop}
use buktio.Runtime.World.{ok, err}
use buktio.Secret.{Bytes, Platform, seal, open_blob, kek, new_envelope_sealer}
use buktio.Secret.RoundTrip.{IsCipher, open_blob-seal, kek-new_envelope_sealer}

abbrev zeros : ℕ → Bytes
zeros zero = []
zeros (suc n) = 0 ∷ zeros n

abbrev platform : Platform
platform = record {
  new_cipher = λ key. none;
  new_gcm = λ key. none;
  gcm_seal = λ key nonce text. zeros 16 ++ text;
  gcm_open = λ key nonce text. ok (drop 16 text);
  random = λ n size. ok (zeros size);
  base64_decode = λ text. err "illegal base64 data";
  base64_decode_raw = λ text. err "illegal base64 data";
  base64_encode = λ bytes. "";
  base64_encode_url = λ bytes. "";
  hex_encode = λ bytes. "";
  trim_space = λ text. text;
  itoa = λ n. "1";
  octal = λ n. "0600";
  getenv = λ name. zeros 32;
  path_of = λ text. "/run/secrets/key";
  read_file = λ path. err "no such file";
  stat_perm = λ path. ok 384;
}

abbrev secret_text : Bytes
secret_text = 7 ∷ 8 ∷ []

platform-IsCipher : IsCipher platform
platform-IsCipher = record {
  key_accepted = λ key h. refl;
  gcm_accepted = λ key h. refl;
  opens = λ key nonce text. refl;
  overhead = λ key nonce text. omega arith;
}

open_blob-seal_example :
    (blob : Bytes) × (seal platform (zeros 32) 0 secret_text ≡ ok blob)
    × (open_blob platform (zeros 32) blob ≡ ok secret_text)
    × (length blob ≡ length secret_text + 89)
open_blob-seal_example =
    open_blob-seal platform platform-IsCipher (zeros 32) 0 (zeros 32) (zeros 12) (zeros 12)
      secret_text refl refl refl refl refl refl

kek-new_envelope_sealer_example : new_envelope_sealer platform (zeros 32) ≡ ok (zeros 32)
unfolding kek
kek-new_envelope_sealer_example =
    kek-new_envelope_sealer platform platform-IsCipher "" "" (zeros 32) refl
