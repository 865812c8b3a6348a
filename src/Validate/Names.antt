-- ===== src/Validate/Names.antt =====
-- The regular expression of key names (internal/service/validate.go), beside a direct description
-- of the names.
use buktio.Base.{
  ℕ, zero, suc, ◌≡◌, refl, String, Bool, false, ◌&&◌, ◌||◌, some, List, [], ◌∷◌, arith, ap, ◌∙◌,
  leb, ◌==◌, length, all, if◌then◌else◌,
}
use buktio.Runtime.World.{ok, err}
use buktio.Validate.{
  Run, once, matches, codes, is_key_start, is_key_char, key_name_re, validate_key_name, may_repeat,
  pred_or_zero, less_one,
}

-- A letter or digit, then at most 63 characters of a key name.
abbrev pub is_key_name : List ℕ → Bool
is_key_name [] = false
is_key_name (c ∷ s) = is_key_start c && (all is_key_char s && leb (length s) 63)

-- One step of the matcher on a run that may repeat.
matches_step :
    (r : Run) (rs : List Run) (c : ℕ) (s : List ℕ)
    → matches (r ∷ rs) (c ∷ s) ≡ (
        r.class c
          && may_repeat r.most
          && matches (record r { least = pred_or_zero r.least; most = less_one r.most } ∷ rs) s
        || (r.least == 0 && matches rs (c ∷ s)))
unfolding matches
matches_step r rs c s = refl

matches_nil : (r : Run) (rs : List Run) → matches (r ∷ rs) [] ≡ (r.least == 0 && matches rs [])
unfolding matches
matches_nil r rs = refl

matches_none : (c : ℕ) (s : List ℕ) → matches [] (c ∷ s) ≡ false
unfolding matches
matches_none c s = refl

matches-run :
    (class : ℕ → Bool) (m : ℕ) (s : List ℕ)
    → matches (record { class = class; least = 0; most = some m } ∷ []) s
      ≡ (all class s && leb (length s) m)
unfolding matches
matches-run class m [] = ground arith
matches-run class zero (c ∷ s) = ground arith
matches-run class (suc m) (c ∷ s) = rw (matches-run class m s) (ground arith)

-- A run that may not repeat any more is passed over.
matches_spent :
    (class : ℕ → Bool) (rs : List Run) (s : List ℕ)
    → matches (record { class = class; least = 0; most = some 0 } ∷ rs) s ≡ matches rs s
matches_spent class rs [] = matches_nil (record { class = class; least = 0; most = some 0 }) rs
matches_spent class rs (c ∷ s) =
    matches_step (record { class = class; least = 0; most = some 0 }) rs c s
    ∙ ground (
      arith,
      matches (record { class = class; least = 0; most = some 0 } ∷ rs) s,
      matches rs (c ∷ s),
    )

matches-once :
    (class : ℕ → Bool) (rs : List Run) (c : ℕ) (s : List ℕ)
    → matches (once class ∷ rs) (c ∷ s) ≡ (class c && matches rs s)
matches-once class rs c s =
    matches_step (once class) rs c s ∙ rw (matches_spent class rs s) (ground arith)

key_names-matches : (s : List ℕ) → matches key_name_re s ≡ is_key_name s
unfolding key_name_re
key_names-matches [] =
    matches_nil (once is_key_start) (record { class = is_key_char; least = 0; most = some 63 } ∷ [])
key_names-matches (c ∷ s) =
    matches-once is_key_start (record { class = is_key_char; least = 0; most = some 63 } ∷ []) c s
    ∙ ap (λ b. is_key_start c && b) (matches-run is_key_char 63 s)

-- A key name is accepted exactly when it is a letter or digit followed by at most 63 letters,
-- digits, spaces, underscores, dots or dashes; every other text, the empty one included, gets the
-- error.
pub validate_key_name-is_key_name :
    (name : String)
    → validate_key_name name ≡ (
        if is_key_name (codes name)
        then ok tt
        else err "key name must be 1-64 characters (letters, digits, space, _.-)")
unfolding validate_key_name
validate_key_name-is_key_name name = rw (key_names-matches (codes name)) (ground arith)
