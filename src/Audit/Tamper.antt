-- ===== src/Audit/Tamper.antt =====
-- VerifyAuditChain (internal/repository/audit.go) on logs that were changed.
use buktio.Base.{
  ℕ, ◌+◌, ◌≡◌, ◌≢◌, ◌⊎◌, refl, inl, inr, String, true, false, any, Option, none, some, List, [],
  ◌∷◌, ◌++◌, ◌<>◌, arith, str_eq, eq_iff, Bool-cases,
}
use buktio.Runtime.World.{AuditRow}
use buktio.Runtime.Facade.{Lib}
use buktio.Audit.{canonical_text, audit_canonical, in_chain, is_unlinked, verify_from}
use buktio.Audit.Chain.{verify_prefix, verify_suffix}
use text.Mathlib.TextLemmas.{append_assoc}

-- The text whose digest is the hash of a row of the organisation.
abbrev pub hashed_text : Lib → String → AuditRow → String
hashed_text lib org r = r.prev_hash <> canonical_text lib (record r { org_id = org })

-- Exchanging the rows' digests for those of another row with the same text, number, previous hash
-- and hash changes no verdict.
verify_exchange :
    (lib : Lib) (org : String) (before after : List AuditRow) (r r' : AuditRow) (p : Option String)
    (n : ℕ)
    → in_chain org r ≡ in_chain org r'
    → r.prev_hash ≡ r'.prev_hash
    → r.row_hash ≡ r'.row_hash
    → hashed_text lib org r ≡ hashed_text lib org r'
    → (verify_from lib org p n (before ++ r ∷ after)).ok
      ≡ (verify_from lib org p n (before ++ r' ∷ after)).ok
unfolding verify_from audit_canonical
verify_exchange lib org [] after r r' p n c e f t = ground arith
verify_exchange lib org (x ∷ before) after r r' p n c e f t = ground (
  arith,
  verify_exchange lib org before after r r' p n c e f t,
  verify_exchange lib org before after r r' (some x.row_hash) (n + 1) c e f t,
)

-- A row with the end of its target type moved to the front of its target id.
abbrev pub shifted : AuditRow → String → String → String → AuditRow
shifted r a b c = record r { target_type = a; target_id = b <> "|" <> c }

abbrev pub unshifted : AuditRow → String → String → String → AuditRow
unshifted r a b c = record r { target_type = a <> "|" <> b; target_id = c }

hashed_text-shifted :
    (lib : Lib) (org : String) (r : AuditRow) (a b c : String)
    → hashed_text lib org (unshifted r a b c) ≡ hashed_text lib org (shifted r a b c)
unfolding canonical_text
hashed_text-shifted lib org r a b c = simp append_assoc

-- A row whose target type holds a "|" may have the text behind it moved to its target id: the
-- verification of the log has the same verdict, though the row says something else.
pub shift_undetected :
    (lib : Lib) (org : String) (before after : List AuditRow) (r : AuditRow) (a b c : String)
    → (verify_from lib org none 0 (before ++ unshifted r a b c ∷ after)).ok
      ≡ (verify_from lib org none 0 (before ++ shifted r a b c ∷ after)).ok
unfolding in_chain
shift_undetected lib org before after r a b c =
    verify_exchange lib org before after (unshifted r a b c) (shifted r a b c) none 0 refl refl refl
      (hashed_text-shifted lib org r a b c)

-- Where the log verifies, it verifies without its oldest rows and without its newest ones.
pub truncation_undetected :
    (lib : Lib) (org : String) (oldest kept newest : List AuditRow)
    → (verify_from lib org none 0 (oldest ++ (kept ++ newest))).ok ≡ true
    → (verify_from lib org none 0 kept).ok ≡ true
truncation_undetected lib org oldest kept newest v =
    let inner = verify_suffix lib org oldest (kept ++ newest) none 0 v in
    elim (Bool-cases (verify_from lib org none 0 kept).ok) [
      | inl good ↦ good
      | inr bad ↦ cc (verify_prefix lib org kept none 0 newest bad)
    ]

module _ (lib : Lib) (org : String)
    (injective : (x y : String) → lib.sha256 x ≡ lib.sha256 y → x ≡ y) where
  tamper_hash :
      (before after : List AuditRow) (r r' : AuditRow) (p : Option String) (n : ℕ)
      → in_chain org r ≡ true
      → in_chain org r' ≡ true
      → hashed_text lib org r ≢ hashed_text lib org r'
      → r'.row_hash ≡ r.row_hash
      → (verify_from lib org p n (before ++ r ∷ after)).ok ≡ true
      → (verify_from lib org p n (before ++ r' ∷ after)).ok ≡ false
  unfolding verify_from audit_canonical
  tamper_hash [] after r r' p n c c' d e v = ground (
    arith,
    eq_iff (lib.sha256 (hashed_text lib org r)) r.row_hash,
    eq_iff (lib.sha256 (hashed_text lib org r')) r'.row_hash,
    injective (hashed_text lib org r) (hashed_text lib org r'),
  )
  tamper_hash (x ∷ before) after r r' p n c c' d e v = ground (
    arith,
    tamper_hash before after r r' p n c c' d e,
    tamper_hash before after r r' (some x.row_hash) (n + 1) c c' d e,
  )

  -- The next row of the chain names the hash of the row before it, and no other.
  relinked :
      (after : List AuditRow) (h h' : String) (n k : ℕ)
      → any (in_chain org) after ≡ true
      → h' ≢ h
      → (verify_from lib org (some h) n after).ok ≡ true
      → (verify_from lib org (some h') k after).ok ≡ false
  unfolding verify_from is_unlinked
  relinked [] h h' n k c d v = cc
  relinked (a ∷ after) h h' n k c d v =
      ground (arith, eq_iff a.prev_hash h, eq_iff a.prev_hash h', relinked after h h' n k)

  tamper_link :
      (before after : List AuditRow) (r r' : AuditRow) (p : Option String) (n : ℕ)
      → in_chain org r ≡ true
      → in_chain org r' ≡ true
      → any (in_chain org) after ≡ true
      → r'.row_hash ≢ r.row_hash
      → (verify_from lib org p n (before ++ r ∷ after)).ok ≡ true
      → (verify_from lib org p n (before ++ r' ∷ after)).ok ≡ false
  unfolding verify_from is_unlinked
  tamper_link [] after r r' p n c c' ca d v =
      ground (arith, relinked after r.row_hash r'.row_hash (n + 1) (n + 1) ca d)
  tamper_link (x ∷ before) after r r' p n c c' ca d v = ground (
    arith,
    tamper_link before after r r' p n c c' ca d,
    tamper_link before after r r' (some x.row_hash) (n + 1) c c' ca d,
  )

  deleted_link :
      (before after : List AuditRow) (b r a : AuditRow) (p : Option String) (n : ℕ)
      → in_chain org b ≡ true
      → in_chain org r ≡ true
      → in_chain org a ≡ true
      → hashed_text lib org b ≢ hashed_text lib org r
      → (verify_from lib org p n (before ++ b ∷ r ∷ a ∷ after)).ok ≡ true
      → (verify_from lib org p n (before ++ b ∷ a ∷ after)).ok ≡ false
  unfolding verify_from is_unlinked audit_canonical
  deleted_link [] after b r a p n cb cr ca d v = ground (
    arith,
    eq_iff a.prev_hash r.row_hash,
    eq_iff a.prev_hash b.row_hash,
    eq_iff (lib.sha256 (hashed_text lib org r)) r.row_hash,
    eq_iff (lib.sha256 (hashed_text lib org b)) b.row_hash,
    injective (hashed_text lib org b) (hashed_text lib org r),
  )
  deleted_link (x ∷ before) after b r a p n cb cr ca d v = ground (
    arith,
    deleted_link before after b r a p n cb cr ca d,
    deleted_link before after b r a (some x.row_hash) (n + 1) cb cr ca d,
  )

-- With a digest without collisions. In a log that verifies, a row of the chain is replaced by one
-- whose hashed text differs: if the row keeps its hash, or some chained row comes after it, the new
-- log does not verify.
pub tamper_detected :
    (lib : Lib) (org : String) (before after : List AuditRow) (r r' : AuditRow)
    → ((x y : String) → lib.sha256 x ≡ lib.sha256 y → x ≡ y)
    → in_chain org r ≡ true
    → in_chain org r' ≡ true
    → (r'.row_hash ≡ r.row_hash) ⊎ (any (in_chain org) after ≡ true)
    → hashed_text lib org r ≢ hashed_text lib org r'
    → (verify_from lib org none 0 (before ++ r ∷ after)).ok ≡ true
    → (verify_from lib org none 0 (before ++ r' ∷ after)).ok ≡ false
tamper_detected lib org before after r r' injective c c' (inl same) d v =
    tamper_hash lib org injective before after r r' none 0 c c' d same v
tamper_detected lib org before after r r' injective c c' (inr next) d v =
    elim (Bool-cases (str_eq r'.row_hash r.row_hash)) [
      | inl same ↦
          tamper_hash lib org injective before after r r' none 0 c c' d
            ((eq_iff r'.row_hash r.row_hash).0 same) v
      | inr other ↦
          tamper_link lib org injective before after r r' none 0 c c' next
            (λ e. cc (other, (eq_iff r'.row_hash r.row_hash).1 e)) v
    ]

-- With a digest without collisions, removing a row between two chained rows from a log that
-- verifies leaves a log that does not, if its hashed text differs from that of the row before.
pub deletion_detected :
    (lib : Lib) (org : String) (before after : List AuditRow) (b r a : AuditRow)
    → ((x y : String) → lib.sha256 x ≡ lib.sha256 y → x ≡ y)
    → in_chain org b ≡ true
    → in_chain org r ≡ true
    → in_chain org a ≡ true
    → hashed_text lib org b ≢ hashed_text lib org r
    → (verify_from lib org none 0 (before ++ b ∷ r ∷ a ∷ after)).ok ≡ true
    → (verify_from lib org none 0 (before ++ b ∷ a ∷ after)).ok ≡ false
deletion_detected lib org before after b r a injective cb cr ca d v =
    deleted_link lib org injective before after b r a none 0 cb cr ca d v
