-- ===== src/Tests/Audit.antt =====
-- The theorems on the audit log, applied.
use buktio.Base.{
  ℕ, ◌≡◌, ◌≢◌, refl, ap, inl, Bool, String, true, false, none, [], ◌∷◌, arith, eq_iff, ◌+◌,
}
use buktio.Runtime.World.{AuditRow, World, ok}
use buktio.Audit.{
  is_recordable, audit_canonical, canonical_text, in_chain, is_unlinked, last_hash_from,
  verify_from, write_audit,
}
use buktio.Audit.Append.{hashed_row, write_audit-verifies}
use buktio.Audit.Tamper.{
  hashed_text, shifted, unshifted, shift_undetected, truncation_undetected, tamper_detected,
  deletion_detected,
}
use buktio.Audit.Chain.{AllBelow}
use buktio.Tests.{lib, services, world}

abbrev event : String → ℕ → World → AuditRow
event action n w =
    hashed_row services "acme" "ann" "user" action "user" "bob" none (record w { draws = n })

abbrev row1 : AuditRow
row1 = event "member.invite" 0 world

abbrev row2 : AuditRow
row2 = event "member.remove" 1 (record world { audit_rows = row1 ∷ [] })

abbrev row3 : AuditRow
row3 = event "org.suspend" 2 (record world { audit_rows = row1 ∷ row2 ∷ [] })

-- The second row with another action.
abbrev forged : AuditRow
forged = record row2 { action = "member.invite" }

abbrev has_text : String → Bool
has_text String.[] = false
has_text (String.◌∷◌ c s) = true

digest_some : (x : String) → lib.sha256 x ≢ ""
digest_some x e = ground (arith, ap has_text e)

digest_injective : (x y : String) → lib.sha256 x ≡ lib.sha256 y → x ≡ y
digest_injective x y e = ground arith

write_audit-verifies_example :
    let w = record world { audit_rows = row1 ∷ []; draws = 1 } in
    let p = write_audit services "acme" "ann" "user" "member.remove" "user" "bob" none w in
    (p.0 ≡ ok tt)
    × ((verify_from lib "acme" none 0 p.1.audit_rows).ok ≡ true)
    × ((verify_from lib "acme" none 0 p.1.audit_rows).checked
        ≡ (verify_from lib "acme" none 0 w.audit_rows).checked + 1)
    × AllBelow p.1.draws p.1.audit_rows
unfolding verify_from audit_canonical last_hash_from canonical_text in_chain is_unlinked
    is_recordable
write_audit-verifies_example =
    write_audit-verifies services "acme" "ann" "user" "member.remove" "user" "bob" none
      (record world { audit_rows = row1 ∷ []; draws = 1 }) digest_some refl refl (omega arith, tt)
      refl

tamper_detected_example : (verify_from lib "acme" none 0 (row1 ∷ forged ∷ [])).ok ≡ false
unfolding verify_from audit_canonical last_hash_from canonical_text in_chain is_unlinked
tamper_detected_example =
    tamper_detected lib "acme" (row1 ∷ []) [] row2 forged digest_injective refl refl (inl refl)
      (λ e.
        ground (arith, (eq_iff (hashed_text lib "acme" row2) (hashed_text lib "acme" forged)).1 e))
      refl

deletion_detected_example : (verify_from lib "acme" none 0 (row1 ∷ row3 ∷ [])).ok ≡ false
unfolding verify_from audit_canonical last_hash_from canonical_text in_chain is_unlinked
deletion_detected_example =
    deletion_detected lib "acme" [] [] row1 row2 row3 digest_injective refl refl refl
      (λ e.
        ground (arith, (eq_iff (hashed_text lib "acme" row1) (hashed_text lib "acme" row2)).1 e))
      refl

truncation_undetected_example : (verify_from lib "acme" none 0 (row2 ∷ [])).ok ≡ true
unfolding verify_from audit_canonical last_hash_from canonical_text in_chain is_unlinked
truncation_undetected_example =
    truncation_undetected lib "acme" (row1 ∷ []) (row2 ∷ []) (row3 ∷ []) refl

shift_undetected_example :
    (verify_from lib "acme" none 0 (row1 ∷ unshifted row2 "bucket" "a" "b" ∷ row3 ∷ [])).ok
    ≡ (verify_from lib "acme" none 0 (row1 ∷ shifted row2 "bucket" "a" "b" ∷ row3 ∷ [])).ok
shift_undetected_example = shift_undetected lib "acme" (row1 ∷ []) (row3 ∷ []) row2 "bucket" "a" "b"
