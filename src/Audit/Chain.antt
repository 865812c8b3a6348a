-- ===== src/Audit/Chain.antt =====
-- The loop of VerifyAuditChain (internal/repository/audit.go) on parts of a chain.
use buktio.Base.{
  ℕ, suc, ◌+◌, ◌≤◌, ◌≡◌, refl, ◌⊎◌, inr, String, true, false, Option, none, some, List, [], ◌∷◌,
  ◌++◌, arith, eq_iff, All,
}
use buktio.Runtime.World.{AuditRow}
use buktio.Runtime.Facade.{Lib}
use buktio.Audit.{audit_canonical, in_chain, is_unlinked, last_hash_from, set_row_hash, verify_from}

-- Rows whose numbers are below `n`.
abbrev pub AllBelow : ℕ → List AuditRow → Type 0
AllBelow n rows = All (λ r. r.id ≤ n) rows

pub set_row_hash_new :
    (n : ℕ) (h : String) (rows : List AuditRow) (r : AuditRow)
    → AllBelow n rows
    → r.id ≡ suc n
    → set_row_hash (suc n) h (rows ++ r ∷ []) ≡ rows ++ record r { row_hash = h } ∷ []
unfolding set_row_hash
set_row_hash_new n h [] r b e = ground arith
set_row_hash_new n h (x ∷ rows) r b e = ground (arith, set_row_hash_new n h rows r b.1 e)

-- The hash that the loop of the verification expects next, or none at the first row.
abbrev pub Expects : Option String → String → Type 0
Expects p h = (p ≡ none) ⊎ (p ≡ some h)

module _ (lib : Lib) (org : String) where
  pub verify_append :
      (rows : List AuditRow) (p : Option String) (h : String) (n : ℕ) (r : AuditRow)
      → Expects p h
      → (verify_from lib org p n rows).ok ≡ true
      → in_chain org r ≡ true
      → r.prev_hash ≡ last_hash_from org h rows
      → r.row_hash ≡ audit_canonical lib r.prev_hash (record r { org_id = org })
      → ((verify_from lib org p n (rows ++ r ∷ [])).ok ≡ true)
        × ((verify_from lib org p n (rows ++ r ∷ [])).checked
            ≡ (verify_from lib org p n rows).checked + 1)
  unfolding verify_from last_hash_from is_unlinked
  verify_append [] p h n r x v c l e = ground (
    arith,
    eq_iff r.prev_hash h,
    eq_iff (audit_canonical lib r.prev_hash (record r { org_id = org })) r.row_hash,
  )
  verify_append (s ∷ rows) p h n r x v c l e = ground (
    arith,
    verify_append rows p h n r x,
    verify_append rows (some s.row_hash) s.row_hash (n + 1) r (inr refl),
  )

  -- What a verification that went well up to `r` does next: it depends on `r` and what follows.
  pub verify_prefix :
      (rows : List AuditRow) (p : Option String) (n : ℕ) (rest : List AuditRow)
      → (verify_from lib org p n rows).ok ≡ false
      → (verify_from lib org p n (rows ++ rest)).ok ≡ false
  unfolding verify_from
  verify_prefix [] p n rest h = cc
  verify_prefix (s ∷ rows) p n rest h =
      ground (arith, verify_prefix rows p n rest, verify_prefix rows (some s.row_hash) (n + 1) rest)

  -- The loop's verdict does not depend on the count.
  pub verify_count :
      (rows : List AuditRow) (p : Option String) (n k : ℕ)
      → (verify_from lib org p n rows).ok ≡ (verify_from lib org p k rows).ok
  unfolding verify_from
  verify_count [] p n k = refl
  verify_count (s ∷ rows) p n k =
      ground (arith, verify_count rows p n k, verify_count rows (some s.row_hash) (n + 1) (k + 1))

  -- Without an expected hash the loop asks for less.
  pub verify_forget :
      (rows : List AuditRow) (h : String) (n : ℕ)
      → (verify_from lib org (some h) n rows).ok ≡ true
      → (verify_from lib org none n rows).ok ≡ true
  unfolding verify_from is_unlinked
  verify_forget [] h n v = refl
  verify_forget (s ∷ rows) h n v = ground (arith, verify_forget rows h n)

  -- Removing rows at the front of a chain that verifies leaves a chain that verifies.
  pub verify_suffix :
      (rows rest : List AuditRow) (p : Option String) (n : ℕ)
      → (verify_from lib org p n (rows ++ rest)).ok ≡ true
      → (verify_from lib org none n rest).ok ≡ true
  unfolding verify_from is_unlinked
  verify_suffix [] rest none n v = v
  verify_suffix [] rest (some h) n v = verify_forget rest h n v
  verify_suffix (s ∷ rows) rest p n v = ground (
    arith,
    verify_suffix rows rest p n,
    verify_suffix rows rest (some s.row_hash) (n + 1),
    verify_count rest none (n + 1) n,
  )
