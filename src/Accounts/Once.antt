-- ===== src/Accounts/Once.antt =====
-- A verification token is good for one use (VerifyEmail of internal/service/signup.go).
use buktio.Base.{
  ℕ, ◌≤◌, ◌≡◌, refl, ◌∙◌, String, Option, none, some, List, [], ◌∷◌, arith, find, update_where,
  Option-cases, inl, inr,
}
use buktio.Runtime.Rows.{Db, EmailVerification, User}
use buktio.Runtime.World.{
  World, Call, RepoErr, Result, ok, err, ok?, Exec, ◌>>=◌, ◌>>◌, Metadata, text, map_err, raise,
  draw, put_db, pure,
}
use buktio.Runtime.Errors.{Error, actions, or_raise, mapped}
use buktio.Runtime.Facade.{Services, Context, hash_token}
use buktio.Runtime.Holds.{
  Holds, holds_rules, Holds-pure, Holds-raise, Holds-statement, Holds-wrapped,
}
use buktio.Audit.{transaction, audit}
use buktio.Guard.Lookups.{Holds-row}
use buktio.Members.Store.{live_user, create_session}
use buktio.Audit.Frame.{audit-Holds}
use buktio.Members.{AuthResult, new_session, or_internal}
use buktio.Accounts.Store.{
  get_user_by_id, open_verification, take_verification, mark_verified, consume_email_verification,
}
use buktio.Accounts.{invalid_token, verify_email}

abbrev consumed : ℕ → EmailVerification → EmailVerification
consumed now v = record v { consumed_at = some now }

-- What is consumed at one time is open at no later time.
spent :
    (now later : ℕ) (hash : String) (vs : List EmailVerification)
    → now ≤ later
    → find
        (open_verification later hash)
        (update_where (open_verification now hash) (consumed now) vs)
      ≡ none
spent now later hash [] h = refl
spent now later hash (v ∷ vs) h = elim (Option-cases v.consumed_at) [
  | inl new ↦ ground (arith, new, spent now later hash vs h)
  | inr (t, old) ↦ ground (arith, old, spent now later hash vs h)
]

-- A consumption that succeeds marks the open row.
consume_ok :
    (hash user : String) (faults : List (Option String)) (w : World)
    → w.faults ≡ faults
    → (consume_email_verification hash w).0 ≡ ok user
    → (consume_email_verification hash w).1.db.verifications
      ≡ update_where (open_verification w.now hash) (consumed w.now) w.db.verifications
unfolding consume_email_verification take_verification mark_verified transaction actions
consume_ok hash user [] w f h = ground (arith, f, h)
consume_ok hash user (none ∷ []) w f h = ground (arith, f, h)
consume_ok hash user (none ∷ none ∷ []) w f h = ground (arith, f, h)
consume_ok hash user (none ∷ none ∷ none ∷ []) w f h = ground (arith, f, h)
consume_ok hash user (none ∷ none ∷ none ∷ none ∷ rest) w f h = ground (arith, f, h)
consume_ok hash user (none ∷ none ∷ none ∷ some msg ∷ rest) w f h = ground (arith, f, h)
consume_ok hash user (none ∷ none ∷ some msg ∷ rest) w f h = ground (arith, f, h)
consume_ok hash user (none ∷ some msg ∷ rest) w f h = ground (arith, f, h)
consume_ok hash user (some msg ∷ rest) w f h = ground (arith, f, h)

-- Without an open row it fails, whatever else does.
consume_none :
    (hash : String) (faults : List (Option String)) (w : World)
    → w.faults ≡ faults
    → find (open_verification w.now hash) w.db.verifications ≡ none
    → ok? (consume_email_verification hash w).0 ≡ none
unfolding consume_email_verification take_verification mark_verified transaction actions
consume_none hash [] w f h = ground (arith, f, h)
consume_none hash (none ∷ []) w f h = ground (arith, f, h)
consume_none hash (none ∷ none ∷ rest) w f h = ground (arith, f, h)
consume_none hash (none ∷ some msg ∷ rest) w f h = ground (arith, f, h)
consume_none hash (some msg ∷ rest) w f h = ground (arith, f, h)

module _ (s : Services) (ctx : Context) (V : List EmailVerification) where
  Keeps : List Call → Db → Type 0
  Keeps trail db = db.verifications ≡ V

  create_session-Holds :
      (user hash : String) (expires : ℕ) → Holds Keeps (create_session s user hash expires)
  unfolding create_session raise ◌>>=◌ draw put_db pure Keeps
  create_session-Holds user hash expires =
      Holds-wrapped _ _ (Holds-statement _ (record { at = λ w h. ground (arith, h) }))

  or_internal-Holds : {A : Type 0} (r : Result String A) → Holds Keeps (or_internal r)
  or_internal-Holds (ok a) = Holds-pure a
  or_internal-Holds (err msg) = Holds-raise _

  new_session-Holds : (u : User) → Holds Keeps (new_session s u)
  unfolding new_session
  new_session-Holds u = search (holds_rules, create_session-Holds, or_internal-Holds) depth 9

  get_user_by_id-Holds : (id : String) → Holds Keeps (get_user_by_id id)
  unfolding get_user_by_id
  get_user_by_id-Holds id = search (holds_rules, Holds-row (λ w. find (live_user id) w.db.users))

  audited :
      (action target id : String) (metadata : Option Metadata)
      → Holds Keeps (audit s {E = Error} ctx action target id metadata)
  unfolding Keeps
  audited action target id metadata = audit-Holds s ctx action target id metadata (λ ev t d h. h)

  -- What VerifyEmail does with the user of the token.
  abbrev signed_in : String → Exec Error AuthResult
  signed_in user = do
    u ← mapped (get_user_by_id user)
    audit s ctx "auth.verify_email" "user" user (some (("email", text u.email) ∷ []))
    new_session s u

  signed_in-Holds : (user : String) → Holds Keeps (signed_in user)
  signed_in-Holds user =
      search (holds_rules, get_user_by_id-Holds, audited, new_session-Holds) depth 9

module _ (s : Services) (ctx : Context) where
  -- From a success of VerifyEmail back to the consumption.
  from_success :
      (r : Result RepoErr String) (v : World) (a : AuthResult)
      → let done =
          ((λ (_ : World). (map_err (λ _. invalid_token) r, v)) >>= signed_in s ctx []) v in
        done.0 ≡ ok a
        → (user : String) × (r ≡ ok user) × (done.1.db.verifications ≡ v.db.verifications)
  unfolding ◌>>=◌ Keeps
  from_success (ok user) v a h =
      (user, refl, (signed_in-Holds s ctx v.db.verifications user).at v refl)
  from_success (err e) v a h = absurd (ground (arith, h))

  refused :
      (r : Result RepoErr String) (v : World)
      → ok? r ≡ none
      → (((λ (_ : World). (map_err (λ _. invalid_token) r, v)) >>= signed_in s ctx []) v).0
        ≡ err invalid_token
  unfolding ◌>>=◌
  refused (ok user) v h = absurd (ground (arith, h))
  refused (err e) v h = refl

  -- Once a verification token has brought a session, it brings none any more: at that time or
  -- later, with the verifications as they were left, whatever statement fails, the same token is
  -- refused as invalid.
  pub verify_email_once :
      (token : String) (w v : World) (a : AuthResult)
      → (verify_email s ctx token w).0 ≡ ok a
      → v.db.verifications ≡ (verify_email s ctx token w).1.db.verifications
      → w.now ≤ v.now
      → (verify_email s ctx token v).0 ≡ err invalid_token
  unfolding verify_email or_raise ◌>>=◌
  verify_email_once token w v a h same later =
      let hash = hash_token s token in
      let done = consume_email_verification hash w in
      let (user, success, kept) = from_success done.0 done.1 a h in
      let marked = consume_ok hash user w.faults w refl success in
      let rows = same ∙ kept ∙ marked in
      let closed : find (open_verification v.now hash) v.db.verifications ≡ none =
        rw rows (spent w.now v.now hash w.db.verifications later) in
      refused (consume_email_verification hash v).0 (consume_email_verification hash v).1
        (consume_none hash v.faults v refl closed)
