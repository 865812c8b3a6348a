-- ===== src/Accounts/Tokens.antt =====
-- API tokens (internal/service/api_tokens.go, internal/repository/api_tokens.go). The column of
-- scopes, which the code never sets, is left out.
use package.text.Mathlib.Text.{starts_with}
use buktio.Base.{
  ℕ, String, ◌<>◌, Bool, true, false, not, ◌&&◌, ◌||◌, Option, none, some, List, [], ◌∷◌, ltb,
  str_eq, select, any, update_where, if◌then◌else◌,
}
use buktio.Runtime.Rows.{User, ApiToken}
use buktio.Runtime.World.{
  text, RepoErr, not_found, violation, Exec, ◌>>=◌, ◌>>◌, pure, raise, gets, ignore, statement,
  wrapped, put_db, draw,
}
use buktio.Runtime.Errors.{Error, validation_err, unauthorized_err, mapped}
use buktio.Runtime.Facade.{Services, Context, hash_token, current_user_id, tenant, target_of}
use buktio.Audit.{audit}
use buktio.Guard.{authorize, row_or_not_found}
use buktio.Members.{new_token}
use buktio.Accounts.Store.{user_of}

abbrev pub api_token_prefix : String
api_token_prefix = "bk_pat_"

-- Store.CreateAPIToken
unfoldable pub insert_api_token :
    Services → String → String → String → String → String → Option ℕ → Exec RepoErr String
insert_api_token s user org name hash last_four expires = wrapped "repository: create api token: " (
    statement (λ w.
      (if not (any (λ (u : User). str_eq u.id user) w.db.users)
            || any (λ (t : ApiToken). str_eq t.token_hash hash) w.db.api_tokens
          then raise violation
          else do
            n ← draw
            let id = s.lib.new_uuid n
            put_db (record w.db {
              api_tokens =
                  record {
                    id = id;
                    user_id = user;
                    org_id = org;
                    name = name;
                    token_hash = hash;
                    secret_last_four = last_four;
                    expires_at = expires;
                    last_used_at = none;
                    created_at = w.now;
                    deleted = false;
                  }
                  ∷ w.db.api_tokens;
            })
            pure id)
        w))

-- `deleted_at IS NULL AND (expires_at IS NULL OR expires_at > now())`
abbrev pub valid_token : ℕ → String → ApiToken → Bool
valid_token now hash t =
    str_eq t.token_hash hash
    && not t.deleted
    && elim t.expires_at [ none ↦ true | some e ↦ ltb now e ]

unfoldable pub touch_api_token : String → Exec RepoErr (Unit {0})
touch_api_token hash = statement (λ w.
    put_db
      (record w.db {
        api_tokens =
            update_where (λ (t : ApiToken). str_eq t.token_hash hash)
              (λ t. record t { last_used_at = some w.now }) w.db.api_tokens;
      })
      w)

unfoldable pub get_user_by_api_token : String → Exec RepoErr User
unfolding touch_api_token
get_user_by_api_token hash = do
  u ← wrapped "repository: get api token: " (
      statement (λ w.
        row_or_not_found
          (user_of (valid_token w.now hash) (λ t. t.user_id) w.db.api_tokens w.db.users) w))
  ignore (touch_api_token hash)
  pure u

-- Store.ListAPITokens
unfoldable pub api_token_rows : String → Exec RepoErr (List ApiToken)
api_token_rows user = wrapped "repository: list api tokens: " (
    statement (
      gets
        (λ w. select (λ (t : ApiToken). str_eq t.user_id user && not t.deleted) w.db.api_tokens)))

unfoldable pub soft_delete_api_token : String → String → Exec RepoErr (Unit {0})
soft_delete_api_token id user = statement (λ w.
    put_db
      (record w.db {
        api_tokens =
            update_where
              (λ (t : ApiToken). str_eq t.id id && str_eq t.user_id user && not t.deleted)
              (λ t. record t { deleted = true }) w.db.api_tokens;
      })
      w)

pub record ApiTokenDto : Type 0 where
  pub id : String
  pub name : String
  pub secret_last_four : String
  pub expires_at : Option ℕ
  pub last_used_at : Option ℕ
  pub created_at : ℕ

abbrev pub token_dtos : List ApiToken → List ApiTokenDto
token_dtos [] = []
token_dtos (t ∷ ts) =
    record {
      id = t.id;
      name = t.name;
      secret_last_four = t.secret_last_four;
      expires_at = t.expires_at;
      last_used_at = t.last_used_at;
      created_at = t.created_at;
    }
    ∷ token_dtos ts

module _ (s : Services) (ctx : Context) where
  abbrev pub signed_in : Exec Error String
  signed_in =
      let user = current_user_id ctx in if str_eq user "" then raise unauthorized_err else pure user

  -- The new token beside its DTO.
  unfoldable pub create_api_token : String → Option ℕ → Exec Error (String × ApiTokenDto)
  create_api_token name expires = do
    user ← signed_in
    authorize s ctx "create" (target_of "api_token" "")
    if str_eq (s.lib.trim_space name) ""
        then raise (validation_err "token name is required")
        else pure tt
    raw ← new_token s
    let token = api_token_prefix <> raw
    let last_four = s.lib.last_four token
    id ←
        mapped (
          insert_api_token s user (tenant s ctx).org_id name (hash_token s token) last_four expires)
    audit s ctx "api_token.create" "api_token" id (some (("name", text name) ∷ []))
    now ← gets (λ w. w.now)
    pure (
      token,
      record {
        id = id;
        name = name;
        secret_last_four = last_four;
        expires_at = expires;
        last_used_at = none;
        created_at = now;
      },
    )

  unfoldable pub list_api_tokens : Exec Error (List ApiTokenDto)
  list_api_tokens = do user ← signed_in; rows ← mapped (api_token_rows user); pure (token_dtos rows)

  unfoldable pub revoke_api_token : String → Exec Error (Unit {0})
  revoke_api_token id = do
    user ← signed_in
    authorize s ctx "delete" (target_of "api_token" id)
    mapped (soft_delete_api_token id user)
    audit s ctx "api_token.revoke" "api_token" id none

unfoldable pub user_by_api_token : Services → String → Exec RepoErr User
unfolding get_user_by_api_token
user_by_api_token s token =
    if not (starts_with token api_token_prefix)
    then raise not_found
    else get_user_by_api_token (hash_token s token)
