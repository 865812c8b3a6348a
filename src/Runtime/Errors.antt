-- ===== src/Runtime/Errors.antt =====
-- internal/service/errors.go
use buktio.Base.{ℕ, String}
use buktio.Runtime.World.{
  RepoErr, not_found, failed, Exec, map_err, ◌>>=◌, pure, raise, gets, attempt, or_zero, ignore,
  statement, wrapped, call_out, draw, put_db,
}

pub record Error : Type 0 where
  pub code : String
  pub message : String
  pub http : ℕ

abbrev pub validation_err : String → Error
validation_err msg = record { code = "validation_failed"; message = msg; http = 400 }

abbrev pub not_found_err : Error
not_found_err = record { code = "not_found"; message = "resource not found"; http = 404 }

abbrev pub conflict_err : String → Error
conflict_err msg = record { code = "conflict"; message = msg; http = 409 }

abbrev pub storage_unavailable_err : String → Error
storage_unavailable_err msg = record { code = "garage_unavailable"; message = msg; http = 502 }

abbrev pub unauthorized_err : Error
unauthorized_err = record { code = "unauthenticated"; message = "invalid credentials"; http = 401 }

abbrev pub forbidden_err : String → Error
forbidden_err msg = record { code = "forbidden"; message = msg; http = 403 }

abbrev pub unsupported_err : Error
unsupported_err = record {
  code = "not_supported_on_backend";
  message = "this operation is not supported on the bucket's storage backend";
  http = 422;
}

abbrev pub map_repo_err : RepoErr → Error
map_repo_err not_found = not_found_err
map_repo_err (failed msg) = record { code = "internal_error"; message = msg; http = 500 }

-- `if err != nil { return mapRepoErr(err) }`
unfoldable pub mapped : {A : Type 0} → Exec RepoErr A → Exec Error A
mapped m w = let p = m w in (map_err map_repo_err p.0, p.1)

-- `if err != nil { return e }` where `e` does not depend on `err`
unfoldable pub or_raise : {A : Type 0} → Error → Exec RepoErr A → Exec Error A
or_raise e m w = let p = m w in (map_err (λ _. e) p.0, p.1)

-- To unfold this is to unfold every way to build an action.
unfoldable pub actions : Unit {0}
unfolding ◌>>=◌ pure raise gets attempt or_zero ignore statement wrapped call_out draw put_db mapped
    or_raise
actions = tt
