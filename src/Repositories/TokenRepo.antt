-- ===== src/Repositories/TokenRepo.antt =====
-- app/repositories/auth/token.py, and the task `cleanup_expired_tokens` of app/queue/task.py
use fastapi_template.Prelude.{
  ℕ, String, Bool, true, false, ◌||◌, not, Option, ◌∷◌, ltb, if◌then◌else◌, ◌==◌, nat_eq, string_eq,
  option_eq,
}
use fastapi_template.Prelude.Lists.{any, filter, find}
use fastapi_template.Error.{ok, err, integrity_error}
use fastapi_template.Models.{RefreshToken}
use fastapi_template.World.{link_eq, Action, gets, modify_db, update_rows}

unfoldable pub create : String → ℕ → ℕ → Action RefreshToken
create token user_id expires_at w =
    let row : RefreshToken = record {
      token = token;
      user_id = user_id;
      expires_at = expires_at;
      is_revoked = false;
    } in
    if any (λ t. t.token == token) w.db.refresh_tokens
    then (err integrity_error, w)
    else (ok row, record w { db = record w.db { refresh_tokens = row ∷ w.db.refresh_tokens } })

unfoldable pub get_by_token : String → Action (Option RefreshToken)
get_by_token token = gets λ db. find (λ t. t.token == token) db.refresh_tokens

-- `DELETE … WHERE`
abbrev pub delete_where : (RefreshToken → Bool) → Action Unit
delete_where p =
    modify_db λ db. record db { refresh_tokens = filter (λ t. not (p t)) db.refresh_tokens }

unfoldable pub delete_by_token : String → Action Unit
delete_by_token token = delete_where (λ t. t.token == token)

unfoldable pub delete_all_for_user : ℕ → Action Unit
delete_all_for_user user_id = delete_where (λ t. t.user_id == user_id)

unfoldable pub revoke : RefreshToken → Action Unit
revoke row = modify_db λ db. record db {
  refresh_tokens =
      update_rows (λ t. t.token == row.token) (λ t. record t { is_revoked = true })
        db.refresh_tokens;
}

unfoldable pub delete_instance : RefreshToken → Action Unit
delete_instance row = delete_where (λ t. t.token == row.token)

-- `now` is `datetime.utcnow()`
unfoldable pub cleanup_expired_tokens : ℕ → Action Unit
cleanup_expired_tokens now = delete_where (λ t. ltb t.expires_at now || t.is_revoked)
