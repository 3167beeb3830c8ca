-- ===== src/Auth/Account.antt =====
-- app/services/auth/actions/register.py and reset_password.py, app/services/verify. Mails are not sent
-- here: an action returns the address that a background task writes to.
use fastapi_template.Prelude.{
  ℕ, String, not, Option, none, some, if◌then◌else◌, ◌==◌, nat_eq, string_eq, option_eq,
}
use fastapi_template.Error.{
  Result, ok, err, by_name, unknown, username_exist, user_mail_exist, user_not_found,
  http_exception,
}
use fastapi_template.Models.{User}
use fastapi_template.World.{link_eq, Action, pure, lift, or_raise, ◌>>=◌, ◌>>◌, raise_if}
use fastapi_template.Auth.Token.{Libraries}
use fastapi_template.Repositories.UserRepo
use fastapi_template.Repositories.UserRepo.{new_user}

pub record UserRegister : Type 0 where
  pub username : String
  pub email : String
  pub password : String

-- What a link carries: None where `loads` raises, else the value under "email".
abbrev pub LinkData : Type 0
LinkData = Option (Option String)

-- `decode_url_safe_token`, `decode_password_reset_token`
unfoldable pub decode_link : LinkData → Result (Option String)
decode_link none = err (http_exception 400)
decode_link (some email) = ok email

module _ (lib : Libraries) where
  unfoldable pub register : ℕ → UserRegister → Action (User × String)
  register new_id form = do
    username_taken ← UserRepo.exists_by_username form.username
    raise_if username_taken (username_exist (by_name form.username))
    email_taken ← UserRepo.exists_by_email form.email
    raise_if email_taken (user_mail_exist (by_name form.email))
    created ←
        UserRepo.create new_id (new_user form.username form.email (some (lib.hashpw form.password)))
    pure (created, form.email)

  unfoldable pub set_new_password : String → String → String → Action ℕ
  set_new_password email new_password confirm_password = do
    found ← UserRepo.get_by_email email
    u ← or_raise found (user_not_found unknown)
    raise_if (not (new_password == confirm_password)) (http_exception 404)
    UserRepo.set_password u (lib.hashpw new_password)
    pure 200

  -- `PasswordReset.verify_password`, with the status of its response. An empty address is false.
  unfoldable pub reset_password_verify : LinkData → String → String → Action ℕ
  unfolding set_new_password decode_link
  reset_password_verify link new_password confirm_password = do
    email ← lift (decode_link link)
    elim email [
      | none ↦ pure 500
      | some address ↦
          if address == "" then pure 500 else set_new_password address new_password confirm_password
    ]

unfoldable pub reset_password : String → Action String
reset_password email = do
  known ← UserRepo.exists_by_email email
  raise_if (not known) (user_not_found (by_name email))
  pure email

unfoldable pub set_mail_verified : String → Action ℕ
set_mail_verified email = do
  found ← UserRepo.get_by_email email
  u ← or_raise found (user_not_found unknown)
  UserRepo.set_verified u
  pure 200

-- `VerifyMail.verify_mail`, with the status of its response.
unfoldable pub verify_mail : LinkData → Action ℕ
unfolding set_mail_verified decode_link
verify_mail link = do
  email ← lift (decode_link link)
  elim email [
    | none ↦ pure 500
    | some address ↦ if address == "" then pure 500 else set_mail_verified address
  ]
