-- ===== src/Routes/Accounts.antt =====
-- app/api/v1/routes/auth/account.py and google_oauth.py
use fastapi_template.Prelude.{ℕ, String, Bool, Option, none, some}
use fastapi_template.Models.{User}
use fastapi_template.World.{Action, pure, ◌>>=◌}
use fastapi_template.Auth.Session
use fastapi_template.Auth.Account
use fastapi_template.Auth.GoogleOauth
use fastapi_template.Routes.{Caller, current_user}

unfoldable pub register_user : Caller → ℕ → Account.UserRegister → Action (User × String)
register_user c new_id form = Account.register c.lib new_id form

unfoldable pub verify_user_account : Account.LinkData → Action ℕ
verify_user_account link = Account.verify_mail link

-- `allowed` is the answer of the login limiter, `jti` the new id of the refresh token.
unfoldable pub login_user : Caller → Bool → String → String → String → Action Session.TokenResponse
login_user c allowed username password jti = Session.login c.lib c.now allowed username password jti

unfoldable pub logout_user : Option String → Action Unit
logout_user refresh_token = Session.logout refresh_token

unfoldable pub refresh_access_token : Caller → String → String → Action Session.TokenResponse
refresh_access_token c refresh_token jti = Session.refresh c.lib c.now refresh_token jti

unfoldable pub reset_password_mail : String → Action String
reset_password_mail email = Account.reset_password email

unfoldable pub reset_password_update : Caller → Account.LinkData → String → String → Action ℕ
reset_password_update c link new_password confirm_password =
    Account.reset_password_verify c.lib link new_password confirm_password

-- `email` is the address that Google answers with, `jti` the new id of the refresh token.
unfoldable pub google_callback :
    Caller → ℕ → String → Option String → Action GoogleOauth.GoogleOauthCallbackResponse
google_callback c new_id jti email = GoogleOauth.handle_callback c.lib c.now new_id jti email

pub record UserResponse : Type 0 where
  pub id : ℕ
  pub username : String
  pub email : String
  pub tenant_id : Option ℕ
  pub tenant_name : Option String
  pub is_superuser : Bool

unfoldable pub get_current_user_info : Caller → Action UserResponse
get_current_user_info c = do
  u ← current_user c
  pure (record {
    id = u.user.id;
    username = u.user.username;
    email = u.user.email;
    tenant_id = u.user.tenant_id;
    tenant_name = elim u.tenant [ none ↦ none | some tenant ↦ some tenant.name ];
    is_superuser = u.user.is_superuser;
  })
