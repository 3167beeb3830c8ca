-- ===== src/Auth/Rotation.antt =====
-- app/services/auth/actions/refresh.py: a refresh token that is used twice.
use fastapi_template.Prelude.{
  ℕ, ◌+◌, String, ◌≡◌, refl, sym, ap, ◌∙◌, subst, inl, inr, Bool, true, false, not, Option, none,
  some, List, [], ◌∷◌, arith, ◌==◌, nat_eq, string_eq, option_eq, Bool-cases, Option-cases,
  map_option,
}
use fastapi_template.Prelude.Lists.{any, filter, find}
use fastapi_template.Error.{Result, ok, err, by_id, user_not_found, http_exception}
use fastapi_template.Models.{RefreshToken, LoadedUser}
use fastapi_template.World.{
  link_eq, Db, World, Action, pure, or_raise, ◌>>=◌, ◌>>◌, update_rows, load_user,
}
use fastapi_template.Prelude.Lists.{find-passes}
use fastapi_template.World.Calls.{bind-eq-ok, bind-state}
use fastapi_template.World.Rows.{any-of_find}
use fastapi_template.Auth.Token.{
  Libraries, create_refresh_token, ensure_tenant_active, mint_access_token,
}
use fastapi_template.Repositories.UserRepo
use fastapi_template.Repositories.UserRepo.{find_user}
use fastapi_template.Repositories.TokenRepo
use fastapi_template.Repositories.TenantRepo
use fastapi_template.Auth.Session.{
  TokenResponse, refresh, check_refresh_row, store_session, seven_days,
}

abbrev pub find_token : String → Db → Option RefreshToken
find_token token db = find (λ t. t.token == token) db.refresh_tokens

any-revoked :
    (token s : String) (rows : List RefreshToken)
    → any
        (λ t. t.token == s)
        (update_rows (λ t. t.token == token) (λ t. record t { is_revoked = true }) rows)
      ≡ any (λ t. t.token == s) rows
unfolding any update_rows
any-revoked token s [] = refl
any-revoked token s (t ∷ rows) = ground (arith, any-revoked token s rows)

find-revoked :
    (token : String) (rows : List RefreshToken) (row : RefreshToken)
    → find (λ t. t.token == token) rows ≡ some row
    → find
        (λ t. t.token == token)
        (update_rows (λ t. t.token == token) (λ t. record t { is_revoked = true }) rows)
      ≡ some (record row { is_revoked = true })
unfolding find update_rows
find-revoked token [] row h = ground arith
find-revoked token (t ∷ rows) row h = ground (arith, find-revoked token rows row)

any-deleted :
    (p : RefreshToken → Bool) (rows : List RefreshToken)
    → any p (filter (λ t. not (p t)) rows) ≡ false
unfolding any filter
any-deleted p [] = refl
any-deleted p (t ∷ rows) = ground (arith, any-deleted p rows)

-- A token that no row has is not that of a row.
other_token :
    (token new : String) (rows : List RefreshToken) (row : RefreshToken)
    → find (λ t. t.token == token) rows ≡ some row
    → any (λ t. t.token == new) rows ≡ false
    → (new == token) ≡ false
other_token token new rows row found free = elim (Bool-cases (new == token)) [
  | inl same ↦
      let new_eq : new ≡ token = (string_eq.beq_iff new token).0 same in
      let here = find-passes (λ (t : RefreshToken). t.token == token) rows row found in
      let there =
        any-of_find (λ t. t.token == token) (λ t. t.token == new) rows row found
          (subst (λ s. (row.token == s) ≡ true) (sym new_eq) here) in
      ground (arith, there, free)
  | inr differs ↦ differs
]

-- A token that is stored leaves the row of another token in its place.
create-find :
    (new token : String) (user_id expires_at : ℕ) (w : World) (made row : RefreshToken)
    → (TokenRepo.create new user_id expires_at w).0 ≡ ok made
    → find_token token w.db ≡ some row
    → find_token token (TokenRepo.create new user_id expires_at w).1.db ≡ some row
unfolding TokenRepo.create find
create-find new token user_id expires_at w made row h found =
    elim (Bool-cases (any (λ (t : RefreshToken). t.token == new) w.db.refresh_tokens)) [
      | inl taken ↦ ground (arith, taken)
      | inr free ↦ ground (arith, free, other_token token new w.db.refresh_tokens row found free)
    ]

module _ (lib : Libraries) where
  tenant-state : (tenant_id : Option ℕ) (w : World) → (ensure_tenant_active lib tenant_id w).1 ≡ w
  unfolding ensure_tenant_active TenantRepo.get_by_id
  tenant-state none w = refl
  tenant-state (some tenant_id) w = ground arith

  mint-state :
      (now : ℕ) (u : LoadedUser) (auth_method : String) (w : World)
      → (mint_access_token lib now u auth_method w).1 ≡ w
  unfolding mint_access_token
  mint-state now u auth_method w = ground (arith, tenant-state u.user.tenant_id w)

  store_session-ok :
      (now user_id : ℕ) (access_token jti token : String) (w : World) (row : RefreshToken)
      (resp : TokenResponse)
      → (store_session lib now user_id access_token jti w).0 ≡ ok resp
      → find_token token w.db ≡ some row
      → find_token token (store_session lib now user_id access_token jti w).1.db ≡ some row
  unfolding store_session
  store_session-ok now user_id access_token jti token w row resp h found =
      let new = create_refresh_token lib now user_id seven_days jti in
      let made = TokenRepo.create new user_id (now + lib.refresh_life) in
      let session : TokenResponse = record { access_token = access_token; refresh_token = new } in
      let (t, stored, rest) = bind-eq-ok made (λ _. pure session) w resp h in
      ap (λ (x : Result TokenResponse × World). find_token token x.1.db)
        (bind-state made (λ _. pure session) w t stored)
      ∙ create-find new token user_id (now + lib.refresh_life) w t row stored found

  after_user : ℕ → RefreshToken → String → Option LoadedUser → Action TokenResponse
  after_user now row jti found_user = do
    u ← or_raise found_user (user_not_found (by_id row.user_id))
    access_token ← mint_access_token lib now u "password"
    store_session lib now row.user_id access_token jti

  after_user-ok :
      (now : ℕ) (token jti : String) (w : World) (row kept : RefreshToken)
      (found_user : Option LoadedUser) (resp : TokenResponse)
      → (after_user now row jti found_user w).0 ≡ ok resp
      → find_token token w.db ≡ some kept
      → find_token token (after_user now row jti found_user w).1.db ≡ some kept
  unfolding after_user
  after_user-ok now token jti w row kept none resp h found = ground arith
  after_user-ok now token jti w row kept (some u) resp h found =
      let (access_token, minted, h2) =
        bind-eq-ok (mint_access_token lib now u "password")
          (λ a. store_session lib now row.user_id a jti) w resp h in
      let same = mint-state now u "password" w in
      let state =
        bind-state (mint_access_token lib now u "password")
          (λ a. store_session lib now row.user_id a jti) w access_token minted
        ∙ ap (store_session lib now row.user_id access_token jti) same in
      ap (λ (x : Result TokenResponse × World). find_token token x.1.db) state
      ∙ store_session-ok now row.user_id access_token jti token w kept resp
          (ap (λ (v : World). (store_session lib now row.user_id access_token jti v).0) (sym same)
            ∙ h2)
          found

  -- What `refresh` does with a row that is usable.
  rotate : ℕ → RefreshToken → String → Action TokenResponse
  rotate now row jti = do
    TokenRepo.revoke row
    found_user ← UserRepo.get_by_id_with_grants row.user_id
    after_user now row jti found_user

  rotate-ok :
      (now : ℕ) (jti : String) (w : World) (row : RefreshToken) (resp : TokenResponse)
      → (rotate now row jti w).0 ≡ ok resp
      → find_token row.token w.db ≡ some row
      → find_token row.token (rotate now row jti w).1.db ≡ some (record row { is_revoked = true })
  unfolding rotate
  rotate-ok now jti w row resp h found =
      let w1 = (TokenRepo.revoke row w).1 in
      let kept : find_token row.token w1.db ≡ some (record row { is_revoked = true }) =
        unfold TokenRepo.revoke in find-revoked row.token w.db.refresh_tokens row found in
      unfold TokenRepo.revoke UserRepo.get_by_id_with_grants in
      after_user-ok now row.token jti w1 row (record row { is_revoked = true })
        (map_option (load_user w1.db) (find_user row.user_id w1.db)) resp h kept

  check_refresh_row-ok :
      (now : ℕ) (row : RefreshToken) (w : World) (t : Unit)
      → (check_refresh_row lib now row w).0 ≡ ok t
      → check_refresh_row lib now row w ≡ (ok tt, w)
  unfolding check_refresh_row
  check_refresh_row-ok now row w t h = ground arith

  usable : ℕ → RefreshToken → String → Action TokenResponse
  usable now row jti = check_refresh_row lib now row >> rotate now row jti

  usable-ok :
      (now : ℕ) (jti : String) (w : World) (row : RefreshToken) (resp : TokenResponse)
      → (usable now row jti w).0 ≡ ok resp
      → usable now row jti w ≡ rotate now row jti w
  unfolding usable
  usable-ok now jti w row resp h =
      let (t, passed, rest) =
        bind-eq-ok (check_refresh_row lib now row) (λ _. rotate now row jti) w resp h in
      let state = check_refresh_row-ok now row w t passed in
      bind-state (check_refresh_row lib now row) (λ _. rotate now row jti) w t passed
      ∙ ap (λ (x : Result Unit × World). rotate now row jti x.1) state

  usable-revoked :
      (now : ℕ) (jti : String) (w : World) (row : RefreshToken)
      → row.is_revoked ≡ true
      → ((usable now row jti w).0 ≡ err (http_exception 403))
        × (any (λ t. t.user_id == row.user_id) (usable now row jti w).1.db.refresh_tokens ≡ false)
  unfolding usable check_refresh_row TokenRepo.delete_all_for_user
  usable-revoked now jti w row revoked = ground (
    arith,
    revoked,
    any-deleted (λ (t : RefreshToken). t.user_id == row.user_id) w.db.refresh_tokens,
  )

  refresh-eq :
      (now : ℕ) (token jti : String) (w : World) (row : RefreshToken)
      → find_token token w.db ≡ some row
      → refresh lib now token jti w ≡ usable now row jti w
  unfolding refresh usable rotate after_user TokenRepo.get_by_token
  refresh-eq now token jti w row found =
      ap
        (λ (o : Option RefreshToken).
          (or_raise o (http_exception 401) >>= λ row'. usable now row' jti) w)
        found

  refresh-found :
      (now : ℕ) (token jti : String) (w : World) (resp : TokenResponse)
      → (refresh lib now token jti w).0 ≡ ok resp
      → (row : RefreshToken) × (find_token token w.db ≡ some row)
  unfolding refresh check_refresh_row TokenRepo.get_by_token
  refresh-found now token jti w resp h = elim (Option-cases (find_token token w.db)) [
    | inl gone ↦ ground (arith, gone)
    | inr (row, here) ↦ (row, here)
  ]

  pub refresh-replayed :
      (now : ℕ) (token jti : String) (w : World) (resp : TokenResponse) (later : ℕ) (jti' : String)
      → (refresh lib now token jti w).0 ≡ ok resp
      → let w' = (refresh lib now token jti w).1 in
        ((refresh lib later token jti' w').0 ≡ err (http_exception 403))
        × ((row : RefreshToken) × (find_token token w.db ≡ some row)
            × (any
                  (λ t. t.user_id == row.user_id)
                  (refresh lib later token jti' w').1.db.refresh_tokens
                ≡ false))
  refresh-replayed now token jti w resp later jti' h =
      let (row, found) = refresh-found now token jti w resp h in
      let token_eq =
        (string_eq.beq_iff row.token token).0
          (find-passes (λ (t : RefreshToken). t.token == token) w.db.refresh_tokens row found) in
      let state = refresh-eq now token jti w row found in
      let rotates =
        usable-ok now jti w row resp
          (ap (λ (x : Result TokenResponse × World). x.0) (sym state) ∙ h) in
      let whole = state ∙ rotates in
      let kept =
        rotate-ok now jti w row resp
          (ap (λ (x : Result TokenResponse × World). x.0) (sym whole) ∙ h)
          (subst (λ s. find_token s w.db ≡ some row) (sym token_eq) found) in
      let w' = (refresh lib now token jti w).1 in
      let again : find_token token w'.db ≡ some (record row { is_revoked = true }) =
        ap (λ (x : Result TokenResponse × World). find_token token x.1.db) whole
        ∙ ap (λ s. find_token s (rotate now row jti w).1.db) (sym token_eq)
        ∙ kept in
      let replay = refresh-eq later token jti' w' (record row { is_revoked = true }) again in
      let (answer, none_left) =
        usable-revoked later jti' w' (record row { is_revoked = true }) refl in
      (
        ap (λ (x : Result TokenResponse × World). x.0) replay ∙ answer,
        (
          row,
          found,
          ap
                (λ (x : Result TokenResponse × World).
                  any (λ t. t.user_id == row.user_id) x.1.db.refresh_tokens)
                replay
              ∙ none_left,
        ),
      )
