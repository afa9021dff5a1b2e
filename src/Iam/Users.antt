-- ===== src/Iam/Users.antt =====
-- services/iam/domain/user.go, services/iam/repository/user_repository.go and the handlers of
-- services/iam/app/user_auth.go that keep accounts and sessions. A body of none is one that does not
-- bind. `hash` and `check` are the functions of `Iam.Passwords`; a salt of none is an error of the
-- random source.
use my_go_market.Prelude.{
  ℕ, Bool, true, not, Option, none, some, List, [], ◌∷◌, ◌&&◌, ◌||◌, if◌then◌else◌,
}
use my_go_market.Prelude.Text.{Text, codes, text_eq, is_empty}
use my_go_market.Errors.{Result, ok, err, unique_violation}
use my_go_market.Table.{find_by}
use my_go_market.Web.{Reply, refused, answered, or_refuse, ◌>>=◌}
use my_go_market.Iam.Sessions.{
  Jwt, Sessions, generate_token, get_session, set_session, delete_session, session_expiry,
  unauthorized,
}
use my_go_market.Iam.Passwords.{HashLib, hash_password, check_password_hash}

pub record User : Type 0 where
  pub user_id : Text
  pub username : Text
  pub email : Text
  pub password_hash : Text
  pub avatar_url : Text
  pub is_active : Bool

-- `NewUser`, with the id and the salt that it draws.
unfoldable pub new_user :
    HashLib
    → (user_id : Text) → (salt : Option Text) → (username email password : Text) → Option User
new_user lib user_id salt username email password = elim salt [
  | none ↦ none
  | some bytes ↦ some (record {
    user_id = user_id;
    username = username;
    email = email;
    password_hash = hash_password lib bytes password;
    avatar_url = [];
    is_active = true;
  })
]

unfoldable pub check_password : HashLib → (password : Text) → User → Bool
check_password lib password u = check_password_hash lib password u.password_hash

abbrev pub has_id : Text → User → Bool
has_id id u = text_eq u.user_id id

abbrev pub has_email : Text → User → Bool
has_email email u = text_eq u.email email

abbrev pub takes_name : User → User → Bool
takes_name v u =
    not (text_eq u.user_id v.user_id) && (text_eq u.username v.username || text_eq u.email v.email)

unfoldable pub replace : User → List User → List User
replace v [] = []
replace v (u ∷ us) = (if has_id v.user_id u then v else u) ∷ replace v us

-- `Save`: an update of the row, or an insert if there is none; a name or an address that another row
-- has is refused.
unfoldable pub save : User → List User → Result (List User)
save v us = elim (find_by (takes_name v) us) [
  | some _ ↦ err unique_violation
  | none ↦ elim (find_by (has_id v.user_id) us) [ none ↦ ok (v ∷ us) | some _ ↦ ok (replace v us) ]
]

-- `FindByEmail` and `FindByID`
unfoldable pub find_by_email : (email : Text) → List User → Option User
find_by_email email us = find_by (has_email email) us

unfoldable pub find_by_id : (user_id : Text) → List User → Option User
find_by_id id us = find_by (has_id id) us

-- The tables and Redis.
pub record Accounts : Type 0 where
  pub users : List User
  pub sessions : Sessions

-- What one request meets: the time, whether Redis answers, and what it draws.
pub record Moment : Type 0 where
  pub now : ℕ
  pub up : Bool
  pub user_id : Text
  pub salt : Option Text
  pub session_id : Text

pub record RegisterRequest : Type 0 where
  pub username : Text
  pub email : Text
  pub password : Text

pub record LoginRequest : Type 0 where
  pub email : Text
  pub password : Text

-- The answer to a login: the user, and the two cookies that it sets.
pub record LoggedIn : Type 0 where
  pub user_id : Text
  pub token : Text
  pub session_id : Text

module _ (lib : HashLib) (jwt : Jwt) where
  unfoldable pub register : Moment → Option RegisterRequest → Accounts → Reply Text × Accounts
  register now none s = (refused 400 (codes "INVALID_REQUEST"), s)
  register at (some req) s =
      elim (new_user lib at.user_id at.salt req.username req.email req.password) [
        | none ↦ (refused 500 (codes "USER_CREATE_FAILED"), s)
        | some u ↦ elim (save u s.users) [
          | err _ ↦ (refused 409 (codes "USER_ALREADY_EXISTS"), s)
          | ok us ↦ (answered u.user_id, record s { users = us })
        ]
      ]

  -- `Login` once the user and the password are known to fit.
  unfoldable pub open_session : Moment → User → Accounts → Reply LoggedIn × Accounts
  open_session at u s = elim (generate_token jwt at.now u.user_id) [
    | none ↦ (refused 500 (codes "TOKEN_GENERATION_FAILED"), s)
    | some token ↦
        elim (set_session at.now at.up u.user_id at.session_id session_expiry s.sessions) [
          | none ↦ (refused 503 (codes "SESSION_CREATE_FAILED"), s)
          | some m ↦ (
            answered (record { user_id = u.user_id; token = token; session_id = at.session_id }),
            record s { sessions = m },
          )
        ]
  ]

  unfoldable pub login : Moment → Option LoginRequest → Accounts → Reply LoggedIn × Accounts
  login at none s = (refused 400 (codes "INVALID_REQUEST"), s)
  login at (some req) s = elim (find_by_email req.email s.users) [
    | none ↦ (refused 401 (codes "INVALID_CREDENTIALS"), s)
    | some u ↦
        if check_password lib req.password u
        then open_session at u s
        else (refused 401 (codes "INVALID_CREDENTIALS"), s)
  ]

  -- `user_id` is what the authentication left in the request.
  unfoldable pub get_profile : (user_id : Option Text) → Accounts → Reply User
  get_profile user_id s = do
    id ← or_refuse user_id 401 (codes "NOT_LOGGED_IN")
    or_refuse (find_by_id id s.users) 404 (codes "USER_NOT_FOUND")

  -- The new values of a profile; an empty one leaves what is there.
  abbrev pub changed : (new old : Text) → Bool
  changed new old = not (is_empty new) && not (text_eq new old)

  abbrev pub updated_profile : (username email : Text) → User → User
  updated_profile username email u = record u {
    username = (if changed username u.username then username else u.username);
    email = (if changed email u.email then email else u.email);
  }

  unfoldable pub update_profile :
      (user_id : Option Text) → (body : Option (Text × Text)) → Accounts → Reply User × Accounts
  update_profile none body s = (unauthorized, s)
  update_profile (some id) none s = (refused 400 (codes "INVALID_REQUEST"), s)
  update_profile (some id) (some (username, email)) s = elim (find_by_id id s.users) [
    | none ↦ (refused 404 (codes "USER_NOT_FOUND"), s)
    | some u ↦
        let v = updated_profile username email u in
        if changed username u.username || changed email u.email
        then elim (save v s.users) [
          | err _ ↦ (refused 500 (codes "PROFILE_UPDATE_FAILED"), s)
          | ok us ↦ (answered v, record s { users = us })
        ]
        else (answered u, s)
  ]

  -- A password that was changed ends the session.
  unfoldable pub update_password :
      Moment
      → (user_id : Option Text) → (body : Option (Text × Text)) → Accounts
      → Reply (Unit {0}) × Accounts
  update_password at none body s = (unauthorized, s)
  update_password at (some id) none s = (refused 400 (codes "INVALID_REQUEST"), s)
  update_password at (some id) (some (old, new)) s = elim (find_by_id id s.users) [
    | none ↦ (refused 404 (codes "USER_NOT_FOUND"), s)
    | some u ↦
        if check_password lib old u
        then elim at.salt [
          | none ↦ (refused 500 (codes "PASSWORD_HASH_FAILED"), s)
          | some bytes ↦
              elim (save (record u { password_hash = hash_password lib bytes new }) s.users) [
                | err _ ↦ (refused 500 (codes "PASSWORD_UPDATE_FAILED"), s)
                | ok us ↦ (
                  answered tt,
                  record { users = us; sessions = delete_session at.up u.user_id s.sessions },
                )
              ]
        ]
        else (refused 403 (codes "INCORRECT_OLD_PASSWORD"), s)
  ]

  -- What Redis holds, empty if nothing or an error.
  abbrev or_empty : Option Text → Text
  or_empty none = []
  or_empty (some t) = t

  -- `Logout`: a session cookie ends its own session only.
  unfoldable pub logout :
      Moment
      → (user_id : Option Text) → (session_cookie : Option Text) → Accounts
      → Reply (Unit {0}) × Accounts
  logout at none cookie s = (unauthorized, s)
  logout at (some id) cookie s =
      let gone = record s { sessions = delete_session at.up id s.sessions } in
      if is_empty id then (unauthorized, s) else elim cookie [
        | none ↦ (answered tt, gone)
        | some c ↦ (
          answered tt,
          (if text_eq (or_empty (get_session at.now at.up id s.sessions)) c then gone else s),
        )
      ]
