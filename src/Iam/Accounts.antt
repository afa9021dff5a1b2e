-- ===== src/Iam/Accounts.antt =====
-- Logging in, the requests that follow, and the end of sessions (user_auth.go with auth.go).
use my_go_market.Prelude.{
  ℕ, ◌+◌, ◌<◌, Bool, true, false, none, some, List, ◌≡◌, ◌≢◌, ◌⊎◌, inl, inr, arith, sym, subst,
  Bool-cases, Option-cases,
}
use my_go_market.Prelude.Text.{Text, text_eq_iff, text_eq_refl, is_empty}
use my_go_market.Errors.{Result-cases}
use my_go_market.Web.{answered}
use my_go_market.Iam.Sessions.{
  Claims, Jwt, Session, Sessions, Credentials, Pass, get_session, delete_session, session_expiry,
  access_token_expiry, extract_jwt, jwt_auth,
}
use my_go_market.Table.{find_by-holds}
use my_go_market.Iam.Passwords.{HashLib, hash_password}
use my_go_market.Iam.SessionLaws.{passed_by}
use my_go_market.Iam.Users.{
  User, Accounts, Moment, LoginRequest, LoggedIn, check_password, has_id, find_by_id, login, save,
  update_password,
}
use my_go_market.Iam.Logins.{
  IsFaithful, login-Opened, PassesFor, browser, session_held, reads_back, passes,
}

-- Under the stated behaviour of golang-jwt: a user who has logged in, with an id and a session id
-- that are not empty, passes with the two cookies until the session ends, seven days later, as the
-- same user, while Redis answers and nothing else has changed the sessions. While the token of the
-- login lives, the request gets no new token and the sessions stay. Later it gets a token that is
-- signed for the same user and half an hour, and the session is extended to seven days from now;
-- the sessions of others stay.
pub login_passes :
    (lib : HashLib) (jwt : Jwt) (at : Moment) (req : LoginRequest) (s : Accounts) (now : ℕ)
    {li : LoggedIn} {s' : Accounts}
    → IsFaithful jwt
    → login lib jwt at (some req) s ≡ (answered li, s')
    → is_empty li.user_id ≡ false
    → is_empty li.session_id ≡ false
    → now < at.now + session_expiry
    → (p : Pass) × (m : Sessions) × (jwt_auth jwt now true (browser li) s'.sessions
        ≡ (answered p, m))
      × PassesFor jwt now (at.now + access_token_expiry) li s'.sessions p m
login_passes lib jwt at req s now {li} {s'} faithful h named_user given early =
    let o = login-Opened lib jwt at req s h in
    let held = session_held jwt at.now now li s' o early in
    let (verified, full) = reads_back jwt at.now li s' faithful o in
    passes jwt now (at.now + access_token_expiry) li s'.sessions verified full held named_user given
      faithful

-- A request whose token stands in the Authorization header, is signed and has not expired.
abbrev pub IsBearer : Jwt → ℕ → Credentials → Type 0
IsBearer jwt now c =
    ((extract_jwt c).1 ≡ true)
    × ((claims : Claims) × (jwt.verify (extract_jwt c).0 ≡ some claims) × (now < claims.expires_at))

held_session :
    (now : ℕ) (up : Bool) (u cookie : Text) (m : Sessions) (x : Session)
    → m u ≡ some x
    → get_session now up u m ≡ some cookie
    → x.session_id ≡ cookie
unfolding get_session
held_session now up u cookie m x held h = ground (arith, held)

-- After a login, a request passes as its user only with the session of this login as its session
-- cookie, or with an unexpired token in the Authorization header: every earlier session of the user
-- is out.
pub login_replaces :
    (lib : HashLib) (jwt : Jwt) (at : Moment) (req : LoginRequest) (s : Accounts) (now : ℕ)
    (up : Bool) (c : Credentials) {li : LoggedIn} {s' : Accounts} {p : Pass} {m : Sessions}
    → login lib jwt at (some req) s ≡ (answered li, s')
    → jwt_auth jwt now up c s'.sessions ≡ (answered p, m)
    → p.user_id ≡ li.user_id
    → (c.session_cookie ≡ li.session_id) ⊎ IsBearer jwt now c
login_replaces lib jwt at req s now up c {li} {s'} {p} h auth same =
    elim (passed_by jwt now up c s'.sessions auth).1 [
      | inr bearer ↦ inr bearer
      | inl held ↦ inl (
          sym (
            held_session now up li.user_id c.session_cookie s'.sessions
              (record { session_id = li.session_id; gone_at = at.now + session_expiry })
              (login-Opened lib jwt at req s h).held
              (subst (λ u. get_session now up u s'.sessions ≡ some c.session_cookie) same held)))
    ]

no_session :
    (now : ℕ) (up : Bool) (u cookie : Text) (m : Sessions)
    → m u ≡ none
    → get_session now up u m ≢ some cookie
unfolding get_session
no_session now up u cookie m gone h = ground (arith, gone)

find_by_id-id : (id : Text) (us : List User) {u : User} → find_by_id id us ≡ some u → u.user_id ≡ id
unfolding find_by_id
find_by_id-id id us {u} h = (text_eq_iff u.user_id id).0 (find_by-holds (has_id id) us h)

update_password_lem :
    (lib : HashLib) (jwt : Jwt) (at : Moment) (u old new : Text) (s : Accounts) {r : Unit {0}}
    {s' : Accounts}
    → at.up ≡ true
    → update_password lib jwt at (some u) (some (old, new)) s ≡ (answered r, s')
    → s'.sessions u ≡ none
unfolding update_password delete_session
update_password_lem lib jwt at u old new s up h = elim (Option-cases (find_by_id u s.users)) [
  | inl missing ↦ ground arith
  | inr (v, found) ↦ elim (Bool-cases (check_password lib old v)) [
    | inr wrong ↦ ground arith
    | inl right ↦ elim (Option-cases at.salt) [
      | inl dry ↦ ground arith
      | inr (bytes, drawn) ↦
          elim (Result-cases
            (save (record v { password_hash = hash_password lib bytes new }) s.users)) [
              | inr (e, failed) ↦ ground arith
              | inl (us, saved) ↦
                  let id : v.user_id ≡ u = find_by_id-id u s.users found in
                  ground (arith, text_eq_refl u)
            ]
    ]
  ]
]

-- After a change of the password while Redis answers, a request passes as that user only with an
-- unexpired token in the Authorization header, until the user logs in again: no session is left.
pub update_password_ends :
    (lib : HashLib) (jwt : Jwt) (at : Moment) (u old new : Text) (s : Accounts) (now : ℕ)
    (up : Bool) (c : Credentials) {r : Unit {0}} {s' : Accounts} {p : Pass} {m : Sessions}
    → at.up ≡ true
    → update_password lib jwt at (some u) (some (old, new)) s ≡ (answered r, s')
    → jwt_auth jwt now up c s'.sessions ≡ (answered p, m)
    → p.user_id ≡ u
    → IsBearer jwt now c
update_password_ends lib jwt at u old new s now up c {s' = s'} {p = p} alive h auth same =
    elim (passed_by jwt now up c s'.sessions auth).1 [
      | inr bearer ↦ bearer
      | inl held ↦ absurd (
          no_session now up u c.session_cookie s'.sessions
            (update_password_lem lib jwt at u old new s alive h)
            (subst (λ v. get_session now up v s'.sessions ≡ some c.session_cookie) same held))
    ]
