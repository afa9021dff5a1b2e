-- ===== src/Iam/Logins.antt =====
-- Logging in, and the session that a login opens (user_auth.go with auth.go).
use my_go_market.Prelude.{
  ℕ, ◌+◌, ◌<◌, true, false, none, some, [], ◌≡◌, refl, inl, inr, if◌then◌else◌, ltb, not, ◌&&◌,
  arith, ap, sym, subst, ◌∙◌, Bool-cases, Option-cases,
}
use my_go_market.Prelude.Text.{Text, text_eq, text_eq_refl, is_empty}
use my_go_market.Web.{Reply, answered, answered-injective}
use my_go_market.Iam.Sessions.{
  Claims, Jwt, Sessions, Credentials, Pass, generate_token, parse_token, parse_token_ignore_expiry,
  get_session, set_session, session_expiry, access_token_expiry, extract_jwt, split_space,
  check_session, renew, jwt_auth,
}
use my_go_market.Iam.Passwords.{HashLib}
use my_go_market.Iam.Users.{
  Accounts, Moment, LoginRequest, LoggedIn, check_password, find_by_email, open_session, login,
}

-- A token that is signed is no empty text, and reads back as the claims that were signed.
pub record IsFaithful (jwt : Jwt) : Type 0 where
  pub signs :
      (c : Claims)
      → (t : Text) × (jwt.sign c ≡ some t) × (is_empty t ≡ false) × (jwt.verify t ≡ some c)

-- What a login leaves behind.
pub record Opened (jwt : Jwt) (t : ℕ) (li : LoggedIn) (s' : Accounts) : Type 0 where
  pub signed :
      jwt.sign (record { user_id = li.user_id; expires_at = t + access_token_expiry })
      ≡ some li.token
  pub held :
      s'.sessions li.user_id
      ≡ some (record { session_id = li.session_id; gone_at = t + session_expiry })

pub login-Opened :
    (lib : HashLib) (jwt : Jwt) (at : Moment) (req : LoginRequest) (s : Accounts) {li : LoggedIn}
    {s' : Accounts}
    → login lib jwt at (some req) s ≡ (answered li, s')
    → Opened jwt at.now li s'
unfolding login open_session generate_token set_session
login-Opened lib jwt at req s {li} {s'} h = elim (Option-cases (find_by_email req.email s.users)) [
  | inl missing ↦ ground arith
  | inr (u, found) ↦ elim (Bool-cases (check_password lib req.password u)) [
    | inr wrong ↦ ground arith
    | inl right ↦
        elim (Option-cases
          (jwt.sign (record { user_id = u.user_id; expires_at = at.now + access_token_expiry }))) [
            | inl unsigned ↦ ground arith
            | inr (t, signed) ↦ elim (Bool-cases at.up) [
              | inr down ↦ ground arith
              | inl up ↦
                  let made : Reply LoggedIn × Accounts = (
                    answered
                        (record { user_id = u.user_id; token = t; session_id = at.session_id }),
                    record s {
                      sessions = λ k.
                          if text_eq k u.user_id
                          then some (record {
                            session_id = at.session_id;
                            gone_at = at.now + session_expiry;
                          })
                          else s.sessions k;
                    },
                  ) in
                  let e : made ≡ (answered li, s') =
                    sym (
                      rw
                        (found, right, signed, up, login, open_session, generate_token, set_session)
                        refl)
                    ∙ h in
                  let same : record { user_id = u.user_id; token = t; session_id = at.session_id }
                      ≡ li =
                    answered-injective (ap (λ (q : Reply LoggedIn × Accounts). q.0) e) in
                  subst (λ (x : LoggedIn). Opened jwt at.now x s') same
                    (subst
                      (λ (x : Accounts).
                        Opened jwt at.now
                          (record { user_id = u.user_id; token = t; session_id = at.session_id }) x)
                      (ap (λ (q : Reply LoggedIn × Accounts). q.1) e)
                      (record { signed = signed; held = rw (text_eq_refl u.user_id) refl }))
            ]
          ]
  ]
]

-- A client that sends the two cookies of a login and no Authorization header.
abbrev pub browser : LoggedIn → Credentials
browser li = record {
  authorization = [];
  auth_token = some li.token;
  session_cookie = li.session_id;
}

pub session_held :
    (jwt : Jwt) (t now : ℕ) (li : LoggedIn) (s' : Accounts)
    → Opened jwt t li s'
    → now < t + session_expiry
    → get_session now true li.user_id s'.sessions ≡ some li.session_id
unfolding get_session
session_held jwt t now li s' o early = ground (arith, o.held)

pub reads_back :
    (jwt : Jwt) (t : ℕ) (li : LoggedIn) (s' : Accounts)
    → IsFaithful jwt
    → Opened jwt t li s'
    → (jwt.verify li.token
        ≡ some (record { user_id = li.user_id; expires_at = t + access_token_expiry }))
      × (is_empty li.token ≡ false)
reads_back jwt t li s' f o =
    let c : Claims = record { user_id = li.user_id; expires_at = t + access_token_expiry } in
    let (token, signed, full, verified) = f.signs c in
    let e : token ≡ li.token = cc in (ap jwt.verify (sym e) ∙ verified, ap is_empty (sym e) ∙ full)

-- How a request with the two cookies passes, for a token that lives until `until`: as the user, with
-- nothing new while the token lives; later with a token signed for this moment, and the session
-- extended from it.
pub record PassesFor (jwt : Jwt) (now until : ℕ) (li : LoggedIn) (m : Sessions) (p : Pass)
    (m' : Sessions) : Type 0 where
  pub as_user : p.user_id ≡ li.user_id
  pub token : p.new_token ≡ (
      if ltb now until
      then none
      else jwt.sign (record { user_id = li.user_id; expires_at = now + access_token_expiry }))
  pub sessions :
      (u : Text)
      → m' u ≡ (
          if not (ltb now until) && text_eq u li.user_id
          then some (record { session_id = li.session_id; gone_at = now + session_expiry })
          else m u)

-- The two cookies with a session that is held, for a token that is valid or expired.
pub passes :
    (jwt : Jwt) (now until : ℕ) (li : LoggedIn) (m : Sessions)
    → jwt.verify li.token ≡ some (record { user_id = li.user_id; expires_at = until })
    → is_empty li.token ≡ false
    → get_session now true li.user_id m ≡ some li.session_id
    → is_empty li.user_id ≡ false
    → is_empty li.session_id ≡ false
    → IsFaithful jwt
    → (p : Pass) × (m' : Sessions) × (jwt_auth jwt now true (browser li) m ≡ (answered p, m'))
      × PassesFor jwt now until li m p m'
unfolding jwt_auth extract_jwt split_space check_session renew generate_token parse_token
    parse_token_ignore_expiry set_session
passes jwt now until li m verified full held named_user given f =
    let (new, signed, _, _) =
      f.signs (record { user_id = li.user_id; expires_at = now + access_token_expiry }) in
    elim (Bool-cases (ltb now until)) [
      | inl valid ↦ (
        record { user_id = li.user_id; new_token = none },
        m,
        ground (arith, text_eq_refl li.session_id),
        record { as_user = refl; token = rw valid refl; sessions = λ u. rw valid refl },
      )
      | inr expired ↦ (
        record { user_id = li.user_id; new_token = some new },
        (renew jwt now true li.token li.session_id m).1,
        ground (arith, signed, text_eq_refl li.session_id),
        record {
          as_user = refl;
          token = rw expired (sym signed);
          sessions = λ u. rw expired (extended u new signed);
        },
      )
    ]
  where
    extended :
        (u new : Text)
        → jwt.sign (record { user_id = li.user_id; expires_at = now + access_token_expiry })
          ≡ some new
        → (renew jwt now true li.token li.session_id m).1 u ≡ (
            if text_eq u li.user_id
            then some (record { session_id = li.session_id; gone_at = now + session_expiry })
            else m u)
    extended u new signed = ground (arith, signed, text_eq_refl li.session_id)
