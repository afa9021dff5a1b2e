-- ===== src/Iam/SessionLaws.antt =====
-- Who passes the authentication of a request (common/middleware/auth.go, JWTAuth).
use my_go_market.Prelude.{
  ℕ, ◌<◌, Bool, true, some, ◌≡◌, ◌⊎◌, inl, inr, arith, subst, Bool-cases, Option-cases,
}
use my_go_market.Prelude.Text.{Text, text_eq_iff, is_empty}
use my_go_market.Web.{answered}
use my_go_market.Iam.Sessions.{
  Claims, Jwt, Sessions, Credentials, Pass, named, generate_token, parse_token,
  parse_token_ignore_expiry, get_session, extract_jwt, check_session, renew, jwt_auth,
}

-- The token is one that the service signed for this user.
pub record IsSigned (jwt : Jwt) (token user_id : Text) : Type 0 where
  pub claims : Claims
  pub verified : jwt.verify token ≡ some claims
  pub of_user : claims.user_id ≡ user_id

check_session-eq :
    (now : ℕ) (up : Bool) (u cookie : Text) (m : Sessions)
    → check_session now up u cookie m ≡ true
    → get_session now up u m ≡ some cookie
unfolding check_session
check_session-eq now up u cookie m h = elim (Option-cases (get_session now up u m)) [
  | inl missing ↦ ground arith
  | inr (cached, found) ↦ ground (arith, found, text_eq_iff cached cookie)
]

parsed-IsSigned :
    (jwt : Jwt) (now : ℕ) (token : Text) {u : Text}
    → named (parse_token jwt now token) ≡ some u
    → IsSigned jwt token u
      × ((claims : Claims) × (jwt.verify token ≡ some claims) × (now < claims.expires_at))
unfolding parse_token
parsed-IsSigned jwt now token {u} h = elim (Option-cases (jwt.verify token)) [
  | inl missing ↦ ground arith
  | inr (c, found) ↦
      (record { claims = c; verified = found; of_user = ground arith }, (c, found, ground arith))
]

ignored-IsSigned :
    (jwt : Jwt) (token : Text) {u : Text}
    → named (parse_token_ignore_expiry jwt token) ≡ some u
    → IsSigned jwt token u
unfolding parse_token_ignore_expiry
ignored-IsSigned jwt token h = elim (Option-cases (jwt.verify token)) [
  | inl missing ↦ ground arith
  | inr (c, found) ↦ record { claims = c; verified = found; of_user = ground arith }
]

renew_lem :
    (jwt : Jwt) (now : ℕ) (up : Bool) (token cookie : Text) (m : Sessions) {p : Pass}
    {m' : Sessions}
    → renew jwt now up token cookie m ≡ (answered p, m')
    → IsSigned jwt token p.user_id × (get_session now up p.user_id m ≡ some cookie)
unfolding renew
renew_lem jwt now up token cookie m {p} h =
    elim (Option-cases (named (parse_token_ignore_expiry jwt token))) [
      | inl missing ↦ ground arith
      | inr (u, found) ↦ elim (Bool-cases (check_session now up u cookie m)) [
        | inr other ↦ ground arith
        | inl same ↦ elim (Option-cases (generate_token jwt now u)) [
          | inl unsigned ↦ ground arith
          | inr (t, signed) ↦
              let e : u ≡ p.user_id = ground arith in
              (
                subst (IsSigned jwt token) e (ignored-IsSigned jwt token found),
                subst (λ v. get_session now up v m ≡ some cookie) e
                    (check_session-eq now up u cookie m same),
              )
        ]
      ]
    ]

-- A request that passes as a user carries a token that the service signed for this user; and it
-- carries, as its session cookie, the session that Redis holds for the user at that time, or its
-- token stands in the Authorization header and has not expired.
pub passed_by :
    (jwt : Jwt) (now : ℕ) (up : Bool) (c : Credentials) (m : Sessions) {p : Pass} {m' : Sessions}
    → jwt_auth jwt now up c m ≡ (answered p, m')
    → IsSigned jwt (extract_jwt c).0 p.user_id
      × ((get_session now up p.user_id m ≡ some c.session_cookie)
          ⊎ (((extract_jwt c).1 ≡ true)
              × ((claims : Claims) × (jwt.verify (extract_jwt c).0 ≡ some claims)
                  × (now < claims.expires_at))))
unfolding jwt_auth
passed_by jwt now up c m {p} {m'} h = elim (Bool-cases (is_empty (extract_jwt c).0)) [
  | inl empty ↦ ground arith
  | inr token ↦ elim (Option-cases (named (parse_token jwt now (extract_jwt c).0))) [
    | inl stale ↦
        let (signed, held) =
          renew_lem jwt now up (extract_jwt c).0 c.session_cookie m {p = p} {m' = m'}
            (ground arith) in
        (signed, inl held)
    | inr (u, found) ↦
        let (signed, valid) = parsed-IsSigned jwt now (extract_jwt c).0 found in
        elim (Bool-cases (extract_jwt c).1) [
          | inl header ↦
              let e : u ≡ p.user_id = ground arith in
              (subst (IsSigned jwt (extract_jwt c).0) e signed, inr (header, valid))
          | inr cookie ↦ elim (Bool-cases (check_session now up u c.session_cookie m)) [
            | inr other ↦ ground arith
            | inl same ↦
                let e : u ≡ p.user_id = ground arith in
                (
                  subst (IsSigned jwt (extract_jwt c).0) e signed,
                  inl (
                      subst (λ v. get_session now up v m ≡ some c.session_cookie) e
                        (check_session-eq now up u c.session_cookie m same)),
                )
          ]
        ]
  ]
]
