-- ===== src/Iam/Sessions.antt =====
-- common/utils/jwt.go, common/middleware/auth.go, and the sessions of
-- services/iam/repository/user_repository.go. Times are seconds. Here users are named by the text of
-- their ids, as tokens and session keys are.
use my_go_market.Prelude.{
  ℕ, ◌+◌, ◌*◌, Bool, true, false, not, Option, none, some, [], ◌∷◌, ◌==◌, ◌&&◌, if◌then◌else◌, ltb,
}
use my_go_market.Prelude.Text.{Text, codes, text_eq, is_empty}
use my_go_market.Web.{Reply, refused, answered}

-- `CustomClaims`, less the issuer and the time of issue, which nothing reads.
pub record Claims : Type 0 where
  pub user_id : Text
  pub expires_at : ℕ

-- What the code calls of golang-jwt with its one key and method: signing, where none is an error,
-- and parsing with a check of the method and the signature alone.
pub record Jwt : Type 0 where
  pub sign : Claims → Option Text
  pub verify : Text → Option Claims

abbrev pub access_token_expiry : ℕ
access_token_expiry = 30 * 60

abbrev pub session_expiry : ℕ
session_expiry = 7 * 24 * 3600

module _ (jwt : Jwt) where
  unfoldable pub generate_token : (now : ℕ) → (user_id : Text) → Option Text
  generate_token now user_id =
      jwt.sign (record { user_id = user_id; expires_at = now + access_token_expiry })

  -- golang-jwt refuses a token from the second of its expiry on.
  unfoldable pub parse_token : (now : ℕ) → (token : Text) → Option Claims
  parse_token now token = elim (jwt.verify token) [
    | none ↦ none
    | some claims ↦ if ltb now claims.expires_at then some claims else none
  ]

  unfoldable pub parse_token_ignore_expiry : (token : Text) → Option Claims
  parse_token_ignore_expiry token = jwt.verify token

-- A session of Redis, and the time from which it is gone.
pub record Session : Type 0 where
  pub session_id : Text
  pub gone_at : ℕ

-- The keys `user:session:` of Redis, by user.
abbrev pub Sessions : Type 0
Sessions = Text → Option Session

abbrev live : (now : ℕ) → Option Session → Option Text
live now none = none
live now (some s) = if ltb now s.gone_at then some s.session_id else none

-- `up` says that Redis answers. The errors of a call are one: no value.
unfoldable pub get_session : (now : ℕ) → (up : Bool) → (user_id : Text) → Sessions → Option Text
get_session now up user_id m = if up then live now (m user_id) else none

abbrev put : Text → Option Session → Sessions → Sessions
put user_id v m = λ k. if text_eq k user_id then v else m k

unfoldable pub set_session :
    (now : ℕ)
    → (up : Bool) → (user_id session_id : Text) → (expiration : ℕ) → Sessions
    → Option Sessions
set_session now up user_id session_id expiration m =
    if up
    then some
        (put user_id (some (record { session_id = session_id; gone_at = now + expiration })) m)
    else none

unfoldable pub delete_session : (up : Bool) → (user_id : Text) → Sessions → Sessions
delete_session up user_id m = if up then put user_id none m else m

-- What a request carries: the header, empty if there is none, and the two cookies.
pub record Credentials : Type 0 where
  pub authorization : Text
  pub auth_token : Option Text
  pub session_cookie : Text

-- `strings.SplitN(s, " ", 2)`, where there is a space
unfoldable pub split_space : Text → Option (Text × Text)
split_space [] = none
split_space (c ∷ cs) =
    if c == b' '
    then some ([], cs)
    else elim (split_space cs) [ none ↦ none | some (before, after) ↦ some (c ∷ before, after) ]

abbrev pub cookie_token : Option Text → Text × Bool
cookie_token none = ([], false)
cookie_token (some t) = (t, false)

abbrev bearer_or : Option (Text × Text) → Text × Bool → Text × Bool
bearer_or none other = other
bearer_or (some (scheme, token)) other =
    if text_eq scheme (codes "Bearer") then (token, true) else other

-- `extractJWT`: the token, empty if there is none, and whether the header held it.
unfoldable pub extract_jwt : Credentials → Text × Bool
extract_jwt c = bearer_or (split_space c.authorization) (cookie_token c.auth_token)

unfoldable pub check_session :
    (now : ℕ) → (up : Bool) → (user_id session_cookie : Text) → Sessions → Bool
check_session now up user_id session_cookie m = elim (get_session now up user_id m) [
  | none ↦ false
  | some cached ↦ not (is_empty cached) && text_eq cached session_cookie
]

-- A request that passed: its user, and the token that the answer sets as a cookie, if any.
pub record Pass : Type 0 where
  pub user_id : Text
  pub new_token : Option Text

-- The claims of a token, if they name a user.
abbrev pub named : Option Claims → Option Text
named none = none
named (some c) = if is_empty c.user_id then none else some c.user_id

abbrev kept_or : Sessions → Option Sessions → Sessions
kept_or m none = m
kept_or m (some m') = m'

abbrev pub unauthorized : {A : Type 0} → Reply A
unauthorized = refused 401 (codes "UNAUTHORIZED")

module _ (jwt : Jwt) where
  -- The renewal of an expired token by the session, which is then extended.
  unfoldable pub renew :
      (now : ℕ) → (up : Bool) → (token session_cookie : Text) → Sessions → Reply Pass × Sessions
  renew now up token session_cookie m = elim (named (parse_token_ignore_expiry jwt token)) [
    | none ↦ (unauthorized, m)
    | some user_id ↦
        if check_session now up user_id session_cookie m
        then elim (generate_token jwt now user_id) [
          | none ↦ (unauthorized, m)
          | some new_token ↦ (
            answered (record { user_id = user_id; new_token = some new_token }),
            kept_or m (set_session now up user_id session_cookie session_expiry m),
          )
        ]
        else (unauthorized, m)
  ]

  -- `JWTAuth`
  unfoldable pub jwt_auth : (now : ℕ) → (up : Bool) → Credentials → Sessions → Reply Pass × Sessions
  jwt_auth now up c m =
      let (token, from_header) = extract_jwt c in
      if is_empty token then (unauthorized, m) else elim (named (parse_token jwt now token)) [
        | none ↦ renew now up token c.session_cookie m
        | some user_id ↦
            if not from_header && not (check_session now up user_id c.session_cookie m)
            then (unauthorized, m)
            else (answered (record { user_id = user_id; new_token = none }), m)
      ]
