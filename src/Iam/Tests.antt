-- ===== src/Iam/Tests.antt =====
-- The theorems on roles, groups, passwords and sessions at concrete requests.
use my_go_market.Prelude.{
  ◌-◌, ◌++◌, ℕ, suc, ◌+◌, ◌*◌, ◌<◌, Bool, true, false, not, Option, none, some, List, [], ◌∷◌, ◌≡◌,
  ◌≢◌, refl, ◌⊎◌, inl, inr, if◌then◌else◌, length, ltb, leb, arith, All,
}
use my_go_market.Prelude.Int.{ℤ, pos}
use my_go_market.Prelude.Text.{Text, codes, is_empty, text_eq}
use my_go_market.Errors.{ok}
use my_go_market.Web.{answered}
use my_go_market.Iam.Roles.{
  Permission, Role, Grant, RoleStore, LoadedRole, has_grant, find_role, replace_role_permissions,
}
use my_go_market.Iam.RoleLaws.{requested, replace_exact, replace_all, superadmin_keeps_manage}
use my_go_market.Iam.Groups.{Group, GroupStore, owner_role, register_group}
use my_go_market.Iam.Members.{HasOwner}
use my_go_market.Iam.Ownership.{
  Request, to_rename, to_invite, to_change_role, to_leave, to_kick, to_dissolve, serve_all,
  registered_keeps_owner,
}
use my_go_market.Iam.Sessions.{
  Claims, Jwt, Sessions, Session, Credentials, Pass, extract_jwt, get_session, session_expiry,
  access_token_expiry, jwt_auth,
}
use my_go_market.Iam.SessionLaws.{IsSigned, passed_by}
use my_go_market.Iam.Passwords.{
  HashLib, NoDollar, dollar, params, hash_password, check_password_hash, check-hash_password,
}
use my_go_market.Iam.Users.{
  User, Accounts, Moment, RegisterRequest, LoginRequest, LoggedIn, register, login, update_password,
}
use my_go_market.Iam.Logins.{browser, PassesFor}
use my_go_market.Iam.Accounts.{IsBearer, login_passes, login_replaces, update_password_ends}
use my_go_market.Iam.Passwords
use my_go_market.Iam.Logins

-- Roles.

abbrev roles_before : RoleStore
roles_before = record {
  roles =
      record { role_id = 1; name = codes "superadmin" }
      ∷ record { role_id = 2; name = codes "admin" }
      ∷ [];
  permissions =
      record { permission_id = 1; code = codes "role:manage" }
      ∷ record { permission_id = 2; code = codes "app:review" }
      ∷ [];
  grants =
      record { role_id = 1; permission_id = 1 } ∷ record { role_id = 2; permission_id = 1 } ∷ [];
}

abbrev review_only : List ℤ
review_only = pos 2 ∷ pos 2 ∷ []

abbrev admin_after : LoadedRole
admin_after = record {
  role = record { role_id = 2; name = codes "admin" };
  permissions = record { permission_id = 2; code = codes "app:review" } ∷ [];
}

abbrev roles_after : RoleStore
roles_after = record {
  roles = roles_before.roles;
  permissions = roles_before.permissions;
  grants =
      record { role_id = 2; permission_id = 2 } ∷ record { role_id = 1; permission_id = 1 } ∷ [];
}

replace_exact_example :
    (has_grant 2 1 roles_after.grants ≡ false)
    × (roles_after.roles ≡ roles_before.roles)
    × (roles_after.permissions ≡ roles_before.permissions)
    × (find_role 2 roles_after ≡ ok admin_after)
unfolding replace_role_permissions my_go_market.Iam.Roles.replace_in_tx my_go_market.Table.lookup
    my_go_market.Iam.Roles.unique_ids my_go_market.Iam.Roles.count_in my_go_market.Iam.Roles.elem
    my_go_market.Iam.Roles.check_superadmin my_go_market.Prelude.Text.text_eq find_role
    my_go_market.Iam.Roles.insert_grants requested
    my_go_market.Iam.Roles.list_permissions_by_role_id has_grant
    my_go_market.Iam.Roles.delete_grants
replace_exact_example = replace_exact 2 review_only roles_before 2 1 refl

superadmin_keeps_manage_example :
    has_grant 1 1
      (replace_all ((1, review_only) ∷ (2, []) ∷ (1, pos 1 ∷ pos 2 ∷ []) ∷ []) roles_before).grants
    ≡ true
unfolding my_go_market.Prelude.Text.text_eq my_go_market.Table.lookup my_go_market.Table.find_by
    has_grant
superadmin_keeps_manage_example =
    superadmin_keeps_manage ((1, review_only) ∷ (2, []) ∷ (1, pos 1 ∷ pos 2 ∷ []) ∷ []) 1
      (record { role_id = 1; name = codes "superadmin" })
      (record { permission_id = 1; code = codes "role:manage" }) roles_before refl refl refl refl

-- Groups: user 7 registers group 1, and users 7 and 8 then try to leave it.

abbrev no_groups : GroupStore
no_groups = record { user_ids = 7 ∷ 8 ∷ []; role_ids = 1 ∷ 2 ∷ 3 ∷ []; groups = []; members = [] }

abbrev requests : List Request
requests =
    to_invite 1 8 3
    ∷ to_change_role 1 7 3
    ∷ to_rename 1 (codes "indie")
    ∷ to_leave 7 1
    ∷ to_kick 1 8
    ∷ to_leave 8 1
    ∷ to_dissolve 2
    ∷ []

registered_keeps_owner_example :
    HasOwner 1 7 owner_role (serve_all requests (register_group 1 50 (codes "games") 7 no_groups).1)
unfolding register_group my_go_market.Iam.Groups.save my_go_market.Iam.Roles.elem
    my_go_market.Table.lookup my_go_market.Iam.Groups.add_member my_go_market.Table.find_by
registered_keeps_owner_example =
    registered_keeps_owner 1 50 (codes "games") 7 no_groups requests
      {g = record { group_id = 1; group_name = codes "games"; owner_id = 7; created_at = 50 }} refl
      (tt, (tt, (tt, (tt, (refl, (tt, ((λ e. absurd (omega (arith, e))), tt)))))))

-- Passwords: a library whose keys are passwords cut or filled to the length that is asked, and whose
-- encoding moves every byte past `$`.

unfoldable fit : ℕ → Text → Text
fit ℕ.zero s = []
fit (suc n) [] = 65 ∷ fit n []
fit (suc n) (c ∷ cs) = c ∷ fit n cs

length-fit : (n : ℕ) (s : Text) → length (fit n s) ≡ n
unfolding fit
length-fit ℕ.zero s = refl
length-fit (suc n) [] = ground (arith, length-fit n [])
length-fit (suc n) (c ∷ cs) = ground (arith, length-fit n cs)

unfoldable move_up : Text → Text
move_up [] = []
move_up (c ∷ cs) = (c + 37) ∷ move_up cs

unfoldable move_down : Text → Text
move_down [] = []
move_down (c ∷ cs) = (c - 37) ∷ move_down cs

move_down-move_up : (s : Text) → move_down (move_up s) ≡ s
unfolding move_down move_up
move_down-move_up [] = refl
move_down-move_up (c ∷ cs) = ground (arith, move_down-move_up cs)

move_up-NoDollar : (s : Text) → NoDollar (move_up s)
unfolding move_up
move_up-NoDollar [] = tt
move_up-NoDollar (c ∷ cs) = (λ h. omega arith, move_up-NoDollar cs)

abbrev hashes : HashLib
hashes = record {
  id_key = λ password salt t m p n. fit n password;
  encode = move_up;
  decode = move_down;
  sscanf = λ s. (32 * 1024, 1, 2);
}

hashes-IsFaithful : Passwords.IsFaithful hashes
hashes-IsFaithful = record {
  decode_encode = move_down-move_up;
  plain = move_up-NoDollar;
  key_length = λ password salt t m p n _ _. length-fit n password;
  reads = refl;
}

check-hash_password_example :
    check_password_hash hashes
      (codes "secret")
      (hash_password hashes (codes "sixteen bytes...") (codes "secret"))
    ≡ true
check-hash_password_example =
    check-hash_password hashes (codes "sixteen bytes...") (codes "secret") hashes-IsFaithful

-- Sessions: tokens that are the claims in the clear; a user who registers and logs in.

unfoldable read_claims : Text → Option Claims
read_claims [] = none
read_claims (e ∷ u) = some (record { user_id = u; expires_at = e })

abbrev clear : Jwt
clear = record { sign = λ c. some (c.expires_at ∷ c.user_id); verify = read_claims }

clear-IsFaithful : Logins.IsFaithful clear
unfolding read_claims
clear-IsFaithful = record { signs = λ c. (c.expires_at ∷ c.user_id, refl, refl, refl) }

abbrev moment : ℕ → Moment
moment n = record {
  now = n;
  up = true;
  user_id = codes "u7";
  salt = some (codes "salt");
  session_id = codes "s9";
}

abbrev registered : Accounts
registered = record {
  users =
      record {
        user_id = codes "u7";
        username = codes "tomori";
        email = codes "t@x";
        password_hash = hash_password hashes (codes "salt") (codes "secret");
        avatar_url = [];
        is_active = true;
      }
      ∷ [];
  sessions = λ k. none;
}

abbrev credentials : LoginRequest
credentials = record { email = codes "t@x"; password = codes "secret" }

abbrev logged_in : LoggedIn
logged_in = record {
  user_id = codes "u7";
  token = (1000 + 30 * 60) ∷ codes "u7";
  session_id = codes "s9";
}

abbrev after_login : Accounts
after_login = (login hashes clear (moment 1000) (some credentials) registered).1

login_answers :
    login hashes clear (moment 1000) (some credentials) registered
    ≡ (answered logged_in, after_login)
unfolding login my_go_market.Iam.Users.find_by_email my_go_market.Table.find_by
    my_go_market.Prelude.Text.text_eq my_go_market.Iam.Users.check_password check_password_hash
    Passwords.split hash_password move_up fit move_down Passwords.part
    my_go_market.Iam.Users.open_session my_go_market.Iam.Sessions.generate_token
    my_go_market.Iam.Sessions.set_session
login_answers = refl

-- After 4000 seconds the token has expired, and is renewed.
login_passes_example :
    (p : Pass) × (m : Sessions) × (jwt_auth clear 5000 true (browser logged_in) after_login.sessions
      ≡ (answered p, m))
    × PassesFor clear 5000 (1000 + access_token_expiry) logged_in after_login.sessions p m
login_passes_example =
    login_passes hashes clear (moment 1000) credentials registered 5000 clear-IsFaithful
      login_answers refl refl (omega arith)

abbrev passed_as : Pass
passed_as = record { user_id = codes "u7"; new_token = none }

passes_2000 :
    jwt_auth clear 2000 true (browser logged_in) after_login.sessions
    ≡ (answered passed_as, after_login.sessions)
unfolding login my_go_market.Iam.Users.find_by_email my_go_market.Table.find_by text_eq
    my_go_market.Iam.Users.check_password check_password_hash Passwords.split hash_password move_up
    fit move_down Passwords.part my_go_market.Iam.Users.open_session
    my_go_market.Iam.Sessions.generate_token my_go_market.Iam.Sessions.set_session jwt_auth
    extract_jwt my_go_market.Iam.Sessions.split_space my_go_market.Iam.Sessions.parse_token
    read_claims my_go_market.Iam.Sessions.check_session get_session
passes_2000 = refl

passed_by_example :
    IsSigned clear logged_in.token (codes "u7")
    × ((get_session 2000 true (codes "u7") after_login.sessions ≡ some (codes "s9"))
        ⊎ IsBearer clear 2000 (browser logged_in))
unfolding extract_jwt my_go_market.Iam.Sessions.split_space
passed_by_example = passed_by clear 2000 true (browser logged_in) after_login.sessions passes_2000

login_replaces_example : (codes "s9" ≡ codes "s9") ⊎ IsBearer clear 2000 (browser logged_in)
login_replaces_example =
    login_replaces hashes clear (moment 1000) credentials registered 2000 true (browser logged_in)
      login_answers passes_2000 refl

abbrev bearer : Credentials
bearer = record {
  authorization = codes "Bearer " ++ logged_in.token;
  auth_token = none;
  session_cookie = [];
}

abbrev after_change : Accounts
after_change =
    (update_password hashes clear (moment 1500) (some (codes "u7"))
      (some (codes "secret", codes "other")) after_login).1

change_answers :
    update_password hashes clear
      (moment 1500)
      (some (codes "u7"))
      (some (codes "secret", codes "other"))
      after_login
    ≡ (answered tt, after_change)
unfolding login my_go_market.Iam.Users.find_by_email my_go_market.Table.find_by text_eq
    my_go_market.Iam.Users.check_password check_password_hash Passwords.split hash_password move_up
    fit move_down Passwords.part my_go_market.Iam.Users.open_session
    my_go_market.Iam.Sessions.generate_token my_go_market.Iam.Sessions.set_session update_password
    my_go_market.Iam.Users.find_by_id my_go_market.Iam.Users.save my_go_market.Iam.Users.replace
    my_go_market.Iam.Sessions.delete_session
change_answers = refl

bearer_passes :
    jwt_auth clear 2000 true bearer after_change.sessions
    ≡ (answered passed_as, after_change.sessions)
unfolding login my_go_market.Iam.Users.find_by_email my_go_market.Table.find_by text_eq
    my_go_market.Iam.Users.check_password check_password_hash Passwords.split hash_password move_up
    fit move_down Passwords.part my_go_market.Iam.Users.open_session
    my_go_market.Iam.Sessions.generate_token my_go_market.Iam.Sessions.set_session jwt_auth
    extract_jwt my_go_market.Iam.Sessions.split_space my_go_market.Iam.Sessions.parse_token
    read_claims my_go_market.Iam.Sessions.check_session get_session update_password
    my_go_market.Iam.Users.find_by_id my_go_market.Iam.Users.save my_go_market.Iam.Users.replace
    my_go_market.Iam.Sessions.delete_session
bearer_passes = refl

update_password_ends_example : IsBearer clear 2000 bearer
update_password_ends_example =
    update_password_ends hashes clear (moment 1500) (codes "u7") (codes "secret") (codes "other")
      after_login 2000 true bearer refl change_answers bearer_passes refl
