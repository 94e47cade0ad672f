-- ===== src/Auth/Tests.antt =====
-- The guard and the login on concrete inputs.
use Prim.Native.String.{◌∷◌ as cons}
use ai_system.Common.{
  ℕ, ◌+◌, ◌-◌, ◌*◌, ◌≡◌, ◌↔◌, refl, String, true, false, none, some, [], ltb, arith, if◌then◌else◌,
}
use ai_system.Auth.{
  viewer, operator, admin, role_level, role_name, AuthContext, Secrets, ok, err, unauthorized,
  forbidden, type_error, RequestState, behind, require, login, issue_jwt,
}
use ai_system.Auth.Written.{written, encode}
use ai_system.Auth.Access.{Admits, require_iff-Admits}
use ai_system.Auth.Session.{require-login, require-login_east}

abbrev settings : Secrets
settings = record { api_key = some "key"; jwt_secret = some "secret" }

abbrev request : RequestState
request = record { user_id = none; user_role = none }

-- The token of a login at the timestamp `stamp`.
abbrev token : ℕ → String
token stamp =
    encode (record { sub = "ann@x"; role = role_name operator; iat = stamp; exp = stamp + 60 * 60 })
      "secret"

abbrev bearer : String → String
bearer t = cons "B" (cons "e" (cons "a" (cons "r" (cons "e" (cons "r" (cons " " t))))))

abbrev by_key : AuthContext
by_key = record { user_id = "api-key"; role = admin; via_api_key = true }

require_iff-Admits_example :
    ((require written settings operator 5000 none (some "key") request).0 ≡ ok by_key)
    ↔ Admits written settings operator 5000 none (some "key") by_key
require_iff-Admits_example =
    require_iff-Admits written settings operator 5000 none (some "key") request by_key

-- A letter outside ASCII in the header is an error of the server.
raises_type_error :
    (require written settings operator 5000 none (some "kéy") request).0 ≡ err type_error
unfolding require
raises_type_error = refl

require-login_example :
    (require written settings admin 2000 (some (bearer (token 1000))) none request).0 ≡ (
      if ltb (1000 + 0 - 0 + 3600) 2000
      then err (unauthorized "Invalid token")
      else if ltb (role_level operator) (role_level admin)
      then err (forbidden "Insufficient role")
      else ok (record { user_id = "ann@x"; role = operator; via_api_key = false }))
unfolding login issue_jwt behind
require-login_example =
    require-login written settings 0 0 1000 2000 (some "key") "ann@x" operator admin []
      (bearer (token 1000)) request refl refl

require-login_east_example :
    (require written settings viewer 9000 (some (bearer (token 1000))) none request).0
    ≡ err (unauthorized "Invalid token")
unfolding login issue_jwt behind
require-login_east_example =
    require-login_east written settings 8000 9000 (some "key") "ann@x" operator viewer []
      (bearer (token 1000)) request (omega arith) (omega arith) refl refl
