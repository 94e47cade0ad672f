-- ===== src/Auth.antt =====
-- Roles, tokens and the guard of the endpoints (gateway/auth.py), and `login` of gateway.py.
-- The token library is the record `Jwt`: what the program relies on of `jose.jwt`.
pub mod Access
pub mod Session
pub mod Written
mod Tests
use Prim.Native.Char.{code}
use ai_system.Common.{
  ℕ, ◌+◌, ◌-◌, ◌*◌, ◌≤◌, ◌<◌, ◌≡◌, ◌≢◌, String, Bool, true, false, not, ◌&&◌, Option, none, some,
  List, [], ◌∷◌, ◌++◌, ltb, leb, eqb, ◌==◌, if◌then◌else◌,
}

pub data Role : Type 0 where
  viewer operator admin : Role

-- `ROLE_LEVEL`
abbrev pub role_level : Role → ℕ
role_level viewer = 0
role_level operator = 1
role_level admin = 2

-- What `Role = Literal["viewer", "operator", "admin"]` accepts.
unfoldable pub parse_role : String → Option Role
parse_role s =
    if s == "viewer"
    then some viewer
    else if s == "operator"
    then some operator
    else if s == "admin"
    then some admin
    else none

abbrev pub role_name : Role → String
role_name viewer = "viewer"
role_name operator = "operator"
role_name admin = "admin"

-- The claims that a token carries, before they are validated.
pub record Claims : Type 0 where
  pub sub : String
  pub role : String
  pub iat : ℕ
  pub exp : ℕ

-- `TokenPayload`
pub record TokenPayload : Type 0 where
  pub sub : String
  pub role : Role
  pub exp : ℕ

pub record AuthContext : Type 0 where
  pub user_id : String
  pub role : Role
  pub via_api_key : Bool

-- The two secrets of `ai.settings`.
pub record Secrets : Type 0 where
  pub api_key : Option String
  pub jwt_secret : Option String

-- `jose.jwt`: `encode` signs, `decode` at a time gives the claims back, or raises `JWTError`. A
-- token is accepted under the secret that signed it up to its expiry, and not later.
pub record Jwt : Type 0 where
  pub encode : Claims → String → String
  pub decode : ℕ → String → String → Option Claims
  pub decode-encode :
      (c : Claims) (s : String) (now : ℕ) → now ≤ c.exp → decode now (encode c s) s ≡ some c
  pub decode_expired :
      (c : Claims) (s : String) (now : ℕ) → c.exp < now → decode now (encode c s) s ≡ none
  pub encode-nonempty : (c : Claims) (s : String) → encode c s ≢ ""

pub data Failure : Type 0 where
  unauthorized : String → Failure
  forbidden : String → Failure
  invalid_payload not_configured type_error : Failure

pub data Result {ℓ} (A : Type ℓ) : Type ℓ where
  ok : A → Result A
  err : Failure → Result A

-- Python's truth of `str | None`
abbrev pub given : Option String → Bool
given none = false
given (some s) = not (s == "")

-- `request.state`, as far as the guard writes it.
pub record RequestState : Type 0 where
  pub user_id : Option String
  pub user_role : Option Role

-- The text behind a prefix: for the prefix "Bearer ", whose one space is its end, this is
-- `startswith` followed by `split(" ", 1)[1]`.
unfoldable pub behind : String → String → Option String
behind String.[] s = some s
behind (String.◌∷◌ c p) String.[] = none
behind (String.◌∷◌ c p) (String.◌∷◌ d s) =
    let rest = behind p s in if eqb (code c) (code d) then rest else none

abbrev pub bearer_token : Option String → Option String
bearer_token none = none
bearer_token (some authorization) = behind "Bearer " authorization

-- What `int(dt.datetime.utcnow().timestamp())` gives at the time `now` on a host that is `east` or
-- `west` seconds from UTC: the naive time is read as a local one.
abbrev pub naive_timestamp : ℕ → ℕ → ℕ → ℕ
naive_timestamp east west now = now + west - east

abbrev validated : Option Role → Claims → Result TokenPayload
validated none c = err invalid_payload
validated (some r) c = ok (record { sub = c.sub; role = r; exp = c.exp })

-- `TokenPayload(**data)`
unfoldable pub validate : Claims → Result TokenPayload
validate c = validated (parse_role c.role) c

-- `str.isascii`
abbrev pub is_ascii : String → Bool
is_ascii String.[] = true
is_ascii (String.◌∷◌ c s) = let rest = is_ascii s in if ltb (code c) 128 then rest else false

module _ (jwt : Jwt) (settings : Secrets) where
  abbrev sign : Option String → Claims → Result String
  sign none c = err not_configured
  sign (some secret) c =
      if given (some secret) then ok (jwt.encode c secret) else err not_configured

  -- `issue_jwt`, at the naive timestamp `stamp`
  unfoldable pub issue_jwt : ℕ → String → Role → ℕ → Result String
  issue_jwt stamp sub role ttl_minutes =
      sign settings.jwt_secret
        (record { sub = sub; role = role_name role; iat = stamp; exp = stamp + ttl_minutes * 60 })

  abbrev decoded : Option Claims → Result TokenPayload
  decoded none = err (unauthorized "Invalid token")
  decoded (some c) = validate c

  abbrev decode_with : ℕ → String → Option String → Result TokenPayload
  decode_with now token none = err (unauthorized "JWT disabled")
  decode_with now token (some secret) =
      if given (some secret)
      then decoded (jwt.decode now token secret)
      else err (unauthorized "JWT disabled")

  -- `_decode`, at the time `now`
  unfoldable pub decode_token : ℕ → String → Result TokenPayload
  decode_token now token = decode_with now token settings.jwt_secret

  -- `settings.api_key and secrets.compare_digest(x_api_key, settings.api_key)`. `compare_digest`
  -- raises a `TypeError` for a text outside ASCII.
  abbrev key_matches : String → Option String → Result Bool
  key_matches key none = ok false
  key_matches key (some api_key) =
      if given (some api_key)
      then (if is_ascii key && is_ascii api_key then ok (key == api_key) else err type_error)
      else ok false

  abbrev admit : Role → Result TokenPayload → RequestState → Result AuthContext × RequestState
  admit role (err e) s = (err e, s)
  admit role (ok p) s =
      if ltb (role_level p.role) (role_level role)
      then (err (forbidden "Insufficient role"), s)
      else (
        ok (record { user_id = p.sub; role = p.role; via_api_key = false }),
        record s { user_id = some p.sub; user_role = some p.role },
      )

  abbrev by_token : Role → ℕ → Option String → RequestState → Result AuthContext × RequestState
  by_token role now none s = (err (unauthorized "Authorization required"), s)
  by_token role now (some token) s =
      if token == ""
      then (err (unauthorized "Authorization required"), s)
      else admit role (decode_token now token) s

  abbrev by_key : Result Bool → RequestState → Result AuthContext × RequestState
  by_key (err e) s = (err e, s)
  by_key (ok matches) s =
      if matches
      then (
        ok (record { user_id = "api-key"; role = admin; via_api_key = true }),
        record s { user_id = some "api-key"; user_role = some admin },
      )
      else (err (unauthorized "Invalid API key"), s)

  -- The dependency that `require(role)` returns, on the two headers, at the time `now`.
  unfoldable pub require :
      Role → ℕ → Option String → Option String → RequestState → Result AuthContext × RequestState
  require role now authorization (some x_api_key) s =
      by_key (key_matches x_api_key settings.api_key) s
  require role now authorization none s = by_token role now (bearer_token authorization) s

  abbrev same_key : Option String → Option String → Bool
  same_key (some k) (some x) = k == x
  same_key _ _ = false

  abbrev logged : Role → List Role → Result String → Result String × List Role
  logged role log (ok token) = (ok token, log ++ role ∷ [])
  logged role log (err e) = (err e, log)

  -- `login` of gateway.py, at the naive timestamp `stamp`. The second result is the log of the
  -- "auth.login" events, each with its role.
  unfoldable pub login : ℕ → Option String → String → Role → List Role → Result String × List Role
  login stamp x_api_key email role log =
      if same_key settings.api_key x_api_key
      then logged role log (issue_jwt stamp email role 60)
      else (err (unauthorized "Invalid API key"), log)
