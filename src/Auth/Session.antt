-- ===== src/Auth/Session.antt =====
-- From the login to the guard: what an issued token opens, and for how long.
use ai_system.Common.{
  ℕ, ◌+◌, ◌-◌, ◌*◌, ◌≤◌, ◌<◌, ◌≡◌, ◌≢◌, refl, String, true, false, Option, none, some, ltb, List,
  arith, eq_iff, ne→beq, Bool-cases, inl, inr, if◌then◌else◌, sym, ◌∙◌,
}
use ai_system.Auth.{
  Role, viewer, operator, admin, role_level, role_name, parse_role, Claims, Secrets, Jwt, Result,
  ok, err, unauthorized, forbidden, RequestState, behind, naive_timestamp, validate, issue_jwt,
  decode_token, require, login,
}

parse_role-role_name : (r : Role) → parse_role (role_name r) ≡ some r
unfolding parse_role
parse_role-role_name viewer = refl
parse_role-role_name operator = refl
parse_role-role_name admin = refl

module _ (jwt : Jwt) (settings : Secrets) where
  abbrev claims : ℕ → String → Role → ℕ → Claims
  claims stamp sub role ttl = record {
    sub = sub;
    role = role_name role;
    iat = stamp;
    exp = stamp + ttl * 60;
  }

  -- A token that was issued, and what decodes it.
  issued :
      (stamp : ℕ) (sub : String) (role : Role) (ttl : ℕ) {token : String}
      → issue_jwt jwt settings stamp sub role ttl ≡ ok token
      → (secret : String) × (settings.jwt_secret ≡ some secret)
        × (secret ≢ "")
        × (token ≡ jwt.encode (claims stamp sub role ttl) secret)
  unfolding issue_jwt
  issued stamp sub role ttl {token = token} h = go settings.jwt_secret refl
    where
      go :
          (o : Option String)
          → settings.jwt_secret ≡ o
          → (secret : String) × (settings.jwt_secret ≡ some secret)
            × (secret ≢ "")
            × (token ≡ jwt.encode (claims stamp sub role ttl) secret)
      go none e = absurd (ground arith)
      go (some secret) e =
          (secret, e, ground (arith, eq_iff secret ""), ground (arith, eq_iff secret ""))

  decode_token-issued :
      (stamp : ℕ) (sub : String) (role : Role) (ttl now : ℕ) {token : String}
      → issue_jwt jwt settings stamp sub role ttl ≡ ok token
      → decode_token jwt settings now token ≡ (
          if ltb (stamp + ttl * 60) now
          then err (unauthorized "Invalid token")
          else ok (record { sub = sub; role = role; exp = stamp + ttl * 60 }))
  unfolding decode_token validate
  decode_token-issued stamp sub role ttl now {token = token} h =
      let (secret, set, nonempty, e) = issued stamp sub role ttl h in
      ground (
        arith,
        set,
        nonempty,
        e,
        eq_iff secret "",
        parse_role-role_name role,
        jwt.decode-encode (claims stamp sub role ttl) secret now,
        jwt.decode_expired (claims stamp sub role ttl) secret now,
      )

  token-nonempty :
      (stamp : ℕ) (sub : String) (role : Role) (ttl : ℕ) {token : String}
      → issue_jwt jwt settings stamp sub role ttl ≡ ok token
      → token ≢ ""
  token-nonempty stamp sub role ttl {token = token} h empty =
      let (secret, set, nonempty, e) = issued stamp sub role ttl h in
      jwt.encode-nonempty (claims stamp sub role ttl) secret (sym e ∙ empty)

  login-issues :
      (stamp : ℕ) (key : Option String) (email : String) (role : Role) (log : List Role)
      {token : String}
      → (login jwt settings stamp key email role log).0 ≡ ok token
      → issue_jwt jwt settings stamp email role 60 ≡ ok token
  unfolding login
  login-issues stamp key email role log {token = token} h =
      go (issue_jwt jwt settings stamp email role 60) refl
    where
      go : (r : Result String) → issue_jwt jwt settings stamp email role 60 ≡ r → r ≡ ok token
      go (ok t) e = ground arith
      go (err f) e = absurd (ground arith)

  -- A token that `login` handed out, sent back as a bearer token to the guard of the role `wanted`
  -- with no API key: after its hour is over, as the naive timestamp counts it, it is refused as
  -- invalid; before, it is refused exactly if its role is below the wanted one, and lets its owner
  -- in with its role otherwise. The hour runs from the naive timestamp of the login.
  pub require-login :
      (east west issued_at now : ℕ) (key : Option String) (email : String) (role wanted : Role)
      (log : List Role) (header : String) (s : RequestState) {token : String}
      → (login jwt settings (naive_timestamp east west issued_at) key email role log).0 ≡ ok token
      → behind "Bearer " header ≡ some token
      → (require jwt settings wanted now (some header) none s).0 ≡ (
          if ltb (issued_at + west - east + 3600) now
          then err (unauthorized "Invalid token")
          else if ltb (role_level role) (role_level wanted)
          then err (forbidden "Insufficient role")
          else ok (record { user_id = email; role = role; via_api_key = false }))
  unfolding require
  require-login east west issued_at now key email role wanted log header s {token = token} h b =
      let i = login-issues (naive_timestamp east west issued_at) key email role log h in
      let d = decode_token-issued (naive_timestamp east west issued_at) email role 60 now i in
      let n = token-nonempty (naive_timestamp east west issued_at) email role 60 i in
      rw (b, ne→beq token "" n, d)
        (elim (Bool-cases (ltb (issued_at + west - east + 3600) now)) [
          | inl over ↦ rw over
          | inr live ↦ elim (Bool-cases (ltb (role_level role) (role_level wanted))) [
            | inl low ↦ rw (live, low)
            | inr high ↦ rw (live, high)
          ]
        ])

  -- On a host more than an hour east of UTC the token of a login is refused at the very time of the
  -- login, whatever role it carries and whatever guard it is sent to.
  pub require-login_east :
      (east issued_at : ℕ) (key : Option String) (email : String) (role wanted : Role)
      (log : List Role) (header : String) (s : RequestState) {token : String}
      → 3600 < east
      → east ≤ issued_at
      → (login jwt settings (naive_timestamp east 0 issued_at) key email role log).0 ≡ ok token
      → behind "Bearer " header ≡ some token
      → (require jwt settings wanted issued_at (some header) none s).0
        ≡ err (unauthorized "Invalid token")
  require-login_east east issued_at key email role wanted log header s far past h b =
      let before : ltb (issued_at + 0 - east + 3600) issued_at ≡ true = ground arith in
      require-login east 0 issued_at issued_at key email role wanted log header s h b ∙ rw before
