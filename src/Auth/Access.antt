-- ===== src/Auth/Access.antt =====
-- Who passes the guard of an endpoint.
use Prim.Native.Char.{code}
use Prim.Native.String as Text
use ai_system.Common.{
  ◌<◌, ℕ, ◌≤◌, ◌≡◌, ◌≢◌, ◌↔◌, refl, String, true, false, Option, none, some, arith, eq_iff,
  Option-cases, inl, inr,
}
use ai_system.Auth.{
  Role, admin, role_level, TokenPayload, AuthContext, Secrets, Jwt, Result, ok, err, RequestState,
  is_ascii, bearer_token, decode_token, require,
}

-- Every letter of a text is one of ASCII.
abbrev pub IsAscii : String → Type 0
IsAscii Text.[] = Unit
IsAscii (Text.◌∷◌ c s) = (code c < 128) × IsAscii s

IsAscii-is_ascii : (s : String) → IsAscii s → is_ascii s ≡ true
IsAscii-is_ascii Text.[] h = refl
IsAscii-is_ascii (Text.◌∷◌ c s) h = ground (arith, h.0, IsAscii-is_ascii s h.1)

is_ascii-IsAscii : (s : String) → is_ascii s ≡ true → IsAscii s
is_ascii-IsAscii Text.[] h = tt
is_ascii-IsAscii (Text.◌∷◌ c s) h =
    let others : is_ascii s ≡ true = ground (arith, h) in
    (ground (arith, h), is_ascii-IsAscii s others)

module _ (jwt : Jwt) (settings : Secrets) where
  -- The two ways in, in the words of the documentation: the configured API key, which counts as an
  -- administrator, or else a valid bearer token whose role is high enough.
  pub data Admits (role : Role) (now : ℕ) (authorization key : Option String) (ctx : AuthContext)
      : Type 0 where
    by_key :
        (k : String)
        → key ≡ some k
        → settings.api_key ≡ some k
        → k ≢ ""
        → IsAscii k
        → ctx ≡ record { user_id = "api-key"; role = admin; via_api_key = true }
        → Admits role now authorization key ctx
    by_bearer :
        (token : String) (p : TokenPayload)
        → key ≡ none
        → bearer_token authorization ≡ some token
        → token ≢ ""
        → decode_token jwt settings now token ≡ ok p
        → role_level role ≤ role_level p.role
        → ctx ≡ record { user_id = p.sub; role = p.role; via_api_key = false }
        → Admits role now authorization key ctx

  Admits-require :
      (role : Role) (now : ℕ) (authorization key : Option String) (s : RequestState)
      (ctx : AuthContext)
      → Admits role now authorization key ctx
      → (require jwt settings role now authorization key s).0 ≡ ok ctx
  unfolding require
  Admits-require role now authorization key s ctx (by_key k e a n asc c) =
      ground (arith, eq_iff k k, eq_iff k "", IsAscii-is_ascii k asc)
  Admits-require role now authorization key s ctx (by_bearer token p e b n d l c) =
      ground (arith, eq_iff token "")

  key_of_require :
      (role : Role) (now : ℕ) (authorization : Option String) (k : String) (s : RequestState)
      (ctx : AuthContext)
      → (require jwt settings role now authorization (some k) s).0 ≡ ok ctx
      → (settings.api_key ≡ some k)
        × (k ≢ "")
        × (is_ascii k ≡ true)
        × (ctx ≡ record { user_id = "api-key"; role = admin; via_api_key = true })
  unfolding require
  key_of_require role now authorization k s ctx h = elim (Option-cases settings.api_key) [
    | inl unset ↦ ground arith
    | inr (configured, set) ↦ ground (arith, set, eq_iff k configured, eq_iff configured "")
  ]

  bearer_of_require :
      (role : Role) (now : ℕ) (authorization : Option String) (s : RequestState) (ctx : AuthContext)
      → (require jwt settings role now authorization none s).0 ≡ ok ctx
      → (token : String) × (p : TokenPayload) × (bearer_token authorization ≡ some token)
        × (token ≢ "")
        × (decode_token jwt settings now token ≡ ok p)
        × (role_level role ≤ role_level p.role)
        × (ctx ≡ record { user_id = p.sub; role = p.role; via_api_key = false })
  unfolding require
  bearer_of_require role now authorization s ctx h =
      elim (Option-cases (bearer_token authorization)) [
        | inl absent ↦ absurd (ground arith)
        | inr (token, e) ↦ from (decode_token jwt settings now token) token e refl
      ]
    where
      from :
          (r : Result TokenPayload) (token : String)
          → bearer_token authorization ≡ some token
          → decode_token jwt settings now token ≡ r
          → (token : String) × (p : TokenPayload) × (bearer_token authorization ≡ some token)
            × (token ≢ "")
            × (decode_token jwt settings now token ≡ ok p)
            × (role_level role ≤ role_level p.role)
            × (ctx ≡ record { user_id = p.sub; role = p.role; via_api_key = false })
      from (ok p) token e d =
          (token, p, e, ground (arith, eq_iff token ""), d, ground arith, ground arith)
      from (err f) token e d = absurd (ground arith)

  require-Admits :
      (role : Role) (now : ℕ) (authorization key : Option String) (s : RequestState)
      (ctx : AuthContext)
      → (require jwt settings role now authorization key s).0 ≡ ok ctx
      → Admits role now authorization key ctx
  require-Admits role now authorization (some k) s ctx h =
      let (a, n, asc, c) = key_of_require role now authorization k s ctx h in
      by_key k refl a n (is_ascii-IsAscii k asc) c
  require-Admits role now authorization none s ctx h =
      let (token, p, b, n, d, l, c) = bearer_of_require role now authorization s ctx h in
      by_bearer token p refl b n d l c

  -- The guard of an endpoint returns a context exactly when the request carries the configured,
  -- nonempty API key and that key is in ASCII, or carries no API key but a valid bearer token of a role at least as high; and
  -- the context is the one of that key or that token.
  pub require_iff-Admits :
      (role : Role) (now : ℕ) (authorization key : Option String) (s : RequestState)
      (ctx : AuthContext)
      → ((require jwt settings role now authorization key s).0 ≡ ok ctx)
        ↔ Admits role now authorization key ctx
  require_iff-Admits role now authorization key s ctx = (
    require-Admits role now authorization key s ctx,
    Admits-require role now authorization key s ctx,
  )

  Admits-mono :
      (low high : Role) (now : ℕ) (authorization key : Option String) (ctx : AuthContext)
      → role_level low ≤ role_level high
      → Admits high now authorization key ctx
      → Admits low now authorization key ctx
  Admits-mono low high now authorization key ctx le (by_key k e a n asc c) = by_key k e a n asc c
  Admits-mono low high now authorization key ctx le (by_bearer t p e b n d l c) =
      by_bearer t p e b n d (omega arith) c

  -- Who passes the guard of a role passes the guard of every lower role, as the same user.
  pub require_mono :
      (low high : Role) (now : ℕ) (authorization key : Option String) (s : RequestState)
      (ctx : AuthContext)
      → role_level low ≤ role_level high
      → (require jwt settings high now authorization key s).0 ≡ ok ctx
      → (require jwt settings low now authorization key s).0 ≡ ok ctx
  require_mono low high now authorization key s ctx le h =
      Admits-require low now authorization key s ctx (
        Admits-mono low high now authorization key ctx le
          (require-Admits high now authorization key s ctx h))
