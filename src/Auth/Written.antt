-- ===== src/Auth/Written.antt =====
-- A token library that writes the claims out and checks nothing but the expiry: it meets the
-- interface `Jwt`, and the tests run on it.
use Prim.Native.Char.{Char, code}
use Prim.Native.String.{[], ◌∷◌}
use ai_system.Common.{
  ℕ, zero, suc, ◌≤◌, ◌<◌, ◌≡◌, ◌≢◌, refl, String, Option, none, some, ltb, eqb, arith,
  if◌then◌else◌,
}
use ai_system.Auth.{Claims, Jwt}

abbrev pub a : Char
a = "a"

abbrev pub b : Char
b = "b"

-- A number in unary, or a text with a mark before each character, and an end mark.
unfoldable pub write_number : ℕ → String → String
write_number zero rest = b ∷ rest
write_number (suc n) rest = a ∷ write_number n rest

unfoldable pub write_text : String → String → String
write_text [] rest = b ∷ rest
write_text (c ∷ s) rest = a ∷ c ∷ write_text s rest

unfoldable pub read_number : String → ℕ × String
read_number [] = (0, [])
read_number (c ∷ s) = let (n, r) = read_number s in if eqb (code c) b'a' then (suc n, r) else (0, s)

unfoldable pub read_text : String → String × String
read_text [] = ([], [])
read_text (c ∷ []) = ([], [])
read_text (c ∷ d ∷ s) =
    let (t, r) = read_text s in if eqb (code c) b'a' then (d ∷ t, r) else ([], d ∷ s)

pub read-write_number : (n : ℕ) (rest : String) → read_number (write_number n rest) ≡ (n, rest)
unfolding read_number write_number
read-write_number zero rest = refl
read-write_number (suc n) rest = rw (read-write_number n rest)

pub read-write_text : (s rest : String) → read_text (write_text s rest) ≡ (s, rest)
unfolding read_text write_text
read-write_text [] [] = refl
read-write_text [] (c ∷ rest) = refl
read-write_text (c ∷ s) rest = rw (read-write_text s rest)

unfoldable pub encode : Claims → String → String
encode c secret = write_number c.iat (write_number c.exp (write_text c.sub (write_text c.role [])))

unfoldable pub read_claims : String → Claims
read_claims token =
    let (iat, after_iat) = read_number token in
    let (exp, after_exp) = read_number after_iat in
    let (sub, after_sub) = read_text after_exp in
    let (role, rest) = read_text after_sub in
    record { sub = sub; role = role; iat = iat; exp = exp }

unfoldable pub decode : ℕ → String → String → Option Claims
decode now token secret = let c = read_claims token in if ltb c.exp now then none else some c

pub read_claims-encode : (c : Claims) (s : String) → read_claims (encode c s) ≡ c
unfolding read_claims encode
read_claims-encode c s = rw (
  read-write_number c.iat _,
  read-write_number c.exp _,
  read-write_text c.sub _,
  read-write_text c.role _,
)

pub decode_live :
    (c : Claims) (s : String) (now : ℕ) → now ≤ c.exp → decode now (encode c s) s ≡ some c
unfolding decode
decode_live c s now h = rw (read_claims-encode c s) (ground arith)

pub decode_over :
    (c : Claims) (s : String) (now : ℕ) → c.exp < now → decode now (encode c s) s ≡ none
unfolding decode
decode_over c s now h = rw (read_claims-encode c s) (ground arith)

write_number-nonempty : (n : ℕ) (rest : String) → write_number n rest ≢ ""
unfolding write_number
write_number-nonempty zero rest h = cc
write_number-nonempty (suc n) rest h = cc

pub encode_some : (c : Claims) (s : String) → encode c s ≢ ""
unfolding encode
encode_some c s = write_number-nonempty c.iat _

abbrev pub written : Jwt
written = record {
  encode = encode;
  decode = decode;
  decode-encode = decode_live;
  decode_expired = decode_over;
  encode-nonempty = encode_some;
}
