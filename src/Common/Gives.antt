-- ===== src/Common/Gives.antt =====
-- What the results of calls have, whenever they return.
use ai_system.Common.Effects.{Ended, returned, raised, Call, continue, pure, raise, ◌>>=◌, ◌>>◌}
use Prim.Native.String.{String}

-- How a call ends when it returns
abbrev pub Holds : {A : Type 0} → (A → Type 0) → Ended A → Type 0
Holds P (returned a) = P a
Holds P (raised e) = Unit

pub record Gives {S : Type 0} {A : Type 0} (P : A → Type 0) (m : Call S A) : Type 0 where
  pub gives : (s : S) → Holds P (m s).0

module _ {S : Type 0} {A : Type 0} {P : A → Type 0} where
  pub Gives-pure : (a : A) → P a → Gives {S = S} P (pure a)
  unfolding pure
  Gives-pure a p = record { gives = λ s. p }

  pub Gives-raise : (e : String) → Gives {S = S} P (raise e)
  unfolding raise
  Gives-raise e = record { gives = λ s. tt }

  pub Gives-bind :
      {B : Type 0} (Q : B → Type 0) (m : Call S B) (f : B → Call S A)
      → Gives Q m
      → ((b : B) → Q b → Gives P (f b))
      → Gives P (m >>= f)
  unfolding ◌>>=◌
  Gives-bind {B = B} Q m f h k = record { gives = λ s. go (m s) (h.gives s) }
    where
      go : (r : Ended B × S) → Holds Q r.0 → Holds P (continue f r).0
      go (returned b, s) q = (k b q).gives s
      go (raised e, s) q = tt

  pub Gives-any :
      {B : Type 0} (m : Call S B) (f : B → Call S A) → ((b : B) → Gives P (f b)) → Gives P (m >>= f)
  Gives-any m f k = Gives-bind (λ b. Unit) m f (record { gives = λ s. any (m s).0 }) (λ b u. k b)
    where
      any : {B : Type 0} (e : Ended B) → Holds (λ b. Unit) e
      any (returned b) = tt
      any (raised e) = tt

  pub Gives-then : {B : Type 0} (m : Call S B) (k : Call S A) → Gives P k → Gives P (m >> k)
  unfolding ◌>>◌
  Gives-then m k h = Gives-any m (λ _. k) (λ _. h)
