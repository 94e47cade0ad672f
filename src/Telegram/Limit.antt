-- ===== src/Telegram/Limit.antt =====
-- The rate limit of the bot against one that forgets nothing.
use ai_system.Common.{
  ℕ, ◌≤◌, ◌≡◌, refl, sym, ap, ◌∙◌, subst, Bool, true, false, not, List, [], ◌∷◌, ◌++◌, leb, arith,
  length, keep_if, All-append, if◌then◌else◌, Bool-cases, inl, inr,
}
use ai_system.Guards.Breaker.{pop_old}
use ai_system.Guards.Breaker.Window.{
  IsOrdered, IsBelow, is_recent, pop_old-eq-keep_if, IsOrdered-pop_old, IsBelow-pop_old,
  IsBelow-mono, IsOrdered-append,
}
use ai_system.Telegram.{History, set_history, max_commands_per_min, rate_limited}

-- Which of the commands that a user sends at the given times are let through
unfoldable pub admitted : ℕ → List ℕ → History → List Bool
admitted user [] h = []
admitted user (now ∷ rest) h =
    let (limited, h') = rate_limited user now h in not limited ∷ admitted user rest h'

-- The specification: a command is let through if fewer than ten were in the last 60 seconds.
-- The times of all that were let through are kept.
unfoldable pub spec_admitted : List ℕ → List ℕ → List Bool
spec_admitted [] seen = []
spec_admitted (now ∷ rest) seen =
    let over = leb max_commands_per_min (length (keep_if (is_recent 60 now) seen)) in
    not over ∷ spec_admitted rest (if over then seen else seen ++ now ∷ [])

-- The clock does not run back.
abbrev pub IsClocked : ℕ → List ℕ → Type 0
IsClocked t [] = Unit
IsClocked t (now ∷ rest) = (t ≤ now) × IsClocked now rest

keep_if-append :
    (p : ℕ → Bool) (xs ys : List ℕ) → keep_if p (xs ++ ys) ≡ keep_if p xs ++ keep_if p ys
keep_if-append p [] ys = refl
keep_if-append p (x ∷ xs) ys = elim (Bool-cases (p x)) [
  | inl keeps ↦ rw (keeps, keep_if-append p xs ys) refl
  | inr drops ↦ rw (drops, keep_if-append p xs ys) refl
]

-- What was not recent at a time is not recent later.
keep_if_later :
    (now later : ℕ) (ts : List ℕ)
    → now ≤ later
    → keep_if (is_recent 60 later) (keep_if (is_recent 60 now) ts) ≡ keep_if (is_recent 60 later) ts
keep_if_later now later [] h = refl
keep_if_later now later (t ∷ ts) h = ground (arith, keep_if_later now later ts h)

record Tracks (t : ℕ) (kept seen : List ℕ) : Type 0 where
  ordered : IsOrdered 0 kept
  below : IsBelow t kept
  agrees : (now : ℕ) → t ≤ now → keep_if (is_recent 60 now) kept ≡ keep_if (is_recent 60 now) seen

popped :
    (t now : ℕ) (kept seen : List ℕ)
    → t ≤ now
    → Tracks t kept seen
    → pop_old 60 now kept ≡ keep_if (is_recent 60 now) seen
popped t now kept seen h k = pop_old-eq-keep_if 60 now 0 kept k.ordered ∙ k.agrees now h

popped-Tracks :
    (t now : ℕ) (kept seen : List ℕ)
    → t ≤ now
    → Tracks t kept seen
    → Tracks now (pop_old 60 now kept) seen
popped-Tracks t now kept seen h k = record {
  ordered = IsOrdered-pop_old 60 now 0 kept k.ordered;
  below = IsBelow-pop_old 60 now now kept (IsBelow-mono t now kept h k.below);
  agrees = λ later g.
      ap (keep_if (is_recent 60 later)) (popped t now kept seen h k)
      ∙ keep_if_later now later seen g;
}

added-Tracks :
    (now : ℕ) (kept seen : List ℕ)
    → Tracks now kept seen
    → Tracks now (kept ++ now ∷ []) (seen ++ now ∷ [])
added-Tracks now kept seen k = record {
  ordered = IsOrdered-append 0 now kept k.ordered k.below (omega arith);
  below = All-append (λ t. t ≤ now) kept (now ∷ []) k.below (omega arith, tt);
  agrees = λ later g.
      keep_if-append (is_recent 60 later) kept (now ∷ [])
      ∙ ap (λ x. x ++ keep_if (is_recent 60 later) (now ∷ [])) (k.agrees later g)
      ∙ sym (keep_if-append (is_recent 60 later) seen (now ∷ []));
}

set_history_same : (user : ℕ) (ts : List ℕ) (h : History) → set_history user ts h user ≡ ts
set_history_same user ts h = ground arith

admitted_from :
    (user t : ℕ) (times : List ℕ) (h : History) (seen : List ℕ)
    → Tracks t (h user) seen
    → IsClocked t times
    → admitted user times h ≡ spec_admitted times seen
unfolding admitted spec_admitted rate_limited
admitted_from user t [] h seen k c = refl
admitted_from user t (now ∷ rest) h seen k (le, c) =
    elim (Bool-cases (leb max_commands_per_min (length (pop_old 60 now (h user))))) [
      | inl over ↦
          rw (over, ap (λ ts. leb max_commands_per_min (length ts)) (sym same) ∙ over)
            (ap (λ bs. false ∷ bs)
              (admitted_from user now rest (set_history user (pop_old 60 now (h user)) h) seen
                (subst (λ ts. Tracks now ts seen) (sym (set_history_same user _ h)) later) c))
      | inr free ↦
          rw (free, ap (λ ts. leb max_commands_per_min (length ts)) (sym same) ∙ free)
            (ap (λ bs. true ∷ bs)
              (admitted_from user now rest
                (set_history user (pop_old 60 now (h user) ++ now ∷ []) h) (seen ++ now ∷ [])
                (subst (λ ts. Tracks now ts (seen ++ now ∷ [])) (sym (set_history_same user _ h))
                  (added-Tracks now (pop_old 60 now (h user)) seen later))
                c))
    ]
  where
    same : pop_old 60 now (h user) ≡ keep_if (is_recent 60 now) seen
    same = popped t now (h user) seen le k

    later : Tracks now (pop_old 60 now (h user)) seen
    later = popped-Tracks t now (h user) seen le k

-- On commands in the order of time, from an empty history on, the bot answers a user as if it
-- counted all commands of the last 60 seconds that it let through, although it only keeps the times
-- that its last look did not drop: at most ten are let through in any 60 seconds.
pub admitted-eq-spec_admitted :
    (user : ℕ) (times : List ℕ) (h : History)
    → h user ≡ []
    → IsClocked 0 times
    → admitted user times h ≡ spec_admitted times []
admitted-eq-spec_admitted user times h empty clocked =
    admitted_from user 0 times h []
      (subst (λ ts. Tracks 0 ts []) (sym empty)
        (record { ordered = tt; below = tt; agrees = λ now g. refl }))
      clocked
