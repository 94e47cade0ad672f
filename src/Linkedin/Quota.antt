-- ===== src/Linkedin/Quota.antt =====
-- The daily limit of the LinkedIn service.
use ai_system.Common.{
  ℕ, ◌+◌, ◌≤◌, ◌<◌, ◌≡◌, refl, sym, subst, String, true, Option, List, [], ◌∷◌, arith, leb, eqb,
  max, Bool-cases, inl, inr,
}
use ai_system.Common.Value.{Value}
use ai_system.Linkedin.Storage.{TokenBundle}
use ai_system.Linkedin.Service.{
  Answer, returned, raised, Api, LinkedinService, reset_daily_if_needed, count_post, post_checked,
  post,
}

-- An attempt to post on a given day: the reading of the clock, the stored tokens and the call.
pub record Attempt : Type 0 where
  pub naive : ℕ
  pub tokens : Option TokenBundle
  pub create : String → String → Answer {0} Value

abbrev pub one_if_returned : Answer {0} Value → ℕ
one_if_returned (returned r) = 1
one_if_returned (raised e) = 0

module _ (api : Api) (limit today : ℕ) where
  abbrev attempt : Attempt → LinkedinService → Answer {0} Value × LinkedinService
  attempt a = post api limit (record { today = today; naive = a.naive }) a.tokens a.create

  -- How many attempts of the day succeed
  unfoldable pub posted : List Attempt → LinkedinService → ℕ
  posted [] v = 0
  posted (a ∷ rest) v = let (answer, v') = attempt a v in one_if_returned answer + posted rest v'

  -- What a call does to the count of the day.
  Counts : LinkedinService → Answer {0} Value × LinkedinService → Type 0
  Counts v (answer, v') =
      (v'.daily_reset ≡ today)
      × (v'.daily_posts ≡ one_if_returned answer + v.daily_posts)
      × (v'.daily_posts ≤ max limit v.daily_posts)

  count_post-Counts :
      (answer : Answer {0} Value) (v : LinkedinService)
      → v.daily_reset ≡ today
      → v.daily_posts < limit
      → Counts v (count_post answer v)
  unfolding Counts
  count_post-Counts (returned r) v same free = (same, omega arith, omega (arith, free))
  count_post-Counts (raised e) v same free = (same, omega arith, omega arith)

  post_checked-Counts :
      (a : Attempt) (v : LinkedinService)
      → v.daily_reset ≡ today
      → Counts v
          (post_checked api limit (record { today = today; naive = a.naive }) a.tokens a.create v)
  unfolding Counts
  post_checked-Counts a v same = elim (Bool-cases (leb limit v.daily_posts)) [
    | inl over ↦ rw over (none_left v same)
    | inr free ↦ rw free (count_post-Counts _ v same (ground (arith, free)))
  ]
    where
      none_left :
          (v : LinkedinService)
          → v.daily_reset ≡ today
          → Counts v (raised "Daily LinkedIn post limit reached", v)
      none_left v same = (same, omega arith, omega arith)

  reset-today : (v : LinkedinService) → (reset_daily_if_needed today v).daily_reset ≡ today
  reset-today v = ground arith

  attempt-Counts :
      (a : Attempt) (v : LinkedinService) → Counts (reset_daily_if_needed today v) (attempt a v)
  unfolding post
  attempt-Counts a v = post_checked-Counts a (reset_daily_if_needed today v) (reset-today v)

  reset_same : (v : LinkedinService) → v.daily_reset ≡ today → reset_daily_if_needed today v ≡ v
  reset_same v same = rw (eqb_true today v.daily_reset (sym same)) refl
    where
      eqb_true : (m n : ℕ) → m ≡ n → eqb m n ≡ true
      eqb_true m n e = ground arith

  posted_same_day :
      (attempts : List Attempt) (v : LinkedinService)
      → v.daily_reset ≡ today
      → posted attempts v + v.daily_posts ≤ max limit v.daily_posts
  unfolding posted Counts
  posted_same_day [] v same = omega arith
  posted_same_day (a ∷ rest) v same =
      counted (attempt a v) (λ u. posted_same_day rest u)
        (subst (λ u. Counts u (attempt a v)) (reset_same v same) (attempt-Counts a v))
    where
      counted :
          (r : Answer {0} Value × LinkedinService)
          → ((u : LinkedinService)
              → u.daily_reset ≡ today
              → posted rest u + u.daily_posts ≤ max limit u.daily_posts)
          → Counts v r
          → one_if_returned r.0 + posted rest r.1 + v.daily_posts ≤ max limit v.daily_posts
      counted (answer, v') ih (day, more, bound) = omega (arith, ih v' day, more, bound)

  -- The first attempt resets the count of an earlier day.
  after_reset :
      (attempts : List Attempt) (v : LinkedinService)
      → posted attempts v ≡ posted attempts (reset_daily_if_needed today v)
  unfolding posted post
  after_reset [] v = refl
  after_reset (a ∷ rest) v = rw (reset_same (reset_daily_if_needed today v) (reset-today v)) refl

  -- However often a post is attempted on one day, and whatever state the service was left in, no
  -- more than the configured limit of posts succeed on that day.
  pub posted_limit : (attempts : List Attempt) (v : LinkedinService) → posted attempts v ≤ limit
  posted_limit attempts v = omega (
    arith,
    after_reset attempts v,
    posted_same_day attempts (reset_daily_if_needed today v) (reset-today v),
  )
