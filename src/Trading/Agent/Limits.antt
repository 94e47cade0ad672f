-- ===== src/Trading/Agent/Limits.antt =====
-- The limits of the trades of an agent: `check_pre_trade` (risk/rules.py) and its callers in
-- agents/crypto_agent.py.
use ai_system.Common.{
  ℕ, ◌≤◌, ◌⊎◌, All, subst, sym, arith, ◌≡◌, refl, ap, String, Bool, true, false, not, ◌&&◌, List,
  [], ◌∷◌, ◌++◌, Dict, if◌then◌else◌,
}
use ai_system.Common.{both, apart}
use ai_system.Common.Real.{Real, fmin, fmax, quotient, zero_f}
use ai_system.Trading.Risk.{RiskCaps, check_pre_trade}
use ai_system.Trading.Market.{Side, OrderIntent}
use ai_system.Trading.Agent.{
  sent_by, Config, Host, AuditEntry, note, pre_trade, post_trade, Snapshot,
}
use ai_system.Trading.Agent.Life.{Command, perform_all, new_agent}
use ai_system.Trading.Agent.Watch.{IsIn, IsIn-append, IsPartOf, View, Rules, Trades, Watched}
use ai_system.Trading.Agent.Watch.Ticks.{on_tick-Keeps}
use ai_system.Trading.Agent.Watch.Starts.{start-Keeps, opened-Keeps, perform_all-Keeps}

module _ {F : Type 0} (R : Real F) (caps : RiskCaps F) where
  open R use {mul, add, lt, le}

  -- A trade of some worth that is no larger than a trade may be
  abbrev pub is_within : F → F → Bool
  is_within qty price =
      not (le (mul price qty) (zero_f R)) && not (lt caps.max_notional_per_trade (mul price qty))

  abbrev pub is_entry_within : AuditEntry F → Bool
  is_entry_within (note level event) = true
  is_entry_within (pre_trade symbol side qty price) = is_within qty price
  is_entry_within (post_trade symbol side qty price fee id) = true

  abbrev pub all_within : List (AuditEntry F) → Bool
  all_within [] = true
  all_within (e ∷ es) = if is_entry_within e then all_within es else false

  all_within-append :
      (es : List (AuditEntry F)) (e : AuditEntry F)
      → all_within es ≡ true
      → is_entry_within e ≡ true
      → all_within (es ++ e ∷ []) ≡ true
  all_within-append [] e h k = both (is_entry_within e) true k refl
  all_within-append (e' ∷ es) e h k =
      let (p, q) = apart (is_entry_within e') (all_within es) h in
      both (is_entry_within e') _ p (all_within-append es e q k)

  passed :
      (a b : Bool) (reason reason' : String) (rest : Bool × String)
      → (if a then (false, reason) else if b then (false, reason') else rest).0 ≡ true
      → (not a && not b) ≡ true
  passed true b reason reason' rest e = absurd (ground arith)
  passed false true reason reason' rest e = absurd (ground arith)
  passed false false reason reason' rest e = refl

  check_pre_trade-is_within :
      (symbol : String) (price qty : F) (exposures : Dict F) (total : F) (reason : String)
      → check_pre_trade R symbol price qty caps exposures total ≡ (true, reason)
      → is_within qty price ≡ true
  unfolding check_pre_trade
  check_pre_trade-is_within symbol price qty exposures total reason e =
      passed (le (mul price qty) (zero_f R)) (lt caps.max_notional_per_trade (mul price qty)) _ _ _
        (ap (λ x. x.0) e)

module _ {F : Type 0} (R : Real F) where
  open R use {lit, mul}

  -- A sent order was announced by an audited trade of its symbol and side, and its quantity is that
  -- of the trade, or the trade's by a factor between 0 and 1 (as of a canary), or nothing; or one of
  -- at most three equal slices of this.
  abbrev pub IsCovered : List (AuditEntry F) → String × OrderIntent F → Type 0
  IsCovered audits (name, o) =
      (qty : F) × (price : F) × IsIn (pre_trade o.symbol o.side qty price) audits
      × ((live : F) × ((live ≡ zero_f R)
            ⊎ ((live ≡ qty)
                ⊎ ((f : F) × (live ≡ mul qty (fmax R (zero_f R) (fmin R (lit 1 0) f))))))
          × ((o.qty ≡ live) ⊎ ((n : ℕ) × (1 ≤ n) × (n ≤ 3) × (o.qty ≡ quotient R live (lit n 0)))))

  still-IsCovered :
      (audits : List (AuditEntry F)) (e : AuditEntry F) (os : List (String × OrderIntent F))
      → All (IsCovered audits) os
      → All (IsCovered (audits ++ e ∷ [])) os
  still-IsCovered audits e [] h = tt
  still-IsCovered audits e ((name, o) ∷ os) ((qty, price, there, part), rest) =
      ((qty, price, IsIn-append _ e audits there, part), still-IsCovered audits e os rest)

All-last : {A : Type 0} (P : A → Type 0) (l : List A) (a : A) → All P l → P a → All P (l ++ a ∷ [])
All-last P [] a h k = (k, tt)
All-last P (x ∷ l) a h k = (h.0, All-last P l a h.1 k)

module _ {F : Type 0} (R : Real F) (config : Config F) (host : Host F) where
  Within : View F
  Within b c os x audits =
      (all_within R config.risk_caps audits ≡ true) × All (IsCovered R audits) os

  covered :
      (audits : List (AuditEntry F)) (name : String) (o : OrderIntent F) (symbol : String)
      (side : Side) (qty price : F)
      → IsIn (pre_trade symbol side qty price) audits
      → IsPartOf R symbol side qty o
      → IsCovered R audits (name, o)
  covered audits name o symbol side qty price there (s, d, part) = (
    qty,
    price,
    subst (λ y. IsIn (pre_trade y o.side qty price) audits) (sym s)
        (subst (λ y. IsIn (pre_trade symbol y qty price) audits) (sym d) there),
    part,
  )

  grown :
      (audits : List (AuditEntry F)) (e : AuditEntry F) (os : List (String × OrderIntent F))
      → all_within R config.risk_caps audits ≡ true
      → is_entry_within R config.risk_caps e ≡ true
      → All (IsCovered R audits) os
      → (all_within R config.risk_caps (audits ++ e ∷ []) ≡ true)
        × All (IsCovered R (audits ++ e ∷ [])) os
  grown audits e os h k covers =
      (all_within-append R config.risk_caps audits e h k, still-IsCovered R audits e os covers)

  within-Rules : Rules config Within
  unfolding Within
  within-Rules = record {
    on_note = λ b c os x audits level event q. grown audits _ os q.0 refl q.1;
    on_post = λ b c os x audits symbol side qty price fee id q. grown audits _ os q.0 refl q.1;
    on_halt = λ b c os x audits q. q;
    on_executor = λ b c os x audits q. q;
  }

  within-Trades : Trades R config (λ ex. Unit) Within
  unfolding Within
  within-Trades = record {
    on_pre = λ b c os x audits symbol side qty price exposures total reason ok q.
        grown audits _ os q.0
          (check_pre_trade-is_within R config.risk_caps symbol price qty exposures total reason ok)
          q.1;
    on_circuit = λ b c c' os x audits q. q;
    is_fit = λ b c os x audits q ex e. tt;
    on_send = λ b c os x audits ex name o symbol side qty price fit live paper there part q. (
      q.0,
      All-last (IsCovered R audits) os (name, o) q.1
          (covered audits name o symbol side qty price there part),
    );
  }

  -- Whatever start, tick and stop commands an agent gets from its making on, and whatever its
  -- exchanges, its clock and its strategy answer, every trade in its audits has a worth (price
  -- times quantity) that is neither zero or less nor above `max_notional_per_trade`; and every order
  -- that it sent is of the symbol and the side of such a trade and for the quantity of that trade, or
  -- that times a factor between 0 and 1, or nothing, whole or as one of at most three equal slices.
  pub perform_all_within :
      (canary_fraction stop_pct : F) (stored : List (F × Snapshot F)) (cs : List Command)
      → let s =
          (perform_all R config host cs
            (new_agent R config host canary_fraction stop_pct stored)).1 in
        (all_within R config.risk_caps s.audits ≡ true)
        × All (IsCovered R s.audits) (sent_by s.router)
  unfolding Within Watched
  perform_all_within canary_fraction stop_pct stored cs =
      (perform_all-Keeps R config host Within within-Rules
          (start-Keeps R config host Within within-Rules
            (opened-Keeps R config host Within within-Rules (λ b b' c os x audits q. q)))
          (on_tick-Keeps R config host Within within-Rules (λ ex. Unit) within-Trades) cs).keeps
        _ (refl, tt)
