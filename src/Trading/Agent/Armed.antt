-- ===== src/Trading/Agent/Armed.antt =====
-- What an agent needs before it sends orders: `_validate_live_mode` and the modes of
-- agents/crypto_agent.py.
use ai_system.Common.{
  Bool-cases, eq_iff, ◌==◌, arith, ◌⊎◌, inl, inr, ◌≡◌, refl, sym, ◌∙◌, ap, String, Bool, true,
  false, not, ◌&&◌, ◌||◌, Option, none, some, List, [], if◌then◌else◌,
}
use ai_system.Common.Real.{Real}
use ai_system.Common.Effects.{Keeps, Keeps-read, Keeps-pure, Keeps-if, Keeps-raised}
use ai_system.Trading.Modes.{shadow, live}
use ai_system.Trading.Router.{Executor}
use ai_system.Trading.Agent.{Config, Host, Snapshot, sent_by}
use ai_system.Trading.Agent.Orders.{is_shadow}
use ai_system.Trading.Agent.Tick.{on_tick, is_ready}
use ai_system.Trading.Agent.Life.{
  Command, perform_all, new_agent, is_live, is_given, is_text, refusal, validate_live_mode,
  open_session,
}
use ai_system.Trading.Agent.Watch.{View, Rules, Trades, Watched}
use ai_system.Trading.Agent.Watch.Ticks.{on_tick-Keeps}
use ai_system.Trading.Agent.Watch.Starts.{start-Keeps, opened-Keeps, perform_all-Keeps}

abbrev paper_of : {F : Type 0} → Option (Executor F) → Bool → Bool
paper_of none b = b
paper_of (some ex) b = ex.paper

module _ {F : Type 0} (R : Real F) (config : Config F) (host : Host F) where
  -- The ways in which an agent may miss what it needs to send orders
  pub data IsUnarmed : Type 0 where
    on_paper : config.paper_mode ≡ true → IsUnarmed
    in_shadow : config.mode ≡ shadow → IsUnarmed
    without_key : (config.api_key ≡ none) ⊎ (config.api_key ≡ some "") → IsUnarmed
    without_secret : (config.api_secret ≡ none) ⊎ (config.api_secret ≡ some "") → IsUnarmed
    unconfirmed : ¬ (config.confirm_live ≡ some "I UNDERSTAND") → IsUnarmed
    without_dry_run : config.dry_run_passed ≡ false → IsUnarmed
    without_bypass : config.mode ≡ live → config.bypass_canary ≡ false → IsUnarmed

  -- What the code tests of this
  abbrev is_armed : Bool
  is_armed =
      not config.paper_mode
      && not (is_shadow config.mode)
      && (is_given config.api_key
          && is_given config.api_secret
          && is_text "I UNDERSTAND" config.confirm_live
          && config.dry_run_passed
          && (not (is_live config.mode) || config.bypass_canary))

  -- Nothing was sent, and the executor is on paper as the agent is.
  Unsent : View F
  Unsent b c os x audits = (os ≡ []) × (paper_of x config.paper_mode ≡ config.paper_mode)

  unsent-Rules : Rules config Unsent
  unfolding Unsent
  unsent-Rules = record {
    on_note = λ b c os x audits level event q. q;
    on_post = λ b c os x audits symbol side qty price fee id q. q;
    on_halt = λ b c os x audits q. q;
    on_executor = λ b c os x audits (e, same). (e, refl);
  }

  unsent-Trades :
      (config.paper_mode || is_shadow config.mode) ≡ true
      → Trades R config (λ ex. ex.paper ≡ config.paper_mode) Unsent
  unfolding Unsent
  unsent-Trades h = record {
    on_pre = λ b c os x audits symbol side qty price exposures total reason ok q. q;
    on_circuit = λ b c c' os x audits q. q;
    is_fit = λ b c os x audits (none_sent, same) ex e.
        ap (λ y. paper_of y config.paper_mode) (sym e) ∙ same;
    on_send = λ b c os x audits ex name o symbol side qty price fit on paper there part q.
        absurd (ground arith);
  }

  -- Nothing was sent, and the agent does not run.
  Idle : View F
  Idle b c os x audits = (b ≡ false) × (os ≡ [])

  idle-Rules : Rules config Idle
  unfolding Idle
  idle-Rules = record {
    on_note = λ b c os x audits level event q. q;
    on_post = λ b c os x audits symbol side qty price fee id q. q;
    on_halt = λ b c os x audits (e, none_sent). (refl, none_sent);
    on_executor = λ b c os x audits q. q;
  }

  on_tick-idle : Keeps (Watched R config host Idle) (on_tick R config host)
  unfolding Idle on_tick Watched
  on_tick-idle = Keeps-read _ (λ s p.
      Keeps-if (not (is_ready R config host s)) _ _ (λ h. Keeps-pure tt)
        (λ h. absurd (ground arith)))

  is_refused :
      (reason : String)
      → config.paper_mode ≡ false
      → refusal R config host ≡ some reason
      → Keeps (Watched R config host Idle) (open_session R config host)
  unfolding validate_live_mode
  is_refused reason on e = rw on (rw e (Keeps-raised _ reason _))

  -- A text for each of the conditions that fails
  refused :
      (key secret confirmed dry_run full bypass : Bool)
      → (key && secret && confirmed && dry_run && (not full || bypass)) ≡ false
      → (reason : String) × ((if not key || not secret
            then some "Live mode requires API credentials"
            else if not confirmed
            then some "Live mode requires confirm_live=I UNDERSTAND"
            else if not dry_run
            then some "Dry run must pass before enabling live mode"
            else if full && not bypass
            then some "Enable canary mode before full live trading"
            else none)
          ≡ some reason)
  refused false secret confirmed dry_run full bypass e = (_, refl)
  refused true false confirmed dry_run full bypass e = (_, refl)
  refused true true false dry_run full bypass e = (_, refl)
  refused true true true false full bypass e = (_, refl)
  refused true true true true true false e = (_, refl)
  refused true true true true true true e = absurd (ground arith)
  refused true true true true false bypass e = absurd (ground arith)

  disarmed :
      (paper shadowed rest : Bool)
      → (not paper && not shadowed && rest) ≡ false
      → ((paper || shadowed) ≡ true) ⊎ ((paper ≡ false) × (rest ≡ false))
  disarmed true shadowed rest e = inl refl
  disarmed false true rest e = inl refl
  disarmed false false rest e = inr (refl, e)

  Quiet : List Command → Type 0
  Quiet cs =
      (canary_fraction stop_pct : F) (stored : List (F × Snapshot F))
      → sent_by
          (perform_all R config host cs
            (new_agent R config host canary_fraction stop_pct stored)).1.router
        ≡ []

  on_paper-Quiet :
      (cs : List Command) → (config.paper_mode || is_shadow config.mode) ≡ true → Quiet cs
  unfolding Quiet Unsent Watched
  on_paper-Quiet cs h canary_fraction stop_pct stored =
      ((perform_all-Keeps R config host Unsent unsent-Rules
          (start-Keeps R config host Unsent unsent-Rules
            (opened-Keeps R config host Unsent unsent-Rules (λ b b' c os x audits q. q)))
          (on_tick-Keeps R config host Unsent unsent-Rules _ (unsent-Trades h)) cs).keeps
        _ (refl, refl)).0

  refused-Quiet :
      (cs : List Command) (reason : String)
      → config.paper_mode ≡ false
      → refusal R config host ≡ some reason
      → Quiet cs
  unfolding Quiet Idle Watched
  refused-Quiet cs reason on e canary_fraction stop_pct stored =
      ((perform_all-Keeps R config host Idle idle-Rules
          (start-Keeps R config host Idle idle-Rules (is_refused reason on e)) on_tick-idle
          cs).keeps
        _ (refl, refl)).1

  ungiven : (o : Option String) → (o ≡ none) ⊎ (o ≡ some "") → is_given o ≡ false
  ungiven o (inl e) = ap is_given e
  ungiven o (inr e) = ap is_given e

  other_text : (o : Option String) (text : String) → ¬ (o ≡ some text) → is_text text o ≡ false
  other_text none text n = refl
  other_text (some given) text n = elim (Bool-cases (given == text)) [
    | inl e ↦ absurd (n (ap some ((eq_iff given text).0 e)))
    | inr e ↦ e
  ]

  IsUnarmed-is_armed : IsUnarmed → is_armed ≡ false
  IsUnarmed-is_armed (on_paper e) = ground (arith, e)
  IsUnarmed-is_armed (in_shadow e) = ground (arith, ap is_shadow e)
  IsUnarmed-is_armed (without_key e) = ground (arith, ungiven config.api_key e)
  IsUnarmed-is_armed (without_secret e) = ground (arith, ungiven config.api_secret e)
  IsUnarmed-is_armed (unconfirmed n) =
      ground (arith, other_text config.confirm_live "I UNDERSTAND" n)
  IsUnarmed-is_armed (without_dry_run e) = ground (arith, e)
  IsUnarmed-is_armed (without_bypass e n) = ground (arith, ap is_live e, n)

  -- An agent that is on paper, or a shadow, or misses a key, the confirmation or the dry run, or
  -- is of the mode "live" and misses the bypass, sends no order to any exchange: not by any sequence of start, tick
  -- and stop commands from its making on, whatever its exchanges, clock and strategy answer.
  pub perform_all_unarmed :
      (cs : List Command)
      → IsUnarmed
      → (canary_fraction stop_pct : F) (stored : List (F × Snapshot F))
      → sent_by
          (perform_all R config host cs
            (new_agent R config host canary_fraction stop_pct stored)).1.router
        ≡ []
  unfolding Quiet
  perform_all_unarmed cs u =
      elim (disarmed config.paper_mode (is_shadow config.mode) _ (IsUnarmed-is_armed u)) [
        | inl h ↦ on_paper-Quiet cs h
        | inr (on, h) ↦
            (let (reason, r) =
                refused (is_given config.api_key) (is_given config.api_secret)
                  (is_text "I UNDERSTAND" config.confirm_live) config.dry_run_passed
                  (is_live config.mode) config.bypass_canary h in
              refused-Quiet cs reason on r)
      ]
