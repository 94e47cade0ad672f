-- ===== src/Trading/Agent/Watch/Starts.antt =====
-- The invariants of orders through `start`, `stop` and sequences of commands (agents/crypto_agent.py).
use ai_system.Common.{String, Bool, true, false, Option, none, some, List, Dict, if◌then◌else◌}
use ai_system.Common.Real.{Real}
use ai_system.Common.Effects.{
  Keeps, Keeps-pure, Keeps-raise, Keeps-modify, Keeps-bind, Keeps-then, Keeps-attempt, Keeps-retry,
  Keeps-read, Keeps-if, Keeps-when, Keeps-for_each,
}
use ai_system.Trading.Market.{OrderIntent}
use ai_system.Trading.Router.{Executor}
use ai_system.Trading.Router.Paper.{fetch_markets-Keeps, fetch_balance-Keeps, init-Keeps}
use ai_system.Trading.Agent.{Config, Host, CryptoAgent, AuditEntry, Snapshot}
use ai_system.Trading.Agent.Life.{
  refusal, check_balance, validate_after, validate_live_mode, load_latest_snapshot, restored_from,
  restore_snapshot, open_account, open_session, start_up, start, stop, Command, start_agent,
  run_tick, stop_agent, perform, perform_all,
}
use ai_system.Trading.Agent.Watch.{View, Rules, Watched, with_router-Keeps, note-Keeps}
use ai_system.Trading.Agent.Tick.{on_tick}

module _ {F : Type 0} (R : Real F) (config : Config F) (host : Host F) (Q : View F)
    (rules : Rules config Q) where
  abbrev Invariant : CryptoAgent F → Type 0
  Invariant = Watched R config host Q

  check_balance-Keeps :
      (free : Option (Dict F)) → Keeps Invariant (check_balance R config host free)
  check_balance-Keeps none = Keeps-raise _
  check_balance-Keeps (some free) = Keeps-pure tt

  validate_after-Keeps : (o : Option String) → Keeps Invariant (validate_after R config host o)
  unfolding Watched
  validate_after-Keeps (some reason) = Keeps-raise _
  validate_after-Keeps none =
      Keeps-bind _ _
        (with_router-Keeps R config host Q _
          (λ b c x audits. Keeps-retry 3 _ (fetch_balance-Keeps R host.exchange _)))
        (λ balance. Keeps-then _ _ (Keeps-modify _ (λ s p. p)) (check_balance-Keeps balance.free))

  open_account-Keeps : Keeps Invariant (open_account R config host)
  unfolding validate_live_mode Watched
  open_account-Keeps =
      Keeps-if config.paper_mode _ _ (λ h. Keeps-modify _ (λ s p. p))
        (λ h.
          Keeps-if config.paper_mode _ _ (λ h. Keeps-pure tt)
            (λ h. validate_after-Keeps (refusal R config host)))

  restored_from-Invariant :
      (saved : Option (Snapshot F)) (s : CryptoAgent F)
      → Invariant s
      → Invariant (restored_from R config host saved s)
  unfolding Watched
  restored_from-Invariant none s p = p
  restored_from-Invariant (some saved) s p = p

  restored_if-Invariant :
      (b : Bool) (saved : Option (Snapshot F)) (s : CryptoAgent F)
      → Invariant s
      → Invariant (if b then restored_from R config host saved s else s)
  restored_if-Invariant true saved s p = restored_from-Invariant saved s p
  restored_if-Invariant false saved s p = p

  restore_snapshot-Keeps : Keeps Invariant (restore_snapshot R config host)
  unfolding restore_snapshot
  restore_snapshot-Keeps =
      Keeps-modify _
        (λ s p. restored_if-Invariant s.has_db (load_latest_snapshot R config host s.snapshots) s p)

  -- `start` up to the opening of the session
  start_up-Keeps :
      Keeps Invariant (open_session R config host) → Keeps Invariant (start_up R config host)
  unfolding Watched
  start_up-Keeps k = Keeps-then _ _ (Keeps-modify _ (λ s p. p)) (
      Keeps-then _ _
        (with_router-Keeps R config host Q _ (λ b c x audits. init-Keeps R host.exchange _))
        (Keeps-bind _ _
          (with_router-Keeps R config host Q _
            (λ b c x audits. Keeps-retry 3 _ (fetch_markets-Keeps R host.exchange _)))
          (λ markets.
            Keeps-then _ _ (Keeps-modify _ (λ s p. rules.on_executor _ _ _ _ _ p))
              (Keeps-then _ _ (note-Keeps R config host Q rules _ _) k))))

  pub start-Keeps :
      Keeps Invariant (open_session R config host) → Keeps Invariant (start R config host)
  unfolding start
  start-Keeps k = Keeps-read _ (λ s p.
      Keeps-if s.running _ _ (λ h. Keeps-pure tt)
        (λ h. Keeps-if config.strategy_known _ _ (λ h. start_up-Keeps k) (λ h. Keeps-raise _)))

  -- A start that changes whether the agent runs, where that is of no account
  pub opened-Keeps :
      ((b b' c : Bool) (os : List (String × OrderIntent F)) (x : Option (Executor F))
          (audits : List (AuditEntry F))
        → Q b c os x audits
        → Q b' c os x audits)
      → Keeps Invariant (open_session R config host)
  unfolding Watched
  opened-Keeps any = Keeps-then _ _ open_account-Keeps (
      Keeps-then _ _ (Keeps-when _ _ (λ h. restore_snapshot-Keeps))
        (Keeps-modify _ (λ s p. any s.running true _ _ _ _ p)))

  stop-Keeps : Keeps Invariant (stop R config host)
  unfolding stop Watched
  stop-Keeps = Keeps-read _ (λ s p.
      Keeps-if s.running _ _
        (λ h.
          Keeps-then _ _ (Keeps-modify _ (λ s p. rules.on_halt _ _ _ _ _ p))
            (note-Keeps R config host Q rules _ _))
        (λ h. Keeps-pure tt))

  module _ (start-kept : Keeps Invariant (start R config host))
      (tick-kept : Keeps Invariant (on_tick R config host)) where
    perform-Keeps : (c : Command) → Keeps Invariant (perform R config host c)
    unfolding perform
    perform-Keeps start_agent = start-kept
    perform-Keeps run_tick = tick-kept
    perform-Keeps stop_agent = stop-Keeps

    pub perform_all-Keeps : (cs : List Command) → Keeps Invariant (perform_all R config host cs)
    unfolding perform_all
    perform_all-Keeps cs =
        Keeps-for_each _ cs
          (λ c. Keeps-then _ _ (Keeps-attempt _ (perform-Keeps c)) (Keeps-pure tt))
