-- ===== src/Trading/Agent/Halted.antt =====
-- What becomes of an agent whose circuit breaker has tripped: agents/crypto_agent.py asks it before
-- a tick, and calls its `reset` (agents/utils/circuit.py) only after an order of a tick.
use ai_system.Common.{arith, ◌≡◌, refl, String, true, not, List}
use ai_system.Common.Real.{Real}
use ai_system.Common.Effects.{Keeps, Keeps-read, Keeps-pure, Keeps-if}
use ai_system.Trading.Market.{OrderIntent}
use ai_system.Trading.Agent.{Config, Host, CryptoAgent, sent_by}
use ai_system.Trading.Agent.Tick.{on_tick, is_ready, is_stopped_by}
use ai_system.Trading.Agent.Life.{Command, perform_all}
use ai_system.Trading.Agent.Watch.{View, Rules, Watched}
use ai_system.Trading.Agent.Watch.Starts.{start-Keeps, opened-Keeps, perform_all-Keeps}

module _ {F : Type 0} (R : Real F) (config : Config F) (host : Host F) where
  -- The breaker has tripped, and these orders were sent.
  Tripped : List (String × OrderIntent F) → View F
  Tripped orders b c os x audits = (c ≡ true) × (os ≡ orders)

  module _ (orders : List (String × OrderIntent F)) where
    tripped-Rules : Rules config (Tripped orders)
    unfolding Tripped
    tripped-Rules = record {
      on_note = λ b c os x audits level event q. q;
      on_post = λ b c os x audits symbol side qty price fee id q. q;
      on_halt = λ b c os x audits q. q;
      on_executor = λ b c os x audits q. q;
    }

    on_tick-tripped : Keeps (Watched R config host (Tripped orders)) (on_tick R config host)
    unfolding Tripped on_tick Watched
    on_tick-tripped = Keeps-read _ (λ s p.
        Keeps-if (not (is_ready R config host s)) _ _ (λ h. Keeps-pure tt)
          (λ h.
            Keeps-if (is_stopped_by R config host s) _ _ (λ h. Keeps-pure tt)
              (λ h'. absurd (ground arith))))

  -- Once the circuit breaker of an agent has tripped, no sequence of start, tick and stop commands
  -- lets it trade again: the breaker stays tripped, and the orders that were sent stay the same.
  pub perform_all_tripped :
      (cs : List Command) (s : CryptoAgent F)
      → s.circuit_breaker.tripped ≡ true
      → ((perform_all R config host cs s).1.circuit_breaker.tripped ≡ true)
        × (sent_by (perform_all R config host cs s).1.router ≡ sent_by s.router)
  unfolding Tripped Watched
  perform_all_tripped cs s h =
      (perform_all-Keeps R config host (Tripped (sent_by s.router))
          (tripped-Rules (sent_by s.router))
          (start-Keeps R config host _ (tripped-Rules (sent_by s.router)) (
            opened-Keeps R config host _ (tripped-Rules (sent_by s.router))
              (λ b b' c os x audits q. q)))
          (on_tick-tripped (sent_by s.router)) cs).keeps
        s (h, refl)
