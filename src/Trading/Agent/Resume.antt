-- ===== src/Trading/Agent/Resume.antt =====
-- What an agent takes over from the snapshots of an earlier one: `_persist_snapshot` and
-- `_restore_snapshot` (agents/crypto_agent.py), `write_snapshot` and `load_latest_snapshot`
-- (persistence/snapshot.py).
use ai_system.Common.{
  arith, suc, ◌≡◌, refl, sym, ap, ◌∙◌, Bool, true, false, Option, none, some, List, [], ◌∷◌, ◌++◌,
  if◌then◌else◌,
}
use ai_system.Common.{apart}
use ai_system.Common.Real.{Real}
use ai_system.Common.Effects.{get, modify, ◌>>=◌}
use ai_system.Trading.Portfolio.{Portfolio}
use ai_system.Trading.Agent.{Config, Host, CryptoAgent, Snapshot}
use ai_system.Trading.Agent.Tick.{snapshot_at, persist_snapshot}
use ai_system.Trading.Agent.Life.{
  latest, load_latest_snapshot, restored_from, restored, restored_portfolio, restore_snapshot,
}

module _ {F : Type 0} (R : Real F) (config : Config F) (host : Host F) where
  -- All rows are older than a time.
  abbrev pub is_newest : F → List (F × Snapshot F) → Bool
  is_newest now [] = true
  is_newest now (row ∷ rest) = if R.lt row.0 now then is_newest now rest else false

  newer : (b : Bool) (row best : F × Snapshot F) → b ≡ true → (if b then row else best) ≡ row
  newer true row best h = refl
  newer false row best h = absurd (ground arith)

  older :
      (b : Bool) (row best : F × Snapshot F) (now : F)
      → R.lt row.0 now ≡ true
      → R.lt best.0 now ≡ true
      → R.lt (if b then row else best).0 now ≡ true
  older true row best now h k = h
  older false row best now h k = k

  latest-append :
      (rows : List (F × Snapshot F)) (best : F × Snapshot F) (now : F) (saved : Snapshot F)
      → R.lt best.0 now ≡ true
      → is_newest now rows ≡ true
      → latest R config host best (rows ++ (now, saved) ∷ []) ≡ saved
  latest-append [] best now saved h k = ap (λ r. r.1) (newer (R.lt best.0 now) (now, saved) best h)
  latest-append (row ∷ rows) best now saved h k =
      let (older_row, rest) = apart (R.lt row.0 now) (is_newest now rows) k in
      latest-append rows _ now saved (older (R.lt best.0 row.0) row best now older_row h) rest

  load_latest_snapshot-append :
      (rows : List (F × Snapshot F)) (now : F) (saved : Snapshot F)
      → is_newest now rows ≡ true
      → load_latest_snapshot R config host (rows ++ (now, saved) ∷ []) ≡ some saved
  load_latest_snapshot-append [] now saved k = refl
  load_latest_snapshot-append (row ∷ rows) now saved k =
      let (older_row, rest) = apart (R.lt row.0 now) (is_newest now rows) k in
      ap some (latest-append rows row now saved older_row rest)

  -- The time at which an agent writes its next snapshot: after the time that the snapshot tells
  abbrev pub written_at : CryptoAgent F → F
  written_at s = host.wall (suc s.readings)

  persist_snapshot-rows :
      (s : CryptoAgent F)
      → s.has_db ≡ true
      → (persist_snapshot R config host s).1.snapshots
        ≡ s.snapshots ++ (written_at s, snapshot_at R config host (host.wall s.readings) s) ∷ []
  unfolding persist_snapshot get ◌>>=◌ modify
  persist_snapshot-rows s h = rw h refl

  portfolio_of :
      (b : Bool) (mine saved : Option (Portfolio F)) (p q : Portfolio F)
      → b ≡ true
      → saved ≡ some p
      → mine ≡ some q
      → (if b then restored_portfolio R config host mine (if b then saved else none) else mine)
        ≡ some p
  portfolio_of b mine saved p q hb hs hm = rw (hb, hs, hm) refl

  -- The agent `t` with what the agent `s` knew
  abbrev pub with_memory : CryptoAgent F → CryptoAgent F → CryptoAgent F
  with_memory s t = record t {
    last_scores = s.last_scores;
    price_cache = s.price_cache;
    price_history = s.price_history;
    vol_cache = s.vol_cache;
    last_tick_ts = s.last_tick_ts;
    portfolio = s.portfolio;
  }

  restored-snapshot_at :
      (now : F) (s t : CryptoAgent F) (p q : Portfolio F)
      → config.paper_mode ≡ true
      → s.portfolio ≡ some p
      → t.portfolio ≡ some q
      → restored R config host (snapshot_at R config host now s) t ≡ with_memory s t
  restored-snapshot_at now s t p q paper hs ht =
      ap (λ o. record (with_memory s t) { portfolio = o })
        (portfolio_of config.paper_mode t.portfolio s.portfolio p q paper hs ht ∙ sym hs)

  restored_of :
      (b : Bool) (o : Option (Snapshot F)) (saved : Snapshot F) (t : CryptoAgent F)
      → b ≡ true
      → o ≡ some saved
      → (if b then restored_from R config host o t else t) ≡ restored R config host saved t
  restored_of b o saved t hb ho = rw (hb, ho) refl

  -- A snapshot that an agent on paper writes, when no row of the database has a later or the same
  -- time, gives back to the agent that restores from these rows all that the first one knew: its
  -- scores, prices, price histories, volatilities, the time of its last tick, its cash and its
  -- positions. Nothing else of the second agent changes.
  pub restore_snapshot-persist_snapshot :
      (s t : CryptoAgent F) (p q : Portfolio F)
      → config.paper_mode ≡ true
      → s.has_db ≡ true
      → s.portfolio ≡ some p
      → is_newest (written_at s) s.snapshots ≡ true
      → t.has_db ≡ true
      → t.portfolio ≡ some q
      → t.snapshots ≡ (persist_snapshot R config host s).1.snapshots
      → (restore_snapshot R config host t).1 ≡ with_memory s t
  unfolding restore_snapshot modify
  restore_snapshot-persist_snapshot s t p q paper db hs newest db' ht same =
      restored_of t.has_db (load_latest_snapshot R config host t.snapshots) _ t db' (
        ap (load_latest_snapshot R config host) (same ∙ persist_snapshot-rows s db)
        ∙ load_latest_snapshot-append s.snapshots (written_at s) _ newest)
      ∙ restored-snapshot_at (host.wall s.readings) s t p q paper hs ht
