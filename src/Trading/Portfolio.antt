-- ===== src/Trading/Portfolio.antt =====
-- The paper portfolio (agents/utils/portfolio.py).
use ai_system.Common.{String, Option, none, some, if◌then◌else◌, Dict, lookup, insert, remove}
use ai_system.Common.Real.{Real, zero_f, quotient}
use ai_system.Common.Effects.{returned, raised, Call}

pub record Position (F : Type 0) : Type 0 where
  pub qty : F
  pub avg_price : F

pub record Portfolio (F : Type 0) : Type 0 where
  pub cash_usdt : F
  pub positions : Dict (Position F)

module _ {F : Type 0} (R : Real F) where
  open R use {lit, add, sub, mul, lt, le}

  -- `self.positions.get(symbol, Position())`
  abbrev pub held : Option (Position F) → Position F
  held none = record { qty = zero_f R; avg_price = zero_f R }
  held (some p) = p

  abbrev pub bought : F → F → Position F → Position F
  bought qty price p =
      let new_qty = add p.qty qty in
      record {
        qty = new_qty;
        avg_price =
            if lt (zero_f R) new_qty
            then quotient R (add (mul p.avg_price p.qty) (mul price qty)) new_qty
            else zero_f R;
      }

  -- `buy`
  unfoldable pub buy : String → F → F → F → Call (Portfolio F) (Unit {0})
  buy symbol qty price fee p =
      let cost = add (mul qty price) fee in
      if lt p.cash_usdt cost then (raised "insufficient cash", p) else (
        returned tt,
        record {
          cash_usdt = sub p.cash_usdt cost;
          positions =
              insert symbol (bought qty price (held (lookup symbol p.positions))) p.positions;
        },
      )

  -- What `sell` leaves of a position: one below 1e-12 is removed.
  abbrev pub reduced : String → Position F → Dict (Position F) → Dict (Position F)
  reduced symbol left positions =
      if le left.qty (lit 1 12) then remove symbol positions else insert symbol left positions

  -- `sell`
  unfoldable pub sell : String → F → F → F → Call (Portfolio F) (Unit {0})
  sell symbol qty price fee p =
      let pos = held (lookup symbol p.positions) in
      if lt (add pos.qty (lit 1 12)) qty then (raised "insufficient position", p) else (
        returned tt,
        record {
          cash_usdt = add p.cash_usdt (sub (mul qty price) fee);
          positions = reduced symbol (record pos { qty = sub pos.qty qty }) p.positions;
        },
      )
