-- ===== src/Trading/Quality.antt =====
-- The checks of market data (data/quality.py).
use ai_system.Common.{
  ℕ, zero, suc, ◌-◌, ◌/◌, ◌%◌, String, Bool, false, not, ◌&&◌, Option, none, some, List, [], ◌∷◌,
  ◌++◌, ltb, eqb, length, drop, if◌then◌else◌,
}
use ai_system.Common.Real.{Real, zero_f, quotient}
use ai_system.Common.Effects.{Ended, returned, raised}

-- A candle: time, open, high, low, close, volume
abbrev pub Candle : Type 0 → Type 0
Candle F = List F

abbrev pub item : {A : Type 0} → ℕ → List A → Option A
item n [] = none
item zero (x ∷ xs) = some x
item (suc n) (x ∷ xs) = item n xs

module _ {F : Type 0} (R : Real F) where
  open R use {lit, add, sub, lt, le, abs, is_finite}

  abbrev pub is_late : F → Option F → Bool
  is_late ts none = false
  is_late ts (some prev_time) = le ts prev_time

  -- The loop of `validate_ohlcv`: a reason to refuse, or none; a candle of more than six numbers
  -- cannot be unpacked.
  unfoldable pub check_candles : Option F → List (Candle F) → Ended (Option String)
  check_candles prev_time [] = returned none
  check_candles prev_time ((ts ∷ _ ∷ _ ∷ _ ∷ close ∷ volume ∷ []) ∷ rest) =
      let others = check_candles (some ts) rest in
      if is_late ts prev_time
      then returned (some "time-order")
      else if le volume (zero_f R)
      then returned (some "zero-volume")
      else if not (is_finite close && is_finite volume)
      then returned (some "nan")
      else others
  check_candles prev_time (candle ∷ rest) =
      if ltb (length candle) 6
      then returned (some "bad-candle")
      else raised "too many values to unpack (expected 6)"

  -- `ohlcv[i][4]`
  abbrev pub close_of : Option (Candle F) → F
  close_of none = zero_f R
  close_of (some candle) = elim (item 4 candle) [ none ↦ zero_f R | some c ↦ c ]

  abbrev pub check_gap : F → F → F → Option String
  check_gap max_gap_pct prev_close last_close =
      if lt (zero_f R) prev_close
        && lt max_gap_pct (quotient R (abs (sub last_close prev_close)) prev_close)
      then some "gap"
      else none

  abbrev pub after_candles : F → List (Candle F) → Ended (Option String) → Ended (Option String)
  after_candles max_gap_pct ohlcv (raised e) = raised e
  after_candles max_gap_pct ohlcv (returned (some reason)) = returned (some reason)
  after_candles max_gap_pct ohlcv (returned none) = returned (
      check_gap max_gap_pct (close_of (item (length ohlcv - 2) ohlcv))
        (close_of (item (length ohlcv - 1) ohlcv)))

  -- `validate_ohlcv`: none for valid candles, or the reason
  unfoldable pub validate_ohlcv : F → List (Candle F) → Ended (Option String)
  unfolding check_candles
  validate_ohlcv max_gap_pct ohlcv =
      if ltb (length ohlcv) 2
      then returned (some "insufficient-bars")
      else after_candles max_gap_pct ohlcv (check_candles none ohlcv)

  abbrev pub sorted_in : F → List F → List F
  sorted_in x [] = x ∷ []
  sorted_in x (y ∷ ys) = let rest = sorted_in x ys in if lt y x then y ∷ rest else x ∷ y ∷ ys

  abbrev pub sorted : List F → List F
  sorted [] = []
  sorted (x ∷ xs) = sorted_in x (sorted xs)

  abbrev pub item_or_zero : ℕ → List F → F
  item_or_zero n xs = elim (item n xs) [ none ↦ zero_f R | some x ↦ x ]

  -- `statistics.median`
  abbrev pub median : List F → F
  median xs =
      let ys = sorted xs in
      let half = length xs / 2 in
      if eqb (length xs % 2) 1
      then item_or_zero half ys
      else quotient R (add (item_or_zero (half - 1) ys) (item_or_zero half ys)) (lit 2 0)

  -- `validate_ticker`
  unfoldable pub validate_ticker : F → List F → F → Option String
  validate_ticker price history deviation_sigma =
      let med = median history in
      if le price (zero_f R)
      then some "non-positive"
      else if eqb (length history) 0
      then none
      else if le med (zero_f R)
      then none
      else if lt (quotient R deviation_sigma (lit 100 0)) (quotient R (abs (sub price med)) med)
      then some "deviation"
      else none

  -- `update_history`, with its window of 50
  unfoldable pub update_history : List F → F → List F
  update_history history price =
      let longer = history ++ price ∷ [] in drop (length longer - 50) longer
