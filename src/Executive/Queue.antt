-- ===== src/Executive/Queue.antt =====
-- `put_nowait` of `asyncio.PriorityQueue`: a binary heap in a list (`heapq.heappush`), whose
-- entries are compared as tuples. Two decisions have no order, so the comparison of two entries
-- that differ only in them raises `TypeError`.
use ai_system.Common.{
  ℕ, zero, suc, ◌/◌, Bool, true, false, Option, none, some, List, [], ◌∷◌, ◌++◌, ltb, eqb, length,
  if◌then◌else◌,
}

pub record Entry : Type 0 where
  pub rank : ℕ
  pub sequence : ℕ
  pub decision : ℕ

abbrev pub Heap : Type 0
Heap = List Entry

-- `a < b`; none stands for `TypeError`. An object is equal to itself, and then `a < b` is false.
unfoldable pub is_before : Entry → Entry → Option Bool
is_before a b =
    if eqb a.rank b.rank
    then (if eqb a.sequence b.sequence
        then (if eqb a.decision b.decision then some false else none)
        else some (ltb a.sequence b.sequence))
    else some (ltb a.rank b.rank)

abbrev pub item : ℕ → Heap → Option Entry
item n [] = none
item zero (e ∷ es) = some e
item (suc n) (e ∷ es) = item n es

abbrev pub set_item : ℕ → Entry → Heap → Heap
set_item n e [] = []
set_item zero e (x ∷ es) = e ∷ es
set_item (suc n) e (x ∷ es) = x ∷ set_item n e es

pub data Put : Type 0 where
  stored raised : Heap → Put

-- One turn of the loop: stop where the parent is not later, or move it down and go on.
abbrev pub compared : Option Bool → Put → Heap → Put → Put
compared none moved heap settled = raised heap
compared (some true) moved heap settled = moved
compared (some false) moved heap settled = settled

abbrev pub turn : Option Entry → Entry → (Entry → Put) → Heap → Put → Put
turn none e moved heap settled = settled
turn (some parent) e moved heap settled = compared (is_before e parent) (moved parent) heap settled

-- `_siftdown(heap, 0, pos)`, with as much fuel as the heap is long: `pos` at least halves.
unfoldable pub siftdown : ℕ → ℕ → Entry → Heap → Put
unfolding is_before
siftdown zero pos e heap = stored (set_item pos e heap)
siftdown (suc fuel) zero e heap = stored (set_item zero e heap)
siftdown (suc fuel) (suc p) e heap =
    turn (item (p / 2) heap) e (λ parent. siftdown fuel (p / 2) e (set_item (suc p) parent heap))
      heap (stored (set_item (suc p) e heap))

-- `heappush`
unfoldable pub heappush : Entry → Heap → Put
unfolding siftdown
heappush e heap = siftdown (suc (length heap)) (length heap) e (heap ++ e ∷ [])
