-- ===== src/Timer.antt =====
-- kernel/sched.c: the list of timers, `add_timer` and the part of `do_timer` that runs them.
pub mod Expiry
pub mod Slots
mod Tests
use linux_0_11_learning.Base.{
  ℕ, zero, suc, ◌+◌, ◌-◌, Option, none, some, List, [], ◌∷◌, Bool, true, false, ltb, ◌==◌, ◌||◌,
  if◌then◌else◌,
}
use linux_0_11_learning.Base.Int.{ℤ, pos, negsuc}

abbrev pub time_requests : ℕ
time_requests = 64

-- A node of the list: its index in `timer_list[]`, the ticks that it waits after its predecessor,
-- and its handler, by number. A slot has a handler exactly while it is in the list, so the list in
-- link order, from `next_timer` on, is the whole state.
pub record Node : Type 0 where
  pub slot : ℕ
  pub jiffies : ℕ
  pub fn : ℕ

abbrev pub Timers : Type 0
Timers = List Node

-- `p->fn` is set.
unfoldable pub in_use : ℕ → Timers → Bool
in_use i [] = false
in_use i (t ∷ ts) = (t.slot == i) || in_use i ts

-- The first free slot of the `n` from `i` on.
unfoldable pub free_slot : ℕ → ℕ → Timers → Option ℕ
free_slot i zero ts = none
free_slot i (suc n) ts = let rest = free_slot (i + 1) n ts in if in_use i ts then rest else some i

-- The loop of `add_timer`: while the next node is due before `p`, take its ticks off and swap the
-- two nodes' ticks and handlers. The nodes stay where they are linked.
unfoldable pub sink : Node → Timers → Timers
sink p [] = p ∷ []
sink p (q ∷ ts) =
    if ltb q.jiffies p.jiffies
    then record p { jiffies = q.jiffies; fn = q.fn }
      ∷ sink (record q { jiffies = p.jiffies - q.jiffies; fn = p.fn }) ts
    else p ∷ q ∷ ts

-- What a call of `add_timer` does.
pub data Added : Type 0 where
  -- `fn` is null.
  ignored : Added
  -- `jiffies <= 0`: the handler runs at once.
  ran : ℕ → Added
  -- "No more time requests free"
  panicked : Added
  queued : Timers → Added

unfoldable pub add_timer : ℤ → Option ℕ → Timers → Added
unfolding in_use free_slot sink
add_timer jiffies none ts = ignored
add_timer (negsuc n) (some fn) ts = ran fn
add_timer (pos zero) (some fn) ts = ran fn
add_timer (pos (suc n)) (some fn) ts = elim (free_slot 0 time_requests ts) [
  | none ↦ panicked
  | some i ↦ queued (sink (record { slot = i; jiffies = suc n; fn = fn }) ts)
]

-- `while (next_timer && next_timer->jiffies <= 0)`: the handlers that run, in order, and the list
-- that is left.
unfoldable pub fire : Timers → List ℕ × Timers
fire [] = ([], [])
fire (t ∷ ts) =
    let (fns, rest) = fire ts in if t.jiffies == 0 then (t.fn ∷ fns, rest) else ([], t ∷ ts)

-- The `if (next_timer)` of `do_timer`. A head with no ticks left fires in either representation,
-- so the subtraction need not go below 0.
unfoldable pub run_timers : Timers → List ℕ × Timers
unfolding fire
run_timers [] = ([], [])
run_timers (t ∷ ts) = fire (record t { jiffies = t.jiffies - 1 } ∷ ts)
