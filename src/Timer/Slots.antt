-- ===== src/Timer/Slots.antt =====
-- The slots of `timer_list[]`: every node of the list has one of its own, below the table's size.
use linux_0_11_learning.Base.{
  ℕ, zero, suc, ◌+◌, ◌-◌, ◌≤◌, ◌<◌, ◌≡◌, refl, sym, ap, ◌∙◌, ◌⊎◌, inl, inr, none, some, List, [],
  ◌∷◌, Bool, true, false, arith, ltb, ◌==◌, ◌||◌, Bool-cases, Option-cases,
}
use linux_0_11_learning.Base.Int.{pos}
use linux_0_11_learning.Timer.{
  Node, Timers, time_requests, in_use, free_slot, sink, add_timer, queued, panicked, fire,
  run_timers,
}

abbrev pub slots : Timers → List ℕ
slots [] = []
slots (t ∷ ts) = t.slot ∷ slots ts

-- No slot twice, and none out of the table.
abbrev pub IsLinked : Timers → Type 0
IsLinked [] = Unit {0}
IsLinked (t ∷ ts) = (t.slot < time_requests) × (in_use t.slot ts ≡ false) × IsLinked ts

-- The swaps move ticks and handlers only: the nodes are linked in the order in which they were.
pub slots-sink : (p : Node) (ts : Timers) → slots (sink p ts) ≡ p.slot ∷ slots ts
unfolding sink
slots-sink p [] = refl
slots-sink p (q ∷ ts) = elim (Bool-cases (ltb q.jiffies p.jiffies)) [
  | inl e ↦ rw e (
      ap (λ l. p.slot ∷ l)
        (slots-sink (record q { jiffies = p.jiffies - q.jiffies; fn = p.fn }) ts))
  | inr e ↦ rw e
]

-- `in_use` and `IsLinked` depend on the slots alone.
abbrev among : ℕ → List ℕ → Bool
among i [] = false
among i (j ∷ js) = (j == i) || among i js

abbrev Linked : List ℕ → Type 0
Linked [] = Unit {0}
Linked (j ∷ js) = (j < time_requests) × (among j js ≡ false) × Linked js

in_use-slots : (i : ℕ) (ts : Timers) → in_use i ts ≡ among i (slots ts)
unfolding in_use
in_use-slots i [] = refl
in_use-slots i (t ∷ ts) = rw (in_use-slots i ts)

Linked-slots : (ts : Timers) → IsLinked ts → Linked (slots ts)
Linked-slots [] l = tt
Linked-slots (t ∷ ts) (a, b, l) = (a, sym (in_use-slots t.slot ts) ∙ b, Linked-slots ts l)

IsLinked-slots : (ts : Timers) → Linked (slots ts) → IsLinked ts
IsLinked-slots [] l = tt
IsLinked-slots (t ∷ ts) (a, b, l) = (a, in_use-slots t.slot ts ∙ b, IsLinked-slots ts l)

free_slot-in_use :
    (i n : ℕ) (ts : Timers) (j : ℕ)
    → free_slot i n ts ≡ some j
    → (i ≤ j) × (j < i + n) × (in_use j ts ≡ false)
unfolding free_slot
free_slot-in_use i zero ts j e = absurd (ground arith)
free_slot-in_use i (suc n) ts j e = elim (Bool-cases (in_use i ts)) [
  | inl used ↦
      let (lo, hi, free) = free_slot-in_use (i + 1) n ts j (ground arith) in
      (omega arith, omega arith, free)
  | inr free ↦ (ground arith, ground arith, ground arith)
]

-- A table that is not searched in vain: `free_slot` fails only where every slot has a handler.
free_slot_full :
    (i n : ℕ) (ts : Timers) (j : ℕ)
    → free_slot i n ts ≡ none
    → i ≤ j
    → j < i + n
    → in_use j ts ≡ true
unfolding free_slot
free_slot_full i zero ts j e lo hi = absurd (omega arith)
free_slot_full i (suc n) ts j e lo hi = elim (Bool-cases (in_use i ts)) [
  | inl used ↦ elim (Bool-cases (i == j)) [
    | inl same ↦ ground arith
    | inr other ↦ free_slot_full (i + 1) n ts j (ground arith) (ground arith) (omega arith)
  ]
  | inr free ↦ absurd (ground arith)
]

-- `add_timer` panics only where all 64 slots have handlers; otherwise a positive delay is queued
-- at a free slot, which becomes the head's, in a list that is linked as before behind it.
pub add_timer-slots :
    (n fn : ℕ) (ts : Timers)
    → IsLinked ts
    → ((add_timer (pos (suc n)) (some fn) ts ≡ panicked)
        × ((j : ℕ) → j < time_requests → in_use j ts ≡ true))
      ⊎ ((i : ℕ) × (ts' : Timers) × (add_timer (pos (suc n)) (some fn) ts ≡ queued ts')
          × (in_use i ts ≡ false)
          × (slots ts' ≡ i ∷ slots ts)
          × IsLinked ts')
unfolding add_timer
add_timer-slots n fn ts linked = elim (Option-cases (free_slot 0 time_requests ts)) [
  | inl full ↦ inl (
    rw (full, add_timer),
    λ j h. free_slot_full 0 time_requests ts j full (omega arith) (omega arith),
  )
  | inr (i, free) ↦
      let (lo, hi, unused) = free_slot-in_use 0 time_requests ts i free in
      let p : Node = record { slot = i; jiffies = suc n; fn = fn } in
      let s = slots-sink p ts in
      inr (
        i,
        sink p ts,
        rw (free, add_timer),
        unused,
        s,
        IsLinked-slots (sink p ts)
            (rw s (omega arith, sym (in_use-slots i ts) ∙ unused, Linked-slots ts linked)),
      )
]

fire-IsLinked : (ts : Timers) → IsLinked ts → IsLinked (fire ts).1
unfolding fire
fire-IsLinked [] l = tt
fire-IsLinked (t ∷ ts) l = elim (Bool-cases (t.jiffies == 0)) [
  | inl e ↦ rw e (fire-IsLinked ts l.2)
  | inr e ↦ rw e l
]

-- A tick keeps the list linked.
pub run_timers-IsLinked : (ts : Timers) → IsLinked ts → IsLinked (run_timers ts).1
unfolding run_timers
run_timers-IsLinked [] l = tt
run_timers-IsLinked (t ∷ ts) l = fire-IsLinked (record t { jiffies = t.jiffies - 1 } ∷ ts) l
