-- ===== src/Timer/Expiry.antt =====
-- When timers run: the list of differences read as ticks from now.
use native.Mathlib.Nat.{zero-add}
use linux_0_11_learning.Base.{
  ℕ, suc, ◌+◌, ◌-◌, ◌<◌, ◌≡◌, refl, sym, ap, ◌∙◌, inl, inr, some, List, [], ◌∷◌, true, false, map,
  arith, ltb, leb, ◌==◌, if◌then◌else◌, Bool-cases, Option-cases,
}
use linux_0_11_learning.Base.Int.{pos}
use linux_0_11_learning.Timer.{
  Node, Timers, time_requests, free_slot, sink, add_timer, queued, fire, run_timers,
}

-- Each timer's due time, in ticks after `base`, with its handler.
abbrev pub due : ℕ → Timers → List (ℕ × ℕ)
due base [] = []
due base (t ∷ ts) = (base + t.jiffies, t.fn) ∷ due (base + t.jiffies) ts

-- What `add_timer` makes of the due times: the timers due before the new one keep theirs, and
-- those due no earlier are put off by the ticks that were left of the new one.
abbrev pub insert_due : ℕ → ℕ → ℕ → List (ℕ × ℕ) → List (ℕ × ℕ)
insert_due base at fn [] = (at, fn) ∷ []
insert_due base at fn ((d, g) ∷ ds) =
    if ltb d at
    then (d, g) ∷ insert_due d at fn ds
    else (at, fn) ∷ map (λ (e : ℕ × ℕ). (e.0 + (at - base), e.1)) ((d, g) ∷ ds)

due-shift :
    (base k : ℕ) (ts : Timers)
    → due (base + k) ts ≡ map (λ (e : ℕ × ℕ). (e.0 + k, e.1)) (due base ts)
due-shift base k [] = refl
due-shift base k (t ∷ ts) = ground (arith, due-shift (base + t.jiffies) k ts)

due-sink :
    (base : ℕ) (p : Node) (ts : Timers)
    → due base (sink p ts) ≡ insert_due base (base + p.jiffies) p.fn (due base ts)
unfolding sink
due-sink base p [] = refl
due-sink base p (q ∷ ts) = elim (Bool-cases (ltb q.jiffies p.jiffies)) [
  | inl e ↦
      let shift : base + q.jiffies + (p.jiffies - q.jiffies) ≡ base + p.jiffies = ground arith in
      let later : ltb (base + q.jiffies) (base + p.jiffies) ≡ true = ground arith in
      rw (e, later)
        (ap (λ ds. (base + q.jiffies, q.fn) ∷ ds)
          (due-sink (base + q.jiffies) (record q { jiffies = p.jiffies - q.jiffies; fn = p.fn }) ts
            ∙ ap (λ at. insert_due (base + q.jiffies) at p.fn (due (base + q.jiffies) ts)) shift))
  | inr e ↦
      let left : base + p.jiffies - base ≡ p.jiffies = omega arith in
      let later : ltb (base + q.jiffies) (base + p.jiffies) ≡ false = ground arith in
      rw (e, later)
        (ap (λ ds. (base + p.jiffies, p.fn) ∷ ds)
          (due-shift base p.jiffies (q ∷ ts)
            ∙ ap (λ k. map (λ (e : ℕ × ℕ). (e.0 + k, e.1)) (due base (q ∷ ts))) (sym left)))
]

add_timer-sink :
    (n fn : ℕ) (ts : Timers) {ts' : Timers}
    → add_timer (pos (suc n)) (some fn) ts ≡ queued ts'
    → (i : ℕ) × (ts' ≡ sink (record { slot = i; jiffies = suc n; fn = fn }) ts)
unfolding add_timer
add_timer-sink n fn ts {ts'} e = elim (Option-cases (free_slot 0 time_requests ts)) [
  | inl full ↦ absurd (ground arith)
  | inr (i, free) ↦ (i, ground arith)
]

-- The new timer is due when it was asked for, and every timer that is due before it is left alone;
-- the others are put off by the ticks between its predecessor and it.
pub add_timer-due :
    (n fn : ℕ) (ts : Timers) {ts' : Timers}
    → add_timer (pos (suc n)) (some fn) ts ≡ queued ts'
    → due 0 ts' ≡ insert_due 0 (suc n) fn (due 0 ts)
unfolding add_timer
add_timer-due n fn ts {ts'} e =
    let (i, e') = add_timer-sink n fn ts e in
    rw e' (due-sink 0 (record { slot = i; jiffies = suc n; fn = fn }) ts ∙ simp zero-add)

-- The head waits: what `run_timers` leaves and `add_timer` keeps.
abbrev pub IsPending : Timers → Type 0
IsPending [] = Unit {0}
IsPending (t ∷ ts) = 0 < t.jiffies

pub sink-IsPending : (p : Node) (ts : Timers) → 0 < p.jiffies → IsPending ts → IsPending (sink p ts)
unfolding sink
sink-IsPending p [] h w = h
sink-IsPending p (q ∷ ts) h w = elim (Bool-cases (ltb q.jiffies p.jiffies)) [
  | inl e ↦ rw e w
  | inr e ↦ rw e h
]

-- The handlers of the entries due at `at` at the latest, and the other entries.
abbrev pub expired : ℕ → List (ℕ × ℕ) → List ℕ
expired at [] = []
expired at ((d, g) ∷ ds) = if leb d at then g ∷ expired at ds else expired at ds

abbrev pub remaining : ℕ → List (ℕ × ℕ) → List (ℕ × ℕ)
remaining at [] = []
remaining at ((d, g) ∷ ds) = if leb d at then remaining at ds else (d, g) ∷ remaining at ds

-- Nothing of a list that starts after `at` is due then.
none_expired :
    (at base : ℕ) (ts : Timers)
    → at < base
    → (expired at (due base ts) ≡ []) × (remaining at (due base ts) ≡ due base ts)
none_expired at base [] h = (refl, refl)
none_expired at base (t ∷ ts) h = ground (arith, none_expired at (base + t.jiffies) ts)

fire-due :
    (at : ℕ) (ts : Timers)
    → ((fire ts).0 ≡ expired at (due at ts))
      × (due at (fire ts).1 ≡ remaining at (due at ts))
      × IsPending (fire ts).1
unfolding fire
fire-due at [] = (refl, refl, tt)
fire-due at (t ∷ ts) = elim (Bool-cases (t.jiffies == 0)) [
  | inl e ↦
      let z : at + t.jiffies ≡ at = ground arith in
      let now : leb at at ≡ true = ground arith in
      let (fns, rest, wait) = fire-due at ts in rw (e, z, now) (ap (λ l. t.fn ∷ l) fns, rest, wait)
  | inr e ↦
      let later : leb (at + t.jiffies) at ≡ false = ground arith in
      let (fns, rest) = none_expired at (at + t.jiffies) ts (ground arith) in
      rw (e, later) (sym fns, ap (λ l. (at + t.jiffies, t.fn) ∷ l) (sym rest), ground arith)
]

-- A tick runs exactly the handlers that are due in one tick, in the order of the list, and brings
-- every other timer one tick nearer.
pub run_timers-due :
    (ts : Timers)
    → IsPending ts
    → ((run_timers ts).0 ≡ expired 1 (due 0 ts))
      × (due 1 (run_timers ts).1 ≡ remaining 1 (due 0 ts))
      × IsPending (run_timers ts).1
unfolding run_timers
run_timers-due [] h = (refl, refl, tt)
run_timers-due (t ∷ ts) h =
    let e : 1 + (t.jiffies - 1) ≡ t.jiffies = omega arith in
    let (fns, rest, wait) = fire-due 1 (record t { jiffies = t.jiffies - 1 } ∷ ts) in
    let same : due 1 (record t { jiffies = t.jiffies - 1 } ∷ ts) ≡ due 0 (t ∷ ts) =
      rw (e, zero-add) in
    (fns ∙ ap (expired 1) same, rest ∙ ap (remaining 1) same, wait)
