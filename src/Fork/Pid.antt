-- ===== src/Fork/Pid.antt =====
-- A process id that nobody has is found, and how soon.
use linux_0_11_learning.Base.{
  ℕ, zero, suc, ◌+◌, ◌-◌, ◌^◌, ◌≤◌, ◌<◌, ◌≡◌, ◌≢◌, ◌⊎◌, refl, ap, ◌∙◌, inl, inr, Option, none, some,
  [], ◌∷◌, Bool, true, false, arith, ltb, leb, ◌==◌, ◌&&◌, if◌then◌else◌, Bool-cases, Option-cases,
  length,
}
use linux_0_11_learning.Base.Int.{ℤ, pos, negsuc}
use linux_0_11_learning.Task.{Task, Tasks, task_at}
use linux_0_11_learning.Fork.{
  next_pid, pid_used, fresh_pid, free_slot, slot_or_eagain, find_empty_process,
}

-- How many steps from `last_pid` it takes to the process id `x`.
abbrev steps : (last_pid x : ℕ) → ℕ
steps last_pid x = if ltb last_pid x then x - last_pid else x + (2 ^ 31 - 1) - last_pid

-- The next `n` process ids.
abbrev window : (n last_pid x : ℕ) → Bool
window n last_pid x = (leb 1 x && ltb x (2 ^ 31)) && leb (steps last_pid x) n

window-next :
    (n last_pid x : ℕ)
    → last_pid < 2 ^ 31
    → window n (next_pid last_pid) x ≡ true
    → window (suc n) last_pid x ≡ true
unfolding next_pid
window-next n last_pid x h e = ground arith

window-first :
    (n last_pid : ℕ) → last_pid < 2 ^ 31 → window (suc n) last_pid (next_pid last_pid) ≡ true
unfolding next_pid
window-first n last_pid h = ground arith

window-apart :
    (n last_pid : ℕ)
    → last_pid < 2 ^ 31
    → n < 2 ^ 31 - 1
    → window n (next_pid last_pid) (next_pid last_pid) ≡ false
unfolding next_pid
window-apart n last_pid h lt = ground arith

-- How many tasks have a process id of a set.
count : (ℕ → Bool) → Tasks → ℕ
count s [] = 0
count s (none ∷ ts) = count s ts
count s (some p ∷ ts) = (if s p.pid then 1 else 0) + count s ts

count-length : (s : ℕ → Bool) (ts : Tasks) → count s ts ≤ length ts
unfolding count
count-length s [] = omega arith
count-length s (none ∷ ts) = omega (arith, count-length s ts)
count-length s (some p ∷ ts) = ground (arith, count-length s ts)

count_mono :
    (s s' : ℕ → Bool) (ts : Tasks) → ((x : ℕ) → s' x ≡ true → s x ≡ true) → count s' ts ≤ count s ts
unfolding count
count_mono s s' [] sub = omega arith
count_mono s s' (none ∷ ts) sub = count_mono s s' ts sub
count_mono s s' (some p ∷ ts) sub = elim (Bool-cases (s' p.pid)) [
  | inl inside ↦ rw (inside, sub p.pid inside) (omega (arith, count_mono s s' ts sub))
  | inr outside ↦ rw outside (ground (arith, count_mono s s' ts sub))
]

-- A set with one more process id that some task has counts more tasks.
count-used :
    (s s' : ℕ → Bool) (x : ℕ) (ts : Tasks)
    → ((y : ℕ) → s' y ≡ true → s y ≡ true)
    → s x ≡ true
    → s' x ≡ false
    → pid_used x ts ≡ true
    → suc (count s' ts) ≤ count s ts
unfolding count pid_used
count-used s s' x [] sub one other used = absurd (ground arith)
count-used s s' x (none ∷ ts) sub one other used = count-used s s' x ts sub one other used
count-used s s' x (some p ∷ ts) sub one other used = elim (Bool-cases (p.pid == x)) [
  | inl hit ↦
      let e : p.pid ≡ x = ground arith in rw (e, one, other) (omega (arith, count_mono s s' ts sub))
  | inr miss ↦
      let rest = count-used s s' x ts sub one other (ground arith) in
      elim (Bool-cases (s' p.pid)) [
        | inl inside ↦ rw (inside, sub p.pid inside) (omega arith)
        | inr outside ↦ rw outside (ground arith)
      ]
]

next_pid-lt :
    (last_pid : ℕ) → last_pid < 2 ^ 31 → (1 ≤ next_pid last_pid) × (next_pid last_pid < 2 ^ 31)
unfolding next_pid
next_pid-lt last_pid h = ground arith

-- Where no id is found, there are as many tasks as ids were tried.
fresh_pid-full :
    (fuel last_pid : ℕ) (ts : Tasks)
    → last_pid < 2 ^ 31
    → fuel < 2 ^ 31
    → fresh_pid fuel last_pid ts ≡ none
    → fuel ≤ count (window fuel last_pid) ts
unfolding fresh_pid
fresh_pid-full zero last_pid ts h lt e = omega arith
fresh_pid-full (suc fuel) last_pid ts h lt e = elim (Bool-cases (pid_used (next_pid last_pid) ts)) [
  | inl used ↦
      let (lo, hi) = next_pid-lt last_pid h in
      let rest = fresh_pid-full fuel (next_pid last_pid) ts hi (omega arith) (ground arith) in
      let more =
        count-used (window (suc fuel) last_pid) (window fuel (next_pid last_pid))
          (next_pid last_pid) ts (λ y. window-next fuel last_pid y h) (window-first fuel last_pid h)
          (window-apart fuel last_pid h (omega arith)) used in
      omega arith
  | inr fresh ↦ absurd (ground arith)
]

fresh_pid-unused :
    (fuel last_pid : ℕ) (ts : Tasks) (pid : ℕ)
    → last_pid < 2 ^ 31
    → fresh_pid fuel last_pid ts ≡ some pid
    → (1 ≤ pid) × (pid < 2 ^ 31) × (pid_used pid ts ≡ false)
unfolding fresh_pid
fresh_pid-unused zero last_pid ts pid h e = absurd (ground arith)
fresh_pid-unused (suc fuel) last_pid ts pid h e =
    let (lo, hi) = next_pid-lt last_pid h in
    elim (Bool-cases (pid_used (next_pid last_pid) ts)) [
      | inl used ↦ fresh_pid-unused fuel (next_pid last_pid) ts pid hi (ground arith)
      | inr fresh ↦ let same : next_pid last_pid ≡ pid = ground arith in rw (← same) (lo, hi, fresh)
    ]

-- The first free slot but the first of all, or none.
pub data Slot (ts : Tasks) : ℤ → Type 0 where
  free_at :
      (i : ℕ)
      → 1 ≤ i
      → i < length ts
      → task_at ts i ≡ none
      → ((j : ℕ) → 1 ≤ j → j < i → task_at ts j ≢ none)
      → Slot ts (pos i)
  no_slot : ((j : ℕ) → 1 ≤ j → j < length ts → task_at ts j ≢ none) → Slot ts (negsuc 10)

taken-cons :
    (p : Task) (n : ℕ) (ts : Tasks)
    → ((j : ℕ) → j < n → task_at ts j ≢ none)
    → (j : ℕ) → j < suc n
    → task_at (some p ∷ ts) j ≢ none
taken-cons p n ts before zero lt e = absurd (ground arith)
taken-cons p n ts before (suc j) lt e = before j (omega arith) e

free_slot-first :
    (i : ℕ) (ts : Tasks)
    → ((n : ℕ) × (free_slot i ts ≡ some (i + n))
        × (n < length ts)
        × (task_at ts n ≡ none)
        × ((j : ℕ) → j < n → task_at ts j ≢ none))
      ⊎ ((free_slot i ts ≡ none) × ((j : ℕ) → j < length ts → task_at ts j ≢ none))
unfolding free_slot
free_slot-first i [] = inr (refl, λ j lt. absurd (omega arith))
free_slot-first i (none ∷ ts) =
    inl (0, ap some (omega arith), omega arith, refl, λ j lt. absurd (omega arith))
free_slot-first i (some p ∷ ts) = elim (free_slot-first (i + 1) ts) [
  | inl (n, e, lt, free, before) ↦
      inl (suc n, e ∙ ap some (omega arith), omega arith, free, taken-cons p n ts before)
  | inr (e, all) ↦ inr (e, taken-cons p (length ts) ts all)
]

free_slot-Slot : (t : Option Task) (ts : Tasks) → Slot (t ∷ ts) (slot_or_eagain (free_slot 1 ts))
free_slot-Slot t ts = elim (free_slot-first 1 ts) [
  | inl (n, e, lt, free, before) ↦ rw e (
      Slot.free_at (1 + n) (omega arith) (omega arith)
        (let at : 1 + n ≡ suc n = omega arith in rw at free) (shifted n (omega arith) before))
  | inr (e, all) ↦ rw e (Slot.no_slot (λ j lo lt. shifted (length ts) refl all j lo lt))
]
  where
    shifted :
        (n : ℕ)
        → {m : ℕ} → m ≡ suc n
        → ((j : ℕ) → j < n → task_at ts j ≢ none)
        → (j : ℕ) → 1 ≤ j
        → j < m
        → task_at (t ∷ ts) j ≢ none
    shifted n e before zero lo lt e' = absurd (omega arith)
    shifted n e before (suc j) lo lt e' = before j (omega arith) e'

-- With at most 64 tasks, `find_empty_process` finds a process id within 65 steps. It is positive and
-- below 2 ^ 31, and no task has it; and the slot is the first free one after that of the idle task,
-- or the result is -EAGAIN and there is none.
pub find_empty_process-Slot :
    (last_pid : ℕ) (t : Option Task) (ts : Tasks)
    → last_pid < 2 ^ 31
    → length (t ∷ ts) ≤ 64
    → (r : ℕ × ℤ) × (find_empty_process 65 last_pid (t ∷ ts) ≡ some r)
      × (1 ≤ r.0)
      × (r.0 < 2 ^ 31)
      × (pid_used r.0 (t ∷ ts) ≡ false)
      × Slot (t ∷ ts) r.1
unfolding find_empty_process
find_empty_process-Slot last_pid t ts h few = elim (Option-cases (fresh_pid 65 last_pid (t ∷ ts))) [
  | inl full ↦
      let many = fresh_pid-full 65 last_pid (t ∷ ts) h (omega arith) full in
      let all = count-length (window 65 last_pid) (t ∷ ts) in absurd (omega arith)
  | inr (pid, found) ↦
      let (lo, hi, fresh) = fresh_pid-unused 65 last_pid (t ∷ ts) pid h found in
      (
        (pid, slot_or_eagain (free_slot 1 ts)),
        rw (found, find_empty_process),
        lo,
        hi,
        fresh,
        free_slot-Slot t ts,
      )
]
