-- ===== src/Kill/Permission.antt =====
-- No signal without permission.
use linux_0_11_learning.Base.{
  ℕ, zero, suc, ◌≡◌, ◌⊎◌, inl, inr, refl, Option, none, some, [], ◌∷◌, Bool, true, false, ◌==◌,
  ◌&&◌, ◌||◌, Bool-cases,
}
use linux_0_11_learning.Base.Int.{ℤ, pos, negsuc}
use linux_0_11_learning.Task.{Task, Tasks, task_at, raise}
use linux_0_11_learning.Kill.{
  is_zero, in_group_1, is_signal, number, may_signal, send_sig, send_each, broadcast, kill_slots,
  sys_kill,
}

-- The tasks that `kill` may signal: for 0, whatever the caller, those of the group with the caller's
-- process id; for a process id, the task that has it, and for -1 any, where the caller is the
-- super-user or has the task's effective user id; for another negative number none.
unfoldable pub reaches : (pid : ℤ) → (current p : Task) → Bool
reaches (pos zero) current p = p.pgrp == current.pid
reaches (pos (suc n)) current p = p.pid == suc n && (current.euid == p.euid || current.euid == 0)
reaches (negsuc zero) current p = current.euid == p.euid || current.euid == 0
reaches (negsuc (suc n)) current p = false

-- The slot is as before, or its task, which is one of those, got the signal, which has a valid number.
abbrev pub Signalled : (Task → Bool) → ℤ → Option Task → Option Task → Type 0
Signalled among sig t t' =
    (t' ≡ t)
    ⊎ ((p : Task) × (t ≡ some p)
        × (is_signal sig ≡ true)
        × (among p ≡ true)
        × (t' ≡ some (raise (number sig) p)))

ap_selects :
    (selects : Task → Bool) (p q : Task) → some p ≡ some q → selects p ≡ true → selects q ≡ true
ap_selects selects p q e hit = cc

module _ (sig : ℤ) (current : Task) (among : Task → Bool) where
  send_sig-Signalled :
      (t : Option Task) (priv : Bool)
      → ((p : Task) → t ≡ some p → may_signal priv current p ≡ true → among p ≡ true)
      → Signalled among sig t (send_sig sig t priv current).1
  unfolding send_sig
  send_sig-Signalled none priv may_reach = inl refl
  send_sig-Signalled (some p) priv may_reach = elim (Bool-cases (is_signal sig)) [
    | inl good ↦ elim (Bool-cases (may_signal priv current p)) [
      | inl may ↦ inr (p, refl, good, may_reach p refl may, rw (good, may))
      | inr denied ↦ inl (rw (good, denied))
    ]
    | inr bad ↦ inl (rw bad)
  ]

  send_each-Signalled :
      (selects : Task → Bool) (priv : Bool)
      → ((p : Task) → selects p ≡ true → may_signal priv current p ≡ true → among p ≡ true)
      → (ts : Tasks) (i : ℕ)
      → Signalled among sig (task_at ts i) (task_at (send_each selects priv sig current ts).1 i)
  unfolding send_each
  send_each-Signalled selects priv h [] i = inl refl
  send_each-Signalled selects priv h (none ∷ ts) zero = inl refl
  send_each-Signalled selects priv h (none ∷ ts) (suc i) = send_each-Signalled selects priv h ts i
  send_each-Signalled selects priv h (some p ∷ ts) zero = elim (Bool-cases (selects p)) [
    | inl hit ↦
        rw hit
          (send_sig-Signalled (some p) priv (λ q e may. h q (ap_selects selects p q e hit) may))
    | inr miss ↦ rw miss (inl refl)
  ]
  send_each-Signalled selects priv h (some p ∷ ts) (suc i) = elim (Bool-cases (selects p)) [
    | inl hit ↦ rw hit (send_each-Signalled selects priv h ts i)
    | inr miss ↦ rw miss (send_each-Signalled selects priv h ts i)
  ]

  broadcast-Signalled :
      ((p : Task) → may_signal false current p ≡ true → among p ≡ true)
      → (ts : Tasks) (i : ℕ)
      → Signalled among sig (task_at ts i) (task_at (broadcast sig current ts).2 i)
  unfolding broadcast
  broadcast-Signalled h [] i = inl refl
  broadcast-Signalled h (t ∷ ts) zero =
      let sent = send_sig-Signalled t false (λ p e may. h p may) in
      elim (Bool-cases (broadcast sig current ts).1) [
        | inl inner ↦ elim (Bool-cases (in_group_1 t)) [
          | inl group ↦ rw (inner, group) sent
          | inr other ↦ rw (inner, other) (inl refl)
        ]
        | inr outer ↦ elim (Bool-cases (is_zero (send_sig sig t false current).0)) [
          | inl good ↦ rw (outer, good) sent
          | inr failed ↦ rw (outer, failed) sent
        ]
      ]
  broadcast-Signalled h (t ∷ ts) (suc i) = elim (Bool-cases (broadcast sig current ts).1) [
    | inl inner ↦ elim (Bool-cases (in_group_1 t)) [
      | inl group ↦ rw (inner, group) (broadcast-Signalled h ts i)
      | inr other ↦ rw (inner, other) (broadcast-Signalled h ts i)
    ]
    | inr outer ↦ elim (Bool-cases (is_zero (send_sig sig t false current).0)) [
      | inl good ↦ rw (outer, good) (broadcast-Signalled h ts i)
      | inr failed ↦ rw (outer, failed) (broadcast-Signalled h ts i)
    ]
  ]

module _ (sig : ℤ) (current : Task) where
  kill_slots-Signalled :
      (pid : ℤ) (ts : Tasks) (i : ℕ)
      → Signalled
          (reaches pid current)
          sig
          (task_at ts i)
          (task_at (kill_slots pid sig current ts).1 i)
  unfolding kill_slots reaches
  kill_slots-Signalled (pos zero) ts i =
      send_each-Signalled sig current (reaches (pos 0) current) (λ p. p.pgrp == current.pid) true
        (λ p hit may. hit) ts i
  kill_slots-Signalled (pos (suc n)) ts i =
      send_each-Signalled sig current (reaches (pos (suc n)) current) (λ p. p.pid == suc n) false
        (λ p hit may. rw hit may) ts i
  kill_slots-Signalled (negsuc zero) ts i =
      broadcast-Signalled sig current (reaches (negsuc 0) current) (λ p may. may) ts i
  kill_slots-Signalled (negsuc (suc n)) ts i = inl refl

  -- `kill` changes no task but by adding the signal, which has a valid number. For the process id 0
  -- the task is in the group with the caller's process id; for another id above 0 it has that id, and
  -- for it and for -1 the caller is the super-user or has the task's effective user id; for the ids
  -- below -1 no task is changed.
  pub sys_kill-Signalled :
      (pid : ℤ) (ts : Tasks) (i : ℕ)
      → Signalled
          (reaches pid current)
          sig
          (task_at ts i)
          (task_at (sys_kill pid sig current ts).1 i)
  unfolding sys_kill
  sys_kill-Signalled pid [] i = inl refl
  sys_kill-Signalled pid (t ∷ ts) zero = inl refl
  sys_kill-Signalled pid (t ∷ ts) (suc i) = kill_slots-Signalled pid ts i
