-- ===== src/Kill/Targets.antt =====
-- Whom `kill` reaches.
use linux_0_11_learning.Base.{
  ℕ, zero, suc, ◌≡◌, inl, inr, refl, Option, none, some, [], ◌∷◌, ◌++◌, ◌||◌, Bool, true, false,
  ◌==◌, ◌&&◌, not, if◌then◌else◌, Bool-cases, map,
}
use mathlib.Core.Option
use linux_0_11_learning.Base.Int.{ℤ, pos, negsuc}
use linux_0_11_learning.Task.{Task, Tasks, task_at, raise}
use linux_0_11_learning.Kill.{
  eperm, is_signal, number, in_group_1, may_signal, send_each, broadcast, sys_kill,
}

-- The tasks of the process id that the caller may signal.
abbrev pub reached : (pid : ℕ) → (current p : Task) → Bool
reached pid current p = p.pid == pid && may_signal false current p

module _ (pid : ℕ) (sig : ℤ) (current : Task) where
  -- The caller may signal every task of the id.
  unfoldable pub all_allowed : Tasks → Bool
  all_allowed [] = true
  all_allowed (none ∷ ts) = all_allowed ts
  all_allowed (some p ∷ ts) = (not (p.pid == pid) || may_signal false current p) && all_allowed ts

  abbrev pub delivered : Task → Task
  delivered p = if reached pid current p then raise (number sig) p else p

  send_each-delivered :
      (ts : Tasks)
      → is_signal sig ≡ true
      → send_each (λ p. p.pid == pid) false sig current ts
        ≡ ((if all_allowed ts then pos 0 else eperm), map (Option.map delivered) ts)
  unfolding send_each all_allowed
  send_each-delivered [] good = refl
  send_each-delivered (none ∷ ts) good = rw (send_each-delivered ts good)
  send_each-delivered (some p ∷ ts) good = elim (Bool-cases (p.pid == pid)) [
    | inl hit ↦ elim (Bool-cases (may_signal false current p)) [
      | inl may ↦ rw (hit, send_each-delivered ts good, good, may)
      | inr denied ↦ rw (hit, send_each-delivered ts good, good, denied)
    ]
    | inr miss ↦ rw (miss, send_each-delivered ts good)
  ]

-- A valid signal for one process id reaches exactly the tasks of that id, outside slot 0, that the
-- caller may signal; and the result is 0 if the caller may signal all of them, and else -EPERM.
pub sys_kill-delivered :
    (n : ℕ) (sig : ℤ) (current : Task) (t : Option Task) (ts : Tasks)
    → is_signal sig ≡ true
    → sys_kill (pos (suc n)) sig current (t ∷ ts) ≡ (
      (if all_allowed (suc n) sig current ts then pos 0 else eperm),
      t ∷ map (Option.map (delivered (suc n) sig current)) ts,
    )
unfolding sys_kill
sys_kill-delivered n sig current t ts good = rw (send_each-delivered (suc n) sig current ts good)

-- A process id below -1 names a group, and `kill` reaches nobody and reports success: the `else`
-- that should belong to `if (pid == -1)` belongs to the `if` of the loop before it.
pub sys_kill-group :
    (n : ℕ) (sig : ℤ) (current : Task) (ts : Tasks)
    → sys_kill (negsuc (suc n)) sig current ts ≡ (pos 0, ts)
unfolding sys_kill
sys_kill-group n sig current [] = refl
sys_kill-group n sig current (t ∷ ts) = refl

module _ (sig : ℤ) (current : Task) where
  inner-append :
      (ts us : Tasks)
      → (broadcast sig current us).1 ≡ true
      → (broadcast sig current (ts ++ us)).1 ≡ true
  unfolding broadcast
  inner-append [] us sent = sent
  inner-append (t ∷ ts) us sent = elim (Bool-cases (in_group_1 t)) [
    | inl group ↦ rw (inner-append ts us sent, group)
    | inr other ↦ rw (inner-append ts us sent, other)
  ]

  -- In the second loop a task of another group is passed over.
  broadcast-passes :
      (ts us : Tasks) (i : ℕ) {p : Task}
      → (broadcast sig current us).1 ≡ true
      → task_at ts i ≡ some p
      → (p.pgrp == 1) ≡ false
      → task_at (broadcast sig current (ts ++ us)).2 i ≡ some p
  unfolding broadcast
  broadcast-passes [] us i sent e other = cc
  broadcast-passes (t ∷ ts) us zero sent e other =
      let group : in_group_1 t ≡ false = rw e other in rw (inner-append ts us sent, group) e
  broadcast-passes (t ∷ ts) us (suc i) sent e other = elim (Bool-cases (in_group_1 t)) [
    | inl group ↦ rw (inner-append ts us sent, group) (broadcast-passes ts us i sent e other)
    | inr other' ↦ rw (inner-append ts us sent, other') (broadcast-passes ts us i sent e other)
  ]

  broadcast-sent :
      (q : Task) (us : Tasks)
      → is_signal sig ≡ true
      → may_signal false current q ≡ true
      → (broadcast sig current (some q ∷ us)).1 ≡ true
  unfolding broadcast
  broadcast-sent q us good may = elim (Bool-cases (broadcast sig current us).1) [
    | inl inner ↦ elim (Bool-cases (in_group_1 (some q))) [
      | inl group ↦ rw (inner, group)
      | inr other ↦ rw (inner, other)
    ]
    | inr outer ↦ rw (outer, good, may)
  ]

  -- `kill(-1, sig)` does not reach all: below the slot of a task that the caller may signal, a task
  -- of another group than 1 does not get the signal, whoever the caller is.
  pub sys_kill-broadcast :
      (t : Option Task) (ts us : Tasks) (q : Task) (i : ℕ) {p : Task}
      → is_signal sig ≡ true
      → may_signal false current q ≡ true
      → task_at ts i ≡ some p
      → (p.pgrp == 1) ≡ false
      → task_at (sys_kill (negsuc zero) sig current (t ∷ (ts ++ some q ∷ us))).1 (suc i) ≡ some p
  unfolding sys_kill
  sys_kill-broadcast t ts us q i good may e other =
      broadcast-passes ts (some q ∷ us) i (broadcast-sent q us good may) e other
