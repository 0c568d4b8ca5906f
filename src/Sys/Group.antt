-- ===== src/Sys/Group.antt =====
-- Which task `setpgid` moves to another process group.
use linux_0_11_learning.Base.{
  ℕ, zero, suc, ◌≡◌, ◌⊎◌, inl, inr, refl, Option, none, some, [], ◌∷◌, false, arith, ◌==◌,
  if◌then◌else◌, Bool-cases,
}
use linux_0_11_learning.Base.Int.{pos}
use linux_0_11_learning.Task.{Task, Tasks, task_at}
use linux_0_11_learning.Sys.{set_group, sys_setpgid}

-- The slot is as before, or its task had the process id, belonged to the session and was no
-- leader, and has the new group.
abbrev pub Regrouped : (pid pgid session : ℕ) → Option Task → Option Task → Type 0
Regrouped pid pgid session t t' =
    (t' ≡ t)
    ⊎ ((p : Task) × (t ≡ some p)
        × (p.pid ≡ pid)
        × (p.session ≡ session)
        × (p.leader ≡ false)
        × (t' ≡ some (record p { pgrp = pgid })))

set_group-Regrouped :
    (pid pgid session : ℕ) (ts : Tasks) (i : ℕ)
    → Regrouped pid pgid session (task_at ts i) (task_at (set_group pid pgid session ts).1 i)
unfolding set_group
set_group-Regrouped pid pgid session [] i = inl refl
set_group-Regrouped pid pgid session (none ∷ ts) zero = inl refl
set_group-Regrouped pid pgid session (none ∷ ts) (suc i) = set_group-Regrouped pid pgid session ts i
set_group-Regrouped pid pgid session (some p ∷ ts) zero = elim (Bool-cases (p.pid == pid)) [
  | inl hit ↦ elim (Bool-cases p.leader) [
    | inl leader ↦ inl (rw (hit, leader))
    | inr plain ↦ elim (Bool-cases (p.session == session)) [
      | inl own ↦ inr (p, refl, ground arith, ground arith, plain, rw (hit, plain, own))
      | inr other ↦ inl (rw (hit, plain, other))
    ]
  ]
  | inr miss ↦ inl (rw miss)
]
set_group-Regrouped pid pgid session (some p ∷ ts) (suc i) = elim (Bool-cases (p.pid == pid)) [
  | inl hit ↦ inl (ground arith)
  | inr miss ↦ rw miss (set_group-Regrouped pid pgid session ts i)
]

set_group-result :
    (pid pgid session : ℕ) (ts : Tasks)
    → ((set_group pid pgid session ts).0 ≡ pos 0) ⊎ ((set_group pid pgid session ts).1 ≡ ts)
unfolding set_group
set_group-result pid pgid session [] = inr refl
set_group-result pid pgid session (none ∷ ts) = ground (arith, set_group-result pid pgid session ts)
set_group-result pid pgid session (some p ∷ ts) =
    ground (arith, set_group-result pid pgid session ts)

-- `setpgid` gives the new group to no task but one with the process id, of the caller's session,
-- that leads no session; and where it reports an error no task has changed.
pub sys_setpgid-Regrouped :
    (pid pgid : ℕ) (current : Task) (ts : Tasks)
    → let (r, ts') = sys_setpgid pid pgid current ts in
      ((i : ℕ)
        → Regrouped
            (if pid == 0 then current.pid else pid)
            (if pgid == 0 then current.pid else pgid)
            current.session
            (task_at ts i)
            (task_at ts' i))
      × ((r ≡ pos 0) ⊎ (ts' ≡ ts))
unfolding sys_setpgid
sys_setpgid-Regrouped pid pgid current ts =
    (λ i. set_group-Regrouped _ _ _ ts i, set_group-result _ _ _ ts)
