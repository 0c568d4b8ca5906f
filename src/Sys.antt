-- ===== src/Sys.antt =====
-- kernel/sys.c: the calls on the identity, the process group and the limits of a task.
pub mod Identity
pub mod Group
mod Tests
use linux_0_11_learning.Base.{
  ℕ, zero, suc, ◌+◌, ◌-◌, ◌*◌, ◌/◌, ◌%◌, ◌^◌, Bool, true, false, Option, none, some, List, [], ◌∷◌,
  ltb, leb, ◌==◌, ◌&&◌, ◌||◌, not, if◌then◌else◌,
}
use linux_0_11_learning.Base.Int.{ℤ, pos, negsuc, sub_ℕ}
use linux_0_11_learning.Task.{Task, Tasks, suser, hz}

-- `-EPERM`, `-ESRCH`
abbrev pub eperm : ℤ
eperm = negsuc 0

abbrev pub esrch : ℤ
esrch = negsuc 2

-- `(unsigned short) n`
abbrev pub ushort : ℕ → ℕ
ushort n = n % 2 ^ 16

-- The first half of `sys_setregid`; `none` is -EPERM. An id that is not positive is not set.
abbrev pub set_rgid : ℤ → Task → Option Task
set_rgid (pos (suc n)) p =
    if p.gid == suc n || suser p then some (record p { gid = ushort (suc n) }) else none
set_rgid _ p = some p

abbrev pub set_egid : ℤ → Task → Option Task
set_egid (pos (suc n)) p =
    if p.gid == suc n || p.egid == suc n || p.sgid == suc n || suser p
    then some (record p { egid = ushort (suc n) })
    else none
set_egid _ p = some p

-- The result, and the task as the call leaves it: a refusal of `egid` keeps the new `gid`.
unfoldable pub sys_setregid : ℤ → ℤ → Task → ℤ × Task
sys_setregid rgid egid p = elim (set_rgid rgid p) [
  | none ↦ (eperm, p)
  | some q ↦ elim (set_egid egid q) [ none ↦ (eperm, q) | some r ↦ (pos 0, r) ]
]

unfoldable pub sys_setgid : ℤ → Task → ℤ × Task
unfolding sys_setregid
sys_setgid gid p = sys_setregid gid gid p

abbrev pub set_ruid : ℤ → Task → Option Task
set_ruid (pos (suc n)) p =
    if p.euid == suc n || p.uid == suc n || suser p
    then some (record p { uid = ushort (suc n) })
    else none
set_ruid _ p = some p

abbrev pub set_euid : (old_ruid : ℕ) → ℤ → Task → Option Task
set_euid old_ruid (pos (suc n)) p =
    if old_ruid == suc n || p.euid == suc n || suser p
    then some (record p { euid = ushort (suc n) })
    else none
set_euid old_ruid _ p = some p

unfoldable pub sys_setreuid : ℤ → ℤ → Task → ℤ × Task
sys_setreuid ruid euid p = elim (set_ruid ruid p) [
  | none ↦ (eperm, p)
  | some q ↦ elim (set_euid p.uid euid q) [
    | none ↦ (eperm, record q { uid = p.uid })
    | some r ↦ (pos 0, r)
  ]
]

unfoldable pub sys_setuid : ℤ → Task → ℤ × Task
unfolding sys_setreuid
sys_setuid uid p = sys_setreuid uid uid p

-- The clock: `startup_time` and `jiffies`. `value` is what the caller's pointer holds.
unfoldable pub sys_stime : (value jiffies startup_time : ℕ) → Task → ℤ × ℤ
sys_stime value jiffies startup_time p =
    if not (suser p) then (eperm, pos startup_time) else (pos 0, sub_ℕ value (jiffies / hz))

unfoldable pub sys_brk : ℕ → Task → ℕ × Task
sys_brk end_data_seg p =
    let limit = (p.start_stack + 2 ^ 32 - 16384) % 2 ^ 32 in
    let q =
      if leb p.end_code end_data_seg && ltb end_data_seg limit
      then record p { brk = end_data_seg }
      else p in
    (q.brk, q)

-- The loop of `sys_setpgid` over `task[]`: the first task with the process id is changed.
unfoldable pub set_group : (pid pgid session : ℕ) → Tasks → ℤ × Tasks
set_group pid pgid session [] = (esrch, [])
set_group pid pgid session (none ∷ ts) =
    let (r, ts') = set_group pid pgid session ts in (r, none ∷ ts')
set_group pid pgid session (some p ∷ ts) =
    let (r, ts') = set_group pid pgid session ts in
    if p.pid == pid
    then (if p.leader
        then (eperm, some p ∷ ts)
        else if not (p.session == session)
        then (eperm, some p ∷ ts)
        else (pos 0, some (record p { pgrp = pgid }) ∷ ts))
    else (r, some p ∷ ts')

unfoldable pub sys_setpgid : (pid pgid : ℕ) → (current : Task) → Tasks → ℤ × Tasks
unfolding set_group
sys_setpgid pid pgid current ts =
    set_group (if pid == 0 then current.pid else pid) (if pgid == 0 then current.pid else pgid)
      current.session ts

unfoldable pub sys_setsid : Task → ℤ × Task
sys_setsid p =
    if p.leader && not (suser p)
    then (eperm, p)
    else (pos p.pid, record p { leader = true; session = p.pid; pgrp = p.pid; tty = none })

unfoldable pub sys_umask : ℕ → Task → ℕ × Task
sys_umask mask p = (p.umask, record p { umask = mask % 512 })
