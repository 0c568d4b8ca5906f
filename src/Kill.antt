-- ===== src/Kill.antt =====
-- kernel/exit.c: sending signals: `send_sig`, `kill_session`, `sys_kill` and `tell_father`.
pub mod Permission
pub mod Targets
mod Tests
use linux_0_11_learning.Base.{
  ℕ, zero, suc, ◌-◌, Bool, true, false, Option, none, some, List, [], ◌∷◌, leb, ◌==◌, ◌&&◌, ◌||◌,
  not, if◌then◌else◌,
}
use linux_0_11_learning.Base.Int.{ℤ, pos, negsuc}
use linux_0_11_learning.Task.{Task, Tasks, raise, suser, sighup, sigchld}

-- `-EPERM`, `-EINVAL`
abbrev pub eperm : ℤ
eperm = negsuc 0

abbrev pub einval : ℤ
einval = negsuc 21

-- `sig<1 || sig>32`
abbrev pub is_signal : ℤ → Bool
is_signal (pos n) = leb 1 n && leb n 32
is_signal (negsuc n) = false

abbrev pub number : ℤ → ℕ
number (pos n) = n
number (negsuc n) = 0

abbrev pub may_signal : Bool → (current p : Task) → Bool
may_signal priv current p = priv || current.euid == p.euid || suser current

-- The slot's new content, with 0 or an error.
unfoldable pub send_sig : ℤ → Option Task → Bool → (current : Task) → ℤ × Option Task
unfolding raise
send_sig sig none priv current = (einval, none)
send_sig sig (some p) priv current =
    if not (is_signal sig)
    then (einval, some p)
    else if may_signal priv current p
    then (pos 0, some (raise (number sig) p))
    else (eperm, some p)

abbrev pub is_zero : ℤ → Bool
is_zero (pos zero) = true
is_zero _ = false

-- `if (err=send_sig(...)) retval = err;` on the slots of the tasks that `selects` picks, the last
-- slot first: the error of the lowest slot that has one is kept.
unfoldable pub send_each : (selects : Task → Bool) → Bool → ℤ → Task → Tasks → ℤ × Tasks
unfolding send_sig
send_each selects priv sig current [] = (pos 0, [])
send_each selects priv sig current (none ∷ ts) =
    let (retval, ts') = send_each selects priv sig current ts in (retval, none ∷ ts')
send_each selects priv sig current (some p ∷ ts) =
    let (retval, ts') = send_each selects priv sig current ts in
    let (err, t') = send_sig sig (some p) priv current in
    if selects p then ((if is_zero err then retval else err), t' ∷ ts') else (retval, some p ∷ ts')

abbrev pub in_group_1 : Option Task → Bool
in_group_1 none = false
in_group_1 (some p) = p.pgrp == 1

-- The loop for the process id -1, as the compiler reads it: the `else` belongs to the inner `if`,
-- so after the first signal that is sent the rest of the slots are searched for the group 1. The
-- Boolean tells which of the two loops runs.
unfoldable pub broadcast : ℤ → Task → Tasks → ℤ × Bool × Tasks
unfolding send_sig
broadcast sig current [] = (pos 0, false, [])
broadcast sig current (t ∷ ts) =
    let (retval, inner, ts') = broadcast sig current ts in
    let (err, t') = send_sig sig t false current in
    if inner
    then (if in_group_1 t
        then ((if is_zero err then retval else err), true, t' ∷ ts')
        else (retval, true, t ∷ ts'))
    else (if is_zero err then (retval, true, t' ∷ ts') else (err, false, t' ∷ ts'))

-- `sys_kill` on the slots after the first.
unfoldable pub kill_slots : ℤ → ℤ → Task → Tasks → ℤ × Tasks
unfolding send_each broadcast
kill_slots (pos zero) sig current ts = send_each (λ p. p.pgrp == current.pid) true sig current ts
kill_slots (pos (suc n)) sig current ts = send_each (λ p. p.pid == suc n) false sig current ts
kill_slots (negsuc zero) sig current ts =
    let (retval, inner, ts') = broadcast sig current ts in (retval, ts')
kill_slots (negsuc (suc n)) sig current ts = (pos 0, ts)

-- `sys_kill(pid, sig)`: slot 0 is passed over.
unfoldable pub sys_kill : ℤ → ℤ → Task → Tasks → ℤ × Tasks
unfolding kill_slots
sys_kill pid sig current [] = (pos 0, [])
sys_kill pid sig current (t ∷ ts) =
    let (retval, ts') = kill_slots pid sig current ts in (retval, t ∷ ts')

-- `kill_session`, on the slots after the first.
unfoldable pub kill_session : (session : ℕ) → Tasks → Tasks
unfolding raise
kill_session session [] = []
kill_session session (none ∷ ts) = none ∷ kill_session session ts
kill_session session (some p ∷ ts) =
    some (if p.session == session then raise sighup p else p) ∷ kill_session session ts

abbrev pub consed : Option Task → Option Tasks → Option Tasks
consed t none = none
consed t (some ts) = some (t ∷ ts)

-- The loop of `tell_father`: the first task with the process id gets SIGCHLD; `none` if there is
-- no such task.
unfoldable pub tell_father : (pid : ℕ) → Tasks → Option Tasks
unfolding raise
tell_father pid [] = none
tell_father pid (none ∷ ts) = consed none (tell_father pid ts)
tell_father pid (some p ∷ ts) =
    let rest = consed (some p) (tell_father pid ts) in
    if p.pid == pid then some (some (raise sigchld p) ∷ ts) else rest
