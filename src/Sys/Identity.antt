-- ===== src/Sys/Identity.antt =====
-- What a call can make of the user and group ids of a task.
use linux_0_11_learning.Base.{ℕ, zero, suc, ◌+◌, ◌^◌, ◌≤◌, ◌<◌, ◌≡◌, ◌≢◌, ◌⊎◌, arith}
use linux_0_11_learning.Base.Int.{ℤ, pos}
use linux_0_11_learning.Task.{Task}
use linux_0_11_learning.Sys.{eperm, sys_setregid, sys_setreuid, sys_brk}

-- The ids are 16-bit numbers.
abbrev pub IdsFit : Task → Type 0
IdsFit p =
    (p.uid < 2 ^ 16) × (p.euid < 2 ^ 16) × (p.gid < 2 ^ 16) × (p.egid < 2 ^ 16) × (p.sgid < 2 ^ 16)

-- Without the super-user's id, `setreuid` gives each of the two user ids one of the two that the
-- task had; and when it is refused, both are as before.
pub sys_setreuid-no_gain :
    (ruid euid : ℤ) (p : Task)
    → IdsFit p
    → p.euid ≢ 0
    → let (r, q) = sys_setreuid ruid euid p in
      ((q.uid ≡ p.uid) ⊎ (q.uid ≡ p.euid))
      × ((q.euid ≡ p.uid) ⊎ (q.euid ≡ p.euid))
      × (r ≡ eperm → (q.uid ≡ p.uid) × (q.euid ≡ p.euid))
unfolding sys_setreuid
sys_setreuid-no_gain (pos zero) (pos zero) p fit user = ground arith
sys_setreuid-no_gain (pos zero) (pos (suc m)) p fit user = ground arith
sys_setreuid-no_gain _ _ p fit user = ground arith

-- Without it, `setregid` leaves the real group as it is and gives the effective group one of the
-- three that the task had; and when it is refused, both are as before.
pub sys_setregid-no_gain :
    (rgid egid : ℤ) (p : Task)
    → IdsFit p
    → p.euid ≢ 0
    → let (r, q) = sys_setregid rgid egid p in
      (q.gid ≡ p.gid)
      × ((q.egid ≡ p.gid) ⊎ (q.egid ≡ p.egid) ⊎ (q.egid ≡ p.sgid))
      × (r ≡ eperm → q.egid ≡ p.egid)
unfolding sys_setregid
sys_setregid-no_gain (pos zero) (pos zero) p fit user = ground arith
sys_setregid-no_gain (pos zero) (pos (suc m)) p fit user = ground arith
sys_setregid-no_gain _ _ p fit user = ground arith

-- `brk` moves the end of the data only between the end of the code and 16 KB below the stack, and
-- otherwise leaves it; either way it returns where it is.
pub sys_brk_bounds :
    (end_data_seg : ℕ) (p : Task)
    → 16384 ≤ p.start_stack
    → p.start_stack < 2 ^ 32
    → let (r, q) = sys_brk end_data_seg p in
      (r ≡ q.brk)
      × (((end_data_seg < p.end_code) ⊎ (p.start_stack ≤ end_data_seg + 16384)) → q.brk ≡ p.brk)
      × (p.end_code ≤ end_data_seg → end_data_seg + 16384 < p.start_stack → q.brk ≡ end_data_seg)
unfolding sys_brk
sys_brk_bounds e p lo hi = ground arith
