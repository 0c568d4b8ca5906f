-- ===== src/Signal/Mask.antt =====
-- SIGKILL is never blocked or handled by these calls, and a handler blocks its own signal.
use linux_0_11_learning.Base.{
  ℕ, ◌-◌, ◌≤◌, ◌<◌, ◌≡◌, ◌≢◌, refl, true, false, inl, inr, some, arith, ◌==◌, if◌then◌else◌,
  Bool-cases, length, get_elem?-set_self, get_elem?-set_ne,
}
use linux_0_11_learning.Base.Bits.{test_bit, test_bit-clear_bit, test_bit-set_bit}
use linux_0_11_learning.Task.{Task, Sigaction, sigkill}
use linux_0_11_learning.Signal.{
  sa_nomask, sys_sgetmask, sys_ssetmask, can_handle, action_of, set_action, sys_sigaction,
  handler_mask,
}

-- After `ssetmask` the mask is the one asked for, but for SIGKILL, which is not in it; the call
-- returns the old mask.
pub sys_ssetmask-bits :
    (newmask : ℕ) (p : Task) (n : ℕ)
    → let (old, q) = sys_ssetmask newmask p in
      (old ≡ sys_sgetmask p)
      × (test_bit n (sys_sgetmask q) ≡ (if sigkill - 1 == n then false else test_bit n newmask))
unfolding sys_ssetmask sys_sgetmask
sys_ssetmask-bits newmask p n = (refl, test_bit-clear_bit (sigkill - 1) n newmask)

module _ (signum : ℕ) (a : Sigaction) (p : Task) (can : can_handle signum ≡ true)
    (len : length p.sigaction ≡ 32) where
  action_of-set_self : action_of (set_action p signum a) signum ≡ a
  action_of-set_self =
      let i : signum - 1 < length p.sigaction = ground arith in
      rw (get_elem?-set_self p.sigaction (signum - 1) a i, action_of)

  action_of-set_ne :
      (other : ℕ)
      → 1 ≤ other
      → other ≢ signum
      → action_of (set_action p signum a) other ≡ action_of p other
  action_of-set_ne other pos ne =
      let ne' : signum - 1 ≢ other - 1 = ground arith in
      rw (get_elem?-set_ne p.sigaction a ne', action_of)

sys_sigaction-set :
    (signum : ℕ) (action : Sigaction) (p : Task) {old : Sigaction} {q : Task}
    → sys_sigaction signum action p ≡ some (old, q)
    → (can_handle signum ≡ true)
      × (old ≡ action_of p signum)
      × (q ≡ set_action p signum (handler_mask signum action))
unfolding sys_sigaction
sys_sigaction-set signum action p e = elim (Bool-cases (can_handle signum)) [
  | inl can ↦ (can, ground arith, ground arith)
  | inr cannot ↦ absurd (ground arith)
]

handler_mask-own :
    (signum : ℕ) (action : Sigaction)
    → test_bit sa_nomask action.sa_flags ≡ false
    → test_bit (signum - 1) (handler_mask signum action).sa_mask ≡ true
handler_mask-own signum action flag =
    rw (flag, test_bit-set_bit (signum - 1) (signum - 1) action.sa_mask) (ground arith)

-- A handler that `sigaction` installs is the caller's, and blocks its own signal while it runs,
-- unless it asks for no mask; the actions of the other signals, that of SIGKILL among them, are as
-- before, and the old action is returned.
pub sys_sigaction-action :
    (signum : ℕ) (action : Sigaction) (p : Task) {old : Sigaction} {q : Task}
    → length p.sigaction ≡ 32
    → sys_sigaction signum action p ≡ some (old, q)
    → (old ≡ action_of p signum)
      × ((action_of q signum).sa_handler ≡ action.sa_handler)
      × (test_bit sa_nomask action.sa_flags ≡ false
          → test_bit (signum - 1) (action_of q signum).sa_mask ≡ true)
      × (signum ≢ sigkill)
      × ((other : ℕ) → 1 ≤ other → other ≢ signum → action_of q other ≡ action_of p other)
sys_sigaction-action signum action p len e =
    let (can, e0, e1) = sys_sigaction-set signum action p e in
    let new = handler_mask signum action in
    let set_self = action_of-set_self signum new p can len in
    (
      e0,
      rw (e1, set_self) (ground arith),
      λ flag. rw (e1, set_self) (handler_mask-own signum action flag),
      ground arith,
      λ other pos ne. rw e1 (action_of-set_ne signum new p can len other pos ne),
    )
