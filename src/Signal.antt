-- ===== src/Signal.antt =====
-- kernel/signal.c: the signal mask, the handlers, and the frame that starts a handler.
pub mod Mask
pub mod Frame
mod Tests
use Prim.Native.Nat.{bit_or}
use linux_0_11_learning.Base.{
  ℕ, zero, suc, ◌+◌, ◌-◌, ◌*◌, ◌^◌, ◌%◌, Bool, true, false, Option, none, some, List, [], ◌∷◌, ◌++◌,
  leb, ltb, ◌==◌, ◌&&◌, ◌||◌, not, if◌then◌else◌, get_elem?, set, length,
}
use linux_0_11_learning.Base.Bits.{test_bit, set_bit, clear_bit}
use linux_0_11_learning.Task.{Task, Sigaction, sigkill, sigchld, signal_bit}

-- `SA_NOMASK` and `SA_ONESHOT`, 0x40000000 and 0x80000000
abbrev pub sa_nomask : ℕ
sa_nomask = 30

abbrev pub sa_oneshot : ℕ
sa_oneshot = 31

unfoldable pub sys_sgetmask : Task → ℕ
sys_sgetmask p = p.blocked

-- `newmask & ~(1<<(SIGKILL-1))`
unfoldable pub sys_ssetmask : ℕ → Task → ℕ × Task
sys_ssetmask newmask p = (p.blocked, record p { blocked = clear_bit (sigkill - 1) newmask })

-- `signum<1 || signum>32 || signum==SIGKILL`, turned round.
abbrev pub can_handle : ℕ → Bool
can_handle signum = leb 1 signum && leb signum 32 && not (signum == sigkill)

abbrev pub no_action : Sigaction
no_action = record { sa_handler = 0; sa_mask = 0; sa_flags = 0; sa_restorer = 0 }

abbrev pub action_of : Task → ℕ → Sigaction
action_of p signum = elim (get_elem? p.sigaction (signum - 1)) [ none ↦ no_action | some a ↦ a ]

abbrev pub set_action : Task → ℕ → Sigaction → Task
set_action p signum a = record p { sigaction = set p.sigaction (signum - 1) a }

-- The old handler and the task with the new one; `none` is -1.
unfoldable pub sys_signal : (signum handler restorer : ℕ) → Task → Option (ℕ × Task)
sys_signal signum handler restorer p =
    let tmp : Sigaction = record {
      sa_handler = handler;
      sa_mask = 0;
      sa_flags = 2 ^ sa_oneshot + 2 ^ sa_nomask;
      sa_restorer = restorer;
    } in
    if can_handle signum
    then some ((action_of p signum).sa_handler, set_action p signum tmp)
    else none

-- The mask that an installed handler gets.
abbrev pub handler_mask : ℕ → Sigaction → Sigaction
handler_mask signum a =
    if test_bit sa_nomask a.sa_flags
    then record a { sa_mask = 0 }
    else record a { sa_mask = set_bit (signum - 1) a.sa_mask }

-- The old action, which goes to the caller, and the task with the new one.
unfoldable pub sys_sigaction : ℕ → Sigaction → Task → Option (Sigaction × Task)
sys_sigaction signum action p =
    if can_handle signum
    then some (action_of p signum, set_action p signum (handler_mask signum action))
    else none

-- The registers that `do_signal` saves.
pub record Registers : Type 0 where
  pub eax : ℕ
  pub ecx : ℕ
  pub edx : ℕ
  pub eip : ℕ
  pub eflags : ℕ
  pub esp : ℕ

-- What `do_signal` does with a signal.
pub data Handled : Type 0 where
  ignored : Handled
  -- `do_exit` with the code
  exits : ℕ → Handled
  -- The new `eip` and `esp`, the words from `esp` upwards, and the task.
  calls : (eip esp : ℕ) (words : List ℕ) → Task → Handled

abbrev pub saved_mask : Sigaction → Task → List ℕ
saved_mask sa p = if test_bit sa_nomask sa.sa_flags then [] else p.blocked ∷ []

-- `longs`, in words of 4 bytes
abbrev pub longs : Sigaction → ℕ
longs sa = if test_bit sa_nomask sa.sa_flags then 7 else 8

abbrev pub once : ℕ → Sigaction → Task → Task
once signr sa p =
    if test_bit sa_oneshot sa.sa_flags then set_action p signr (record sa { sa_handler = 0 }) else p

unfoldable pub do_signal : ℕ → Registers → Task → Handled
do_signal signr r p =
    let sa = action_of p signr in
    if sa.sa_handler == 1
    then ignored
    else if sa.sa_handler == 0
    then (if signr == sigchld then ignored else exits (signal_bit signr))
    else (let q = once signr sa p in
        calls sa.sa_handler ((r.esp + 2 ^ 32 - 4 * longs sa) % 2 ^ 32)
          (sa.sa_restorer
            ∷ signr
            ∷ (saved_mask sa p ++ (r.eax ∷ r.ecx ∷ r.edx ∷ r.eflags ∷ r.eip ∷ [])))
          (record q { blocked = bit_or p.blocked sa.sa_mask }))
