-- ===== src/Signal/Tests.antt =====
-- Runs of the signal calls.
use linux_0_11_learning.Base.{
  ℕ, ◌+◌, ◌-◌, ◌*◌, ◌≡◌, ◌≢◌, List, [], ◌∷◌, refl, some, arith, length, get_elem?, replicate, set,
}
use linux_0_11_learning.Base.Bits.{test_bit, set_bit}
use linux_0_11_learning.Task.{Task, Sigaction, blank_task}
use linux_0_11_learning.Signal.{Registers, calls, no_action, action_of, sys_sigaction, do_signal}
use linux_0_11_learning.Signal.Frame.{do_signal-calls}

abbrev task : Task
task = record blank_task { sigaction = replicate 32 no_action; blocked = 6 }

abbrev on_interrupt : Sigaction
on_interrupt = record { sa_handler = 0x400; sa_mask = 0; sa_flags = 0; sa_restorer = 0x500 }

abbrev ready : Task
ready = record task { sigaction = set task.sigaction 1 (record on_interrupt { sa_mask = 2 }) }

sys_sigaction-run : sys_sigaction 2 on_interrupt task ≡ some (no_action, ready)
unfolding sys_sigaction test_bit set_bit
sys_sigaction-run = refl

abbrev registers : Registers
registers = record { eax = 1; ecx = 2; edx = 3; eip = 0x1234; eflags = 0; esp = 0x8000 }

abbrev frame : List ℕ
frame = 0x500 ∷ 2 ∷ 6 ∷ 1 ∷ 2 ∷ 3 ∷ 0 ∷ 0x1234 ∷ []

do_signal-run :
    do_signal 2 registers ready ≡ calls 0x400 0x7fe0 frame (record ready { blocked = 6 })
unfolding do_signal test_bit
do_signal-run = refl

do_signal-calls_example :
    (0x400 ≡ (action_of ready 2).sa_handler)
    × (0x7fe0 + 4 * length frame ≡ registers.esp)
    × (get_elem? frame (length frame - 1) ≡ some registers.eip)
    × (on_interrupt.sa_handler ≢ 0)
do_signal-calls_example =
    do_signal-calls 2 registers ready (omega arith) (omega arith) do_signal-run
