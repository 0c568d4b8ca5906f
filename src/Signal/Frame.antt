-- ===== src/Signal/Frame.antt =====
-- The frame of a signal handler.
use linux_0_11_learning.Base.{
  ℕ, ◌+◌, ◌-◌, ◌*◌, ◌^◌, ◌≤◌, ◌<◌, ◌≡◌, ◌≢◌, List, some, arith, length, get_elem?,
}
use linux_0_11_learning.Task.{Task}
use linux_0_11_learning.Signal.{Registers, calls, action_of, do_signal}

-- A handler is not null and starts at its own address, with a frame that exactly fills the words
-- between the new stack pointer and the old one, and whose last word is the address at which the
-- interrupted code goes on.
pub do_signal-calls :
    (signr : ℕ) (r : Registers) (p : Task) {eip esp : ℕ} {words : List ℕ} {q : Task}
    → 32 ≤ r.esp
    → r.esp < 2 ^ 32
    → do_signal signr r p ≡ calls eip esp words q
    → (eip ≡ (action_of p signr).sa_handler)
      × (esp + 4 * length words ≡ r.esp)
      × (get_elem? words (length words - 1) ≡ some r.eip)
      × (eip ≢ 0)
unfolding do_signal
do_signal-calls signr r p lo hi e = ground arith
