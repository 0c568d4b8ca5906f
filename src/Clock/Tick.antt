-- ===== src/Clock/Tick.antt =====
-- Time slices, tick by tick.
use linux_0_11_learning.Base.{◌+◌, ◌-◌, ◌≡◌, ◌↔◌, refl, Bool, true, false, arith}
use linux_0_11_learning.Clock.{Clock, do_timer}

-- A tick adds one to the user's or the system's time of the current task, as `cpl` tells, and takes
-- one off its time slice; `schedule` is called exactly if the slice is used up and the user's
-- program was interrupted, so never within the kernel.
pub do_timer-slice :
    (cpl : Bool) (c : Clock)
    → let r = do_timer cpl c in
      let p = r.clock.current in
      (p.utime + p.stime ≡ c.current.utime + c.current.stime + 1)
      × (p.counter ≡ c.current.counter - 1)
      × ((r.schedules ≡ true) ↔ ((p.counter ≡ 0) × (cpl ≡ true)))
unfolding do_timer
do_timer-slice true c = (omega arith, refl, ground arith)
do_timer-slice false c = (omega arith, refl, ground arith)
