-- ===== src/Timer/Tests.antt =====
-- Runs of the timers.
use linux_0_11_learning.Base.{◌≡◌, refl, some, [], ◌∷◌, arith}
use linux_0_11_learning.Base.Int.{pos}
use linux_0_11_learning.Timer.{Timers, in_use, add_timer, queued, run_timers}
use linux_0_11_learning.Timer.Expiry.{due, IsPending, expired, remaining, run_timers-due}
use linux_0_11_learning.Timer.Slots.{IsLinked}

-- Timers due in 3 and in 10 ticks.
abbrev two_timers : Timers
two_timers =
    record { slot = 0; jiffies = 3; fn = 100 } ∷ record { slot = 1; jiffies = 7; fn = 101 } ∷ []

-- A third one, in 5: the one due in 10 is put off to 12.
abbrev three_timers : Timers
three_timers =
    record { slot = 2; jiffies = 3; fn = 100 }
    ∷ record { slot = 0; jiffies = 2; fn = 102 }
    ∷ record { slot = 1; jiffies = 7; fn = 101 }
    ∷ []

add_timer-run : add_timer (pos 5) (some 102) two_timers ≡ queued three_timers
unfolding add_timer
add_timer-run = refl

two_timers-IsPending : IsPending two_timers
two_timers-IsPending = omega arith

run_timers-due_example :
    ((run_timers two_timers).0 ≡ expired 1 (due 0 two_timers))
    × (due 1 (run_timers two_timers).1 ≡ remaining 1 (due 0 two_timers))
    × IsPending (run_timers two_timers).1
run_timers-due_example = run_timers-due two_timers two_timers-IsPending

two_timers-IsLinked : IsLinked two_timers
unfolding in_use
two_timers-IsLinked = (omega arith, refl, (omega arith, refl, tt))

three_timers-IsLinked : IsLinked three_timers
unfolding in_use
three_timers-IsLinked = (omega arith, refl, (omega arith, refl, (omega arith, refl, tt)))
