-- ===== src/Wait/Tests.antt =====
-- Two tasks that wait for one buffer.
use linux_0_11_learning.Base.{refl, true, false, none, some}
use linux_0_11_learning.Wait.{Queue, put, sleep_on, wake_up, sleep_end, Step, Reaches}
use linux_0_11_learning.Wait.Kept.{IsQuiet, AllKept, Reaches-AllKept}

abbrev quiet : Queue
quiet = record { head = none; tmp = λ k. none; awake = λ k. true }

quiet-IsQuiet : IsQuiet quiet
quiet-IsQuiet k = refl

abbrev one : Queue
one = record { head = some 3; tmp = put (λ k. none) 3 (some none); awake = put (λ k. true) 3 false }

abbrev both : Queue
both = record { head = some 4; tmp = put one.tmp 4 (some (some 3)); awake = put one.awake 4 false }

one-sleeps : Step quiet one
unfolding sleep_on
one-sleeps = Step.sleeps 3 refl refl refl

both-sleep : Step one both
unfolding sleep_on
both-sleep = Step.sleeps 4 refl refl refl

-- Task 4 is woken, goes on, and wakes task 3.
done : Reaches quiet (sleep_end 4 (some 3) (wake_up both))
unfolding wake_up
done =
    Reaches.there
      (Reaches.there (Reaches.there (Reaches.there Reaches.here one-sleeps) both-sleep) Step.wakes)
      (Step.goes_on 4 refl refl)

Reaches-AllKept_example : AllKept (sleep_end 4 (some 3) (wake_up both))
Reaches-AllKept_example = Reaches-AllKept done quiet-IsQuiet
