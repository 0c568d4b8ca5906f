-- ===== src/Wait.antt =====
-- kernel/sched.c: `sleep_on` and `wake_up`, on one wait queue. The queue has a pointer to the task
-- that came last; each sleeper keeps the pointer that it found in `tmp`, on its own stack.
pub mod Kept
mod Tests
use linux_0_11_learning.Base.{
  ℕ, zero, suc, ◌≡◌, Bool, true, false, Option, none, some, ◌==◌, if◌then◌else◌,
}

-- `*p`; for each slot of `task[]` the `tmp` of its call of `sleep_on`, if it is in one; and whether
-- the task can run.
pub record Queue : Type 0 where
  pub head : Option ℕ
  pub tmp : ℕ → Option (Option ℕ)
  pub awake : ℕ → Bool

abbrev pub put {ℓ} : {A : Type ℓ} → (ℕ → A) → ℕ → A → ℕ → A
put f i v j = if i == j then v else f j

-- `sleep_on` of the task in the slot `i`, up to `schedule`; `none` is the panic for the idle task.
unfoldable pub sleep_on : ℕ → Queue → Option Queue
sleep_on zero q = none
sleep_on (suc i) q = some (record {
  head = some (suc i);
  tmp = put q.tmp (suc i) (some q.head);
  awake = put q.awake (suc i) false;
})

-- `if (tmp) tmp->state=0;`
abbrev pub wake : Option ℕ → (ℕ → Bool) → ℕ → Bool
wake none awake = awake
wake (some t) awake = put awake t true

-- The rest of `sleep_on`, when `schedule` returns to the task in the slot `i`.
unfoldable pub sleep_end : (i : ℕ) → (tmp : Option ℕ) → Queue → Queue
sleep_end i tmp q = record q { tmp = put q.tmp i none; awake = wake tmp q.awake }

unfoldable pub wake_up : Queue → Queue
wake_up q = record q { head = none; awake = wake q.head q.awake }

-- What can happen next: a task that runs goes to sleep or wakes the queue up, or a task that was
-- woken goes on.
pub data Step : Queue → Queue → Type 0 where
  sleeps :
      (i : ℕ) {q q' : Queue}
      → q.awake i ≡ true
      → q.tmp i ≡ none
      → sleep_on i q ≡ some q'
      → Step q q'
  wakes : {q : Queue} → Step q (wake_up q)
  goes_on :
      (i : ℕ) {q : Queue} {t : Option ℕ}
      → q.awake i ≡ true
      → q.tmp i ≡ some t
      → Step q (sleep_end i t q)

-- Any number of steps.
pub data Reaches (q : Queue) : Queue → Type 0 where
  here : Reaches q q
  there : {q1 q2 : Queue} → Reaches q q1 → Step q1 q2 → Reaches q q2
