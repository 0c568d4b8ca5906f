-- ===== src/Wait/Kept.antt =====
-- No sleeper is forgotten.
use linux_0_11_learning.Base.{
  ℕ, zero, suc, ◌≡◌, ◌⊎◌, sym, ap, ◌∙◌, inl, inr, Bool, true, false, Option, none, some, arith,
  ◌==◌, Bool-cases,
}
use mathlib.Core.Option
use linux_0_11_learning.Wait.{
  Queue, put, sleep_on, wake, sleep_end, wake_up, Step, sleeps, wakes, goes_on, Reaches, here,
  there,
}

-- A task in `sleep_on` is awake, or the queue points to it, or another task in `sleep_on` will wake
-- it.
abbrev pub IsKept : Queue → ℕ → Type 0
IsKept q k = (q.awake k ≡ true) ⊎ (q.head ≡ some k) ⊎ ((j : ℕ) × (q.tmp j ≡ some (some k)))

abbrev pub AllKept : Queue → Type 0
AllKept q = (k : ℕ) (t : Option ℕ) → q.tmp k ≡ some t → IsKept q k

wake_mono : (o : Option ℕ) (awake : ℕ → Bool) (k : ℕ) → awake k ≡ true → wake o awake k ≡ true
wake_mono none awake k h = h
wake_mono (some t) awake k h = ground arith

AllKept-wake_up : (q : Queue) → AllKept q → AllKept (wake_up q)
unfolding wake_up
AllKept-wake_up q all k t e = elim (all k t e) [
  | inl up ↦ inl (wake_mono q.head q.awake k up)
  | inr (inl first) ↦ inl (rw first (ground arith))
  | inr (inr next) ↦ inr (inr next)
]

AllKept-sleep_end :
    (i : ℕ) (t : Option ℕ) (q : Queue) → q.tmp i ≡ some t → AllKept q → AllKept (sleep_end i t q)
unfolding sleep_end
AllKept-sleep_end i t q saved all k u e = elim (Bool-cases (i == k)) [
  | inl same ↦ absurd (ground arith)
  | inr other ↦ elim (all k u (ground arith)) [
    | inl up ↦ inl (wake_mono t q.awake k up)
    | inr (inl first) ↦ inr (inl first)
    | inr (inr (j, next)) ↦ elim (Bool-cases (i == j)) [
      | inl mine ↦
          let e' : i ≡ j = ground arith in
          let t' : t ≡ some k = ap (λ o. Option.get_or o t) (sym saved ∙ ap q.tmp e' ∙ next) in
          inl (rw t' (ground arith))
      | inr not_mine ↦ inr (inr (j, rw not_mine next))
    ]
  ]
]

abbrev asleep : ℕ → Queue → Queue
asleep i q = record {
  head = some (suc i);
  tmp = put q.tmp (suc i) (some q.head);
  awake = put q.awake (suc i) false;
}

no_idle : (q q' : Queue) → ¬ (sleep_on zero q ≡ some q')
unfolding sleep_on
no_idle q q' e = ground arith

is_asleep : (i : ℕ) (q q' : Queue) → sleep_on (suc i) q ≡ some q' → q' ≡ asleep i q
unfolding sleep_on
is_asleep i q q' e = ap (λ o. Option.get_or o q') (sym e)

AllKept-asleep : (i : ℕ) (q : Queue) → q.tmp (suc i) ≡ none → AllKept q → AllKept (asleep i q)
AllKept-asleep i q out all k t e = elim (Bool-cases (suc i == k)) [
  | inl same ↦ inr (inl (ap some (ground arith)))
  | inr other ↦ elim (all k t (ground arith)) [
    | inl up ↦ inl (rw other up)
    | inr (inl first) ↦
        let mine : (suc i == suc i) ≡ true = ground arith in
        inr (inr (suc i, rw mine (ap some first)))
    | inr (inr (j, next)) ↦ elim (Bool-cases (suc i == j)) [
      | inl mine ↦
          let e' : suc i ≡ j = ground arith in
          let none' : q.tmp j ≡ none = ap q.tmp (sym e') ∙ out in absurd (ground arith)
      | inr not_mine ↦ inr (inr (j, rw not_mine next))
    ]
  ]
]

AllKept-sleep_on :
    (i : ℕ) (q q' : Queue) → q.tmp i ≡ none → sleep_on i q ≡ some q' → AllKept q → AllKept q'
AllKept-sleep_on zero q q' out run all = absurd (let r = run in no_idle q q' r)
AllKept-sleep_on (suc i) q q' out run all =
    let e = is_asleep i q q' run in rw e (AllKept-asleep i q out all)

AllKept-Step : {q q' : Queue} → Step q q' → AllKept q → AllKept q'
AllKept-Step (sleeps i {q} {q'} up out run) all = AllKept-sleep_on i q q' out run all
AllKept-Step (wakes {q}) all = AllKept-wake_up q all
AllKept-Step (goes_on i {q} {t} up saved) all = AllKept-sleep_end i t q saved all

-- Nobody is in `sleep_on`.
abbrev pub IsQuiet : Queue → Type 0
IsQuiet q = (k : ℕ) → q.tmp k ≡ none

-- However tasks sleep, wake the queue up and go on, starting with nobody in `sleep_on`: each task in
-- `sleep_on` is awake, or is the one that the next `wake_up` wakes, or another task in `sleep_on`
-- has it in `tmp` and wakes it before it returns.
pub Reaches-AllKept : {q q' : Queue} → Reaches q q' → IsQuiet q → AllKept q'
Reaches-AllKept here quiet = λ k t e. absurd (let n = quiet k in ground arith)
Reaches-AllKept (there r s) quiet = AllKept-Step s (Reaches-AllKept r quiet)
