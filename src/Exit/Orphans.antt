-- ===== src/Exit/Orphans.antt =====
-- What a task that ends leaves behind: no children of its own, and a zombie for its father.
use mathlib.Core.Option
use linux_0_11_learning.Base.{
  ℕ, zero, suc, ◌≢◌, sym, inl, inr, Option, none, some, [], ◌∷◌, arith, ◌==◌, if◌then◌else◌,
  Bool-cases, map,
}
use linux_0_11_learning.Task.{
  Task, Tasks, update_task, raise, sighup, sigchld, AllTasks, AllTasks-map,
}
use linux_0_11_learning.Kill.{consed, kill_session, tell_father}
use linux_0_11_learning.Exit.{release, adopt, has_zombie, orphan, hang_up, zombie, tell, do_exit}

module _ (P : Task → Type 0) (ok : (sig : ℕ) (p : Task) → P p → P (raise sig p)) where
  AllTasks-update_task :
      (f : Task → Task) (ts : Tasks) (i : ℕ)
      → ((p : Task) → P p → P (f p))
      → AllTasks P ts
      → AllTasks P (update_task ts i f)
  AllTasks-update_task f [] i step all = tt
  AllTasks-update_task f (none ∷ ts) zero step all = all
  AllTasks-update_task f (some p ∷ ts) zero step all = (step p all.0, all.1)
  AllTasks-update_task f (none ∷ ts) (suc i) step all = AllTasks-update_task f ts i step all
  AllTasks-update_task f (some p ∷ ts) (suc i) step all =
      (all.0, AllTasks-update_task f ts i step all.1)

  AllTasks-kill_session :
      (session : ℕ) (ts : Tasks) → AllTasks P ts → AllTasks P (kill_session session ts)
  unfolding kill_session
  AllTasks-kill_session session [] all = tt
  AllTasks-kill_session session (none ∷ ts) all = AllTasks-kill_session session ts all
  AllTasks-kill_session session (some p ∷ ts) all = elim (Bool-cases (p.session == session)) [
    | inl own ↦ rw own (ok sighup p all.0, AllTasks-kill_session session ts all.1)
    | inr other ↦ rw other (all.0, AllTasks-kill_session session ts all.1)
  ]

  AllTasks-release : (i : ℕ) (ts : Tasks) → AllTasks P ts → AllTasks P (release i ts)
  unfolding release
  AllTasks-release i [] all = tt
  AllTasks-release zero (none ∷ ts) all = all
  AllTasks-release zero (some p ∷ ts) all = all.1
  AllTasks-release (suc i) (none ∷ ts) all = AllTasks-release i ts all
  AllTasks-release (suc i) (some p ∷ ts) all = (all.0, AllTasks-release i ts all.1)

  AllTasks-hang_up : (session : ℕ) (ts : Tasks) → AllTasks P ts → AllTasks P (hang_up session ts)
  AllTasks-hang_up session [] all = tt
  AllTasks-hang_up session (none ∷ ts) all = AllTasks-kill_session session ts all
  AllTasks-hang_up session (some p ∷ ts) all = (all.0, AllTasks-kill_session session ts all.1)

  abbrev AllSome : Option Tasks → Type 0
  AllSome none = Unit {0}
  AllSome (some ts) = AllTasks P ts

  AllSome-free : (o : Option Tasks) → AllSome o → AllSome (consed none o)
  AllSome-free none all = tt
  AllSome-free (some ts) all = all

  AllSome-task : (p : Task) (o : Option Tasks) → P p → AllSome o → AllSome (consed (some p) o)
  AllSome-task p none h all = tt
  AllSome-task p (some ts) h all = (h, all)

  AllSome-tell_father : (pid : ℕ) (ts : Tasks) → AllTasks P ts → AllSome (tell_father pid ts)
  unfolding tell_father
  AllSome-tell_father pid [] all = tt
  AllSome-tell_father pid (none ∷ ts) all =
      AllSome-free (tell_father pid ts) (AllSome-tell_father pid ts all)
  AllSome-tell_father pid (some p ∷ ts) all = elim (Bool-cases (p.pid == pid)) [
    | inl hit ↦ rw hit (ok sigchld p all.0, all.1)
    | inr miss ↦
        rw miss (AllSome-task p (tell_father pid ts) all.0 (AllSome-tell_father pid ts all.1))
  ]

  AllTasks-tell : (father i : ℕ) (ts : Tasks) → AllTasks P ts → AllTasks P (tell father i ts)
  unfolding tell
  AllTasks-tell father i ts all = elim (Bool-cases (father == 0)) [
    | inl nobody ↦ rw nobody (AllTasks-release i ts all)
    | inr other ↦ rw other (found (tell_father father ts) (AllSome-tell_father father ts all))
  ]
    where
      found :
          (o : Option Tasks)
          → AllSome o
          → AllTasks P (elim o [ none ↦ release i ts | some ts' ↦ ts' ])
      found none a = AllTasks-release i ts all
      found (some ts') a = a

-- The father of a task is not `pid`.
abbrev pub HasOther : ℕ → Task → Type 0
HasOther pid p = p.father ≢ pid

HasOther-raise : (pid sig : ℕ) (p : Task) → HasOther pid p → HasOther pid (raise sig p)
unfolding raise
HasOther-raise pid sig p h = h

AllTasks-true : (ts : Tasks) → AllTasks (λ p. Unit {0}) ts
AllTasks-true [] = tt
AllTasks-true (none ∷ ts) = AllTasks-true ts
AllTasks-true (some p ∷ ts) = (tt, AllTasks-true ts)

HasOther-adopt : (pid : ℕ) (p : Task) → pid ≢ 1 → HasOther pid (adopt pid p)
unfolding adopt
HasOther-adopt pid p ne = elim (Bool-cases (p.father == pid)) [
  | inl own ↦ rw own (λ e. ne (sym e))
  | inr other ↦ rw other (λ e. ground arith)
]

HasOther-zombie : (pid code : ℕ) (p : Task) → HasOther pid p → HasOther pid (zombie code p)
unfolding zombie
HasOther-zombie pid code p h = h

HasOther-orphan : (pid : ℕ) (ts : Tasks) → pid ≢ 1 → AllTasks (HasOther pid) (orphan pid ts)
unfolding orphan
HasOther-orphan pid ts ne =
    let all =
      AllTasks-map (λ p. Unit {0}) (HasOther pid) (adopt pid) ts (λ p _. HasOther-adopt pid p ne)
        (AllTasks-true ts) in
    elim (Bool-cases (has_zombie pid ts)) [
      | inl z ↦ rw z (
          AllTasks-update_task (HasOther pid) (HasOther-raise pid) (raise sigchld)
            (map (Option.map (adopt pid)) ts) 1 (λ p h. HasOther-raise pid sigchld p h) all)
      | inr n ↦ rw n all
    ]

abbrev after_hang_up : Task → Tasks → Tasks
after_hang_up current ts =
    if current.leader
    then hang_up current.session (orphan current.pid ts)
    else orphan current.pid ts

HasOther-after_hang_up :
    (current : Task) (ts : Tasks)
    → current.pid ≢ 1
    → AllTasks (HasOther current.pid) (after_hang_up current ts)
HasOther-after_hang_up current ts ne =
    let all1 = HasOther-orphan current.pid ts ne in
    elim (Bool-cases current.leader) [
      | inl leads ↦ rw leads (
          AllTasks-hang_up (HasOther current.pid) (HasOther-raise current.pid) current.session
            (orphan current.pid ts) all1)
      | inr stays ↦ rw stays all1
    ]

-- After `do_exit` of a task that is not the first process, no task has it for a father.
pub do_exit-HasOther :
    (code i : ℕ) (current : Task) (ts : Tasks)
    → current.pid ≢ 1
    → AllTasks (HasOther current.pid) (do_exit code i current ts).tasks
unfolding do_exit
do_exit-HasOther code i current ts ne =
    tell-zombie (after_hang_up current ts) (HasOther-after_hang_up current ts ne)
  where
    tell-zombie :
        (us : Tasks)
        → AllTasks (HasOther current.pid) us
        → AllTasks (HasOther current.pid) (tell current.father i (update_task us i (zombie code)))
    tell-zombie us all =
        AllTasks-tell (HasOther current.pid) (HasOther-raise current.pid) current.father i
          (update_task us i (zombie code))
          (AllTasks-update_task (HasOther current.pid) (HasOther-raise current.pid) (zombie code) us
            i (λ p h. HasOther-zombie current.pid code p h) all)
