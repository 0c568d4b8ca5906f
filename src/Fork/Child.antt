-- ===== src/Fork/Child.antt =====
-- What `copy_process` makes: one task more, with the files of its father counted once more.
use linux_0_11_learning.Base.{
  ℕ, zero, suc, ◌+◌, ◌≡◌, refl, sym, ap, ◌∙◌, inl, inr, Option, none, some, List, [], ◌∷◌, Bool,
  true, false, arith, ◌<◌, ◌==◌, if◌then◌else◌, Bool-cases, length,
}
use linux_0_11_learning.Base.Int.{ℤ, pos, negsuc}
use linux_0_11_learning.Task.{Task, Tasks, task_at}
use linux_0_11_learning.Fork.{new_task, put_task, count_files, count_inode, Counts, copy_process}

-- How many descriptors are for the file `g`.
abbrev pub occurs : ℕ → List (Option ℕ) → ℕ
occurs g [] = 0
occurs g (none ∷ fs) = occurs g fs
occurs g (some f ∷ fs) = (if f == g then 1 else 0) + occurs g fs

count_files-occurs :
    (fs : List (Option ℕ)) (c : ℕ → ℕ) (g : ℕ) → count_files fs c g ≡ c g + occurs g fs
unfolding count_files
count_files-occurs [] c g = omega arith
count_files-occurs (none ∷ fs) c g = count_files-occurs fs c g
count_files-occurs (some f ∷ fs) c g =
    let rest = count_files-occurs fs (λ h. if f == h then c f + 1 else c h) g in
    elim (Bool-cases (f == g)) [
      | inl same ↦ let e : f ≡ g = ground arith in let at : c f ≡ c g = ap c e in ground arith
      | inr other ↦ ground arith
    ]

put_task-none : (ts : Tasks) (i : ℕ) → task_at ts i ≡ none → put_task ts i none ≡ ts
put_task-none [] i e = refl
put_task-none (t ∷ ts) zero e = ap (λ u. u ∷ ts) (sym e)
put_task-none (t ∷ ts) (suc i) e = ap (λ us. t ∷ us) (put_task-none ts i e)

task_at-put_task :
    (ts : Tasks) (i : ℕ) (t : Option Task) (j : ℕ)
    → i < length ts
    → task_at (put_task ts i t) j ≡ (if i == j then t else task_at ts j)
task_at-put_task [] i t j h = absurd (omega arith)
task_at-put_task (u ∷ ts) zero t zero h = refl
task_at-put_task (u ∷ ts) zero t (suc j) h = ground arith
task_at-put_task (u ∷ ts) (suc i) t zero h = ground arith
task_at-put_task (u ∷ ts) (suc i) t (suc j) h =
    task_at-put_task ts i t j (omega arith) ∙ ground arith

-- The outcomes of `copy_process`.
pub data Forked (nr last_pid : ℕ) (current : Task) (ts : Tasks) (counts : Counts)
    : ℤ → Tasks → Counts → Type 0 where
  failed : Forked nr last_pid current ts counts (negsuc 10) ts counts
  forked :
      {ts' : Tasks} {counts' : Counts} (child : Task)
      → ((j : ℕ) → task_at ts' j ≡ (if nr == j then some child else task_at ts j))
      → child.pid ≡ last_pid
      → child.father ≡ current.pid
      → child.signal ≡ 0
      → child.leader ≡ false
      → child.filp ≡ current.filp
      → ((g : ℕ) → counts'.f_count g ≡ counts.f_count g + occurs g current.filp)
      → ((g : ℕ)
          → counts'.i_count g
            ≡ counts.i_count g + occurs g (current.pwd ∷ current.root ∷ current.executable ∷ []))
      → Forked nr last_pid current ts counts (pos last_pid) ts' counts'

count_inode-occurs :
    (o : Option ℕ) (c : ℕ → ℕ) (g : ℕ) → count_inode o c g ≡ c g + occurs g (o ∷ [])
unfolding count_inode
count_inode-occurs none c g = omega arith
count_inode-occurs (some f) c g = elim (Bool-cases (f == g)) [
  | inl same ↦ let e : f ≡ g = ground arith in let at : c f ≡ c g = ap c e in ground arith
  | inr other ↦ ground arith
]

occurs-three :
    (g : ℕ) (a b c : Option ℕ)
    → occurs g (a ∷ b ∷ c ∷ []) ≡ occurs g (a ∷ []) + occurs g (b ∷ []) + occurs g (c ∷ [])
occurs-three g none none none = omega arith
occurs-three g none none (some z) = omega arith
occurs-three g none (some y) none = omega arith
occurs-three g none (some y) (some z) = omega arith
occurs-three g (some x) none none = omega arith
occurs-three g (some x) none (some z) = omega arith
occurs-three g (some x) (some y) none = omega arith
occurs-three g (some x) (some y) (some z) = omega arith

-- `copy_process` into a free slot fails, and changes nothing, or puts a task into the slot and changes
-- no other. The child has the new id, the caller as its father, no signals, and the caller's files;
-- each open file is counted once more for every descriptor of the caller, and each inode once more
-- for every use that the caller makes of it.
pub copy_process-Forked :
    (page copied : Bool) (nr last_pid jiffies : ℕ) (current : Task) (ts : Tasks) (counts : Counts)
    → nr < length ts
    → task_at ts nr ≡ none
    → let (r, ts', counts') = copy_process page copied nr last_pid jiffies current ts counts in
      Forked nr last_pid current ts counts r ts' counts'
unfolding copy_process
copy_process-Forked false copied nr last_pid jiffies current ts counts lt free = Forked.failed
copy_process-Forked true false nr last_pid jiffies current ts counts lt free =
    rw (put_task-none ts nr free) Forked.failed
copy_process-Forked true true nr last_pid jiffies current ts counts lt free =
    Forked.forked (new_task last_pid jiffies current)
      (λ j. task_at-put_task ts nr (some (new_task last_pid jiffies current)) j lt) refl refl refl
      refl refl (λ g. count_files-occurs current.filp counts.f_count g)
      (λ g.
        let one = count_inode-occurs current.pwd counts.i_count g in
        let two = count_inode-occurs current.root (count_inode current.pwd counts.i_count) g in
        let three =
          count_inode-occurs current.executable
            (count_inode current.root (count_inode current.pwd counts.i_count)) g in
        omega (arith, occurs-three g current.pwd current.root current.executable))
