-- ===== src/Fcntl/Close.antt =====
-- What `close` does to the descriptors and to the users of the file.
use linux_0_11_learning.Base.{
  ℕ, zero, suc, ◌+◌, ◌-◌, ◌≤◌, ◌≡◌, ◌⊎◌, refl, ap, ◌∙◌, inl, inr, Option, none, some, List, [], ◌∷◌,
  false, arith, leb, ◌==◌, if◌then◌else◌, Bool-cases, Option-cases, set,
}
use linux_0_11_learning.Base.Int.{pos, negsuc}
use linux_0_11_learning.Base.Bits.{test_bit, clear_bit, test_bit-clear_bit}
use linux_0_11_learning.Task.{nr_open}
use linux_0_11_learning.Fcntl.{
  Files, change, open_file, Closed, closed, panicked, close_file, sys_close,
}
use linux_0_11_learning.Fcntl.Dup.{at}

-- The descriptors with `fd` closed, which was for `f`.
pub record Shut (fd f : ℕ) (s s' : Files) : Type 0 where
  pub descriptors :
      (j : ℕ) → open_file s'.current j ≡ (if fd == j then none else open_file s.current j)
  pub bits :
      (j : ℕ)
      → test_bit j s'.current.close_on_exec
        ≡ (if fd == j then false else test_bit j s.current.close_on_exec)
  pub counts : (g : ℕ) → (s'.file g).f_count + (if f == g then 1 else 0) ≡ (s.file g).f_count

-- The outcomes of `sys_close`.
pub data CloseOut (fd : ℕ) (s : Files) : Closed → Type 0 where
  not_open :
      {s' : Files}
      → (nr_open ≤ fd) ⊎ (open_file s.current fd ≡ none)
      → s'.current.filp ≡ s.current.filp
      → s'.file ≡ s.file
      → CloseOut fd s (closed (negsuc 21) none s')
  -- "Close: file count is 0"
  no_user :
      {f : ℕ} → open_file s.current fd ≡ some f → (s.file f).f_count ≡ 0 → CloseOut fd s panicked
  shut :
      {f : ℕ} {s' : Files}
      → open_file s.current fd ≡ some f
      → Shut fd f s s'
      → CloseOut fd s
          (closed (pos 0) (if (s.file f).f_count == 1 then some (s.file f).f_inode else none) s')

at-clear :
    (fs : List (Option ℕ)) (n j : ℕ) → at (set fs n none) j ≡ (if n == j then none else at fs j)
at-clear [] n j = ground arith
at-clear (f ∷ fs) zero zero = refl
at-clear (f ∷ fs) zero (suc j) = ground arith
at-clear (f ∷ fs) (suc n) zero = ground arith
at-clear (f ∷ fs) (suc n) (suc j) = at-clear fs n j ∙ ground arith

module _ (fd f : ℕ) (s : Files) where
  abbrev left : Files
  left = record {
    current = record s.current {
      close_on_exec = clear_bit fd s.current.close_on_exec;
      filp = set s.current.filp fd none;
    };
    file = change s.file f (record (s.file f) { f_count = (s.file f).f_count - 1 });
  }

  Shut-left : 1 ≤ (s.file f).f_count → Shut fd f s left
  Shut-left users = record {
    descriptors = λ j. at-clear s.current.filp fd j;
    bits = λ j. test_bit-clear_bit fd j s.current.close_on_exec;
    counts = λ g. elim (Bool-cases (f == g)) [
      | inl same ↦
          let e : f ≡ g = ground arith in
          let back : (s.file f).f_count - 1 + 1 ≡ (s.file f).f_count = omega arith in
          rw same (back ∙ ap (λ h. (s.file h).f_count) e)
      | inr other ↦ rw other (omega arith)
    ];
  }

  close_file-CloseOut : open_file s.current fd ≡ some f → CloseOut fd s (close_file fd f s)
  unfolding close_file
  close_file-CloseOut opened = elim (Bool-cases ((s.file f).f_count == 0)) [
    | inl none_left ↦ rw none_left (CloseOut.no_user opened (ground arith))
    | inr users ↦
        let last : ((s.file f).f_count - 1 == 0) ≡ ((s.file f).f_count == 1) = ground arith in
        rw (users, last) (CloseOut.shut opened (Shut-left (ground arith)))
  ]

-- `close` of an open descriptor closes it and no other, takes one user off its file, and puts the
-- inode of the file exactly if this was the last; it panics where the file has no users. It fails,
-- and closes nothing, for a descriptor that is out of range or not open.
pub sys_close-CloseOut : (fd : ℕ) (s : Files) → CloseOut fd s (sys_close fd s)
unfolding sys_close
sys_close-CloseOut fd s = elim (Bool-cases (leb nr_open fd)) [
  | inl far ↦ rw far (CloseOut.not_open (inl (ground arith)) refl refl)
  | inr near ↦ elim (Option-cases (open_file s.current fd)) [
    | inl free ↦ rw (near, free, sys_close) (CloseOut.not_open (inr free) refl refl)
    | inr (f, opened) ↦ rw (near, opened, sys_close) (close_file-CloseOut fd f s opened)
  ]
]
