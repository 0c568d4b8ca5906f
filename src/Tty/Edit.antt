-- ===== src/Tty/Edit.antt =====
-- The editor of lines that `copy_to_cooked` is, on texts.
use linux_0_11_learning.Base.{
  ℕ, suc, ◌≡◌, refl, ap, ◌∙◌, inl, inr, ◌&&◌, Option, none, some, List, [], ◌∷◌, ◌++◌, ◌==◌,
  if◌then◌else◌, length, Bool-cases,
}
use linux_0_11_learning.Tty.Fifo.{IsQueue, oldest, newest, oldest-newest}
use linux_0_11_learning.Tty.{TtyQueue, Termios, same, is_end, translate}

-- The line ends of a text.
unfoldable pub ends : Termios → List ℕ → ℕ
ends m [] = 0
ends m (c ∷ cs) = if is_end m c then suc (ends m cs) else ends m cs

-- A text, the newest character first, without its last line, or without the last character of this
-- line.
unfoldable pub drop_line : Termios → List ℕ → List ℕ
drop_line m [] = []
drop_line m (c ∷ cs) = if is_end m c then c ∷ cs else drop_line m cs

unfoldable pub rub : Termios → List ℕ → List ℕ
rub m [] = []
rub m (c ∷ cs) = if is_end m c then c ∷ cs else cs

-- The text after one more character.
unfoldable pub edit_char : Termios → ℕ → List ℕ → List ℕ
unfolding drop_line rub
edit_char m c text =
    if m.icanon && same c m.vkill
    then drop_line m text
    else if m.icanon && same c m.verase
    then rub m text
    else if m.icanon && same c m.vstop
    then text
    else if m.icanon && same c m.vstart
    then text
    else if m.isig && same c m.vintr
    then text
    else if m.isig && same c m.vquit
    then text
    else c ∷ text

unfoldable pub edit_some : Termios → Option ℕ → List ℕ → List ℕ
unfolding edit_char
edit_some m none text = text
edit_some m (some c) text = edit_char m c text

-- The text after the characters that came, with those that are left when there is no more room.
unfoldable pub edit : Termios → (text came : List ℕ) → List ℕ × List ℕ
unfolding edit_some
edit m text [] = (text, [])
edit m text (c ∷ cs) =
    let rest = edit m (edit_some m (translate m c) text) cs in
    if length text == 1023 then (text, c ∷ cs) else rest

ends-snoc : (m : Termios) (c : ℕ) (cs : List ℕ) → ends m (cs ++ c ∷ []) ≡ ends m (c ∷ cs)
unfolding ends
ends-snoc m c [] = refl
ends-snoc m c (d ∷ cs) = elim (Bool-cases (is_end m d)) [
  | inl e ↦ elim (Bool-cases (is_end m c)) [
    | inl e' ↦ rw (e, e') (ap suc (ends-snoc m c cs ∙ rw e' refl))
    | inr e' ↦ rw (e, e') (ap suc (ends-snoc m c cs ∙ rw e' refl))
  ]
  | inr e ↦ rw e (ends-snoc m c cs)
]

ends-cons :
    (m : Termios) (c : ℕ) (cs ds : List ℕ)
    → ends m cs ≡ ends m ds
    → ends m (c ∷ cs) ≡ ends m (c ∷ ds)
unfolding ends
ends-cons m c cs ds h = rw h refl

-- The line ends of a queue, counted from either end.
pub ends-oldest-newest :
    (m : Termios) (q : TtyQueue) → IsQueue q → ends m (oldest q) ≡ ends m (newest q)
ends-oldest-newest m q ok = oldest-newest (ends m) (ends-snoc m) (ends-cons m) q ok
