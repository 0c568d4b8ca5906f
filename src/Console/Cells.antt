-- ===== src/Console/Cells.antt =====
-- Which words the moves and fills of the console write, and the places of its lines.
use linux_0_11_learning.Base.{ℕ, zero, suc, ◌+◌, ◌-◌, ◌*◌, ◌≤◌, ◌<◌, ◌≡◌, refl, ap, ◌∙◌, ◌⊎◌, arith}
use linux_0_11_learning.Console.{update, fill, fill_down, move, move_down, shift_right}

-- An address out of a range.
abbrev pub Out : (q lo hi : ℕ) → Type 0
Out q lo hi = (q < lo) ⊎ (hi ≤ q)

-- A word out of the range is not written.
abbrev pub Keeps : (lo hi : ℕ) → (mem mem' : ℕ → ℕ) → Type 0
Keeps lo hi mem mem' = (q : ℕ) → Out q lo hi → mem' q ≡ mem q

module _ (lo hi : ℕ) where
  pub update-Keeps :
      (mem : ℕ → ℕ) (at v : ℕ) → lo ≤ at → at < hi → Keeps lo hi mem (update mem at v)
  update-Keeps mem at v le lt q out = ground arith

  pub Keeps-trans :
      {mem1 mem2 mem3 : ℕ → ℕ}
      → Keeps lo hi mem1 mem2
      → Keeps lo hi mem2 mem3
      → Keeps lo hi mem1 mem3
  Keeps-trans h k q out = k q out ∙ h q out

  pub fill-Keeps :
      (n at v : ℕ) (mem : ℕ → ℕ) → lo ≤ at → at + 2 * n ≤ hi → Keeps lo hi mem (fill at n v mem)
  unfolding fill
  fill-Keeps zero at v mem le fits q out = refl
  fill-Keeps (suc n) at v mem le fits q out =
      fill-Keeps n (at + 2) v (update mem at v) (omega arith) (omega arith) q out
      ∙ update-Keeps mem at v le (omega arith) q out

  pub fill_down-Keeps :
      (n at v : ℕ) (mem : ℕ → ℕ)
      → lo + 2 * n ≤ at + 2
      → at < hi
      → Keeps lo hi mem (fill_down at n v mem)
  unfolding fill_down
  fill_down-Keeps zero at v mem le fits q out = refl
  fill_down-Keeps (suc n) at v mem le fits q out =
      fill_down-Keeps n (at - 2) v (update mem at v) (omega arith) (omega arith) q out
      ∙ update-Keeps mem at v (omega arith) fits q out

  pub move-Keeps :
      (n from to : ℕ) (mem : ℕ → ℕ)
      → lo ≤ to
      → to + 2 * n ≤ hi
      → Keeps lo hi mem (move from to n mem)
  unfolding move
  move-Keeps zero from to mem le fits q out = refl
  move-Keeps (suc n) from to mem le fits q out =
      move-Keeps n (from + 2) (to + 2) (update mem to (mem from)) (omega arith) (omega arith) q out
      ∙ update-Keeps mem to (mem from) le (omega arith) q out

  pub move_down-Keeps :
      (n from to : ℕ) (mem : ℕ → ℕ)
      → lo + 2 * n ≤ to + 2
      → to < hi
      → Keeps lo hi mem (move_down from to n mem)
  unfolding move_down
  move_down-Keeps zero from to mem le fits q out = refl
  move_down-Keeps (suc n) from to mem le fits q out =
      move_down-Keeps n (from - 2) (to - 2) (update mem to (mem from)) (omega arith) (omega arith) q
        out
      ∙ update-Keeps mem to (mem from) (omega arith) fits q out

  pub shift_right-Keeps :
      (n at old : ℕ) (mem : ℕ → ℕ)
      → lo ≤ at
      → at + 2 * n ≤ hi
      → Keeps lo hi mem (shift_right n at old mem)
  unfolding shift_right
  shift_right-Keeps zero at old mem le fits q out = refl
  shift_right-Keeps (suc n) at old mem le fits q out =
      shift_right-Keeps n (at + 2) (mem at) (update mem at old) (omega arith) (omega arith) q out
      ∙ update-Keeps mem at old le (omega arith) q out

-- A row, and the rows before it, are in the rows.
pub rows_le : (y n r : ℕ) → y < n → y * r + r ≤ n * r
rows_le y n r h = grind arith

pub row_suc : (y r : ℕ) → (y + 1) * r ≡ y * r + r
row_suc y r = grind arith

pub row_pred : (y r : ℕ) → 0 < y → y * r ≡ (y - 1) * r + r
row_pred y r h = let e : y ≡ y - 1 + 1 = omega arith in ap (λ t. t * r) e ∙ row_suc (y - 1) r

pub rows_double : (k c r : ℕ) → r ≡ 2 * c → k * r ≡ 2 * (k * c)
rows_double k c r e = grind arith

rows_add : (a b r : ℕ) → (a + b) * r ≡ a * r + b * r
rows_add a b r = grind arith

pub rows_mono : (a b r : ℕ) → a ≤ b → a * r ≤ b * r
rows_mono a b r h = grind arith

pub rows_comm : (a r : ℕ) → r * a ≡ a * r
rows_comm a r = grind arith

-- The rows from `top` on, before `bottom`.
pub rows_between :
    (top bottom r : ℕ) → top < bottom → bottom * r ≡ top * r + (bottom - top - 1) * r + r
rows_between top bottom r h =
    let k = bottom - top - 1 in
    let e : bottom ≡ top + k + 1 = omega arith in
    ap (λ t. t * r) e ∙ row_suc (top + k) r ∙ ap (λ t. t + r) (rows_add top k r)
