-- ===== src/ProgressBar/BarLaws.antt =====
-- src/progressbar.cpp: how far the bar is drawn, and its last mark.
use mathlib.Core.Path.{subst}
use zofi.Base.{
  ◌%◌, Bool-cases, In, ap, arith, inl, inr, length, refl, suc, sym, zero, ℕ, ◌*◌, ◌+◌, ◌/◌, ◌<◌,
  ◌==◌, ◌^◌, ◌↔◌, ◌≡◌, ◌≤◌,
}
use zofi.Utils.Text.{codes, Text}
use zofi.ProgressBar.Bar.{display, draw, Cell, ProgressBar, cell_at, draw_cells, make_bar, percent}
use native.Mathlib.Nat.{
  div-le_of_le-mul, div-mul-le_self, mul-div_right, mul-le-mul_right, le_of_mul-le-mul_right,
  mul_comm,
}

length-draw_cells :
    (bar : ProgressBar) (c : Text) (cnt left : ℕ) → length (draw_cells bar c cnt left) ≡ left
unfolding draw_cells
length-draw_cells bar c cnt zero = refl
length-draw_cells bar c cnt (suc left) = ap suc (length-draw_cells bar c (cnt + 1) left)

-- The only place of "100%" is the last.
cell_at-100 :
    (max_val size cnt : ℕ) (c : Text)
    → 0 < size
    → size * 75 < 2 ^ 32
    → (percent 100 ≡ cell_at (make_bar max_val size) c cnt) ↔ (cnt ≡ size)
unfolding cell_at make_bar
cell_at-100 max_val size cnt c h w = (λ e. ground arith, λ e. ground arith)

In-draw_cells :
    (bar : ProgressBar) (c : Text) (cnt left : ℕ) (x : Cell)
    → In x (draw_cells bar c cnt left)
    → (i : ℕ) × (cnt ≤ i) × (i < cnt + left) × (x ≡ cell_at bar c i)
unfolding draw_cells
In-draw_cells bar c cnt zero x h = elim h [ ]
In-draw_cells bar c cnt (suc left) x (inl e) = (cnt, omega arith, omega arith, e)
In-draw_cells bar c cnt (suc left) x (inr h) =
    let (i, low, high, e) = In-draw_cells bar c (cnt + 1) left x h in
    (i, omega arith, omega arith, e)

draw_cells-In :
    (bar : ProgressBar) (c : Text) (cnt left i : ℕ)
    → cnt ≤ i
    → i < cnt + left
    → In (cell_at bar c i) (draw_cells bar c cnt left)
unfolding draw_cells
draw_cells-In bar c cnt zero i low high = absurd (omega arith)
draw_cells-In bar c cnt (suc left) i low high = elim (Bool-cases (cnt == i)) [
  | inl e ↦ let same : cnt ≡ i = ground arith in inl (ap (cell_at bar c) (sym same))
  | inr e ↦ inr (draw_cells-In bar c (cnt + 1) left i (ground arith) (ground arith))
]

fill_at-le : (val max_val size : ℕ) → val ≤ max_val → 0 < max_val → val * size / max_val ≤ size
fill_at-le val max_val size le h = div-le_of_le-mul max_val (mul-le-mul_right size le)

fill_at-full :
    (val max_val size : ℕ)
    → val ≤ max_val
    → 0 < max_val
    → 0 < size
    → (val * size / max_val ≡ size) ↔ (val ≡ max_val)
fill_at-full val max_val size le h s = (
  λ e.
      let covered : size * max_val ≤ val * size = rw e at (div-mul-le_self (val * size) max_val) in
      let whole : max_val * size ≤ val * size = rw (mul_comm max_val size) covered in
      omega (arith, le_of_mul-le-mul_right whole s),
  λ e. rw e (mul-div_right size h),
)

hundred :
    (max_val size fill : ℕ) (c : Text)
    → 0 < size
    → size * 75 < 2 ^ 32
    → fill ≤ size
    → In (percent 100) (draw_cells (make_bar max_val size) c 0 (suc fill)) ↔ (fill ≡ size)
hundred max_val size fill c s w le = (
  λ h.
      let (i, low, high, e) =
        In-draw_cells (make_bar max_val size) c 0 (suc fill) (percent 100) h in
      let at_end = (cell_at-100 max_val size i c s w).0 e in omega arith,
  λ e.
      subst (λ x. In x (draw_cells (make_bar max_val size) c 0 (suc fill)))
        (sym ((cell_at-100 max_val size size c s w).1 refl))
        (draw_cells-In (make_bar max_val size) c 0 (suc fill) size (omega arith) (omega arith)),
)

no_wrap :
    (n max_val size : ℕ)
    → n < 2 ^ 64
    → n / max_val ≤ size
    → size * 75 < 2 ^ 32
    → n % 2 ^ 64 / max_val % 2 ^ 32 ≡ n / max_val
no_wrap n max_val size small le w =
    let whole : n % 2 ^ 64 ≡ n = omega arith in rw whole (omega arith)

-- For a bar of at least one place, narrow enough for its percentages, and a value up to the maximum,
-- without overflow: display draws one place more than the value's share of the size, at most one
-- more than the size, and 100% is drawn exactly at the maximum.
pub display_lem :
    (val max_val size : ℕ)
    → val ≤ max_val
    → 0 < max_val
    → 0 < size
    → size * 75 < 2 ^ 32
    → val * size < 2 ^ 64
    → (length (display val (make_bar max_val size)).0 ≡ suc (val * size / max_val))
      × (val * size / max_val ≤ size)
      × (In (percent 100) (display val (make_bar max_val size)).0 ↔ (val ≡ max_val))
unfolding display draw make_bar
display_lem val max_val size le h s w small =
    let fill_le = fill_at-le val max_val size le h in
    let full = fill_at-full val max_val size le h s in
    let marked = hundred max_val size (val * size / max_val) (codes "=") s w fill_le in
    rw (no_wrap (val * size) max_val size small fill_le) (
      length-draw_cells (make_bar max_val size) (codes "=") 0 (suc (val * size / max_val)),
      fill_le,
      (λ x. full.0 (marked.0 x), λ e. marked.1 (full.1 e)),
    )
