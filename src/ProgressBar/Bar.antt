-- ===== src/ProgressBar/Bar.antt =====
-- src/progressbar.cpp: the bar that draw prints. The counter before it is not modelled. An unsigned
-- number wraps at 2^32 and an unsigned long at 2^64.
use zofi.Base.{List, [], if◌then◌else◌, suc, zero, ℕ, ◌%◌, ◌*◌, ◌+◌, ◌/◌, ◌==◌, ◌^◌, ◌∷◌}
use zofi.Utils.Text.{Text, codes}

pub record ProgressBar : Type 0 where
  pub max_val : ℕ
  pub size : ℕ
  pub p0 : ℕ
  pub p25 : ℕ
  pub p50 : ℕ
  pub p75 : ℕ
  pub p100 : ℕ
  pub last_fill_size : ℕ

-- ProgressBar::ProgressBar
unfoldable pub make_bar : ℕ → ℕ → ProgressBar
make_bar max_val size = record {
  max_val = max_val;
  size = size;
  p0 = 0;
  p25 = size * 25 % 2 ^ 32 / 100;
  p50 = size * 50 % 2 ^ 32 / 100;
  p75 = size * 75 % 2 ^ 32 / 100;
  p100 = size;
  last_fill_size = 0;
}

-- What is printed in a place: a percentage, or the text that draw is given.
pub data Cell : Type 0 where
  percent : ℕ → Cell
  filler : Text → Cell

unfoldable pub cell_at : ProgressBar → Text → ℕ → Cell
cell_at bar c cnt =
    if cnt == bar.p0
    then percent 0
    else if cnt == bar.p25
    then percent 25
    else if cnt == bar.p50
    then percent 50
    else if cnt == bar.p75
    then percent 75
    else if cnt == bar.p100
    then percent 100
    else filler c

-- `left` places from Cnt on.
unfoldable pub draw_cells : ProgressBar → Text → ℕ → ℕ → List Cell
draw_cells bar c cnt zero = []
draw_cells bar c cnt (suc left) = cell_at bar c cnt ∷ draw_cells bar c (cnt + 1) left

-- ProgressBar::draw, for an End below the largest unsigned number.
unfoldable pub draw : ℕ → Text → ProgressBar → List Cell × ProgressBar
draw end_at c bar = (draw_cells bar c 0 (suc end_at), record bar { last_fill_size = end_at })

-- The bar of ProgressBar::init.
unfoldable pub init_bar : ProgressBar → List Cell × ProgressBar
init_bar bar = draw bar.size (codes " ") bar

-- The bar of ProgressBar::display.
unfoldable pub display : ℕ → ProgressBar → List Cell × ProgressBar
display val bar = draw (val * bar.size % 2 ^ 64 / bar.max_val % 2 ^ 32) (codes "=") bar
