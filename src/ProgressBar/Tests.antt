-- ===== src/ProgressBar/Tests.antt =====
-- src/progressbar.cpp: a bar of 30 places, as the scheduler makes it.
use zofi.Base.{In, arith, length, suc, ℕ, ◌*◌, ◌/◌, ◌↔◌, ◌≡◌, ◌≤◌}
use zofi.ProgressBar.Bar.{display, make_bar, percent}
use zofi.ProgressBar.BarLaws.{display_lem}

display_lem_example :
    (length (display 2 (make_bar 3 30)).0 ≡ suc (2 * 30 / 3))
    × (2 * 30 / 3 ≤ 30)
    × (In (percent 100) (display 2 (make_bar 3 30)).0 ↔ (◌≡◌ {A = ℕ} 2 3))
display_lem_example =
    display_lem 2 3 30 (omega arith) (omega arith) (omega arith) (omega arith) (omega arith)
