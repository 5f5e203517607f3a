-- ===== src/Scheduler/BarLines.antt =====
-- src/threads.cpp: the lines that the progress bar draws during a run.
use zofi.Base.{
  List, [], ap, arith, false, length, ok, refl, suc, true, ℕ, ◌%◌, ◌*◌, ◌+◌, ◌/◌, ◌<◌, ◌==◌, ◌^◌,
  ◌∙◌, ◌∷◌, ◌≡◌, zero,
}
use zofi.ProgressBar.Bar.{Cell, cell_at, display, draw, draw_cells, init_bar, make_bar}
use zofi.Utils.Text.{Text, codes}
use zofi.Scheduler.BarRun.{Shown, bar_of, show_init, show_next}
use zofi.Scheduler.JobsLaws.{results_of}
use zofi.Scheduler.Jobs.{JobData}

-- The lines after n updates, the last one first: the empty bar, and the bar at 1, 2 and so on.
abbrev pub lines_of : ℕ → ℕ → List (List Cell)
lines_of total zero = (init_bar (make_bar total 30)).0 ∷ []
lines_of total (suc n) = (display (suc n) (make_bar total 30)).0 ∷ lines_of total n

draw_cells-bar_of :
    (total last cnt left : ℕ) (c : Text)
    → draw_cells (bar_of total last) c cnt left ≡ draw_cells (make_bar total 30) c cnt left
unfolding draw_cells cell_at bar_of
draw_cells-bar_of total last cnt zero c = refl
draw_cells-bar_of total last cnt (suc left) c =
    ap (λ l. cell_at (make_bar total 30) c cnt ∷ l) (draw_cells-bar_of total last (cnt + 1) left c)

display-bar_of :
    (total last n : ℕ) → (display n (bar_of total last)).0 ≡ (display n (make_bar total 30)).0
unfolding display draw bar_of make_bar
display-bar_of total last n =
    draw_cells-bar_of total last 0 (suc (n * 30 % 2 ^ 64 / total % 2 ^ 32)) (codes "=")

-- An update, for a number of jobs that is not 0.
abbrev pub next_shown : ℕ → Shown → Shown
next_shown total b =
    let cnt = (b.bar_cnt + 1) % 2 ^ 32 in
    record {
      last_fill_size = (display cnt (bar_of total b.last_fill_size)).1.last_fill_size;
      bar_cnt = cnt;
      lines = (display cnt (bar_of total b.last_fill_size)).0 ∷ b.lines;
    }

pub show_next-ok : (total : ℕ) (b : Shown) → 0 < total → show_next total b ≡ ok (next_shown total b)
unfolding show_next
show_next-ok total b h = let nonzero : (total == 0) ≡ false = ground arith in rw nonzero refl

pub record IsAt (total n : ℕ) (b : Shown) : Type 0 where
  pub cnt : b.bar_cnt ≡ n
  pub drawn_lines : b.lines ≡ lines_of total n

show_init-IsAt : (total : ℕ) → IsAt total 0 (show_init true total)
unfolding show_init init_bar draw draw_cells bar_of make_bar
show_init-IsAt total = record {
  cnt = refl;
  drawn_lines = ap (λ l. l ∷ []) (draw_cells-bar_of total 0 0 31 (codes " "));
}

next_shown-IsAt :
    (total n : ℕ) (b : Shown)
    → suc n < 2 ^ 32
    → IsAt total n b
    → IsAt total (suc n) (next_shown total b)
next_shown-IsAt total n b small at_n =
    let counted : (b.bar_cnt + 1) % 2 ^ 32 ≡ suc n = omega (arith, at_n.cnt) in
    record {
      cnt = counted;
      drawn_lines = rw counted (
          ap (λ l. l ∷ b.lines) (display-bar_of total b.last_fill_size (suc n))
          ∙ ap (λ l. (display (suc n) (make_bar total 30)).0 ∷ l) at_n.drawn_lines);
    }

module _ {S : Type 0} (step : JobData → S → S) where
  abbrev pub both : ℕ → JobData → S × Shown → S × Shown
  both total j rb = (step j rb.0, next_shown total rb.1)

  pub results_of-both :
      (total : ℕ) (done : List JobData) (start : S)
      → length done < 2 ^ 32
      → ((results_of (both total) done (start, show_init true total)).0
          ≡ results_of step done start)
        × IsAt total (length done) (results_of (both total) done (start, show_init true total)).1
  results_of-both total [] start small = (refl, show_init-IsAt total)
  results_of-both total (j ∷ js) start small =
      let (same, at_n) = results_of-both total js start (omega arith) in
      (ap (step j) same, next_shown-IsAt total (length js) _ small at_n)
