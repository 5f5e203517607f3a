-- ===== src/Statistics/Tests.antt =====
-- The counters and the reports on concrete outcomes.
use zofi.Statistics.Counts.{AllSet, FtStatus, ft_corrupted, ft_masked, ft_skipped}
use zofi.Statistics.Store.{Statistics, make}
use zofi.Base.{List, [], ◌∷◌, ℕ}
use zofi.Utils.Text.{codes}

abbrev outcomes : List FtStatus
outcomes = ft_masked ∷ ft_corrupted ∷ ft_masked ∷ ft_skipped ∷ []

outcomes_set : AllSet outcomes
outcomes_set = ((λ e. cc), ((λ e. cc), ((λ e. cc), ((λ e. cc), tt))))

abbrev fresh : Statistics ℕ
fresh = make (codes "/bin/ls") (codes "rwe") 4
