-- ===== src/Permutation/Tests.antt =====
-- The statistics and the verdict of internal/nist/cpp/iid/permutation_tests.h on small inputs.
use nist_sp_800_90b_go.Base.{
  ℕ, ℤ, max, ◌≡◌, refl, some, List, [], ◌∷◌, arith, length, drop, replicate, pos, negsuc, length,
}
use nist_sp_800_90b_go.Permutation.{
  Comparison, above, equal, neither, fresh_counter, permute_rounds, verdict, num_directional_runs,
  len_directional_runs, periodicity, covariance, alt_sequence1, num_increases_decreases,
}
use nist_sp_800_90b_go.Permutation.Verdict.{count_rows, permute_rounds-verdict}
use nist_sp_800_90b_go.Permutation.Runs.{
  Run, spread, longest, num_directional_runs-spread, len_directional_runs-spread,
}
use nist_sp_800_90b_go.Permutation.Rises.{rises, falls, num_increases_decreases-alt_sequence1}
use nist_sp_800_90b_go.Permutation.{find_collisions}
use nist_sp_800_90b_go.Permutation.Windows.{Windows, find_collisions-Windows}
use nist_sp_800_90b_go.Permutation.Series.{pairs, how_many, products, periodicity-pairs}

abbrev rows : List (List Comparison)
rows = (above ∷ equal ∷ []) ∷ (neither ∷ equal ∷ []) ∷ replicate 6 (equal ∷ above ∷ [])

permute_rounds-verdict_example :
    verdict (permute_rounds 2 0 rows (replicate 2 fresh_counter))
    ≡ verdict (count_rows rows (replicate 2 fresh_counter))
permute_rounds-verdict_example = permute_rounds-verdict 2 rows

abbrev three_runs : List Run
three_runs = (pos 1, 2) ∷ (negsuc 0, 0) ∷ (pos 1, 1) ∷ []

num_directional_runs-spread_example : num_directional_runs (spread three_runs) ≡ length three_runs
num_directional_runs-spread_example = num_directional_runs-spread three_runs (refl, (refl, tt))

len_directional_runs-spread_example : len_directional_runs (spread three_runs) ≡ longest three_runs
len_directional_runs-spread_example =
    len_directional_runs-spread (pos 1, 2) ((negsuc 0, 0) ∷ (pos 1, 1) ∷ []) (refl, (refl, tt))

abbrev series : List ℕ
series = 3 ∷ 5 ∷ 3 ∷ 4 ∷ 3 ∷ []

periodicity-pairs_example :
    (periodicity series 2 ≡ some (how_many (pairs series (drop 2 series))))
    × (covariance series 2 ≡ products (pairs series (drop 2 series)))
periodicity-pairs_example = periodicity-pairs 2 series (omega arith)

num_increases_decreases-alt_sequence1_example :
    (ret : List ℤ) × (alt_sequence1 series ≡ some ret)
    × (num_increases_decreases ret ≡ max (rises series) (falls series))
num_increases_decreases-alt_sequence1_example =
    num_increases_decreases-alt_sequence1 series (omega arith)

find_collisions-Windows_example :
    (ret : List ℕ) × (find_collisions series 8 ≡ some ret) × Windows series ret
find_collisions-Windows_example = find_collisions-Windows series 8 (ground arith)
