-- ===== src/Tools/Restart/Tests.antt =====
-- The sanity check of internal/nist/cpp/restart_main.cpp on a 2 by 2 matrix.
use nist_sp_800_90b_go.Base.{ℕ, ◌≤◌, ◌<◌, ◌≡◌, refl, ◌↔◌, true, List, [], ◌∷◌, arith}
use nist_sp_800_90b_go.Counts.Mode.{occurrences}
use nist_sp_800_90b_go.Tools.Transpose.Matrix.{column, transposed}
use nist_sp_800_90b_go.Tools.Restart.{passes_sanity, column_data}
use nist_sp_800_90b_go.Tools.Restart.Columns.{row}
use nist_sp_800_90b_go.Tools.Restart.Sanity.{passes_sanity-occurrences}

abbrev rows_of_two : List ℕ
rows_of_two = 7 ∷ 1 ∷ 1 ∷ 1 ∷ []

abbrev room_for_two : List ℕ
room_for_two = 0 ∷ 0 ∷ 0 ∷ 0 ∷ []

passes_sanity-occurrences_example :
    ((passes_sanity 2 2 1 rows_of_two room_for_two ≡ true) ↔ (
      ((i v : ℕ) → i < 2 → v < 256 → occurrences v (row rows_of_two 2 2 0 i) ≤ 1)
      × ((j v : ℕ) → j < 2 → v < 256 → occurrences v (column rows_of_two 2 2 0 j) ≤ 1)))
    × (column_data 2 2 rows_of_two room_for_two ≡ transposed 2 2 rows_of_two)
passes_sanity-occurrences_example =
    passes_sanity-occurrences 2 1 rows_of_two room_for_two
      (omega arith, (omega arith, (omega arith, (omega arith, tt)))) refl
