-- ===== src/Counts/Tests.antt =====
-- The counting loops of most_common, markov_test and collision_test on small inputs.
use nist_sp_800_90b_go.Base.{ℕ, ◌+◌, ◌≤◌, ◌<◌, ◌≡◌, some, List, [], ◌∷◌, arith, length}
use nist_sp_800_90b_go.Counts.{
  Waits, MarkovCounts, mode_count, markov_counts, markov_c_1, collision_loop,
}
use nist_sp_800_90b_go.Counts.Mode.{occurrences, mode_count-occurrences}
use nist_sp_800_90b_go.Counts.Markov.{
  zeros_before_last, transitions, is_zero, not_zero, markov_counts-transitions,
}
use nist_sp_800_90b_go.Counts.Collision.{Divides, collision_loop-Divides}

abbrev bits : List ℕ
bits = 1 ∷ 0 ∷ 0 ∷ 1 ∷ 1 ∷ 0 ∷ 1 ∷ 0 ∷ []

abbrev start : Waits
start = record { v = 0; s = 0; i = 0 }

mode_count-occurrences_example :
    (mode : ℕ) × (mode_count bits 2 ≡ some mode)
    × ((v : ℕ) → v < 2 → occurrences v bits ≤ mode)
    × ((v : ℕ) × (v < 2) × (occurrences v bits ≡ mode))
mode_count-occurrences_example = mode_count-occurrences bits 2 (omega arith) (ground arith)

markov_counts-transitions_example :
    (c : MarkovCounts) × (markov_counts bits ≡ some c)
    × (c.c_0 ≡ zeros_before_last bits)
    × (c.c_00 ≡ transitions is_zero bits)
    × (c.c_10 ≡ transitions not_zero bits)
    × (c.c_0 + markov_c_1 bits c + 1 ≡ length bits)
    × (c.c_00 ≤ c.c_0)
    × (c.c_10 ≤ markov_c_1 bits c)
markov_counts-transitions_example = markov_counts-transitions bits (omega arith)

collision_loop-Divides_example : Divides bits start (collision_loop bits start)
collision_loop-Divides_example = collision_loop-Divides bits start (ground arith)
