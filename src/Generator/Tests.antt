-- ===== src/Generator/Tests.antt =====
-- The generator and the shuffle of internal/nist/cpp/shared/utils.h, from a small state.
use nist_sp_800_90b_go.Base.{
  ℕ, ◌+◌, ◌-◌, ◌*◌, ◌/◌, ◌%◌, ◌^◌, ◌≤◌, ◌<◌, ◌≡◌, refl, ap, ◌≢◌, ◌↔◌, true, some, [], ◌∷◌, arith,
}
use nist_sp_800_90b_go.Generator.{
  State, rotl, xoshiro256starstar, xor_state, zero_state, jump_bits, jump_words, jump_table,
  jump_loop, xoshiro_jump, low_word, high_word, threshold, redraw, random_range64, fy_shuffle,
}
use nist_sp_800_90b_go.Generator.Words.{IsState}
use nist_sp_800_90b_go.Generator.Range.{
  accepted, accepts_within, draws_within, high_word_unbiased, random_range64_bounds,
}
use nist_sp_800_90b_go.Generator.Jump.{xoshiro_jump-suc, xoshiro_jump-ne}
use nist_sp_800_90b_go.Generator.Shuffle.{shuffles_within, IsShuffle, fy_shuffle-IsShuffle}

abbrev seed : State
seed = record { s0 = 1; s1 = 2; s2 = 3; s3 = 4 }

seed-IsState : IsState seed
seed-IsState = record {
  word0 = omega arith;
  word1 = omega arith;
  word2 = omega arith;
  word3 = omega arith;
}

high_word_unbiased_example :
    let first = (4 * 2 ^ 64 + 2 ^ 64 % 6 + (6 - 1)) / 6 in
    ((accepted 6 12345 ≡ true) × (high_word 6 12345 ≡ 4))
    ↔ ((first ≤ 12345) × (12345 < first + 2 ^ 64 / 6))
high_word_unbiased_example =
    high_word_unbiased 6 4 12345 (omega arith) (omega arith) (omega arith) (omega arith)

draws_within-seed : draws_within 2 5 seed ≡ true
unfolding draws_within accepts_within accepted low_word threshold xoshiro256starstar rotl
draws_within-seed = refl

random_range64_bounds_example :
    (r : ℕ) × (st' : State) × (random_range64 2 5 seed ≡ some (r, st')) × (r ≤ 5) × IsState st'
random_range64_bounds_example =
    random_range64_bounds 2 5 seed (omega arith) seed-IsState draws_within-seed

xoshiro_jump-suc_example :
    xoshiro_jump 2 seed ≡ xor_state (xoshiro_jump 1 seed) (xoshiro_jump 1 (xoshiro_jump 1 seed))
xoshiro_jump-suc_example = xoshiro_jump-suc 1 seed (omega arith)

seed-not_zero : xoshiro_jump 1 seed ≢ zero_state
unfolding xoshiro_jump jump_loop jump_words jump_bits jump_table xoshiro256starstar rotl
seed-not_zero = λ e. absurd (ground (arith, ap (λ (s : State). s.s0) e))

xoshiro_jump-ne_example : xoshiro_jump 2 seed ≢ xoshiro_jump 1 (xoshiro_jump 1 seed)
xoshiro_jump-ne_example = xoshiro_jump-ne 1 seed (omega arith) seed-not_zero

shuffles_within-seed : shuffles_within 2 2 seed ≡ true
unfolding shuffles_within draws_within accepts_within accepted low_word threshold xoshiro256starstar
    rotl random_range64 redraw high_word
shuffles_within-seed = refl

fy_shuffle-IsShuffle_example :
    IsShuffle
      (5 ∷ 6 ∷ 7 ∷ [])
      (0 ∷ 1 ∷ 2 ∷ [])
      (fy_shuffle 2 (5 ∷ 6 ∷ 7 ∷ []) (0 ∷ 1 ∷ 2 ∷ []) seed)
fy_shuffle-IsShuffle_example =
    fy_shuffle-IsShuffle 2 (5 ∷ 6 ∷ 7 ∷ []) (0 ∷ 1 ∷ 2 ∷ []) seed refl (omega arith) seed-IsState
      shuffles_within-seed
