-- ===== src/Assess/Tests.antt =====
-- The entry points of internal/nist/wrapper/wrapper.cpp on a small sample, with estimators that
-- return fixed values.
use nist_sp_800_90b_go.Base.{ℕ, ◌≤◌, ◌≡◌, refl, inr, true, false, some, [], ◌∷◌, arith, pos}
use nist_sp_800_90b_go.Double.{tenths, tenths-IsOrdered}
use nist_sp_800_90b_go.Result.{EntropyResult, codes}
use nist_sp_800_90b_go.Symbols.Prepare.{empty}
use nist_sp_800_90b_go.Symbols.Tests.{
  sample, sample_data, full_memory, three_buffers, word_size_for-sample, prepare_data-sample,
}
use nist_sp_800_90b_go.Assess.{value, thrown, returned, Engine}
use nist_sp_800_90b_go.Assess.Iid.{calculate_iid_entropy}
use nist_sp_800_90b_go.Assess.NonIid.{non_iid_body, calculate_non_iid_entropy}
use nist_sp_800_90b_go.Assess.Memory.{
  reached_width, IsClean, calculate_iid_entropy-IsClean, calculate_non_iid_entropy-IsClean,
}
use nist_sp_800_90b_go.Assess.Input.{IsRejected, calculate-Invalid}
use nist_sp_800_90b_go.Assess.Bounded.{ReturnsWithin}
use nist_sp_800_90b_go.Assess.Success.{Success}
use nist_sp_800_90b_go.Assess.NonIid.Minimum.{Summary, calculate_non_iid_entropy-Summary}
use nist_sp_800_90b_go.Assess.NonIid.Returns.{Answers, calculate_non_iid_entropy-returns}
use nist_sp_800_90b_go.Assess.NonIid.Bounded.{calculate_non_iid_entropy-Within}
use nist_sp_800_90b_go.Base.{ap, ◌∙◌}
use nist_sp_800_90b_go.Result.{create_result, set_results}
use nist_sp_800_90b_go.Symbols.Tests.{free_data-sample}
use nist_sp_800_90b_go.Assess.{◌>>=◌, ◌>>◌, after, caught, guarded, release_data}
use nist_sp_800_90b_go.Assess.Paths.{assess-inside}
use nist_sp_800_90b_go.Assess.Iid.{iid_body}
use nist_sp_800_90b_go.Assess.Iid.Bounded.{calculate_iid_entropy-Within}
use nist_sp_800_90b_go.Assess.Iid.Minimum.{IidSummary, calculate_iid_entropy-Summary}

-- Each value is in tenths above 10; the compression test returns a negative one.
abbrev pub steady : Engine tenths
steady = record {
  most_common = λ s n k. value 19;
  chi_square_tests = λ s n k. value true;
  len_lrs_test = λ s n k. value true;
  calc_stats = λ dp. value (15, 15);
  permutation_tests = λ dp m v. value false;
  collision_test = λ s n. value 18;
  markov_test = λ s n. value 17;
  compression_test = λ s n. value 0;
  sa_algs = λ s n k t l. value (16, 15);
  multi_mcw_test = λ s n k. value 18;
  lag_test = λ s n k. value 14;
  multi_mmc_test = λ s n k. value 19;
  lz78y_test = λ s n k. value 17;
}

-- The same, and the collision test throws.
abbrev throwing : Engine tenths
throwing = record steady { collision_test = λ s n. thrown (codes "bad_alloc") }

steady-Answers : Answers tenths steady
steady-Answers = record {
  most_common = λ s n k. (_, refl);
  collision_test = λ s n. (_, refl);
  markov_test = λ s n. (_, refl);
  compression_test = λ s n. (_, refl);
  sa_algs = λ s n k t l. (_, refl);
  multi_mcw_test = λ s n k. (_, refl);
  lag_test = λ s n k. (_, refl);
  multi_mmc_test = λ s n k. (_, refl);
  lz78y_test = λ s n k. (_, refl);
}

reached_width-sample : reached_width (some sample) (pos 2) ≤ 8
unfolding reached_width
reached_width-sample = omega (arith, word_size_for-sample)

abbrev SteadyRun : Type 0
SteadyRun =
    (r : EntropyResult ℕ) × (calculate_non_iid_entropy tenths true full_memory steady (some sample)
        (pos 2) true
      ≡ returned (some r) empty)
    × (r.error_code ≡ pos 0)

calculate_non_iid_entropy-returns_example : SteadyRun
calculate_non_iid_entropy-returns_example =
    calculate_non_iid_entropy-returns tenths full_memory steady 0 (7 ∷ 1 ∷ 3 ∷ []) 2 true
      sample_data three_buffers (omega arith) (omega (arith, word_size_for-sample))
      prepare_data-sample (omega arith) steady-Answers

ran : SteadyRun
ran =
    calculate_non_iid_entropy-returns tenths full_memory steady 0 (7 ∷ 1 ∷ 3 ∷ []) 2 true
      sample_data three_buffers (omega arith) (omega (arith, word_size_for-sample))
      prepare_data-sample (omega arith) steady-Answers

calculate_non_iid_entropy-Summary_example :
    (s : Success tenths full_memory (non_iid_body tenths steady true) (some sample) (pos 2) ran.0)
    × Summary tenths tenths-IsOrdered true s.prepared ran.0
calculate_non_iid_entropy-Summary_example =
    calculate_non_iid_entropy-Summary tenths tenths-IsOrdered true full_memory steady (some sample)
      (pos 2) true ran.0 empty ran.1 ran.2

calculate_iid_entropy-IsClean_example :
    IsClean true (calculate_iid_entropy tenths true full_memory steady (some sample) (pos 2))
calculate_iid_entropy-IsClean_example =
    calculate_iid_entropy-IsClean tenths true full_memory steady (some sample) (pos 2)
      reached_width-sample

calculate_non_iid_entropy-IsClean_example :
    IsClean true
      (calculate_non_iid_entropy tenths true full_memory throwing (some sample) (pos 2) false)
calculate_non_iid_entropy-IsClean_example =
    calculate_non_iid_entropy-IsClean tenths true full_memory throwing (some sample) (pos 2) false
      reached_width-sample

calculate-Invalid_example :
    IsRejected tenths (calculate_iid_entropy tenths true full_memory steady (some sample) (pos 9))
    × IsRejected tenths
        (calculate_non_iid_entropy tenths true full_memory steady (some sample) (pos 9) true)
calculate-Invalid_example =
    calculate-Invalid tenths full_memory steady (some sample) (pos 9) true
      (inr (inr (inr (9, refl, omega arith))))

calculate_non_iid_entropy-Within_example :
    ReturnsWithin tenths
      (calculate_non_iid_entropy tenths true full_memory throwing (some sample) (pos 2) true)
calculate_non_iid_entropy-Within_example =
    calculate_non_iid_entropy-Within tenths full_memory throwing (some sample) (pos 2) true
      reached_width-sample

abbrev iid_result : EntropyResult ℕ
iid_result = caught tenths (iid_body tenths steady sample_data (create_result tenths))

iid_ran :
    calculate_iid_entropy tenths true full_memory steady (some sample) (pos 2)
    ≡ returned (some iid_result) empty
unfolding calculate_iid_entropy guarded release_data
iid_ran =
    assess-inside tenths full_memory (iid_body tenths steady) 0 (7 ∷ 1 ∷ 3 ∷ []) 2 refl
    ∙ ap (guarded tenths (iid_body tenths steady) (create_result tenths)) prepare_data-sample
    ∙ ap (λ o. release_data tenths o iid_result) free_data-sample

iid_succeeded : iid_result.error_code ≡ pos 0
unfolding caught iid_body ◌>>=◌ ◌>>◌ after set_results
iid_succeeded = refl

calculate_iid_entropy-Summary_example :
    (s : Success tenths full_memory (iid_body tenths steady) (some sample) (pos 2) iid_result)
    × IidSummary tenths tenths-IsOrdered s.prepared iid_result
calculate_iid_entropy-Summary_example =
    calculate_iid_entropy-Summary tenths tenths-IsOrdered true full_memory steady (some sample)
      (pos 2) iid_result empty iid_ran iid_succeeded

calculate_iid_entropy-Within_example :
    ReturnsWithin tenths
      (calculate_iid_entropy tenths true full_memory steady (some sample) (pos 2))
calculate_iid_entropy-Within_example =
    calculate_iid_entropy-Within tenths full_memory steady (some sample) (pos 2)
      reached_width-sample
