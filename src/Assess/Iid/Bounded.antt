-- ===== src/Assess/Iid/Bounded.antt =====
-- The fixed-size arrays of the result, internal/nist/wrapper/wrapper.h, after calculate_iid_entropy of
-- internal/nist/wrapper/wrapper.cpp.
use nist_sp_800_90b_go.Base.{ℕ, true, Option, List, ◌≤◌, ltb, ℤ}
use nist_sp_800_90b_go.Double.{Double}
use nist_sp_800_90b_go.Result.Bounds.{
  add_estimator-IsBounded, add_test_result-IsBounded, set_results-IsBounded,
}
use nist_sp_800_90b_go.Symbols.{Data}
use nist_sp_800_90b_go.Assess.Memory.{reached_width, calculate_iid_entropy-IsClean}
use nist_sp_800_90b_go.Symbols.Prepare.{Allocator}
use nist_sp_800_90b_go.Assess.{return, Engine}
use nist_sp_800_90b_go.Assess.Bounded.{
  IsSafe, >>=_IsSafe, call-IsSafe, if_IsSafe, write-IsSafe, ReturnsWithin, IsClean-ReturnsWithin,
  assess-Within,
}
use nist_sp_800_90b_go.Assess.Iid.{iid_body, calculate_iid_entropy}

module _ (d : Double) where
  open d use {F}

  return-IsSafe : (x : F) → IsSafe (return {F = F} x)
  return-IsSafe x r b = b

  iid_body-IsSafe : (e : Engine d) (dp : Data) → IsSafe (iid_body d e dp)
  unfolding iid_body
  iid_body-IsSafe e dp =
      >>=_IsSafe _ _ (call-IsSafe (e.most_common dp.symbols dp.len dp.alph_size)) λ x.
        write-IsSafe _ _ (λ r b. add_estimator-IsBounded d r _ x true b)
          (>>=_IsSafe _ _
            (if_IsSafe (ltb 2 dp.alph_size) _ _ (call-IsSafe (e.most_common dp.bsymbols dp.blen 2))
              (return-IsSafe d.one))
            λ y.
              >>=_IsSafe _ _ (call-IsSafe (e.chi_square_tests dp.symbols dp.len dp.alph_size))
                λ chi.
                  write-IsSafe _ _ (λ r b. add_test_result-IsBounded d r _ chi b)
                    (>>=_IsSafe _ _ (call-IsSafe (e.len_lrs_test dp.symbols dp.len dp.alph_size))
                      λ lrs.
                        write-IsSafe _ _ (λ r b. add_test_result-IsBounded d r _ lrs b)
                          (>>=_IsSafe _ _ (call-IsSafe (e.calc_stats dp)) λ stats.
                            >>=_IsSafe _ _ (call-IsSafe (e.permutation_tests dp stats.0 stats.1))
                              λ perm.
                                write-IsSafe _ _ (λ r b. add_test_result-IsBounded d r _ perm b)
                                  (λ r b. set_results-IsBounded d _ _ _ _ r b))))

  -- When the result can be allocated and the word size that prepare_data works with is at most 8,
  -- then whatever the input, the data buffers that can be allocated and the tests:
  -- calculate_iid_entropy returns a result whose count is at most MAX_ESTIMATORS and is the number
  -- of entries written, and whose names and message leave a byte of their arrays for the closing
  -- zero.
  pub calculate_iid_entropy-Within :
      (al : Allocator) (e : Engine d) (samples : Option (List ℕ)) (bits : ℤ)
      → reached_width samples bits ≤ 8
      → ReturnsWithin d (calculate_iid_entropy d true al e samples bits)
  unfolding calculate_iid_entropy
  calculate_iid_entropy-Within al e samples bits narrow =
      IsClean-ReturnsWithin d _ (calculate_iid_entropy-IsClean d true al e samples bits narrow)
        (assess-Within d true al (iid_body d e) samples bits (iid_body-IsSafe e))
