-- ===== src/Assess/Iid.antt =====
-- internal/nist/wrapper/wrapper.cpp, calculate_iid_entropy.
pub mod Minimum
pub mod Bounded
use nist_sp_800_90b_go.Base.{ℕ, Bool, true, Option, List, ltb, if◌then◌else◌, ℤ}
use nist_sp_800_90b_go.Double.{Double, std_min}
use nist_sp_800_90b_go.Result.{codes, add_estimator, add_test_result, set_results}
use nist_sp_800_90b_go.Symbols.{Data}
use nist_sp_800_90b_go.Symbols.Prepare.{Allocator}
use nist_sp_800_90b_go.Assess.{Try, ◌>>=◌, ◌>>◌, call, return, write, Run, assess, Engine}

module _ (d : Double) where
  open d use {F, mul, of_int, one}

  unfoldable pub iid_assessed : Data → F → F → F
  iid_assessed dp h_original h_bitstring =
      let full = of_int dp.word_size in
      let bounded =
        if ltb 2 dp.alph_size
        then std_min d full (mul h_bitstring (of_int dp.word_size))
        else full in
      std_min d bounded h_original

  unfoldable pub iid_body : Engine d → Data → Try F (Unit {0})
  iid_body e dp = do
    h_original ← call (e.most_common dp.symbols dp.len dp.alph_size)
    write (λ r. add_estimator d r (codes "Most Common Value") h_original true)
    h_bitstring ←
        (if ltb 2 dp.alph_size then call (e.most_common dp.bsymbols dp.blen 2) else return one)
    chi ← call (e.chi_square_tests dp.symbols dp.len dp.alph_size)
    write (λ r. add_test_result d r (codes "Chi-Square Tests") chi)
    lrs ← call (e.len_lrs_test dp.symbols dp.len dp.alph_size)
    write (λ r. add_test_result d r (codes "Length of Longest Repeated Substring Test") lrs)
    stats ← call (e.calc_stats dp)
    perm ← call (e.permutation_tests dp stats.0 stats.1)
    write (λ r. add_test_result d r (codes "Permutation Tests") perm)
    write
        (set_results d h_original h_bitstring (iid_assessed dp h_original h_bitstring) dp.word_size)

  -- `is_binary` and `verbose` do not change the result.
  unfoldable pub calculate_iid_entropy :
      (result_given : Bool) → Allocator → Engine d → Option (List ℕ) → ℤ → Run F
  unfolding iid_body
  calculate_iid_entropy given al e samples bits = assess d given al (iid_body e) samples bits
