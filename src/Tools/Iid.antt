-- ===== src/Tools/Iid.antt =====
-- internal/nist/cpp/iid_main.cpp: the program that tests the IID assumption.
pub mod Assessed
use nist_sp_800_90b_go.Base.{
  ℕ, ◌+◌, ◌-◌, ◌%◌, ◌^◌, Bool, true, false, List, [], ◌∷◌, ◌++◌, ltb, ◌==◌, ◌||◌, not,
  if◌then◌else◌, ℤ, pos, negsuc,
}
use nist_sp_800_90b_go.Double.{Double, std_min}
use nist_sp_800_90b_go.Result.{Text, codes}
use nist_sp_800_90b_go.Symbols.{Data}
use nist_sp_800_90b_go.Files.{decimal}
use nist_sp_800_90b_go.Assess.{Engine, Outcome}
use nist_sp_800_90b_go.Files.Effects.{◌>>=◌, ◌>>◌, return}
use nist_sp_800_90b_go.Tools.{
  Environment, Main, CaseBase, fresh_base, call, asks_version, exit_with,
}
use nist_sp_800_90b_go.Tools.Flags.{take_options}
use nist_sp_800_90b_go.Tools.Input.{
  set_hash, set_filename, take_bits, read_input, refuse_single, truncate, get_options, push_case,
  check_arguments, settle_verbose, rest_of, finish_main,
}

-- IidTestCase. The results of the single permutation tests are left out.
pub record IidTestCase (F : Type 0) : Type 0 where
  pub base : CaseBase F
  pub mean : F
  pub median : F
  pub binary : Bool
  pub passed_chi_square_tests : Bool
  pub passed_longest_repeated_substring_test : Bool
  pub passed_iid_permutation_tests : Bool
  pub h_r : F
  pub h_c : F
  pub h_i : F

-- std::to_string of an int
unfoldable pub signed_decimal : ℤ → Text
unfolding decimal
signed_decimal (pos n) = decimal n
signed_decimal (negsuc n) = 45 ∷ decimal (n + 1)

-- `int sample_size = data.len`: the conversion of a long to an int of 32 bits.
unfoldable pub int_of_long : ℕ → ℤ
int_of_long n = let m = n % 2 ^ 32 in if ltb m (2 ^ 31) then pos m else negsuc (2 ^ 32 - 1 - m)

-- `f n` for the size `n`, and `g n` for the size `-(n + 1)`.
unfoldable pub with_size : {A : Type 0} → (f g : ℕ → A) → ℤ → A
with_size f g (pos n) = f n
with_size f g (negsuc n) = g n

-- What the estimate and the tests do for the sample size `-(n + 1)`.
pub record NegativeSize (d : Double) : Type 0 where
  pub most_common : List ℕ → (n k : ℕ) → Outcome d.F
  pub chi_square_tests : List ℕ → (n k : ℕ) → Outcome Bool
  pub len_lrs_test : List ℕ → (n k : ℕ) → Outcome Bool

module _ (d : Double) where
  open d use {F, mul, of_int, minus_one, one}

  -- `h_assessed`, which is lowered to the estimates in the branch for `verbose > 2` only.
  unfoldable pub h_assessed : (verbose : ℕ) → (initial_entropy : Bool) → Data → F → F → F
  h_assessed verbose initial dp h_original h_bitstring =
      let full = of_int dp.word_size in
      let a =
        if ltb 2 dp.alph_size || not initial
        then std_min d full (mul h_bitstring (of_int dp.word_size))
        else full in
      let b = if initial then std_min d a h_original else a in
      if verbose == 1 || verbose == 2 then full else if ltb 2 verbose then b else full

  -- The baseline statistics, the estimates and the tests, in one test case.
  unfoldable pub assess_data :
      Engine d
      → NegativeSize d
      → (verbose : ℕ) → (initial_entropy : Bool) → Data
      → Main (IidTestCase F) (Unit {0})
  assess_data e below verbose initial dp = do
    sample_size ← return (int_of_long dp.len)
    stats ← call (e.calc_stats dp)
    h_original ←
        (if initial
          then call (
              with_size (λ n. e.most_common dp.symbols n dp.alph_size)
                (λ n. below.most_common dp.symbols n dp.alph_size) sample_size)
          else return (of_int dp.word_size))
    h_bitstring ←
        (if ltb 2 dp.alph_size || not initial
          then call (e.most_common dp.bsymbols dp.blen 2)
          else return one)
    chi ← call (
        with_size (λ n. e.chi_square_tests dp.symbols n dp.alph_size)
          (λ n. below.chi_square_tests dp.symbols n dp.alph_size) sample_size)
    lrs ← call (
        with_size (λ n. e.len_lrs_test dp.symbols n dp.alph_size)
          (λ n. below.len_lrs_test dp.symbols n dp.alph_size) sample_size)
    perm ← call (e.permutation_tests dp stats.0 stats.1)
    push_case (record {
      base = record (fresh_base d) {
        h_original = h_original;
        h_bitstring = h_bitstring;
        h_assessed = h_assessed verbose initial dp h_original h_bitstring;
      };
      mean = stats.0;
      median = stats.1;
      binary = dp.alph_size == 2;
      passed_chi_square_tests = chi;
      passed_longest_repeated_substring_test = lrs;
      passed_iid_permutation_tests = perm;
      h_r = minus_one;
      h_c = minus_one;
      h_i = minus_one;
    })

  -- The options, the arguments and the file.
  unfoldable pub front : Environment → Main (IidTestCase F) Data
  front env = do
    (if asks_version env.argv then exit_with (pos 0) else return tt)
    take_options env env.flags
    path ← check_arguments env.arguments
    settle_verbose
    set_filename path
    w ←
        take_bits env (λ n. codes "Invalid bits per symbol: " ++ (signed_decimal n ++ codes "."))
          (rest_of env.arguments)
    set_hash (env.sha256 path)
    dp ← read_input env path w
    refuse_single dp
    o ← get_options
    return (truncate o.all_bits dp)

  unfoldable pub main : Environment → Engine d → NegativeSize d → Main (IidTestCase F) ℤ
  main env e below = do
    dp ← front env
    o ← get_options
    assess_data e below o.verbose o.initial_entropy dp
    finish_main dp
