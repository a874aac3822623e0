-- ===== src/Tools/NonIid/Program.antt =====
-- internal/nist/cpp/non_iid_main.cpp, main: its estimators in their order, the assessed entropy, the
-- options and the file.
use nist_sp_800_90b_go.Base.{Bool, true, false, ltb, ◌==◌, ◌&&◌, ◌||◌, not, if◌then◌else◌, ℤ, pos}
use nist_sp_800_90b_go.Double.{Double, std_min}
use nist_sp_800_90b_go.Result.{codes}
use nist_sp_800_90b_go.Symbols.{Data}
use nist_sp_800_90b_go.Assess.{Engine}
use nist_sp_800_90b_go.Assess.NonIid.{Entropies}
use nist_sp_800_90b_go.Files.Effects.{◌>>=◌, ◌>>◌, return}
use nist_sp_800_90b_go.Tools.{Environment, Main, asks_version, exit_with}
use nist_sp_800_90b_go.Tools.Flags.{take_options}
use nist_sp_800_90b_go.Tools.Input.{
  set_hash, set_filename, take_bits, read_input, refuse_single, truncate, get_options, push_case,
  check_arguments, settle_verbose, rest_of, finish_main,
}
use nist_sp_800_90b_go.Tools.NonIid.{
  ModeNotes, Case, fresh_case, set_bitstring, set_original, note_mode, always_case, checked_case,
  tuple_cases,
}

module _ (d : Double) where
  open d use {F, le, mul, of_int, minus_one, nought, one}

  -- The estimates of Sections 6.3.1 to 6.3.6.
  unfoldable pub statistic_tests :
      Engine d → ModeNotes d → (initial_entropy : Bool) → Data → Main (Case d) (Entropies F)
  statistic_tests e notes initial dp = do
    let bits = ltb 2 dp.alph_size || not initial
    let binary = initial && dp.alph_size == 2
    let s = dp.symbols
    let n = dp.len
    let k = dp.alph_size
    let b = dp.bsymbols
    let m = dp.blen
    let start_tool : Entropies F = record { original = of_int dp.word_size; bitstring = one }
    h1 ←
        always_case d (codes "Most Common Value") bits (e.most_common b m 2)
          (note_mode d (notes b m 2) true) initial (e.most_common s n k)
          (note_mode d (notes s n k) false) start_tool
    h2 ←
        always_case d (codes "Collision Test (for bit strings only)") bits (e.collision_test b m)
          (λ c. c) binary (e.collision_test s n) (λ c. c) h1
    h3 ←
        always_case d (codes "Markov Test (for bit strings only)") bits (e.markov_test b m) (λ c. c)
          binary (e.markov_test s n) (λ c. c) h2
    h4 ←
        checked_case d (codes "Compression Test (for bit strings only)") bits
          (e.compression_test b m) binary (e.compression_test s n) h3
    tuple_cases d bits (e.sa_algs b m 2 minus_one minus_one) initial
        (e.sa_algs s n k minus_one minus_one) h4

  -- The estimates of Sections 6.3.7 to 6.3.10.
  unfoldable pub predictor_tests :
      Engine d → (initial_entropy : Bool) → Data → Entropies F → Main (Case d) (Entropies F)
  predictor_tests e initial dp h = do
    let bits = ltb 2 dp.alph_size || not initial
    let s = dp.symbols
    let n = dp.len
    let k = dp.alph_size
    let b = dp.bsymbols
    let m = dp.blen
    h1 ←
        checked_case d (codes "Multi Most Common in Window Test") bits (e.multi_mcw_test b m 2)
          initial (e.multi_mcw_test s n k) h
    h2 ←
        checked_case d (codes "Lag Prediction Test") bits (e.lag_test b m 2) initial
          (e.lag_test s n k) h1
    h3 ←
        checked_case d (codes "Multi Markov Model with Counting Test (MultiMMC)") bits
          (e.multi_mmc_test b m 2) initial (e.multi_mmc_test s n k) h2
    checked_case d (codes "LZ78Y Test") bits (e.lz78y_test b m 2) initial (e.lz78y_test s n k) h3

  unfoldable pub h_assessed : (initial_entropy : Bool) → Data → Entropies F → F
  h_assessed initial dp h =
      let full = of_int dp.word_size in
      let a =
        if ltb 2 dp.alph_size || not initial
        then std_min d full (mul h.bitstring (of_int dp.word_size))
        else full in
      if initial then std_min d a h.original else a

  -- `tcOverall`
  unfoldable pub overall : (initial_entropy : Bool) → Data → Entropies F → Case d
  unfolding set_bitstring set_original
  overall initial dp h =
      let c =
        if ltb 2 dp.alph_size || not initial
        then set_bitstring d h.bitstring (fresh_case d)
        else fresh_case d in
      let c' = if initial then set_original d h.original c else c in
      record c' {
        base = record c'.base {
          data_word_size = of_int dp.word_size;
          test_case_number = codes "Overall";
          h_assessed = h_assessed initial dp h;
        };
      }

  unfoldable pub assess_data :
      Engine d → ModeNotes d → (initial_entropy : Bool) → Data → Main (Case d) (Entropies F)
  assess_data e notes initial dp = do
    h ← statistic_tests e notes initial dp
    h' ← predictor_tests e initial dp h
    push_case (overall initial dp h')
    return h'

  -- The options, the arguments and the file.
  unfoldable pub front : Environment → Main (Case d) Data
  front env = do
    (if asks_version env.argv then exit_with (pos 0) else return tt)
    take_options env env.flags
    path ← check_arguments env.arguments
    settle_verbose
    set_hash (env.sha256 path)
    set_filename path
    w ← take_bits env (λ n. codes "Invalid bits per symbol.") (rest_of env.arguments)
    dp ← read_input env path w
    refuse_single dp
    o ← get_options
    return (truncate o.all_bits dp)

  unfoldable pub main : Environment → Engine d → ModeNotes d → Main (Case d) ℤ
  main env e notes = do
    dp ← front env
    o ← get_options
    assess_data e notes o.initial_entropy dp
    finish_main dp
