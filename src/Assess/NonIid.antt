-- ===== src/Assess/NonIid.antt =====
-- internal/nist/wrapper/wrapper.cpp, calculate_non_iid_entropy. `is_binary` is its initial-entropy
-- mode. Each estimator runs on the bit string, on the symbols, or on both in this order.
pub mod Stages
pub mod Minimum
pub mod Returns
pub mod Bounded
use nist_sp_800_90b_go.Base.{
  ℕ, Bool, true, false, Option, List, ltb, ◌==◌, ◌&&◌, ◌||◌, not, if◌then◌else◌, ℤ,
}
use nist_sp_800_90b_go.Double.{Double, std_min}
use nist_sp_800_90b_go.Result.{Text, EntropyResult, codes, add_estimator, set_results}
use nist_sp_800_90b_go.Symbols.{Data}
use nist_sp_800_90b_go.Symbols.Prepare.{Allocator}
use nist_sp_800_90b_go.Assess.{Outcome, Try, ◌>>=◌, ◌>>◌, call, return, write, Run, assess, Engine}

-- The running minima H_original and H_bitstring.
pub record Entropies (F : Type 0) : Type 0 where
  pub original : F
  pub bitstring : F

module _ (d : Double) where
  open d use {F, le, mul, of_int, minus_one, nought, one}

  -- The minima, and the estimate to report.
  abbrev pub Stage : Type 0
  Stage = Entropies F × F

  unfoldable pub lower_bitstring : F → Entropies F → Entropies F
  lower_bitstring x h = record h { bitstring = std_min d x h.bitstring }

  unfoldable pub lower_original : F → Entropies F → Entropies F
  lower_original x h = record h { original = std_min d x h.original }

  -- `if(ret_min_entropy >= 0) { H_bitstring = min(...); estimate = ret_min_entropy; }`
  unfoldable pub keep_bitstring : F → Stage → Stage
  unfolding lower_bitstring
  keep_bitstring x (h, estimate) = if le nought x then (lower_bitstring x h, x) else (h, estimate)

  unfoldable pub keep_original : F → Stage → Stage
  unfolding lower_original
  keep_original x (h, estimate) = if le nought x then (lower_original x h, x) else (h, estimate)

  -- An estimator whose result is always used.
  unfoldable pub always :
      (on_bits : Bool) → Outcome F → (on_literal : Bool) → Outcome F → Entropies F → Try F Stage
  unfolding lower_bitstring lower_original
  always on_bits bits on_literal literal h = do
    s ←
        (if on_bits
          then (call bits >>= λ x. return (lower_bitstring x h, x))
          else return (h, minus_one))
    (if on_literal then (call literal >>= λ x. return (lower_original x s.0, x)) else return s)

  -- An estimator whose negative results are passed over.
  unfoldable pub checked :
      (on_bits : Bool) → Outcome F → (on_literal : Bool) → Outcome F → Entropies F → Try F Stage
  unfolding keep_bitstring keep_original
  checked on_bits bits on_literal literal h = do
    s ←
        (if on_bits
          then (call bits >>= λ x. return (keep_bitstring x (h, minus_one)))
          else return (h, minus_one))
    (if on_literal then (call literal >>= λ x. return (keep_original x s)) else return s)

  -- SAalgs gives two results, for the t-tuple and the LRS estimate.
  unfoldable pub both :
      (on_bits : Bool)
      → Outcome (F × F)
      → (on_literal : Bool) → Outcome (F × F)
      → Entropies F
      → Try F (Entropies F × F × F)
  unfolding keep_bitstring keep_original
  both on_bits bits on_literal literal h = do
    s ←
        (if on_bits
          then (call bits >>= λ x.
              let (h1, t) = keep_bitstring x.0 (h, minus_one) in
              let (h2, l) = keep_bitstring x.1 (h1, minus_one) in return (h2, t, l))
          else return (h, minus_one, minus_one))
    (if on_literal
        then (call literal >>= λ x.
            let (h1, t) = keep_original x.0 (s.0, s.1) in
            let (h2, l) = keep_original x.1 (h1, s.2) in return (h2, t, l))
        else return s)

  unfoldable pub non_iid_assessed : (initial_entropy : Bool) → Data → Entropies F → F
  non_iid_assessed initial dp h =
      let full = of_int dp.word_size in
      let a =
        if ltb 2 dp.alph_size || not initial
        then std_min d full (mul h.bitstring (of_int dp.word_size))
        else full in
      if initial then std_min d a h.original else a

  -- The stage of an estimator, and `add_estimator` of its estimate.
  unfoldable pub report : Text → (F → Bool) → Try F Stage → Try F (Entropies F)
  report name passed m = do s ← m; write (λ r. add_estimator d r name s.1 (passed s.1)); return s.0

  unfoldable pub report_pair :
      Text → Text → (F → Bool) → Try F (Entropies F × F × F) → Try F (Entropies F)
  report_pair name name' passed m = do
    s ← m
    write (λ r. add_estimator d r name s.1 (passed s.1))
    write (λ r. add_estimator d r name' s.2 (passed s.2))
    return s.0

  -- `valid` is `estimate >= 0`.
  unfoldable pub non_iid_body : Engine d → (initial_entropy : Bool) → Data → Try F (Unit {0})
  non_iid_body e initial dp = do
    let bits = ltb 2 dp.alph_size || not initial
    let binary = initial && dp.alph_size == 2
    let s = dp.symbols
    let n = dp.len
    let k = dp.alph_size
    let b = dp.bsymbols
    let m = dp.blen
    let valid = λ (x : F). le nought x
    let passes = λ (x : F). true
    let start : Entropies F = record { original = of_int dp.word_size; bitstring = one }
    h1 ←
        report (codes "Most Common Value") passes
          (always bits (e.most_common b m 2) initial (e.most_common s n k) start)
    h2 ←
        report (codes "Collision Test") passes
          (always bits (e.collision_test b m) binary (e.collision_test s n) h1)
    h3 ←
        report (codes "Markov Test") passes
          (always bits (e.markov_test b m) binary (e.markov_test s n) h2)
    h4 ←
        report (codes "Compression Test") valid
          (checked bits (e.compression_test b m) binary (e.compression_test s n) h3)
    h5 ← report_pair (codes "t-Tuple Test") (codes "LRS Test") valid (
        both bits (e.sa_algs b m 2 minus_one minus_one) initial
          (e.sa_algs s n k minus_one minus_one) h4)
    h6 ←
        report (codes "Multi Most Common in Window Test") valid
          (checked bits (e.multi_mcw_test b m 2) initial (e.multi_mcw_test s n k) h5)
    h7 ←
        report (codes "Lag Prediction Test") valid
          (checked bits (e.lag_test b m 2) initial (e.lag_test s n k) h6)
    h8 ←
        report (codes "Multi Markov Model with Counting Test") valid
          (checked bits (e.multi_mmc_test b m 2) initial (e.multi_mmc_test s n k) h7)
    h9 ←
        report (codes "LZ78Y Test") valid
          (checked bits (e.lz78y_test b m 2) initial (e.lz78y_test s n k) h8)
    write (set_results d h9.original h9.bitstring (non_iid_assessed initial dp h9) dp.word_size)

  unfoldable pub calculate_non_iid_entropy :
      (result_given : Bool)
      → Allocator
      → Engine d
      → Option (List ℕ)
      → ℤ
      → (is_binary : Bool) → Run F
  unfolding non_iid_body
  calculate_non_iid_entropy given al e samples bits initial =
      assess d given al (non_iid_body e initial) samples bits
