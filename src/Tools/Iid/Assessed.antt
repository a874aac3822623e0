-- ===== src/Tools/Iid/Assessed.antt =====
-- internal/nist/cpp/iid_main.cpp beside calculate_iid_entropy of internal/nist/wrapper/wrapper.cpp.
use nist_sp_800_90b_go.Base.{
  ℕ, Bool, true, false, List, [], ◌∷◌, ◌++◌, ltb, ◌==◌, ◌||◌, if◌then◌else◌, ◌≡◌, refl, sym, ◌∙◌,
  ◌<◌, ◌≤◌, arith, Bool-cases, inl, inr, lt→ltb, le→ltb_false, ◌%◌, ◌^◌, pos,
}
use nist_sp_800_90b_go.Double.{Double}
use nist_sp_800_90b_go.Result.{EntropyResult, set_results}
use nist_sp_800_90b_go.Symbols.{Data}
use nist_sp_800_90b_go.Assess.{Engine, value, after as after_try, ◌>>=◌ as ◌>>~◌, ◌>>◌ as ◌>~◌}
use nist_sp_800_90b_go.Assess.NonIid.Returns.{Gave}
use nist_sp_800_90b_go.Assess.Iid.{iid_body, iid_assessed}
use nist_sp_800_90b_go.Files.Effects.{next, after, ◌>>=◌, ◌>>◌}
use nist_sp_800_90b_go.Tools.{Tool, call}
use nist_sp_800_90b_go.Tools.Input.{push_case}
use nist_sp_800_90b_go.Tools.Iid.{
  NegativeSize, int_of_long, with_size, IidTestCase, h_assessed, assess_data,
}

-- No estimator or test of the IID track throws.
pub record Answers (d : Double) (e : Engine d) : Type 0 where
  pub most_common : (s : List ℕ) (n k : ℕ) → Gave (e.most_common s n k)
  pub chi_square_tests : (s : List ℕ) (n k : ℕ) → Gave (e.chi_square_tests s n k)
  pub len_lrs_test : (s : List ℕ) (n k : ℕ) → Gave (e.len_lrs_test s n k)
  pub calc_stats : (dp : Data) → Gave (e.calc_stats dp)
  pub permutation_tests :
      (dp : Data) (mean median : d.F) → Gave (e.permutation_tests dp mean median)

int_of_long-short : (n : ℕ) → n < 2 ^ 31 → int_of_long n ≡ pos n
unfolding int_of_long
int_of_long-short n h = let e : n % 2 ^ 32 ≡ n = omega arith in rw (e, lt→ltb n (2 ^ 31) h) refl

module _ (d : Double) where
  open d use {F, of_int}

  h_assessed-high :
      (verbose : ℕ) (dp : Data) (a b : F)
      → 2 < verbose
      → h_assessed d verbose true dp a b ≡ iid_assessed d dp a b
  unfolding h_assessed iid_assessed
  h_assessed-high verbose dp a b h =
      let off : (verbose == 1 || verbose == 2) ≡ false = ground arith in
      elim (Bool-cases (ltb 2 dp.alph_size)) [
        | inl many ↦ rw (off, lt→ltb 2 verbose h, many) refl
        | inr two ↦ rw (off, lt→ltb 2 verbose h, two) refl
      ]

  h_assessed-low :
      (verbose : ℕ) (initial : Bool) (dp : Data) (a b : F)
      → verbose ≤ 2
      → h_assessed d verbose initial dp a b ≡ of_int dp.word_size
  unfolding h_assessed
  h_assessed-low verbose initial dp a b h = elim (Bool-cases (verbose == 1 || verbose == 2)) [
    | inl on ↦ rw on refl
    | inr off ↦ rw (off, le→ltb_false 2 verbose h) refl
  ]

  -- What the one test case of the program says beside the wrapper's result.
  pub record Reported (verbose : ℕ) (dp : Data) (c : IidTestCase F) (r : EntropyResult F)
      : Type 0 where
    pub original : c.base.h_original ≡ r.h_original
    pub bitstring : c.base.h_bitstring ≡ r.h_bitstring
    pub high : 2 < verbose → c.base.h_assessed ≡ r.h_assessed
    pub low : verbose ≤ 2 → c.base.h_assessed ≡ of_int dp.word_size

  module _ (e : Engine d) (dp : Data) (ans : Answers d e) where
    literal_entropy : F
    literal_entropy = (ans.most_common dp.symbols dp.len dp.alph_size).0

    -- The entropy of the bit string, or 1 when it is not estimated.
    bits_entropy : F
    bits_entropy = if ltb 2 dp.alph_size then (ans.most_common dp.bsymbols dp.blen 2).0 else d.one

    wrapper_run :
        (r : EntropyResult F)
        → (r' : EntropyResult F) × (r'.h_original ≡ literal_entropy)
          × (r'.h_bitstring ≡ bits_entropy)
          × (r'.h_assessed ≡ iid_assessed d dp literal_entropy bits_entropy)
          × (iid_body d e dp r ≡ (value tt, r'))
    unfolding literal_entropy bits_entropy iid_body ◌>>~◌ ◌>~◌ after_try set_results
    wrapper_run r =
        let (u, p) = ans.most_common dp.symbols dp.len dp.alph_size in
        let (v, q) = ans.most_common dp.bsymbols dp.blen 2 in
        let (chi, x) = ans.chi_square_tests dp.symbols dp.len dp.alph_size in
        let (lrs, l) = ans.len_lrs_test dp.symbols dp.len dp.alph_size in
        let (stats, t) = ans.calc_stats dp in
        let (perm, m) = ans.permutation_tests dp stats.0 stats.1 in
        elim (Bool-cases (ltb 2 dp.alph_size)) [
          | inl many ↦ rw (p, many, q, x, l, t, m) (_, refl, refl, refl, refl)
          | inr two ↦ rw (p, two, x, l, t, m) (_, refl, refl, refl, refl)
        ]

    program_run :
        (below : NegativeSize d) (verbose : ℕ) (s : Tool (IidTestCase F))
        → dp.len < 2 ^ 31
        → (c : IidTestCase F) × (c.base.h_original ≡ literal_entropy)
          × (c.base.h_bitstring ≡ bits_entropy)
          × (c.base.h_assessed ≡ h_assessed d verbose true dp literal_entropy bits_entropy)
          × (assess_data d e below verbose true dp s
              ≡ (next tt, record s { cases = s.cases ++ (c ∷ []) }))
    unfolding literal_entropy bits_entropy assess_data call push_case with_size ◌>>=◌ ◌>>◌ after
    program_run below verbose s short =
        let size = int_of_long-short dp.len short in
        let (u, p) = ans.most_common dp.symbols dp.len dp.alph_size in
        let (v, q) = ans.most_common dp.bsymbols dp.blen 2 in
        let (chi, x) = ans.chi_square_tests dp.symbols dp.len dp.alph_size in
        let (lrs, l) = ans.len_lrs_test dp.symbols dp.len dp.alph_size in
        let (stats, t) = ans.calc_stats dp in
        let (perm, m) = ans.permutation_tests dp stats.0 stats.1 in
        elim (Bool-cases (ltb 2 dp.alph_size)) [
          | inl many ↦ rw (size, t, p, many, q, x, l, m) (_, refl, refl, refl, refl)
          | inr two ↦ rw (size, t, p, two, x, l, m) (_, refl, refl, refl, refl)
        ]

  -- When no estimator throws and there are fewer than 2^31 samples (iid_main takes their number as an
  -- int), iid_main for an initial estimate and calculate_iid_entropy, from the same prepared data, both
  -- finish; the program's one test case has the H_original and H_bitstring of the wrapper's result, and
  -- its assessed entropy when `verbose` is above 2; but when `verbose` is at most 2, the assessed
  -- entropy of the test case is the word size, whatever the estimates.
  pub assess_data-iid_body :
      (e : Engine d) (below : NegativeSize d) (verbose : ℕ) (dp : Data) (s : Tool (IidTestCase F))
      (r : EntropyResult F)
      → Answers d e
      → dp.len < 2 ^ 31
      → (c : IidTestCase F) × (r' : EntropyResult F) × (assess_data d e below verbose true dp s
          ≡ (next tt, record s { cases = s.cases ++ (c ∷ []) }))
        × (iid_body d e dp r ≡ (value tt, r'))
        × Reported verbose dp c r'
  assess_data-iid_body e below verbose dp s r ans short =
      let (c, o, b, a, run) = program_run e dp ans below verbose s short in
      let (r', o', b', a', run') = wrapper_run e dp ans r in
      (
        c,
        r',
        run,
        run',
        record {
          original = o ∙ sym o';
          bitstring = b ∙ sym b';
          high = λ h. a ∙ h_assessed-high verbose dp _ _ h ∙ sym a';
          low = λ h. a ∙ h_assessed-low verbose true dp _ _ h;
        },
      )
