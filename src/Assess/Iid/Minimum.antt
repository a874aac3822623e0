-- ===== src/Assess/Iid/Minimum.antt =====
-- What a successful run of calculate_iid_entropy, internal/nist/wrapper/wrapper.cpp, reports.
use nist_sp_800_90b_go.Base.{
  ℕ, ◌≡◌, refl, ◌⊎◌, inl, inr, Bool, true, false, Option, some, List, ltb, Bool-cases, ℤ, pos,
}
use nist_sp_800_90b_go.Double.{Double, std_min, AtMost, IsOrdered, std_min-AtMost}
use nist_sp_800_90b_go.Result.{
  Text, EntropyResult, create_result, append_entry, add_estimator, add_test_result, set_results,
}
use nist_sp_800_90b_go.Symbols.{Data}
use nist_sp_800_90b_go.Symbols.Prepare.{Heap, Allocator}
use nist_sp_800_90b_go.Assess.{Outcome, value, returned, Engine}
use nist_sp_800_90b_go.Assess.Ensures.{Ensures, Ensures-call, Ensures-write, Ensures-optional}
use nist_sp_800_90b_go.Assess.Success.{Success, assess-Success}
use nist_sp_800_90b_go.Assess.Iid.{iid_assessed, iid_body, calculate_iid_entropy}

module _ (d : Double) (laws : IsOrdered d) where
  open d use {F, mul, of_int}
  open laws use {le_refl, le_trans}

  -- What the last assignments leave.
  pub record IidSummary (dp : Data) (r : EntropyResult F) : Type 0 where
    pub count : r.estimator_count ≡ 4
    pub word_size : r.data_word_size ≡ dp.word_size
    pub minimum : r.min_entropy ≡ r.h_assessed
    pub within_word : AtMost d r.h_assessed (of_int dp.word_size)
    pub within_original : AtMost d r.h_assessed r.h_original
    pub within_bitstring :
        (ltb 2 dp.alph_size ≡ false)
        ⊎ AtMost d r.h_assessed (mul r.h_bitstring (of_int dp.word_size))

  iid_bounds :
      (dp : Data) (x y : F)
      → let a = iid_assessed d dp x y in
        AtMost d a (of_int dp.word_size)
        × AtMost d a x
        × ((ltb 2 dp.alph_size ≡ false) ⊎ AtMost d a (mul y (of_int dp.word_size)))
  unfolding iid_assessed
  iid_bounds dp x y = elim (Bool-cases (ltb 2 dp.alph_size)) [
    | inl many ↦
        let full = of_int dp.word_size in
        let scaled = mul y (of_int dp.word_size) in
        let (b1, b2) = std_min-AtMost d laws full scaled in
        let (c1, c2) = std_min-AtMost d laws (std_min d full scaled) x in
        rw many (le_trans _ _ _ c1 b1, c2, inr (le_trans _ _ _ c1 b2))
    | inr binary ↦
        let (c1, c2) = std_min-AtMost d laws (of_int dp.word_size) x in rw binary (c1, c2, inl refl)
  ]

  abbrev Q : Data → Unit {0} → EntropyResult F → Type 0
  Q dp _ r = IidSummary dp r

  four_entries :
      (dp : Data) (x y : F) (chi lrs perm : Bool) (n0 n1 n2 n3 : Text)
      → IidSummary dp (
          set_results d x y (iid_assessed d dp x y) dp.word_size (
            add_test_result d
              (add_test_result d
                (add_test_result d (add_estimator d (create_result d) n0 x true) n1 chi)
                n2
                lrs)
              n3
              perm))
  unfolding set_results add_test_result add_estimator append_entry create_result
  four_entries dp x y chi lrs perm n0 n1 n2 n3 =
      let (a, b, c) = iid_bounds dp x y in
      record {
        count = refl;
        word_size = refl;
        minimum = refl;
        within_word = a;
        within_original = b;
        within_bitstring = c;
      }

  iid_body-Summary :
      (e : Engine d) (dp : Data)
      → Ensures (λ _ r. IidSummary dp r) (iid_body d e dp (create_result d))
  unfolding iid_body Ensures
  iid_body-Summary e dp =
      Ensures-call (Q dp) (e.most_common dp.symbols dp.len dp.alph_size) _ _ λ x.
        Ensures-write (Q dp) _ _ _ (
          Ensures-optional (Q dp) (ltb 2 dp.alph_size) (e.most_common dp.bsymbols dp.blen 2) d.one _
            _
            λ y. Ensures-call (Q dp) (e.chi_square_tests dp.symbols dp.len dp.alph_size) _ _ λ chi.
              Ensures-write (Q dp) _ _ _ (
                Ensures-call (Q dp) (e.len_lrs_test dp.symbols dp.len dp.alph_size) _ _ λ lrs.
                  Ensures-write (Q dp) _ _ _ (
                    Ensures-call (Q dp) (e.calc_stats dp) _ _ λ stats.
                      Ensures-call (Q dp) (e.permutation_tests dp stats.0 stats.1) _ _ λ perm.
                        Ensures-write (Q dp) _ _ _ (four_entries dp x y chi lrs perm _ _ _ _))))

  -- Under the order laws IsOrdered of the doubles that occur: if calculate_iid_entropy reports
  -- error_code 0, then bits_per_symbol is not negative, the data was
  -- prepared and has at least two symbols; four entries are reported; min_entropy is h_assessed, which
  -- is at most the word size, at most h_original, and, unless there are only two symbols, at most
  -- h_bitstring times the word size.
  pub calculate_iid_entropy-Summary :
      (given : Bool) (al : Allocator) (e : Engine d) (samples : Option (List ℕ)) (bits : ℤ)
      (r : EntropyResult F) (h : Heap)
      → calculate_iid_entropy d given al e samples bits ≡ returned (some r) h
      → r.error_code ≡ pos 0
      → (s : Success d al (iid_body d e) samples bits r) × IidSummary s.prepared r
  unfolding calculate_iid_entropy Ensures
  calculate_iid_entropy-Summary given al e samples bits r h run ok =
      let s = assess-Success d given al (iid_body d e) samples bits r h run ok in
      (s, ended s.prepared _ s.finished (iid_body-Summary e s.prepared))
    where
      ended :
          (dp : Data) (o : Outcome (Unit {0}) × EntropyResult F)
          → o ≡ (value tt, r)
          → Ensures (λ _ r'. IidSummary dp r') o
          → IidSummary dp r
      ended dp o e = rw e (λ s. s)
