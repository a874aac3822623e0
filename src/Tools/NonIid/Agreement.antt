-- ===== src/Tools/NonIid/Agreement.antt =====
-- internal/nist/cpp/non_iid_main.cpp beside calculate_non_iid_entropy of
-- internal/nist/wrapper/wrapper.cpp: all estimators, and what is reported.
use nist_sp_800_90b_go.Base.{
  Bool, true, List, [], ◌∷◌, ◌++◌, ltb, ◌||◌, not, pos, ◌≡◌, refl, Bool-cases, inl, inr,
}
use nist_sp_800_90b_go.Double.{Double}
use nist_sp_800_90b_go.Result.{EntropyResult, set_results}
use nist_sp_800_90b_go.Symbols.{Data}
use nist_sp_800_90b_go.Assess.{Engine, Try, write, ◌>>=◌ as ◌>>~◌}
use nist_sp_800_90b_go.Assess.NonIid.{Entropies, non_iid_assessed, non_iid_body}
use nist_sp_800_90b_go.Files.Effects.{after, ◌>>=◌, ◌>>◌, return}
use nist_sp_800_90b_go.Tools.{Tool, Main}
use nist_sp_800_90b_go.Tools.Input.{push_case}
use nist_sp_800_90b_go.Tools.NonIid.{ModeNotes, Case, set_bitstring, set_original}
use nist_sp_800_90b_go.Tools.NonIid.Program.{
  statistic_tests, predictor_tests, h_assessed, overall, assess_data,
}
use nist_sp_800_90b_go.Tools.NonIid.Wrapper.{
  Same, Equal, Same-bind, Same-chain, always_case-Same, checked_case-Same,
}
use nist_sp_800_90b_go.Tools.NonIid.Tuples.{tuple_cases-Same}

module _ (d : Double) where
  open d use {F}

  -- The last test case of the program says what the wrapper's result says.
  pub record Reported (initial : Bool) (dp : Data) (s : Tool (Case d)) (r : EntropyResult F)
      : Type 0 where
    pub before : List (Case d)
    pub last : Case d
    pub pushed : s.cases ≡ before ++ (last ∷ [])
    pub assessed : last.base.h_assessed ≡ r.h_assessed
    pub original : initial ≡ true → last.base.h_original ≡ r.h_original
    pub bitstring :
        (ltb 2 dp.alph_size || not initial) ≡ true → last.base.h_bitstring ≡ r.h_bitstring
    pub word_size : r.data_word_size ≡ dp.word_size
    pub success : r.error_code ≡ pos 0

  overall-Reported :
      (initial : Bool) (dp : Data) (h : Entropies F) (s : Tool (Case d)) (r : EntropyResult F)
      → Reported initial dp
          (record s { cases = s.cases ++ (overall d initial dp h ∷ []) })
          (set_results d h.original h.bitstring (non_iid_assessed d initial dp h) dp.word_size r)
  unfolding overall h_assessed non_iid_assessed set_results set_bitstring set_original
  overall-Reported initial dp h s r = record {
    before = s.cases;
    last = overall d initial dp h;
    pushed = refl;
    assessed = refl;
    original = λ e. rw e refl;
    bitstring = λ e. elim (Bool-cases initial) [ inl i ↦ rw (e, i) refl | inr i ↦ rw (e, i) refl ];
    word_size = refl;
    success = refl;
  }

  pushed-Same :
      (initial : Bool) (dp : Data) (h : Entropies F) (s : Tool (Case d)) (r : EntropyResult F)
      → Same d
          (λ _ s' _ r'. Reported initial dp s' r')
          ((do push_case (overall d initial dp h); return h) s)
          (write
            (set_results d h.original h.bitstring (non_iid_assessed d initial dp h) dp.word_size)
            r)
  unfolding push_case ◌>>◌ ◌>>=◌ after Same
  pushed-Same initial dp h s r = overall-Reported initial dp h s r

  -- From the same prepared data, non_iid_main's estimators and those of calculate_non_iid_entropy
  -- either both end early, when an estimator throws, or the last test case of the program has the
  -- assessed entropy of the wrapper's result, and its H_original and H_bitstring where they apply.
  pub assess_data-non_iid_body :
      (e : Engine d) (notes : ModeNotes d) (initial : Bool) (dp : Data) (s : Tool (Case d))
      (r : EntropyResult F)
      → Same d
          (λ _ s' _ r'. Reported initial dp s' r')
          (assess_data d e notes initial dp s)
          (non_iid_body d e initial dp r)
  unfolding assess_data statistic_tests predictor_tests non_iid_body
  assess_data-non_iid_body e notes initial dp s r =
      chain _ _ _ _ _ s r (always_case-Same d _ _ _ _ _ _ _ _ _ _ s r) λ h1 s1 r1.
        chain _ _ _ _ _ s1 r1 (always_case-Same d _ _ _ _ _ _ _ _ _ h1 s1 r1) λ h2 s2 r2.
          chain _ _ _ _ _ s2 r2 (always_case-Same d _ _ _ _ _ _ _ _ _ h2 s2 r2) λ h3 s3 r3.
            chain _ _ _ _ _ s3 r3 (checked_case-Same d _ _ _ _ _ _ _ h3 s3 r3) λ h4 s4 r4.
              bind _ _ _ _ s4 r4 (tuple_cases-Same d _ _ _ _ _ _ _ h4 s4 r4) λ h5 s5 r5.
                chain _ _ _ _ _ s5 r5 (checked_case-Same d _ _ _ _ _ _ _ h5 s5 r5) λ h6 s6 r6.
                  chain _ _ _ _ _ s6 r6 (checked_case-Same d _ _ _ _ _ _ _ h6 s6 r6) λ h7 s7 r7.
                    chain _ _ _ _ _ s7 r7 (checked_case-Same d _ _ _ _ _ _ _ h7 s7 r7) λ h8 s8 r8.
                      bind _ _ _ _ s8 r8 (checked_case-Same d _ _ _ _ _ _ _ h8 s8 r8)
                        λ h9 s9 r9. pushed-Same initial dp h9 s9 r9
    where
      bind :
          {A B : Type 0} (m : Main (Case d) A) (k : A → Main (Case d) B) (n : Try F A)
          (l : A → Try F (Unit {0})) (s : Tool (Case d)) (r : EntropyResult F)
          → Same d (Equal d) (m s) (n r)
          → ((a : A) (s' : Tool (Case d)) (r' : EntropyResult F)
              → Same d (λ _ s' _ r'. Reported initial dp s' r') (k a s') (l a r'))
          → Same d (λ _ s' _ r'. Reported initial dp s' r') ((m >>= k) s) ((n >>~ l) r)
      bind = Same-bind d (λ _ s' _ r'. Reported initial dp s' r')

      chain :
          {A B D : Type 0} (m : Main (Case d) A) (k : A → Main (Case d) B) (j : B → Main (Case d) D)
          (n : Try F A) (l : A → Try F (Unit {0})) (s : Tool (Case d)) (r : EntropyResult F)
          → Same d (Equal d) (m s) (n r)
          → ((a : A) (s' : Tool (Case d)) (r' : EntropyResult F)
              → Same d (λ _ s' _ r'. Reported initial dp s' r') ((k a >>= j) s') (l a r'))
          → Same d (λ _ s' _ r'. Reported initial dp s' r') (((m >>= k) >>= j) s) ((n >>~ l) r)
      chain = Same-chain d (λ _ s' _ r'. Reported initial dp s' r')
