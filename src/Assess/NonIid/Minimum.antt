-- ===== src/Assess/NonIid/Minimum.antt =====
-- What a successful run of calculate_non_iid_entropy, internal/nist/wrapper/wrapper.cpp, reports.
use nist_sp_800_90b_go.Base.{
  ℕ, suc, ◌<◌, ◌≡◌, refl, ◌∙◌, ◌⊎◌, inl, inr, Bool, false, not, ◌||◌, ltb, List, [], ◌∷◌, arith,
  length, length-append, All, All-append, Bool-cases, leb,
}
use nist_sp_800_90b_go.Double.{Double, std_min, AtMost, IsOrdered, std_min-AtMost}
use nist_sp_800_90b_go.Result.{
  Text, EstimatorResult, EntropyResult, append_entry, add_estimator, set_results,
}
use nist_sp_800_90b_go.Symbols.{Data}
use nist_sp_800_90b_go.Assess.{Outcome, value, Try, after, ◌>>=◌, ◌>>◌, write, Engine}
use nist_sp_800_90b_go.Assess.NonIid.{
  Entropies, Stage, report, report_pair, non_iid_assessed, non_iid_body,
}
use nist_sp_800_90b_go.Assess.Ensures.{Ensures, Ensures-bind}
use nist_sp_800_90b_go.Assess.NonIid.Stages.{
  Covered, Below, Kept, IsPair, Below-refl, Covered-mono, always-Kept, checked-Kept, both-Kept,
}
use nist_sp_800_90b_go.Base.{Option, some, ℤ, pos}
use nist_sp_800_90b_go.Result.{create_result}
use nist_sp_800_90b_go.Symbols.Prepare.{Heap, Allocator}
use nist_sp_800_90b_go.Assess.{returned}
use nist_sp_800_90b_go.Assess.Success.{Success, assess-Success}
use nist_sp_800_90b_go.Assess.NonIid.{calculate_non_iid_entropy}

module _ (d : Double) (laws : IsOrdered d) where
  open d use {F, le, nought, minus_one, mul, of_int}
  open laws use {le_refl, le_trans, minus_one_negative}

  -- `n` estimators are reported, and each is covered by the minima.
  record Reports (h : Entropies F) (n : ℕ) (r : EntropyResult F) : Type 0 where
    counted : r.estimator_count ≡ n
    listed : length r.estimators ≡ n
    covered : All (λ e. Covered d laws h e.entropy_estimate) r.estimators

  All-Covered-mono :
      (h k : Entropies F) (es : List (EstimatorResult F))
      → Below d laws k h
      → All (λ e. Covered d laws h e.entropy_estimate) es
      → All (λ e. Covered d laws k e.entropy_estimate) es
  All-Covered-mono h k [] b a = tt
  All-Covered-mono h k (e ∷ es) b (c, a) =
      (Covered-mono d laws h k e.entropy_estimate b c, All-Covered-mono h k es b a)

  add_estimator-Reports :
      (h k : Entropies F) (n : ℕ) (r : EntropyResult F) (name : Text) (x : F) (passed : Bool)
      → n < 16
      → Below d laws k h
      → Covered d laws k x
      → Reports h n r
      → Reports k (suc n) (add_estimator d r name x passed)
  unfolding add_estimator append_entry
  add_estimator-Reports h k n r name x passed lt b c v =
      let room : leb 16 r.estimator_count ≡ false = ground (arith, v.counted) in
      rw room (record {
        counted = omega (arith, v.counted);
        listed = length-append r.estimators _ ∙ omega (arith, v.listed);
        covered =
            All-append (λ e. Covered d laws k e.entropy_estimate) r.estimators _
              (All-Covered-mono h k r.estimators b v.covered) (c, tt);
      })

  -- A stage and the report of its estimate.
  report-Reports :
      (n : ℕ) (h : Entropies F) (r : EntropyResult F) (name : Text) (passed : F → Bool)
      (m : Try F (Stage d))
      → n < 16
      → Reports h n r
      → Ensures (Kept d laws r h) (m r)
      → Ensures (λ h' r'. Reports h' (suc n) r') (report d name passed m r)
  unfolding report ◌>>◌ ◌>>=◌ after Ensures
  report-Reports n h r name passed m lt v st =
      Ensures-bind (Kept d laws r h) _ m _ r st
        (λ s r' (e, (b, c)). add_estimator-Reports h s.0 n r' name s.1 (passed s.1) lt b c (rw e v))

  report_pair-Reports :
      (n : ℕ) (h : Entropies F) (r : EntropyResult F) (name name' : Text) (passed : F → Bool)
      (m : Try F (Entropies F × F × F))
      → n < 15
      → Reports h n r
      → Ensures (λ s r'. (r' ≡ r) × IsPair d laws h s) (m r)
      → Ensures (λ h' r'. Reports h' (suc (suc n)) r') (report_pair d name name' passed m r)
  unfolding report_pair ◌>>◌ ◌>>=◌ after Ensures
  report_pair-Reports n h r name name' passed m lt v st =
      Ensures-bind (λ s r'. (r' ≡ r) × IsPair d laws h s) _ m _ r st
        (λ s r' (e, (b, ct, cl)).
          add_estimator-Reports s.0 s.0 (suc n) _ name' s.2 (passed s.2) (omega arith)
            (Below-refl d laws s.0) cl
            (add_estimator-Reports h s.0 n r' name s.1 (passed s.1) (omega arith) b ct (rw e v)))

  -- What the last assignments leave.
  pub record Summary (initial : Bool) (dp : Data) (r : EntropyResult F) : Type 0 where
    pub count : r.estimator_count ≡ 10
    pub listed : length r.estimators ≡ 10
    pub word_size : r.data_word_size ≡ dp.word_size
    pub minimum : r.min_entropy ≡ r.h_assessed
    pub covered :
        All
          (λ e.
            (le nought e.entropy_estimate ≡ false)
            ⊎ AtMost d r.h_original e.entropy_estimate
            ⊎ AtMost d r.h_bitstring e.entropy_estimate)
          r.estimators
    pub within_word : AtMost d r.h_assessed (of_int dp.word_size)
    pub within_original : (initial ≡ false) ⊎ AtMost d r.h_assessed r.h_original
    pub within_bitstring :
        (ltb 2 dp.alph_size || not initial ≡ false)
        ⊎ AtMost d r.h_assessed (mul r.h_bitstring (of_int dp.word_size))

  assessed_bounds :
      (initial : Bool) (dp : Data) (h : Entropies F)
      → let a = non_iid_assessed d initial dp h in
        AtMost d a (of_int dp.word_size)
        × ((initial ≡ false) ⊎ AtMost d a h.original)
        × ((ltb 2 dp.alph_size || not initial ≡ false)
            ⊎ AtMost d a (mul h.bitstring (of_int dp.word_size)))
  unfolding non_iid_assessed
  assessed_bounds initial dp h = elim (Bool-cases (ltb 2 dp.alph_size || not initial)) [
    | inl on ↦ elim (Bool-cases initial) [
      | inl yes_initial ↦
          let (c1, c2) = std_min-AtMost d laws bounded h.original in
          rw (on, yes_initial) (le_trans _ _ _ c1 b1, inr c2, inr (le_trans _ _ _ c1 b2))
      | inr not_initial ↦ rw (on, not_initial) (b1, inl refl, inr b2)
    ]
    | inr off ↦ elim (Bool-cases initial) [
      | inl yes_initial ↦
          let (c1, c2) = std_min-AtMost d laws full h.original in
          rw (off, yes_initial) (c1, inr c2, inl refl)
      | inr not_initial ↦ rw (off, not_initial) (le_refl full, inl refl, inl refl)
    ]
  ]
    where
      full : F
      full = of_int dp.word_size

      scaled : F
      scaled = mul h.bitstring (of_int dp.word_size)

      bounded : F
      bounded = std_min d full scaled

      b1 : AtMost d bounded full
      b1 = (std_min-AtMost d laws full scaled).0

      b2 : AtMost d bounded scaled
      b2 = (std_min-AtMost d laws full scaled).1

  finish :
      (initial : Bool) (dp : Data) (h : Entropies F) (r : EntropyResult F)
      → Reports h 10 r
      → Ensures
          (λ _ r'. Summary initial dp r')
          (write
            (set_results d h.original h.bitstring (non_iid_assessed d initial dp h) dp.word_size)
            r)
  unfolding set_results Ensures
  finish initial dp h r v =
      let (a, b, c) = assessed_bounds initial dp h in
      record {
        count = v.counted;
        listed = v.listed;
        word_size = refl;
        minimum = refl;
        covered = v.covered;
        within_word = a;
        within_original = b;
        within_bitstring = c;
      }

  pub non_iid_body-Summary :
      (e : Engine d) (initial : Bool) (dp : Data) (r : EntropyResult F)
      → r.estimator_count ≡ 0
      → r.estimators ≡ []
      → Ensures (λ _ r'. Summary initial dp r') (non_iid_body d e initial dp r)
  unfolding non_iid_body
  non_iid_body-Summary e initial dp r z nil =
      bind 1 _ _ _
        (report-Reports 0 start r _ _ _ (omega arith) begin (always-Kept d laws _ _ _ _ _ _))
        λ h1 r1 v1.
          bind 2 _ _ _
            (report-Reports 1 h1 r1 _ _ _ (omega arith) v1 (always-Kept d laws _ _ _ _ _ _))
            λ h2 r2 v2.
              bind 3 _ _ _
                (report-Reports 2 h2 r2 _ _ _ (omega arith) v2 (always-Kept d laws _ _ _ _ _ _))
                λ h3 r3 v3.
                  bind 4 _ _ _
                    (report-Reports 3 h3 r3 _ _ _ (omega arith) v3
                      (checked-Kept d laws _ _ _ _ _ _))
                    λ h4 r4 v4.
                      bind 6 _ _ _
                        (report_pair-Reports 4 h4 r4 _ _ _ _ (omega arith) v4
                          (both-Kept d laws _ _ _ _ _ _))
                        λ h5 r5 v5.
                          bind 7 _ _ _
                            (report-Reports 6 h5 r5 _ _ _ (omega arith) v5
                              (checked-Kept d laws _ _ _ _ _ _))
                            λ h6 r6 v6.
                              bind 8 _ _ _
                                (report-Reports 7 h6 r6 _ _ _ (omega arith) v6
                                  (checked-Kept d laws _ _ _ _ _ _))
                                λ h7 r7 v7.
                                  bind 9 _ _ _
                                    (report-Reports 8 h7 r7 _ _ _ (omega arith) v7
                                      (checked-Kept d laws _ _ _ _ _ _))
                                    λ h8 r8 v8.
                                      bind 10 _ _ _
                                        (report-Reports 9 h8 r8 _ _ _ (omega arith) v8
                                          (checked-Kept d laws _ _ _ _ _ _))
                                        λ h9 r9 v9. finish initial dp h9 r9 v9
    where
      Q : Unit {0} → EntropyResult F → Type 0
      Q _ r' = Summary initial dp r'

      start : Entropies F
      start = record { original = of_int dp.word_size; bitstring = d.one }

      begin : Reports start 0 r
      begin = record { counted = z; listed = rw nil refl; covered = rw nil tt }

      bind :
          (n : ℕ) (m : Try F (Entropies F)) (k : Entropies F → Try F (Unit {0}))
          (s : EntropyResult F)
          → Ensures (λ h' r'. Reports h' n r') (m s)
          → ((h' : Entropies F) (r' : EntropyResult F) → Reports h' n r' → Ensures Q (k h' r'))
          → Ensures Q ((m >>= k) s)
      bind n m k s p next = Ensures-bind (λ h' r'. Reports h' n r') Q m k s p next

  -- Under the order laws IsOrdered of the doubles that occur: if calculate_non_iid_entropy reports
  -- error_code 0, then bits_per_symbol is not negative, the data was
  -- prepared and has at least two symbols; ten estimators are reported; each reported estimate is
  -- negative or at least one of h_original and h_bitstring; min_entropy is h_assessed, which is at
  -- most the word size, at most h_original if the symbols were assessed, and at most h_bitstring times
  -- the word size if the bit string was.
  pub calculate_non_iid_entropy-Summary :
      (given : Bool) (al : Allocator) (e : Engine d) (samples : Option (List ℕ)) (bits : ℤ)
      (initial : Bool) (r : EntropyResult F) (h : Heap)
      → calculate_non_iid_entropy d given al e samples bits initial ≡ returned (some r) h
      → r.error_code ≡ pos 0
      → (s : Success d al (non_iid_body d e initial) samples bits r) × Summary initial s.prepared r
  unfolding calculate_non_iid_entropy Ensures create_result
  calculate_non_iid_entropy-Summary given al e samples bits initial r h run ok =
      let s = assess-Success d given al (non_iid_body d e initial) samples bits r h run ok in
      (
        s,
        ended _ _ s.finished
            (non_iid_body-Summary e initial s.prepared (create_result d) refl refl),
      )
    where
      ended :
          (dp : Data) (o : Outcome (Unit {0}) × EntropyResult F)
          → o ≡ (value tt, r)
          → Ensures (λ _ r'. Summary initial dp r') o
          → Summary initial dp r
      ended dp o e = rw e (λ s. s)
