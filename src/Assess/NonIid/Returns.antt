-- ===== src/Assess/NonIid/Returns.antt =====
-- When calculate_non_iid_entropy, internal/nist/wrapper/wrapper.cpp, succeeds.
use nist_sp_800_90b_go.Base.{
  ap, subst, le→leb, ℕ, ◌≤◌, ◌≡◌, refl, ◌∙◌, Bool, true, false, some, List, ◌∷◌, arith, leb, pos,
}
use nist_sp_800_90b_go.Double.{Double}
use nist_sp_800_90b_go.Result.{Text, EntropyResult, create_result, set_results}
use nist_sp_800_90b_go.Symbols.{Data, word_size_for}
use nist_sp_800_90b_go.Symbols.Width.{word_size_for-positive}
use nist_sp_800_90b_go.Symbols.Prepare.{Heap, empty, Allocator, ready, prepare_data, free_data}
use nist_sp_800_90b_go.Symbols.Prepare.Memory.{Balanced, prepare_data-Balanced}
use nist_sp_800_90b_go.Assess.{
  Outcome, value, thrown, thrown_other, Try, after, ◌>>=◌, ◌>>◌, write, returned, caught, guarded,
  release_data, Engine,
}
use nist_sp_800_90b_go.Assess.Paths.{assess-inside}
use nist_sp_800_90b_go.Assess.Ensures.{Gives, Gives-bind}
use nist_sp_800_90b_go.Assess.NonIid.{
  Entropies, Stage, always, checked, both, report, report_pair, non_iid_body,
  calculate_non_iid_entropy,
}

abbrev pub Gave : {A : Type 0} → Outcome A → Type 0
Gave {A} o = (a : A) × (o ≡ value a)

-- No estimator of the non-IID track throws.
pub record Answers (d : Double) (e : Engine d) : Type 0 where
  pub most_common : (s : List ℕ) (n k : ℕ) → Gave (e.most_common s n k)
  pub collision_test : (s : List ℕ) (n : ℕ) → Gave (e.collision_test s n)
  pub markov_test : (s : List ℕ) (n : ℕ) → Gave (e.markov_test s n)
  pub compression_test : (s : List ℕ) (n : ℕ) → Gave (e.compression_test s n)
  pub sa_algs : (s : List ℕ) (n k : ℕ) (t l : d.F) → Gave (e.sa_algs s n k t l)
  pub multi_mcw_test : (s : List ℕ) (n k : ℕ) → Gave (e.multi_mcw_test s n k)
  pub lag_test : (s : List ℕ) (n k : ℕ) → Gave (e.lag_test s n k)
  pub multi_mmc_test : (s : List ℕ) (n k : ℕ) → Gave (e.multi_mmc_test s n k)
  pub lz78y_test : (s : List ℕ) (n k : ℕ) → Gave (e.lz78y_test s n k)

module _ (d : Double) where
  open d use {F}

  abbrev Some : {A : Type 0} → A → EntropyResult F → Type 0
  Some a r = Unit {0}

  always-Gives :
      (x : Bool) (a : Outcome F) (y : Bool) (b : Outcome F) (h : Entropies F) (r : EntropyResult F)
      → Gave a
      → Gave b
      → Gives Some (always d x a y b h r)
  unfolding always ◌>>=◌ after Gives
  always-Gives true a true b h r (u, p) (v, q) = rw (p, q) tt
  always-Gives true a false b h r (u, p) (v, q) = rw p tt
  always-Gives false a true b h r (u, p) (v, q) = rw q tt
  always-Gives false a false b h r (u, p) (v, q) = tt

  checked-Gives :
      (x : Bool) (a : Outcome F) (y : Bool) (b : Outcome F) (h : Entropies F) (r : EntropyResult F)
      → Gave a
      → Gave b
      → Gives Some (checked d x a y b h r)
  unfolding checked ◌>>=◌ after Gives
  checked-Gives true a true b h r (u, p) (v, q) = rw (p, q) tt
  checked-Gives true a false b h r (u, p) (v, q) = rw p tt
  checked-Gives false a true b h r (u, p) (v, q) = rw q tt
  checked-Gives false a false b h r (u, p) (v, q) = tt

  both-Gives :
      (x : Bool) (a : Outcome (F × F)) (y : Bool) (b : Outcome (F × F)) (h : Entropies F)
      (r : EntropyResult F)
      → Gave a
      → Gave b
      → Gives Some (both d x a y b h r)
  unfolding both ◌>>=◌ after Gives
  both-Gives true a true b h r (u, p) (v, q) = rw (p, q) tt
  both-Gives true a false b h r (u, p) (v, q) = rw p tt
  both-Gives false a true b h r (u, p) (v, q) = rw q tt
  both-Gives false a false b h r (u, p) (v, q) = tt

  report-Gives :
      (r : EntropyResult F) (name : Text) (passed : F → Bool) (m : Try F (Stage d))
      → Gives Some (m r)
      → Gives Some (report d name passed m r)
  unfolding report ◌>>◌ ◌>>=◌ after Gives
  report-Gives r name passed m g = Gives-bind Some Some m _ r g (λ a r' t. tt)

  report_pair-Gives :
      (r : EntropyResult F) (name name' : Text) (passed : F → Bool)
      (m : Try F (Entropies F × F × F))
      → Gives Some (m r)
      → Gives Some (report_pair d name name' passed m r)
  unfolding report_pair ◌>>◌ ◌>>=◌ after Gives
  report_pair-Gives r name name' passed m g = Gives-bind Some Some m _ r g (λ a r' t. tt)

  abbrev Ended : Unit {0} → EntropyResult F → Type 0
  Ended _ r = r.error_code ≡ pos 0

  written :
      (a b c : F) (w : ℕ) (r : EntropyResult F) → Gives Ended (write (set_results d a b c w) r)
  unfolding set_results Gives
  written a b c w r = refl

  non_iid_body-Gives :
      (e : Engine d) (initial : Bool) (dp : Data) (r : EntropyResult F)
      → Answers d e
      → Gives Ended (non_iid_body d e initial dp r)
  unfolding non_iid_body
  non_iid_body-Gives e initial dp r ans =
      bind _ _ _
        (report-Gives r _ _ _
          (always-Gives _ _ _ _ _ _ (ans.most_common _ _ _) (ans.most_common _ _ _)))
        λ h1 r1 v1.
          bind _ _ _
            (report-Gives r1 _ _ _
              (always-Gives _ _ _ _ _ _ (ans.collision_test _ _) (ans.collision_test _ _)))
            λ h2 r2 v2.
              bind _ _ _
                (report-Gives r2 _ _ _
                  (always-Gives _ _ _ _ _ _ (ans.markov_test _ _) (ans.markov_test _ _)))
                λ h3 r3 v3.
                  bind _ _ _
                    (report-Gives r3 _ _ _ (
                      checked-Gives _ _ _ _ _ _ (ans.compression_test _ _)
                        (ans.compression_test _ _)))
                    λ h4 r4 v4.
                      bind _ _ _
                        (report_pair-Gives r4 _ _ _ _
                          (both-Gives _ _ _ _ _ _ (ans.sa_algs _ _ _ _ _) (ans.sa_algs _ _ _ _ _)))
                        λ h5 r5 v5.
                          bind _ _ _
                            (report-Gives r5 _ _ _ (
                              checked-Gives _ _ _ _ _ _ (ans.multi_mcw_test _ _ _)
                                (ans.multi_mcw_test _ _ _)))
                            λ h6 r6 v6.
                              bind _ _ _
                                (report-Gives r6 _ _ _ (
                                  checked-Gives _ _ _ _ _ _ (ans.lag_test _ _ _)
                                    (ans.lag_test _ _ _)))
                                λ h7 r7 v7.
                                  bind _ _ _
                                    (report-Gives r7 _ _ _ (
                                      checked-Gives _ _ _ _ _ _ (ans.multi_mmc_test _ _ _)
                                        (ans.multi_mmc_test _ _ _)))
                                    λ h8 r8 v8.
                                      bind _ _ _
                                        (report-Gives r8 _ _ _ (
                                          checked-Gives _ _ _ _ _ _ (ans.lz78y_test _ _ _)
                                            (ans.lz78y_test _ _ _)))
                                        λ h9 r9 v9. written _ _ _ _ r9
    where
      bind :
          (m : Try F (Entropies F)) (k : Entropies F → Try F (Unit {0})) (s : EntropyResult F)
          → Gives Some (m s)
          → ((h' : Entropies F) (r' : EntropyResult F) → Unit {0} → Gives Ended (k h' r'))
          → Gives Ended ((m >>= k) s)
      bind m k s p next = Gives-bind Some Ended m k s p next

  released :
      (body : Data → Try F (Unit {0})) (r : EntropyResult F) (dp : Data) (k : Heap)
      → leb dp.alph_size 1 ≡ false
      → free_data dp k ≡ some empty
      → Gives Ended (body dp r)
      → (r' : EntropyResult F) × (guarded d body r (ready dp k) ≡ returned (some r') empty)
        × (r'.error_code ≡ pos 0)
  unfolding guarded release_data caught Gives
  released body r dp k large free g =
      (caught d (body dp r), simp (large, free), caught-Ended (body dp r) g)
    where
      caught-Ended :
          (o : Outcome (Unit {0}) × EntropyResult F)
          → Gives Ended o
          → (caught d o).error_code ≡ pos 0
      caught-Ended (value a, r') g = g
      caught-Ended (thrown m, r') g = absurd g
      caught-Ended (thrown_other, r') g = absurd g

  -- If the result is allocated, the data is prepared with at least two symbols and a word size of at
  -- most 8, bits_per_symbol is at most 8, and no estimator throws, then calculate_non_iid_entropy
  -- returns a result with error_code 0 and frees every data buffer.
  pub calculate_non_iid_entropy-returns :
      (al : Allocator) (e : Engine d) (x : ℕ) (xs : List ℕ) (n : ℕ) (initial : Bool) (dp : Data)
      (k : Heap)
      → n ≤ 8
      → word_size_for n (x ∷ xs) ≤ 8
      → prepare_data al (x ∷ xs) n ≡ ready dp k
      → 2 ≤ dp.alph_size
      → Answers d e
      → (r : EntropyResult F) × (calculate_non_iid_entropy d true al e
            (some (x ∷ xs))
            (pos n)
            initial
          ≡ returned (some r) empty)
        × (r.error_code ≡ pos 0)
  unfolding calculate_non_iid_entropy
  calculate_non_iid_entropy-returns al e x xs n initial dp k low narrow p two ans =
      let inside = assess-inside d al (non_iid_body d e initial) x xs n (le→leb n 8 low) in
      let balanced : free_data dp k ≡ some empty =
        subst Balanced p
          (prepare_data-Balanced al (x ∷ xs) n (word_size_for-positive n (x ∷ xs)) narrow) in
      let (r, run, ok) =
        released (non_iid_body d e initial) (create_result d) dp k (ground (arith, two)) balanced
          (non_iid_body-Gives e initial dp (create_result d) ans) in
      (r, inside ∙ ap (guarded d (non_iid_body d e initial) (create_result d)) p ∙ run, ok)
