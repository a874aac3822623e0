-- ===== src/Assess.antt =====
-- internal/nist/wrapper/wrapper.cpp: what calculate_iid_entropy and calculate_non_iid_entropy have in
-- common. They check their input, prepare the data, and run their estimators within a try block,
-- with a guard that frees the prepared data on every way out.
pub mod Iid
pub mod NonIid
pub mod Paths
pub mod Ensures
pub mod Success
pub mod Memory
pub mod Input
pub mod Bounded
pub mod Tests
use nist_sp_800_90b_go.Base.{
  ℕ, ◌≤◌, Bool, true, false, Option, none, some, List, [], ◌∷◌, leb, if◌then◌else◌, ℤ, pos, negsuc,
}
use nist_sp_800_90b_go.Double.{Double}
use nist_sp_800_90b_go.Result.{
  Text, codes, EntropyResult, create_result, add_estimator, add_test_result, set_error,
}
use nist_sp_800_90b_go.Symbols.{Data}
use nist_sp_800_90b_go.Symbols.Prepare.{
  Heap, empty, Allocator, Shortage, for_symbols, for_bitstring, Prepared, ready, failed, undefined,
  prepare_data, free_data,
}

-- A call returns, throws a std::exception with its text, or throws something else.
pub data Outcome (A : Type 0) : Type 0 where
  value : A → Outcome A
  thrown : Text → Outcome A
  thrown_other : Outcome A

-- Code of a try block writes the result as it goes.
abbrev pub Try : Type 0 → Type 0 → Type 0
Try F A = EntropyResult F → Outcome A × EntropyResult F

unfoldable pub after :
    {F A B : Type 0} → (A → Try F B) → Outcome A × EntropyResult F → Outcome B × EntropyResult F
after k (value a, r) = k a r
after k (thrown m, r) = (thrown m, r)
after k (thrown_other, r) = (thrown_other, r)

infixl 5 ◌>>=◌ ◌>>◌
unfoldable pub ◌>>=◌ : {F A B : Type 0} → Try F A → (A → Try F B) → Try F B
unfolding after
◌>>=◌ m k r = after k (m r)

unfoldable pub ◌>>◌ : {F B : Type 0} → Try F (Unit {0}) → Try F B → Try F B
unfolding ◌>>=◌
m >> k = m >>= λ _. k

abbrev pub call : {F A : Type 0} → Outcome A → Try F A
call o r = (o, r)

abbrev pub return : {F A : Type 0} → A → Try F A
return a r = (value a, r)

abbrev pub write : {F : Type 0} → (EntropyResult F → EntropyResult F) → Try F (Unit {0})
write f r = (value tt, f r)

-- The result that a call hands to its caller (none is NULL) with the data buffers that are still
-- allocated, or undefined behaviour.
pub data Run (F : Type 0) : Type 0 where
  returned : Option (EntropyResult F) → Heap → Run F
  broken : Run F

module _ (d : Double) where
  open d use {F}

  -- The catch clauses.
  pub caught : Outcome (Unit {0}) × EntropyResult F → EntropyResult F
  caught (value _, r) = r
  caught (thrown what, r) = set_error d r (negsuc 1) what
  caught (thrown_other, r) = set_error d r (negsuc 1) (codes "Unknown exception occurred")

  pub release_data : Option Heap → EntropyResult F → Run F
  release_data none r = broken
  release_data (some h) r = returned (some r) h

  pub shortage_text : Shortage → Text
  shortage_text for_symbols = codes "Failed to allocate memory for symbols"
  shortage_text for_bitstring = codes "Failed to allocate memory for bitstring"

  -- From the prepared data on: the alphabet check, the estimators in `body`, the guard's free_data.
  pub guarded : (Data → Try F (Unit {0})) → EntropyResult F → Prepared → Run F
  unfolding caught release_data shortage_text
  guarded body r undefined = broken
  guarded body r (failed why h) = returned (some (set_error d r (negsuc 0) (shortage_text why))) h
  guarded body r (ready dp h) =
      let checked =
        if leb dp.alph_size 1
        then set_error d r (negsuc 0)
            (codes "Symbol alphabet consists of 1 symbol. No entropy awarded.")
        else caught (body dp r) in
      release_data (free_data dp h) checked

  pub in_range : ℤ → Option ℕ
  in_range (pos n) = if leb n 8 then some n else none
  in_range (negsuc n) = none

  -- `result_given` says whether malloc of the result succeeds; `data` is none for NULL.
  pub assess :
      (result_given : Bool)
      → Allocator
      → (Data → Try F (Unit {0}))
      → (samples : Option (List ℕ)) → (bits_per_symbol : ℤ) → Run F
  unfolding guarded in_range
  assess false al body samples bits = returned none empty
  assess true al body none bits =
      returned
        (some
          (set_error d (create_result d) (negsuc 0) (codes "Invalid input: data is NULL or empty")))
        empty
  assess true al body (some []) bits =
      returned
        (some
          (set_error d (create_result d) (negsuc 0) (codes "Invalid input: data is NULL or empty")))
        empty
  assess true al body (some (x ∷ xs)) bits = elim (in_range bits) [
    | none ↦
        returned
          (some (
            set_error d (create_result d) (negsuc 0)
              (codes "Invalid bits_per_symbol: must be 0-8")))
          empty
    | some n ↦ guarded body (create_result d) (prepare_data al (x ∷ xs) n)
  ]

-- The estimators and tests of internal/nist/cpp that the wrapper calls, each with the arguments that
-- its result depends on.
pub record Engine (d : Double) : Type 0 where
  pub most_common : List ℕ → ℕ → ℕ → Outcome d.F
  pub chi_square_tests : List ℕ → ℕ → ℕ → Outcome Bool
  pub len_lrs_test : List ℕ → ℕ → ℕ → Outcome Bool
  pub calc_stats : Data → Outcome (d.F × d.F)
  pub permutation_tests : Data → d.F → d.F → Outcome Bool
  pub collision_test : List ℕ → ℕ → Outcome d.F
  pub markov_test : List ℕ → ℕ → Outcome d.F
  pub compression_test : List ℕ → ℕ → Outcome d.F
  pub sa_algs : List ℕ → ℕ → ℕ → d.F → d.F → Outcome (d.F × d.F)
  pub multi_mcw_test : List ℕ → ℕ → ℕ → Outcome d.F
  pub lag_test : List ℕ → ℕ → ℕ → Outcome d.F
  pub multi_mmc_test : List ℕ → ℕ → ℕ → Outcome d.F
  pub lz78y_test : List ℕ → ℕ → ℕ → Outcome d.F
