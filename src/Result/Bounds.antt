-- ===== src/Result/Bounds.antt =====
-- The arrays of internal/nist/wrapper/wrapper.h: `estimators[MAX_ESTIMATORS]`, `name[64]` and
-- `error_message[512]`.
use nist_sp_800_90b_go.Base.{
  ℕ, ◌≤◌, ◌<◌, ◌≡◌, refl, ◌∙◌, inl, inr, Bool, ◌∷◌, [], arith, leb, length, length-append,
  le-length-take, All, All-append, Bool-cases, ℤ,
}
use nist_sp_800_90b_go.Double.{Double}
use nist_sp_800_90b_go.Result.{
  Text, max_estimators, EstimatorResult, EntropyResult, append_entry, add_estimator,
  add_test_result, set_error, set_results, create_result,
}

-- The count is in the array, the entries below it are the ones written, and every string leaves a
-- byte for its closing zero.
pub record IsBounded {F : Type 0} (r : EntropyResult F) : Type 0 where
  pub count : r.estimator_count ≤ max_estimators
  pub listed : length r.estimators ≡ r.estimator_count
  pub names : All (λ e. length e.name < 64) r.estimators
  pub message : length r.error_message < 512

module _ (d : Double) where
  open d use {F}

  append_entry-IsBounded :
      (r : EntropyResult F) (e : EstimatorResult F)
      → length e.name < 64
      → IsBounded r
      → IsBounded (append_entry d r e)
  unfolding append_entry
  append_entry-IsBounded r e short b = elim (Bool-cases (leb max_estimators r.estimator_count)) [
    | inl full ↦ rw full b
    | inr room ↦ rw room (record {
      count = ground (arith, room);
      listed = length-append r.estimators (e ∷ []) ∙ omega (arith, b.listed);
      names = All-append (λ e. length e.name < 64) r.estimators (e ∷ []) b.names (short, tt);
      message = b.message;
    })
  ]

  pub create_result-IsBounded : IsBounded (create_result d)
  unfolding create_result
  create_result-IsBounded = record {
    count = omega arith;
    listed = refl;
    names = tt;
    message = omega arith;
  }

  pub add_estimator-IsBounded :
      (r : EntropyResult F) (name : Text) (x : F) (passed : Bool)
      → IsBounded r
      → IsBounded (add_estimator d r name x passed)
  unfolding add_estimator
  add_estimator-IsBounded r name x passed b =
      append_entry-IsBounded r _ (omega (arith, le-length-take 63 name)) b

  pub add_test_result-IsBounded :
      (r : EntropyResult F) (name : Text) (passed : Bool)
      → IsBounded r
      → IsBounded (add_test_result d r name passed)
  unfolding add_test_result
  add_test_result-IsBounded r name passed b =
      append_entry-IsBounded r _ (omega (arith, le-length-take 63 name)) b

  pub set_error-IsBounded :
      (r : EntropyResult F) (code : ℤ) (message : Text)
      → IsBounded r
      → IsBounded (set_error d r code message)
  unfolding set_error
  set_error-IsBounded r code message b = record {
    count = b.count;
    listed = b.listed;
    names = b.names;
    message = omega (arith, le-length-take 511 message);
  }

  pub set_results-IsBounded :
      (x y z : F) (w : ℕ) (r : EntropyResult F) → IsBounded r → IsBounded (set_results d x y z w r)
  unfolding set_results
  set_results-IsBounded x y z w r b = record {
    count = b.count;
    listed = b.listed;
    names = b.names;
    message = b.message;
  }
