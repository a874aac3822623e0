-- ===== src/Result.antt =====
-- internal/nist/wrapper/wrapper.h, EstimatorResult and EntropyResult, and the functions of
-- internal/nist/wrapper/wrapper.cpp that write them: create_result, add_estimator, add_test_result
-- and set_error. A text is the list of its bytes before the closing zero.
pub mod Bounds
use Prim.Native.Char.{code}
use Prim.Native.String.{String}
use nist_sp_800_90b_go.Base.{
  ℕ, zero, ◌+◌, Bool, true, false, List, [], ◌∷◌, ◌++◌, ltb, leb, if◌then◌else◌, take, ℤ, pos,
  negsuc,
}
use nist_sp_800_90b_go.Double.{Double}

abbrev pub Text : Type 0
Text = List ℕ

abbrev pub codes : String → Text
codes String.[] = []
codes (String.◌∷◌ c s) = code c ∷ codes s

abbrev pub max_estimators : ℕ
max_estimators = 16

pub record EstimatorResult (F : Type 0) : Type 0 where
  pub name : Text
  pub entropy_estimate : F
  pub passed : Bool
  pub is_entropy_valid : Bool

-- `estimators` holds the entries below `estimator_count` of the array.
pub record EntropyResult (F : Type 0) : Type 0 where
  pub min_entropy : F
  pub h_original : F
  pub h_bitstring : F
  pub h_assessed : F
  pub data_word_size : ℕ
  pub error_code : ℤ
  pub error_message : Text
  pub estimators : List (EstimatorResult F)
  pub estimator_count : ℕ

module _ (d : Double) where
  open d use {F, le, minus_one, nought}

  unfoldable pub create_result : EntropyResult F
  create_result = record {
    min_entropy = nought;
    h_original = nought;
    h_bitstring = nought;
    h_assessed = nought;
    data_word_size = 0;
    error_code = pos 0;
    error_message = [];
    estimators = [];
    estimator_count = 0;
  }

  -- The array holds `max_estimators` entries; strncpy keeps at most 63 bytes of a name.
  unfoldable pub append_entry : EntropyResult F → EstimatorResult F → EntropyResult F
  append_entry r e = if leb max_estimators r.estimator_count then r else record r {
    estimators = r.estimators ++ (e ∷ []);
    estimator_count = r.estimator_count + 1;
  }

  unfoldable pub add_estimator : EntropyResult F → Text → F → Bool → EntropyResult F
  unfolding append_entry
  add_estimator r name entropy passed = append_entry r (record {
    name = take 63 name;
    entropy_estimate = entropy;
    passed = passed;
    is_entropy_valid = le nought entropy;
  })

  unfoldable pub add_test_result : EntropyResult F → Text → Bool → EntropyResult F
  unfolding append_entry
  add_test_result r name passed = append_entry r (record {
    name = take 63 name;
    entropy_estimate = minus_one;
    passed = passed;
    is_entropy_valid = false;
  })

  unfoldable pub set_error : EntropyResult F → ℤ → Text → EntropyResult F
  set_error r code message = record r { error_code = code; error_message = take 511 message }

  -- The assignments after `// Set results`.
  unfoldable pub set_results : F → F → F → ℕ → EntropyResult F → EntropyResult F
  set_results h_original h_bitstring h_assessed word_size r = record r {
    h_original = h_original;
    h_bitstring = h_bitstring;
    h_assessed = h_assessed;
    min_entropy = h_assessed;
    data_word_size = word_size;
    error_code = pos 0;
  }
