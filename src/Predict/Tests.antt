-- ===== src/Predict/Tests.antt =====
-- PostfixDictionary of internal/nist/cpp/shared/utils.h on a few calls.
use nist_sp_800_90b_go.Base.{ℕ, Bool, true, false, List, [], ◌∷◌}
use nist_sp_800_90b_go.Predict.{new_dictionary, predict, increment_all}
use nist_sp_800_90b_go.Predict.Dictionary.{tally, IsMode, predict-IsMode}

abbrev calls : List (ℕ × Bool)
calls = (3, true) ∷ (5, true) ∷ (3, false) ∷ (7, false) ∷ (5, false) ∷ []

predict-IsMode_example :
    IsMode (tally calls (λ y. 0)) (predict (increment_all calls new_dictionary))
predict-IsMode_example = predict-IsMode calls
