-- ===== src/Assess/Input.antt =====
-- The error returns before the data is prepared: internal/nist/wrapper/wrapper.cpp,
-- calculate_iid_entropy and calculate_non_iid_entropy.
use nist_sp_800_90b_go.Base.{
  ℕ, ◌<◌, ◌≡◌, refl, ◌⊎◌, Bool, true, Option, none, some, List, [], ◌∷◌, arith, ℤ, pos, negsuc,
}
use nist_sp_800_90b_go.Double.{Double}
use nist_sp_800_90b_go.Result.{EntropyResult, create_result, set_error}
use nist_sp_800_90b_go.Symbols.{Data}
use nist_sp_800_90b_go.Symbols.Prepare.{empty, Allocator}
use nist_sp_800_90b_go.Assess.{Try, Run, returned, assess, Engine}
use nist_sp_800_90b_go.Assess.Paths.{assess-outside}
use nist_sp_800_90b_go.Assess.Iid.{iid_body, calculate_iid_entropy}
use nist_sp_800_90b_go.Assess.NonIid.{non_iid_body, calculate_non_iid_entropy}

-- NULL, no samples, or bits_per_symbol not from 0 to 8
abbrev pub Invalid : Option (List ℕ) → ℤ → Type 0
Invalid samples bits =
    (samples ≡ none)
    ⊎ (samples ≡ some [])
    ⊎ ((n : ℕ) × (bits ≡ negsuc n))
    ⊎ ((n : ℕ) × (bits ≡ pos n) × (8 < n))

module _ (d : Double) where
  open d use {F}

  -- A result with error_code -1 and no estimators, and no buffer.
  abbrev pub IsRejected : Run F → Type 0
  IsRejected run =
      (r : EntropyResult F) × (run ≡ returned (some r) empty)
      × (r.error_code ≡ negsuc 0)
      × (r.estimators ≡ [])
      × (r.estimator_count ≡ 0)

  assess-Invalid :
      (al : Allocator) (body : Data → Try F (Unit {0})) (samples : Option (List ℕ)) (bits : ℤ)
      → Invalid samples bits
      → IsRejected (assess d true al body samples bits)
  unfolding assess set_error create_result
  assess-Invalid al body none bits v = (_, refl, refl, refl, refl)
  assess-Invalid al body (some []) bits v = (_, refl, refl, refl, refl)
  assess-Invalid al body (some (x ∷ xs)) (negsuc n) v = (_, refl, refl, refl, refl)
  assess-Invalid al body (some (x ∷ xs)) (pos n) v =
      (_, assess-outside d al body x xs n (ground (arith, v)), refl, refl, refl)

  -- When the result is allocated and the data is NULL or empty or bits_per_symbol is not from 0 to 8,
  -- both calculate_iid_entropy and calculate_non_iid_entropy return a result with error_code -1 and no
  -- estimators, and no data buffer is left.
  pub calculate-Invalid :
      (al : Allocator) (e : Engine d) (samples : Option (List ℕ)) (bits : ℤ) (initial : Bool)
      → Invalid samples bits
      → IsRejected (calculate_iid_entropy d true al e samples bits)
        × IsRejected (calculate_non_iid_entropy d true al e samples bits initial)
  unfolding calculate_iid_entropy calculate_non_iid_entropy
  calculate-Invalid al e samples bits initial v = (
    assess-Invalid al (iid_body d e) samples bits v,
    assess-Invalid al (non_iid_body d e initial) samples bits v,
  )
