-- ===== src/Assess/Paths.antt =====
-- The branches of `assess` on bits_per_symbol: internal/nist/wrapper/wrapper.cpp,
-- calculate_iid_entropy and calculate_non_iid_entropy.
use nist_sp_800_90b_go.Base.{ℕ, ◌≡◌, refl, true, false, some, List, ◌∷◌, leb, pos}
use nist_sp_800_90b_go.Double.{Double}
use nist_sp_800_90b_go.Result.{codes, create_result, set_error}
use nist_sp_800_90b_go.Base.{negsuc}
use nist_sp_800_90b_go.Symbols.{Data}
use nist_sp_800_90b_go.Symbols.Prepare.{empty, Allocator, prepare_data}
use nist_sp_800_90b_go.Assess.{Try, returned, guarded, in_range, assess}

module _ (d : Double) (al : Allocator) (body : Data → Try d.F (Unit {0})) (x : ℕ) (xs : List ℕ)
    (n : ℕ) where
  pub assess-inside :
      leb n 8 ≡ true
      → assess d true al body (some (x ∷ xs)) (pos n)
        ≡ guarded d body (create_result d) (prepare_data al (x ∷ xs) n)
  unfolding assess in_range
  assess-inside h = rw (h, assess, in_range) refl

  pub assess-outside :
      leb n 8 ≡ false
      → assess d true al body (some (x ∷ xs)) (pos n)
        ≡ returned
            (some (
              set_error d
                (create_result d)
                (negsuc 0)
                (codes "Invalid bits_per_symbol: must be 0-8")))
            empty
  unfolding assess in_range
  assess-outside h = rw (h, assess, in_range) refl
