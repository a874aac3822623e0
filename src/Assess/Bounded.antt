-- ===== src/Assess/Bounded.antt =====
-- The fixed-size arrays of the result, internal/nist/wrapper/wrapper.h, after calculate_iid_entropy
-- and calculate_non_iid_entropy of internal/nist/wrapper/wrapper.cpp.
use nist_sp_800_90b_go.Base.{
  ℕ, Bool, true, false, inl, inr, Bool-cases, leb, Option, none, some, List, [], ◌∷◌, if◌then◌else◌,
  ℤ, pos, negsuc, ap, ◌≡◌,
}
use nist_sp_800_90b_go.Double.{Double}
use nist_sp_800_90b_go.Result.{EntropyResult, set_error, codes}
use nist_sp_800_90b_go.Result.Bounds.{IsBounded, create_result-IsBounded, set_error-IsBounded}
use nist_sp_800_90b_go.Symbols.{Data}
use nist_sp_800_90b_go.Symbols.Prepare.{
  Heap, empty, Allocator, Prepared, ready, failed, undefined, prepare_data, free_data,
}
use nist_sp_800_90b_go.Assess.{
  Outcome, value, thrown, thrown_other, Try, after, ◌>>=◌, call, Run, returned, broken, caught,
  release_data, guarded, assess,
}
use nist_sp_800_90b_go.Assess.{write, ◌>>◌}
use nist_sp_800_90b_go.Assess.Memory.{IsClean}
use nist_sp_800_90b_go.Assess.Paths.{assess-inside, assess-outside}

-- Code that keeps every result within its arrays, whether it returns or throws.
abbrev pub IsSafe : {F A : Type 0} → Try F A → Type 0
IsSafe {F} m = (r : EntropyResult F) → IsBounded r → IsBounded (m r).1

pub call-IsSafe : {F A : Type 0} (o : Outcome A) → IsSafe (call {F = F} o)
call-IsSafe o r b = b

pub >>=_IsSafe :
    {F A B : Type 0} (m : Try F A) (k : A → Try F B)
    → IsSafe m
    → ((a : A) → IsSafe (k a))
    → IsSafe (m >>= k)
unfolding ◌>>=◌ after
>>=_IsSafe {F} {A} m k s t r b = go (m r) (s r b)
  where
    go : (p : Outcome A × EntropyResult F) → IsBounded p.1 → IsBounded (after k p).1
    go (value a, r') b = t a r' b
    go (thrown x, r') b = b
    go (thrown_other, r') b = b

pub if_IsSafe :
    {F A : Type 0} (c : Bool) (m k : Try F A) → IsSafe m → IsSafe k → IsSafe (if c then m else k)
if_IsSafe true m k s t = s
if_IsSafe false m k s t = t

pub write-IsSafe :
    {F A : Type 0} (f : EntropyResult F → EntropyResult F) (k : Try F A)
    → ((r : EntropyResult F) → IsBounded r → IsBounded (f r))
    → IsSafe k
    → IsSafe (write f >> k)
unfolding ◌>>=◌ ◌>>◌ after
write-IsSafe f k keeps s r b = s (f r) (keeps r b)

module _ (d : Double) where
  open d use {F}

  -- The result of the call, if it has one, is within its arrays.
  abbrev pub Within : Run F → Type 0
  Within (returned (some r) h) = IsBounded r
  Within (returned none h) = Unit {0}
  Within broken = Unit {0}

  caught-IsBounded :
      (o : Outcome (Unit {0}) × EntropyResult F) → IsBounded o.1 → IsBounded (caught d o)
  unfolding caught
  caught-IsBounded (value u, r) b = b
  caught-IsBounded (thrown m, r) b = set_error-IsBounded d r _ m b
  caught-IsBounded (thrown_other, r) b = set_error-IsBounded d r _ _ b

  release_data-Within :
      (o : Option Heap) (r : EntropyResult F) → IsBounded r → Within (release_data d o r)
  unfolding release_data
  release_data-Within none r b = tt
  release_data-Within (some h) r b = b

  guarded-Within :
      (body : Data → Try F (Unit {0})) (r : EntropyResult F) (p : Prepared)
      → ((dp : Data) → IsSafe (body dp))
      → IsBounded r
      → Within (guarded d body r p)
  unfolding guarded
  guarded-Within body r undefined s b = tt
  guarded-Within body r (failed why h) s b = set_error-IsBounded d r _ _ b
  guarded-Within body r (ready dp h) s b =
      release_data-Within (free_data dp h) _ (chosen (leb dp.alph_size 1))
    where
      chosen :
          (c : Bool)
          → IsBounded (
              if c
              then set_error d r
                  (negsuc 0)
                  (codes "Symbol alphabet consists of 1 symbol. No entropy awarded.")
              else caught d (body dp r))
      chosen true = set_error-IsBounded d r _ _ b
      chosen false = caught-IsBounded (body dp r) (s dp r b)

  pub assess-Within :
      (given : Bool) (al : Allocator) (body : Data → Try F (Unit {0})) (samples : Option (List ℕ))
      (bits : ℤ)
      → ((dp : Data) → IsSafe (body dp))
      → Within (assess d given al body samples bits)
  unfolding assess
  assess-Within false al body samples bits s = tt
  assess-Within true al body none bits s = set_error-IsBounded d _ _ _ (create_result-IsBounded d)
  assess-Within true al body (some []) bits s =
      set_error-IsBounded d _ _ _ (create_result-IsBounded d)
  assess-Within true al body (some (x ∷ xs)) (negsuc n) s =
      set_error-IsBounded d _ _ _ (create_result-IsBounded d)
  assess-Within true al body (some (x ∷ xs)) (pos n) s = elim (Bool-cases (leb n 8)) [
    | inl inside ↦
        rw (assess-inside d al body x xs n inside)
          (guarded-Within body _ (prepare_data al (x ∷ xs) n) s (create_result-IsBounded d))
    | inr outside ↦
        rw (assess-outside d al body x xs n outside)
          (set_error-IsBounded d _ _ _ (create_result-IsBounded d))
  ]

  -- A call that returns a result within its arrays, and no buffer.
  abbrev pub ReturnsWithin : Run F → Type 0
  ReturnsWithin run = (r : EntropyResult F) × (run ≡ returned (some r) empty) × IsBounded r

  pub IsClean-ReturnsWithin : (run : Run F) → IsClean true run → Within run → ReturnsWithin run
  IsClean-ReturnsWithin (returned (some r) h) e b = (r, ap (λ k. returned (some r) k) e, b)
  IsClean-ReturnsWithin (returned none h) e b = absurd e
  IsClean-ReturnsWithin broken e b = absurd e
