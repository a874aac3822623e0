-- ===== src/Assess/Memory.antt =====
-- The buffers at the end of calculate_iid_entropy and calculate_non_iid_entropy,
-- internal/nist/wrapper/wrapper.cpp, on every path: early returns, errors and exceptions.
use nist_sp_800_90b_go.Base.{
  ℕ, ◌≤◌, ◌≡◌, refl, inl, inr, Bool, true, false, Option, none, some, List, [], ◌∷◌, Bool-cases,
  leb, if◌then◌else◌, ℤ, pos, negsuc,
}
use nist_sp_800_90b_go.Double.{Double}
use nist_sp_800_90b_go.Result.{EntropyResult, create_result}
use nist_sp_800_90b_go.Symbols.{Data, word_size_for}
use nist_sp_800_90b_go.Symbols.Width.{word_size_for-positive}
use nist_sp_800_90b_go.Symbols.Prepare.{
  Heap, empty, Allocator, Prepared, ready, failed, undefined, prepare_data, free_data,
}
use nist_sp_800_90b_go.Symbols.Prepare.Memory.{Balanced, prepare_data-Balanced}
use nist_sp_800_90b_go.Assess.{Try, Run, returned, release_data, guarded, assess, Engine}
use nist_sp_800_90b_go.Assess.Paths.{assess-inside, assess-outside}
use nist_sp_800_90b_go.Assess.Iid.{iid_body, calculate_iid_entropy}
use nist_sp_800_90b_go.Assess.NonIid.{non_iid_body, calculate_non_iid_entropy}

-- The word size that prepare_data works with, and 0 when it is not reached.
unfoldable pub reached_width : Option (List ℕ) → ℤ → ℕ
reached_width none bits = 0
reached_width (some []) bits = 0
reached_width (some (x ∷ xs)) (pos n) = if leb n 8 then word_size_for n (x ∷ xs) else 0
reached_width (some (x ∷ xs)) (negsuc n) = 0

-- The call returns, NULL exactly if the result was not given, and no buffer is left.
abbrev pub IsClean : {F : Type 0} → Bool → Run F → Type 0
IsClean true (returned (some r) h) = h ≡ empty
IsClean false (returned none h) = h ≡ empty
IsClean given run = ⊥

module _ (d : Double) where
  open d use {F}

  release_data-IsClean :
      (o : Option Heap) (r : EntropyResult F) → o ≡ some empty → IsClean true (release_data d o r)
  unfolding release_data
  release_data-IsClean o r e = rw e refl

  guarded-IsClean :
      (body : Data → Try F (Unit {0})) (r : EntropyResult F) (p : Prepared)
      → Balanced p
      → IsClean true (guarded d body r p)
  unfolding guarded
  guarded-IsClean body r (ready dp h) b = release_data-IsClean (free_data dp h) _ b
  guarded-IsClean body r (failed why h) b = b
  guarded-IsClean body r undefined b = absurd b

  assess-IsClean :
      (given : Bool) (al : Allocator) (body : Data → Try F (Unit {0})) (samples : Option (List ℕ))
      (bits : ℤ)
      → reached_width samples bits ≤ 8
      → IsClean given (assess d given al body samples bits)
  unfolding assess reached_width
  assess-IsClean false al body samples bits h = refl
  assess-IsClean true al body none bits h = refl
  assess-IsClean true al body (some []) bits h = refl
  assess-IsClean true al body (some (x ∷ xs)) (negsuc n) h = refl
  assess-IsClean true al body (some (x ∷ xs)) (pos n) h = elim (Bool-cases (leb n 8)) [
    | inl ok ↦
        let narrow : word_size_for n (x ∷ xs) ≤ 8 = sub ok h in
        rw (assess-inside d al body x xs n ok) (
          guarded-IsClean body (create_result d) (prepare_data al (x ∷ xs) n)
            (prepare_data-Balanced al (x ∷ xs) n (word_size_for-positive n (x ∷ xs)) narrow))
    | inr out ↦ rw (assess-outside d al body x xs n out) refl
  ]
    where
      sub :
          leb n 8 ≡ true
          → (if leb n 8 then word_size_for n (x ∷ xs) else 0) ≤ 8
          → word_size_for n (x ∷ xs) ≤ 8
      sub ok = rw ok (λ l. l)

  -- If the word size that prepare_data works with is at most 8, then whichever allocations fail and
  -- whatever the estimators return or throw: calculate_iid_entropy has no undefined behaviour, it
  -- returns NULL exactly if the result cannot be allocated, and every data buffer is freed once.
  pub calculate_iid_entropy-IsClean :
      (given : Bool) (al : Allocator) (e : Engine d) (samples : Option (List ℕ)) (bits : ℤ)
      → reached_width samples bits ≤ 8
      → IsClean given (calculate_iid_entropy d given al e samples bits)
  unfolding calculate_iid_entropy
  calculate_iid_entropy-IsClean given al e samples bits =
      assess-IsClean given al (iid_body d e) samples bits

  -- The same of calculate_non_iid_entropy: no undefined behaviour, NULL exactly if the result cannot
  -- be allocated, and every data buffer freed once, whatever fails or throws, if the word size that
  -- prepare_data works with is at most 8.
  pub calculate_non_iid_entropy-IsClean :
      (given : Bool) (al : Allocator) (e : Engine d) (samples : Option (List ℕ)) (bits : ℤ)
      (initial : Bool)
      → reached_width samples bits ≤ 8
      → IsClean given (calculate_non_iid_entropy d given al e samples bits initial)
  unfolding calculate_non_iid_entropy
  calculate_non_iid_entropy-IsClean given al e samples bits initial =
      assess-IsClean given al (non_iid_body d e initial) samples bits
