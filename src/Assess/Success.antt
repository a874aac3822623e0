-- ===== src/Assess/Success.antt =====
-- What a call that reports error_code 0 went through: internal/nist/wrapper/wrapper.cpp,
-- calculate_iid_entropy and calculate_non_iid_entropy.
use nist_sp_800_90b_go.Base.{
  ℕ, ◌≤◌, ◌≡◌, refl, sym, ap, ◌∙◌, inl, inr, Bool, true, false, Option, none, some, List, [], ◌∷◌,
  arith, Bool-cases, leb, if◌then◌else◌, ℤ, pos, negsuc,
}
use nist_sp_800_90b_go.Double.{Double}
use nist_sp_800_90b_go.Result.{EntropyResult, create_result, set_error, codes}
use nist_sp_800_90b_go.Symbols.{Data}
use nist_sp_800_90b_go.Symbols.Prepare.{
  Heap, Allocator, Prepared, ready, failed, undefined, prepare_data, free_data,
}
use nist_sp_800_90b_go.Assess.{
  Outcome, value, thrown, thrown_other, Try, Run, returned, broken, caught, release_data, guarded,
  assess,
}
use nist_sp_800_90b_go.Assess.Paths.{assess-inside, assess-outside}

module _ (d : Double) where
  open d use {F}

  -- The data was prepared with at least two symbols, and the try block ran to its end with `r`.
  pub record Success (al : Allocator) (body : Data → Try F (Unit {0})) (samples : Option (List ℕ))
      (bits : ℤ) (r : EntropyResult F) : Type 0 where
    pub given : List ℕ
    pub width : ℕ
    pub prepared : Data
    pub heap : Heap
    pub given_eq : samples ≡ some given
    pub width_eq : bits ≡ pos width
    pub prepared_eq : prepare_data al given width ≡ ready prepared heap
    pub alphabet : 2 ≤ prepared.alph_size
    pub finished : body prepared (create_result d) ≡ (value tt, r)

  abbrev code_of : Run F → ℤ
  code_of (returned (some r) h) = r.error_code
  code_of (returned none h) = negsuc 7
  code_of broken = negsuc 7

  result_or : EntropyResult F → Run F → EntropyResult F
  result_or s (returned (some r) h) = r
  result_or s (returned none h) = s
  result_or s broken = s

  caught-value :
      (o : Outcome (Unit {0}) × EntropyResult F)
      → (caught d o).error_code ≡ pos 0
      → o ≡ (value tt, caught d o)
  unfolding caught set_error
  caught-value (value u, r) e = refl
  caught-value (thrown m, r) e = absurd (ground (arith, e))
  caught-value (thrown_other, r) e = absurd (ground (arith, e))

  release_data-result :
      (o : Option Heap) (s r : EntropyResult F) (h : Heap)
      → release_data d o s ≡ returned (some r) h
      → s ≡ r
  unfolding release_data
  release_data-result none s r h e = absurd (ground (arith, e))
  release_data-result (some k) s r h e = ground (arith, e)

  guarded-Success :
      (body : Data → Try F (Unit {0})) (p : Prepared) (r : EntropyResult F) (h : Heap)
      → guarded d body (create_result d) p ≡ returned (some r) h
      → r.error_code ≡ pos 0
      → (dp : Data) × (k : Heap) × (p ≡ ready dp k)
        × (2 ≤ dp.alph_size)
        × (body dp (create_result d) ≡ (value tt, r))
  unfolding guarded set_error
  guarded-Success body undefined r h e z = absurd (ground (arith, e))
  guarded-Success body (failed why k) r h e z = absurd (ground (arith, e, z))
  guarded-Success body (ready dp k) r h e z = elim (Bool-cases (leb dp.alph_size 1)) [
    | inl small ↦
        absurd (ground (arith, release_data-result (free_data dp k) _ r h (cut small e), z))
    | inr large ↦
        let same : caught d (body dp (create_result d)) ≡ r =
          release_data-result (free_data dp k) _ r h (keep large e) in
        (
          dp,
          k,
          refl,
          ground (arith, large),
          caught-value (body dp (create_result d)) (rw same z) ∙ ap (λ t. (value tt, t)) same,
        )
  ]
    where
      s0 : EntropyResult F
      s0 =
          set_error d (create_result d) (negsuc 0)
            (codes "Symbol alphabet consists of 1 symbol. No entropy awarded.")

      s1 : EntropyResult F
      s1 = caught d (body dp (create_result d))

      cut :
          leb dp.alph_size 1 ≡ true
          → release_data d (free_data dp k) (if leb dp.alph_size 1 then s0 else s1)
            ≡ returned (some r) h
          → release_data d (free_data dp k) s0 ≡ returned (some r) h
      cut t = rw t (λ l. l)

      keep :
          leb dp.alph_size 1 ≡ false
          → release_data d (free_data dp k) (if leb dp.alph_size 1 then s0 else s1)
            ≡ returned (some r) h
          → release_data d (free_data dp k) s1 ≡ returned (some r) h
      keep t = rw t (λ l. l)

  pub assess-Success :
      (given : Bool) (al : Allocator) (body : Data → Try F (Unit {0})) (samples : Option (List ℕ))
      (bits : ℤ) (r : EntropyResult F) (h : Heap)
      → assess d given al body samples bits ≡ returned (some r) h
      → r.error_code ≡ pos 0
      → Success al body samples bits r
  unfolding assess set_error
  assess-Success false al body samples bits r h e z = absurd (ground (arith, e))
  assess-Success true al body none bits r h e z = absurd (ground (arith, e, z))
  assess-Success true al body (some []) bits r h e z = absurd (ground (arith, e, z))
  assess-Success true al body (some (x ∷ xs)) (negsuc n) r h e z = absurd (ground (arith, e, z))
  assess-Success true al body (some (x ∷ xs)) (pos n) r h e z = elim (Bool-cases (leb n 8)) [
    | inl inside ↦
        let (dp, k, p, a, f) =
          guarded-Success body (prepare_data al (x ∷ xs) n) r h
            (sym (assess-inside d al body x xs n inside) ∙ e) z in
        record {
          given = x ∷ xs;
          width = n;
          prepared = dp;
          heap = k;
          given_eq = refl;
          width_eq = refl;
          prepared_eq = p;
          alphabet = a;
          finished = f;
        }
    | inr outside ↦ absurd (ground (arith, sym (assess-outside d al body x xs n outside) ∙ e, z))
  ]
