-- ===== src/Tools/NonIid/Wrapper.antt =====
-- internal/nist/cpp/non_iid_main.cpp beside calculate_non_iid_entropy of
-- internal/nist/wrapper/wrapper.cpp: the estimators on the same prepared data.
use nist_sp_800_90b_go.Base.{Bool, true, false, ◌≡◌, refl, subst, Bool-cases, inl, inr}
use nist_sp_800_90b_go.Double.{Double}
use nist_sp_800_90b_go.Result.{Text, EntropyResult}
use nist_sp_800_90b_go.Assess.{
  Outcome, value, thrown, thrown_other, Try, after as after_try, ◌>>=◌ as ◌>>~◌, ◌>>◌ as ◌>~◌,
}
use nist_sp_800_90b_go.Assess.NonIid.{
  Entropies, keep_bitstring, keep_original, always, checked, report,
}
use nist_sp_800_90b_go.Files.Effects.{Step, next, stop, undefined, after, ◌>>=◌, ◌>>◌}
use nist_sp_800_90b_go.Tools.{Tool, Main, Ending, call}
use nist_sp_800_90b_go.Tools.Input.{push_case}
use nist_sp_800_90b_go.Tools.NonIid.{
  Case, fresh_case, hold_bitstring, hold_original, push_named, always_case, checked_case,
}

module _ (d : Double) where
  open d use {F, le, nought, minus_one}

  -- The program and the wrapper both go on, with `q` of what they have then; or an estimator throws,
  -- which ends the program and which the wrapper catches.
  unfoldable pub Same :
      {A B : Type 0}
      → (A → Tool (Case d) → B → EntropyResult F → Type 0)
      → Step Ending A × Tool (Case d)
      → Outcome B × EntropyResult F
      → Type 0
  Same q (next a, s) (value b, r) = q a s b r
  Same q (next a, s) (thrown m, r) = ⊥
  Same q (next a, s) (thrown_other, r) = ⊥
  Same q (stop e, s) (value b, r) = ⊥
  Same q (stop e, s) (thrown m, r) = Unit
  Same q (stop e, s) (thrown_other, r) = Unit
  Same q (undefined, s) o = ⊥

  abbrev pub Equal : {A : Type 0} → A → Tool (Case d) → A → EntropyResult F → Type 0
  Equal a s b r = a ≡ b

  pub Same-bind :
      {A B C : Type 0} (q : B → Tool (Case d) → C → EntropyResult F → Type 0) (m : Main (Case d) A)
      (k : A → Main (Case d) B) (n : Try F A) (l : A → Try F C) (s : Tool (Case d))
      (r : EntropyResult F)
      → Same Equal (m s) (n r)
      → ((a : A) (s' : Tool (Case d)) (r' : EntropyResult F) → Same q (k a s') (l a r'))
      → Same q ((m >>= k) s) ((n >>~ l) r)
  unfolding ◌>>=◌ after ◌>>~◌ after_try Same
  Same-bind q m k n l s r e h = go (m s) (n r) e
    where
      go :
          (x : Step Ending _ × Tool (Case d)) (y : Outcome _ × EntropyResult F)
          → Same Equal x y
          → Same q (after k x) (after_try l y)
      go (next a, s') (value b, r') e = subst (λ c. Same q (k a s') (l c r')) e (h a s' r')
      go (next a, s') (thrown m, r') e = absurd e
      go (next a, s') (thrown_other, r') e = absurd e
      go (stop x, s') (value b, r') e = absurd e
      go (stop x, s') (thrown m, r') e = tt
      go (stop x, s') (thrown_other, r') e = tt
      go (undefined, s') o e = absurd e

  -- A first step of a part of the program, with the rest `j` after the part.
  pub Same-chain :
      {A B C D : Type 0} (q : D → Tool (Case d) → C → EntropyResult F → Type 0)
      (m : Main (Case d) A) (k : A → Main (Case d) B) (j : B → Main (Case d) D) (n : Try F A)
      (l : A → Try F C) (s : Tool (Case d)) (r : EntropyResult F)
      → Same Equal (m s) (n r)
      → ((a : A) (s' : Tool (Case d)) (r' : EntropyResult F) → Same q ((k a >>= j) s') (l a r'))
      → Same q (((m >>= k) >>= j) s) ((n >>~ l) r)
  unfolding ◌>>=◌ after
  Same-chain q m k j n l s r e h =
      subst (λ x. Same q x ((n >>~ l) r)) (assoc (m s)) (Same-bind q m (λ a. k a >>= j) n l s r e h)
    where
      assoc : (x : Step Ending _ × Tool (Case d)) → after (λ a. k a >>= j) x ≡ after j (after k x)
      assoc (next a, s') = refl
      assoc (stop e, s') = refl
      assoc (undefined, s') = refl

  pub always_case-Same :
      (name name' : Text) (x : Bool) (a : Outcome F) (na : Case d → Case d) (y : Bool)
      (b : Outcome F) (nb : Case d → Case d) (passed : F → Bool) (h : Entropies F)
      (s : Tool (Case d)) (r : EntropyResult F)
      → Same Equal
          (always_case d name x a na y b nb h s)
          (report d name' passed (always d x a y b h) r)
  unfolding always_case push_named push_case call always report ◌>>=◌ ◌>>◌ after ◌>>~◌ ◌>~◌
      after_try Same
  always_case-Same name name' true (thrown m) na y b nb passed h s r = tt
  always_case-Same name name' true thrown_other na y b nb passed h s r = tt
  always_case-Same name name' true (value u) na false b nb passed h s r = refl
  always_case-Same name name' true (value u) na true (thrown m) nb passed h s r = tt
  always_case-Same name name' true (value u) na true thrown_other nb passed h s r = tt
  always_case-Same name name' true (value u) na true (value v) nb passed h s r = refl
  always_case-Same name name' false a na false b nb passed h s r = refl
  always_case-Same name name' false a na true (thrown m) nb passed h s r = tt
  always_case-Same name name' false a na true thrown_other nb passed h s r = tt
  always_case-Same name name' false a na true (value v) nb passed h s r = refl

  -- What the two `if`s of an estimator leave of the minima.
  kept_pair :
      (x y : F) (h : Entropies F) (c : Case d)
      → (hold_original d y (hold_bitstring d x (h, c))).0
        ≡ (keep_original d y (keep_bitstring d x (h, minus_one))).0
  unfolding hold_original hold_bitstring keep_original keep_bitstring
  kept_pair x y h c = elim (Bool-cases (le nought x)) [
    | inl p ↦ elim (Bool-cases (le nought y)) [ inl q ↦ rw (p, q) refl | inr q ↦ rw (p, q) refl ]
    | inr p ↦ elim (Bool-cases (le nought y)) [ inl q ↦ rw (p, q) refl | inr q ↦ rw (p, q) refl ]
  ]

  kept_bitstring :
      (x : F) (h : Entropies F) (c : Case d)
      → (hold_bitstring d x (h, c)).0 ≡ (keep_bitstring d x (h, minus_one)).0
  unfolding hold_bitstring keep_bitstring
  kept_bitstring x h c = elim (Bool-cases (le nought x)) [ inl p ↦ rw p refl | inr p ↦ rw p refl ]

  kept_original :
      (x : F) (h : Entropies F) (c : Case d)
      → (hold_original d x (h, c)).0 ≡ (keep_original d x (h, minus_one)).0
  unfolding hold_original keep_original
  kept_original x h c = elim (Bool-cases (le nought x)) [ inl p ↦ rw p refl | inr p ↦ rw p refl ]

  pub checked_case-Same :
      (name name' : Text) (x : Bool) (a : Outcome F) (y : Bool) (b : Outcome F) (passed : F → Bool)
      (h : Entropies F) (s : Tool (Case d)) (r : EntropyResult F)
      → Same Equal (checked_case d name x a y b h s) (report d name' passed (checked d x a y b h) r)
  unfolding checked_case push_named push_case call checked report ◌>>=◌ ◌>>◌ after ◌>>~◌ ◌>~◌
      after_try Same
  checked_case-Same name name' true (thrown m) y b passed h s r = tt
  checked_case-Same name name' true thrown_other y b passed h s r = tt
  checked_case-Same name name' true (value u) false b passed h s r =
      kept_bitstring u h (fresh_case d)
  checked_case-Same name name' true (value u) true (thrown m) passed h s r = tt
  checked_case-Same name name' true (value u) true thrown_other passed h s r = tt
  checked_case-Same name name' true (value u) true (value v) passed h s r =
      kept_pair u v h (fresh_case d)
  checked_case-Same name name' false a false b passed h s r = refl
  checked_case-Same name name' false a true (thrown m) passed h s r = tt
  checked_case-Same name name' false a true thrown_other passed h s r = tt
  checked_case-Same name name' false a true (value v) passed h s r =
      kept_original v h (fresh_case d)
