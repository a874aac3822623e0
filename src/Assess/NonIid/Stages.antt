-- ===== src/Assess/NonIid/Stages.antt =====
-- What one estimator of calculate_non_iid_entropy, internal/nist/wrapper/wrapper.cpp, does to the
-- running minima.
use nist_sp_800_90b_go.Base.{◌≡◌, refl, ◌⊎◌, inl, inr, Bool, true, false, Bool-cases}
use nist_sp_800_90b_go.Double.{Double, AtMost, IsOrdered, std_min-AtMost}
use nist_sp_800_90b_go.Result.{EntropyResult}
use nist_sp_800_90b_go.Assess.{Outcome, value, thrown, thrown_other, after, ◌>>=◌}
use nist_sp_800_90b_go.Assess.NonIid.{
  Entropies, Stage, lower_bitstring, lower_original, keep_bitstring, keep_original, always, checked,
  both,
}
use nist_sp_800_90b_go.Assess.Ensures.{Ensures}

module _ (d : Double) (laws : IsOrdered d) where
  open d use {F, le, nought, minus_one, mul, of_int}
  open laws use {le_refl, le_trans, minus_one_negative}

  -- `x` is negative, or at least one of the running minima.
  abbrev pub Covered : Entropies F → F → Type 0
  Covered h x = (le nought x ≡ false) ⊎ AtMost d h.original x ⊎ AtMost d h.bitstring x

  -- The minima of `k` are at most those of `h`.
  abbrev pub Below : Entropies F → Entropies F → Type 0
  Below k h = AtMost d k.original h.original × AtMost d k.bitstring h.bitstring

  abbrev pub IsStage : Entropies F → Stage d → Type 0
  IsStage h s = Below s.0 h × Covered s.0 s.1

  pub Below-refl : (h : Entropies F) → Below h h
  Below-refl h = (le_refl h.original, le_refl h.bitstring)

  Below-trans : (a b c : Entropies F) → Below a b → Below b c → Below a c
  Below-trans a b c (p, q) (s, t) = (le_trans _ _ _ p s, le_trans _ _ _ q t)

  pub Covered-mono : (h k : Entropies F) (x : F) → Below k h → Covered h x → Covered k x
  Covered-mono h k x b (inl n) = inl n
  Covered-mono h k x b (inr (inl o)) = inr (inl (le_trans _ _ _ b.0 o))
  Covered-mono h k x b (inr (inr o)) = inr (inr (le_trans _ _ _ b.1 o))

  lower_bitstring-IsStage : (x : F) (h : Entropies F) → IsStage h (lower_bitstring d x h, x)
  unfolding lower_bitstring
  lower_bitstring-IsStage x h =
      let (a, b) = std_min-AtMost d laws x h.bitstring in ((le_refl h.original, b), inr (inr a))

  lower_original-IsStage : (x : F) (h : Entropies F) → IsStage h (lower_original d x h, x)
  unfolding lower_original
  lower_original-IsStage x h =
      let (a, b) = std_min-AtMost d laws x h.original in ((b, le_refl h.bitstring), inr (inl a))

  keep_bitstring-IsStage :
      (x : F) (h k : Entropies F) (e : F) → IsStage h (k, e) → IsStage h (keep_bitstring d x (k, e))
  unfolding keep_bitstring
  keep_bitstring-IsStage x h k e s = elim (Bool-cases (le nought x)) [
    | inl ok ↦ rw ok (
        let n = lower_bitstring-IsStage x k in
        (Below-trans (lower_bitstring d x k) k h n.0 s.0, n.1))
    | inr neg ↦ rw neg s
  ]

  keep_original-IsStage :
      (x : F) (h k : Entropies F) (e : F) → IsStage h (k, e) → IsStage h (keep_original d x (k, e))
  unfolding keep_original
  keep_original-IsStage x h k e s = elim (Bool-cases (le nought x)) [
    | inl ok ↦ rw ok (
        let n = lower_original-IsStage x k in (Below-trans (lower_original d x k) k h n.0 s.0, n.1))
    | inr neg ↦ rw neg s
  ]

  abbrev pub Kept : EntropyResult F → Entropies F → Stage d → EntropyResult F → Type 0
  Kept r h s r' = (r' ≡ r) × IsStage h s

  nothing : (h : Entropies F) → IsStage h (h, minus_one)
  nothing h = (Below-refl h, inl minus_one_negative)

  pub always-Kept :
      (x : Bool) (a : Outcome F) (y : Bool) (b : Outcome F) (h : Entropies F) (r : EntropyResult F)
      → Ensures (Kept r h) (always d x a y b h r)
  unfolding always ◌>>=◌ after Ensures
  always-Kept true (thrown m) y b h r = tt
  always-Kept true thrown_other y b h r = tt
  always-Kept true (value u) false b h r = (refl, lower_bitstring-IsStage u h)
  always-Kept true (value u) true (thrown m) h r = tt
  always-Kept true (value u) true thrown_other h r = tt
  always-Kept true (value u) true (value v) h r =
      let k = lower_bitstring d u h in
      let n = lower_original-IsStage v k in
      (refl, (Below-trans (lower_original d v k) k h n.0 (lower_bitstring-IsStage u h).0, n.1))
  always-Kept false a false b h r = (refl, nothing h)
  always-Kept false a true (thrown m) h r = tt
  always-Kept false a true thrown_other h r = tt
  always-Kept false a true (value v) h r = (refl, lower_original-IsStage v h)

  pub checked-Kept :
      (x : Bool) (a : Outcome F) (y : Bool) (b : Outcome F) (h : Entropies F) (r : EntropyResult F)
      → Ensures (Kept r h) (checked d x a y b h r)
  unfolding checked ◌>>=◌ after Ensures
  checked-Kept true (thrown m) y b h r = tt
  checked-Kept true thrown_other y b h r = tt
  checked-Kept true (value u) false b h r =
      (refl, keep_bitstring-IsStage u h h minus_one (nothing h))
  checked-Kept true (value u) true (thrown m) h r = tt
  checked-Kept true (value u) true thrown_other h r = tt
  checked-Kept true (value u) true (value v) h r =
      let s = keep_bitstring d u (h, minus_one) in
      (refl, keep_original-IsStage v h s.0 s.1 (keep_bitstring-IsStage u h h minus_one (nothing h)))
  checked-Kept false a false b h r = (refl, nothing h)
  checked-Kept false a true (thrown m) h r = tt
  checked-Kept false a true thrown_other h r = tt
  checked-Kept false a true (value v) h r =
      (refl, keep_original-IsStage v h h minus_one (nothing h))

  abbrev pub IsPair : Entropies F → Entropies F × F × F → Type 0
  IsPair h (k, t, l) = Below k h × Covered k t × Covered k l

  keep_bitstring-IsPair :
      (x y : F) (h : Entropies F) (k : Entropies F) (t l : F)
      → IsPair h (k, t, l)
      → let (h1, t') = keep_bitstring d x (k, t) in
        let (h2, l') = keep_bitstring d y (h1, l) in IsPair h (h2, t', l')
  keep_bitstring-IsPair x y h k t l (b, ct, cl) =
      let (h1, t') = keep_bitstring d x (k, t) in
      let (b1, c1) = keep_bitstring-IsStage x k k t (Below-refl k, ct) in
      let (b2, c2) = keep_bitstring-IsStage y h1 h1 l (Below-refl h1, Covered-mono k h1 l b1 cl) in
      let h2 = (keep_bitstring d y (h1, l)).0 in
      (Below-trans h2 h1 h b2 (Below-trans h1 k h b1 b), Covered-mono h1 h2 t' b2 c1, c2)

  keep_original-IsPair :
      (x y : F) (h : Entropies F) (k : Entropies F) (t l : F)
      → IsPair h (k, t, l)
      → let (h1, t') = keep_original d x (k, t) in
        let (h2, l') = keep_original d y (h1, l) in IsPair h (h2, t', l')
  keep_original-IsPair x y h k t l (b, ct, cl) =
      let (h1, t') = keep_original d x (k, t) in
      let (b1, c1) = keep_original-IsStage x k k t (Below-refl k, ct) in
      let (b2, c2) = keep_original-IsStage y h1 h1 l (Below-refl h1, Covered-mono k h1 l b1 cl) in
      let h2 = (keep_original d y (h1, l)).0 in
      (Below-trans h2 h1 h b2 (Below-trans h1 k h b1 b), Covered-mono h1 h2 t' b2 c1, c2)

  no-IsPair : (h : Entropies F) → IsPair h (h, minus_one, minus_one)
  no-IsPair h = (Below-refl h, inl minus_one_negative, inl minus_one_negative)

  pub both-Kept :
      (x : Bool) (a : Outcome (F × F)) (y : Bool) (b : Outcome (F × F)) (h : Entropies F)
      (r : EntropyResult F)
      → Ensures (λ s r'. (r' ≡ r) × IsPair h s) (both d x a y b h r)
  unfolding both ◌>>=◌ after Ensures
  both-Kept true (thrown m) y b h r = tt
  both-Kept true thrown_other y b h r = tt
  both-Kept true (value (u, v)) false b h r =
      (refl, keep_bitstring-IsPair u v h h minus_one minus_one (no-IsPair h))
  both-Kept true (value u) true (thrown m) h r = tt
  both-Kept true (value u) true thrown_other h r = tt
  both-Kept true (value (u, v)) true (value (w, z)) h r = (
    refl,
    keep_original-IsPair w z h _ _ _
        (keep_bitstring-IsPair u v h h minus_one minus_one (no-IsPair h)),
  )
  both-Kept false a false b h r = (refl, no-IsPair h)
  both-Kept false a true (thrown m) h r = tt
  both-Kept false a true thrown_other h r = tt
  both-Kept false a true (value (w, z)) h r =
      (refl, keep_original-IsPair w z h h minus_one minus_one (no-IsPair h))
