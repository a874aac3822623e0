-- ===== src/Tools/NonIid/Tuples.antt =====
-- The t-tuple and LRS estimates of internal/nist/cpp/non_iid_main.cpp, which lower the minima in
-- another order than those of internal/nist/wrapper/wrapper.cpp.
use nist_sp_800_90b_go.Base.{
  Bool, true, false, if◌then◌else◌, ◌≡◌, refl, sym, ◌∙◌, ap, Bool-cases, inl, inr,
}
use nist_sp_800_90b_go.Double.{Double}
use nist_sp_800_90b_go.Result.{Text, EntropyResult}
use nist_sp_800_90b_go.Assess.{
  Outcome, value, thrown, thrown_other, after as after_try, ◌>>=◌ as ◌>>~◌, ◌>>◌ as ◌>~◌,
}
use nist_sp_800_90b_go.Assess.NonIid.{
  Entropies, lower_bitstring, lower_original, keep_bitstring, keep_original, both, report_pair,
}
use nist_sp_800_90b_go.Files.Effects.{after, ◌>>=◌, ◌>>◌}
use nist_sp_800_90b_go.Tools.{Tool, call}
use nist_sp_800_90b_go.Tools.Input.{push_case}
use nist_sp_800_90b_go.Tools.NonIid.{
  Case, fresh_case, push_named, tuple_results, hold_tuple, hold_lrs, tuple_cases,
}
use nist_sp_800_90b_go.Tools.NonIid.Wrapper.{Same, Equal}

module _ (d : Double) where
  open d use {F, le, nought, minus_one}

  drop_bitstring : F → Entropies F → Entropies F
  drop_bitstring x h = if le nought x then lower_bitstring d x h else h

  drop_original : F → Entropies F → Entropies F
  drop_original x h = if le nought x then lower_original d x h else h

  drop_swap :
      (x y : F) (h : Entropies F)
      → drop_bitstring x (drop_original y h) ≡ drop_original y (drop_bitstring x h)
  unfolding drop_bitstring drop_original lower_bitstring lower_original
  drop_swap x y h = elim (Bool-cases (le nought x)) [
    | inl p ↦ elim (Bool-cases (le nought y)) [ inl q ↦ rw (p, q) refl | inr q ↦ rw (p, q) refl ]
    | inr p ↦ rw p refl
  ]

  keep_bitstring-drop :
      (x : F) (h : Entropies F) (e : F) → (keep_bitstring d x (h, e)).0 ≡ drop_bitstring x h
  unfolding keep_bitstring drop_bitstring
  keep_bitstring-drop x h e = elim (Bool-cases (le nought x)) [
    | inl p ↦ rw p refl
    | inr p ↦ rw p refl
  ]

  keep_original-drop :
      (x : F) (h : Entropies F) (e : F) → (keep_original d x (h, e)).0 ≡ drop_original x h
  unfolding keep_original drop_original
  keep_original-drop x h e = elim (Bool-cases (le nought x)) [
    | inl p ↦ rw p refl
    | inr p ↦ rw p refl
  ]

  hold_tuple-drop :
      (x y : F) (h : Entropies F) (c : Case d)
      → ((hold_tuple d true x true y (h, c)).0 ≡ drop_original y (drop_bitstring x h))
        × ((hold_tuple d true x false y (h, c)).0 ≡ drop_bitstring x h)
        × ((hold_tuple d false x true y (h, c)).0 ≡ drop_original y h)
  unfolding hold_tuple drop_bitstring drop_original
  hold_tuple-drop x y h c = elim (Bool-cases (le nought x)) [
    | inl p ↦ elim (Bool-cases (le nought y)) [
      | inl q ↦ rw (p, q) (refl, refl, refl)
      | inr q ↦ rw (p, q) (refl, refl, refl)
    ]
    | inr p ↦ elim (Bool-cases (le nought y)) [
      | inl q ↦ rw (p, q) (refl, refl, refl)
      | inr q ↦ rw (p, q) (refl, refl, refl)
    ]
  ]

  hold_lrs-drop :
      (x y : F) (h : Entropies F) (c : Case d)
      → ((hold_lrs d true x true y (h, c)).0 ≡ drop_original y (drop_bitstring x h))
        × ((hold_lrs d true x false y (h, c)).0 ≡ drop_bitstring x h)
        × ((hold_lrs d false x true y (h, c)).0 ≡ drop_original y h)
  unfolding hold_lrs drop_bitstring drop_original
  hold_lrs-drop x y h c = elim (Bool-cases (le nought x)) [
    | inl p ↦ elim (Bool-cases (le nought y)) [
      | inl q ↦ rw (p, q) (refl, refl, refl)
      | inr q ↦ rw (p, q) (refl, refl, refl)
    ]
    | inr p ↦ elim (Bool-cases (le nought y)) [
      | inl q ↦ rw (p, q) (refl, refl, refl)
      | inr q ↦ rw (p, q) (refl, refl, refl)
    ]
  ]

  pub tuple_cases-Same :
      (name name' : Text) (x : Bool) (a : Outcome (F × F)) (y : Bool) (b : Outcome (F × F))
      (passed : F → Bool) (h : Entropies F) (s : Tool (Case d)) (r : EntropyResult F)
      → Same d
          (Equal d)
          (tuple_cases d x a y b h s)
          (report_pair d name name' passed (both d x a y b h) r)
  unfolding tuple_cases tuple_results push_named push_case call both report_pair ◌>>=◌ ◌>>◌ after
      ◌>>~◌ ◌>~◌ after_try Same hold_lrs hold_tuple
  tuple_cases-Same name name' true (thrown m) y b passed h s r = tt
  tuple_cases-Same name name' true thrown_other y b passed h s r = tt
  tuple_cases-Same name name' true (value u) true (thrown m) passed h s r = tt
  tuple_cases-Same name name' true (value u) true thrown_other passed h s r = tt
  tuple_cases-Same name name' false a true (thrown m) passed h s r = tt
  tuple_cases-Same name name' false a true thrown_other passed h s r = tt
  tuple_cases-Same name name' false a false b passed h s r = refl
  tuple_cases-Same name name' true (value (u, v)) false b passed h s r =
      let c = fresh_case d in
      let t = (hold_tuple d true u false minus_one (h, c)).0 in
      (hold_lrs-drop v minus_one t c).1
      ∙ ap (drop_bitstring v)
          ((hold_tuple-drop u minus_one h c).1 ∙ sym (keep_bitstring-drop u h minus_one))
      ∙ sym (keep_bitstring-drop v _ minus_one)
  tuple_cases-Same name name' false a true (value (w, z)) passed h s r =
      let c = fresh_case d in
      let t = (hold_tuple d false minus_one true w (h, c)).0 in
      (hold_lrs-drop minus_one z t c).2
      ∙ ap (drop_original z)
          ((hold_tuple-drop minus_one w h c).2 ∙ sym (keep_original-drop w h minus_one))
      ∙ sym (keep_original-drop z _ minus_one)
  tuple_cases-Same name name' true (value (u, v)) true (value (w, z)) passed h s r =
      let c = fresh_case d in
      let t = (hold_tuple d true u true w (h, c)).0 in
      let (k1, t1) = keep_bitstring d u (h, minus_one) in
      let (k2, l1) = keep_bitstring d v (k1, minus_one) in
      let bits : k2 ≡ drop_bitstring v (drop_bitstring u h) =
        keep_bitstring-drop v k1 minus_one
        ∙ ap (drop_bitstring v) (keep_bitstring-drop u h minus_one) in
      (hold_lrs-drop v z t c).0
      ∙ ap (λ k. drop_original z (drop_bitstring v k)) (hold_tuple-drop u w h c).0
      ∙ ap (drop_original z) (drop_swap v w (drop_bitstring u h))
      ∙ ap (λ k. drop_original z (drop_original w k)) (sym bits)
      ∙ ap (drop_original z) (sym (keep_original-drop w k2 t1))
      ∙ sym (keep_original-drop z _ l1)
