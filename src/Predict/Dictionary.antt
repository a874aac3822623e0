-- ===== src/Predict/Dictionary.antt =====
-- PostfixDictionary of internal/nist/cpp/shared/utils.h against a plain count of the symbols.
use nist_sp_800_90b_go.Base.{
  ℕ, suc, ◌≤◌, ◌<◌, ◌≡◌, refl, sym, ap, ◌∙◌, ◌⊎◌, inl, inr, Bool, true, false, ◌&&◌, ◌||◌, Option,
  none, some, List, [], ◌∷◌, arith, ltb, ◌==◌, if◌then◌else◌, Bool-cases, Option-cases, ℕ_discrete,
  ==_iff, ◌≢◌, subst,
}
use nist_sp_800_90b_go.Predict.{
  PostfixDictionary, new_dictionary, predict, note_count, increment_postfix, increment_all,
}

-- The specification: a count for each symbol, which a call raises by one if the symbol has been
-- counted before or may be entered.
abbrev pub raised : (x : ℕ) → (make_new : Bool) → (ℕ → ℕ) → ℕ → ℕ
raised x make_new f y = if y == x && (make_new || ltb 0 (f x)) then suc (f y) else f y

unfoldable pub tally : List (ℕ × Bool) → (ℕ → ℕ) → ℕ → ℕ
tally [] f = f
tally ((x, make_new) ∷ calls) f = tally calls (raised x make_new f)

-- A prediction for the counts `f`: the largest of the symbols that are counted most often, with its
-- count; and none if nothing is counted.
abbrev pub IsMode : (ℕ → ℕ) → Option (ℕ × ℕ) → Type 0
IsMode f none = (y : ℕ) → f y ≡ 0
IsMode f (some (x, c)) = (1 ≤ c) × (f x ≡ c) × ((y : ℕ) → f y ≤ c) × ((y : ℕ) → f y ≡ c → y ≤ x)

abbrev entry : Option ℕ → ℕ
entry none = 0
entry (some c) = c

-- The dictionary `d` stands for the counts `f`.
record Stands (f : ℕ → ℕ) (d : PostfixDictionary) : Type 0 where
  counted : (y : ℕ) → entry (d.postfixes y) ≡ f y
  entered : (y c : ℕ) → d.postfixes y ≡ some c → 1 ≤ c
  peak : (y : ℕ) → f y ≤ d.cur_best
  attained : 1 ≤ d.cur_best → f d.cur_prediction ≡ d.cur_best
  latest : (y : ℕ) → f y ≡ d.cur_best → 1 ≤ d.cur_best → y ≤ d.cur_prediction

predict-Stands : (f : ℕ → ℕ) (d : PostfixDictionary) → Stands f d → IsMode f (predict d)
unfolding predict
predict-Stands f d s = elim (Bool-cases (ltb 0 d.cur_best)) [
  | inl some_best ↦
      let p : 1 ≤ d.cur_best = ground (arith, some_best) in
      rw some_best (p, s.attained p, s.peak, λ y e. s.latest y e p)
  | inr no_best ↦ rw no_best (λ y. ground (arith, s.peak y, no_best))
]

-- One symbol's count goes up by one.
module _ (f g : ℕ → ℕ) (d : PostfixDictionary) (x : ℕ) (s : Stands f d) (up : g x ≡ suc (f x))
    (same : (y : ℕ) → y ≢ x → g y ≡ f y) where
  abbrev at_x : ℕ → Option ℕ
  at_x y = if y == x then some (suc (f x)) else d.postfixes y

  at_x-counted : (y : ℕ) → entry (at_x y) ≡ g y
  at_x-counted y = elim (Bool-cases (y == x)) [
    | inl here ↦ rw here (sym up ∙ ap g (sym ((==_iff y x).0 here)))
    | inr there ↦ rw there (s.counted y ∙ sym (same y (λ e. absurd (ground (arith, there, e)))))
  ]

  at_x-entered : (y c : ℕ) → at_x y ≡ some c → 1 ≤ c
  at_x-entered y c = elim (Bool-cases (y == x)) [
    | inl here ↦ rw here (λ e. ground (arith, e))
    | inr there ↦ rw there (λ e. s.entered y c e)
  ]

  at_most : (y : ℕ) → (g y ≤ d.cur_best) ⊎ (y ≡ x)
  at_most y = elim (ℕ_discrete y x) [
    | yes e ↦ inr e
    | no n ↦ inl (omega (arith, same y n, s.peak y))
  ]

  best-Stands :
      (d.cur_best < suc (f x)) ⊎ ((suc (f x) ≡ d.cur_best) × (d.cur_prediction < x))
      → Stands g (record { postfixes = at_x; cur_best = suc (f x); cur_prediction = x })
  best-Stands new = record {
    counted = at_x-counted;
    entered = at_x-entered;
    peak = λ y. elim (ℕ_discrete y x) [
      | yes e ↦ rw e (omega (arith, up))
      | no n ↦ ground (arith, same y n, s.peak y, new)
    ];
    attained = λ p. up;
    latest = λ y e p. elim (ℕ_discrete y x) [
      | yes here ↦ omega (arith, here)
      | no n ↦ ground (arith, same y n, s.peak y, new, e, s.latest y)
    ];
  }

  kept-Stands :
      suc (f x) ≤ d.cur_best
      → (suc (f x) ≡ d.cur_best → x ≤ d.cur_prediction)
      → Stands g (record d { postfixes = at_x })
  kept-Stands low old = record {
    counted = at_x-counted;
    entered = at_x-entered;
    peak = λ y. elim (ℕ_discrete y x) [
      | yes e ↦ rw e (omega (arith, up))
      | no n ↦ omega (arith, same y n, s.peak y)
    ];
    attained = λ p. elim (ℕ_discrete d.cur_prediction x) [
      | yes e ↦ absurd (omega (arith, s.attained p, ap f e))
      | no n ↦ same d.cur_prediction n ∙ s.attained p
    ];
    latest = λ y e p. elim (ℕ_discrete y x) [
      | yes here ↦ ground (arith, old, up, ap g here)
      | no n ↦ s.latest y (sym (same y n) ∙ e) p
    ];
  }

  note_count-Stands : Stands g (note_count x (suc (f x)) d)
  unfolding note_count
  note_count-Stands =
      elim (Bool-cases
        (ltb d.cur_best (suc (f x)) || (suc (f x) == d.cur_best && ltb d.cur_prediction x))) [
          | inl new ↦ rw new (best-Stands (ground (arith, new)))
          | inr old ↦ rw old (kept-Stands (ground (arith, old)) (ground (arith, old)))
        ]

raised-here :
    (x : ℕ) (m : Bool) (f : ℕ → ℕ) → (m || ltb 0 (f x)) ≡ true → raised x m f x ≡ suc (f x)
raised-here x m f h = ground (arith, h)

raised-there : (x : ℕ) (m : Bool) (f : ℕ → ℕ) (y : ℕ) → y ≢ x → raised x m f y ≡ f y
raised-there x m f y n = ground (arith, n)

raised-off :
    (x : ℕ) (m : Bool) (f : ℕ → ℕ) (y : ℕ) → (m || ltb 0 (f x)) ≡ false → raised x m f y ≡ f y
raised-off x m f y h = rw h (ground arith)

Stands-same :
    (f g : ℕ → ℕ) (d : PostfixDictionary) → ((y : ℕ) → g y ≡ f y) → Stands f d → Stands g d
Stands-same f g d same s = record {
  counted = λ y. s.counted y ∙ sym (same y);
  entered = s.entered;
  peak = λ y. omega (arith, same y, s.peak y);
  attained = λ p. same d.cur_prediction ∙ s.attained p;
  latest = λ y e p. s.latest y (sym (same y) ∙ e) p;
}

increment_postfix_old :
    (x c : ℕ) (m : Bool) (d : PostfixDictionary)
    → d.postfixes x ≡ some c
    → (increment_postfix x m d).1 ≡ note_count x (suc c) d
unfolding increment_postfix
increment_postfix_old x c m d e = rw (e, increment_postfix) refl

increment_postfix_new :
    (x : ℕ) (m : Bool) (d : PostfixDictionary)
    → d.postfixes x ≡ none
    → (increment_postfix x m d).1 ≡ (if m then note_count x 1 d else d)
unfolding increment_postfix
increment_postfix_new x true d e = rw (e, increment_postfix) refl
increment_postfix_new x false d e = rw (e, increment_postfix) refl

increment_postfix-Stands :
    (f : ℕ → ℕ) (d : PostfixDictionary) (x : ℕ) (m : Bool)
    → Stands f d
    → Stands (raised x m f) (increment_postfix x m d).1
increment_postfix-Stands f d x m s = elim (Option-cases (d.postfixes x)) [
  | inl new ↦ rw (increment_postfix_new x m d new) (entering m (sym (s.counted x) ∙ ap entry new))
  | inr (c, old) ↦
      let count_x : f x ≡ c = sym (s.counted x) ∙ ap entry old in
      rw (increment_postfix_old x c m d old, ← count_x)
        (note_count-Stands f (raised x m f) d x s
          (raised-here x m f (ground (arith, s.entered x c old, count_x))) (raised-there x m f))
]
  where
    entering : (m : Bool) → f x ≡ 0 → Stands (raised x m f) (if m then note_count x 1 d else d)
    entering true z =
        subst (λ k. Stands (raised x true f) (note_count x (suc k) d)) z
          (note_count-Stands f (raised x true f) d x s (raised-here x true f refl)
            (raised-there x true f))
    entering false z =
        Stands-same f (raised x false f) d (λ y. raised-off x false f y (ground (arith, z))) s

new_dictionary-Stands : Stands (λ y. 0) new_dictionary
unfolding new_dictionary
new_dictionary-Stands = record {
  counted = λ y. refl;
  entered = λ y c e. absurd (ground (arith, e));
  peak = λ y. omega arith;
  attained = λ p. absurd (omega arith);
  latest = λ y e p. absurd (omega arith);
}

increment_all-Stands :
    (calls : List (ℕ × Bool)) (f : ℕ → ℕ) (d : PostfixDictionary)
    → Stands f d
    → Stands (tally calls f) (increment_all calls d)
unfolding tally increment_all
increment_all-Stands [] f d s = s
increment_all-Stands ((x, m) ∷ calls) f d s =
    increment_all-Stands calls (raised x m f) _ (increment_postfix-Stands f d x m s)

-- After any calls of incrementPostfix on an empty dictionary, predict gives the largest of the symbols
-- that the calls counted most often, with its count, and fails its assertion exactly if nothing was
-- counted.
pub predict-IsMode :
    (calls : List (ℕ × Bool))
    → IsMode (tally calls (λ y. 0)) (predict (increment_all calls new_dictionary))
predict-IsMode calls =
    predict-Stands (tally calls (λ y. 0)) _
      (increment_all-Stands calls (λ y. 0) new_dictionary new_dictionary-Stands)
