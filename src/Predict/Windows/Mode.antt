-- ===== src/Predict/Windows/Mode.antt =====
-- The windows of multi_mcw_test (internal/nist/cpp/non_iid/multi_mcw_test.h) through its loops.
use nist_sp_800_90b_go.Base.{
  ℕ, zero, suc, ◌+◌, ◌-◌, ◌≤◌, ◌<◌, ◌≡◌, ◌∙◌, ap, subst, true, List, arith, ◌==◌, get_or, set,
  length-set, ℕ_discrete,
}
use nist_sp_800_90b_go.Predict.Windows.{Window, slide}
use nist_sp_800_90b_go.Predict.Windows.Counted.{
  seen, seen_slide, IsLatest, IsWindow, get_or-set, set-IsLatest,
}
use nist_sp_800_90b_go.Predict.Windows.Slide.{choose-IsTop}

seen_first : (samples : List ℕ) (n a : ℕ) → 0 < n → 0 < seen samples (get_or samples a 0) n a
unfolding seen
seen_first samples zero a h = absurd (omega arith)
seen_first samples (suc n) a h =
    let e : (get_or samples a 0 == get_or samples a 0) ≡ true = ground arith in ground (arith, e)

-- A window of `n` samples from place `a` on slides to the next place.
pub slide-IsWindow :
    (samples : List ℕ) (k a : ℕ) (w : Window)
    → get_or samples a 0 < k
    → get_or samples (a + w.size) 0 < k
    → 0 < w.size
    → IsWindow samples k w.size a w
    → IsWindow samples k w.size
        (a + 1)
        (slide k (get_or samples a 0) (get_or samples (a + w.size) 0) (a + w.size) w)
unfolding slide
slide-IsWindow samples k a w ok xk pos (l, counts, latest, top) =
    let old = get_or samples a 0 in
    let i = a + w.size in
    let x = get_or samples i 0 in
    let less = set w.win_cnts old (get_or w.win_cnts old 0 - 1) in
    let ll = length-set w.win_cnts old (get_or w.win_cnts old 0 - 1) in
    let first : 0 < get_or w.win_cnts old 0 =
      omega (arith, counts old ok, seen_first samples w.size a pos) in
    let fewer =
      λ (v : ℕ). get_or-set w.win_cnts old v (get_or w.win_cnts old 0 - 1) (omega (arith, l, ok)) in
    (
      length-set less x (get_or less x 0 + 1) ∙ ll ∙ l,
      λ v lt. ground (
        arith,
        get_or-set less x v (get_or less x 0 + 1) (omega (arith, l, ll, xk)),
        fewer v,
        fewer x,
        counts v lt,
        counts x xk,
        counts old ok,
        first,
        seen_slide samples v w.size a,
        ap (λ u. get_or w.win_cnts u 0),
      ),
      subst (λ e. IsLatest samples k e (set w.win_poses x i)) {x = i + 1} (omega arith)
          (set-IsLatest samples k i w.win_poses xk latest),
      choose-IsTop w k old x i ok xk l latest.0 latest.1 first
          (omega (arith, (latest.2 a (omega arith)).0)) top,
    )

-- Of the `n` samples from place `a` on, no value is more frequent than `f`, and the last of `f` is not
-- before the last of any value as frequent.
abbrev pub IsMostCommon : (samples : List ℕ) (n a f : ℕ) → Type 0
IsMostCommon samples n a f =
    ((p : ℕ) → p < a + n → seen samples (get_or samples p 0) n a ≤ seen samples f n a)
    × ((q : ℕ) × (a ≤ q)
        × (q < a + n)
        × (get_or samples q 0 ≡ f)
        × ((p : ℕ)
            → p < a + n
            → seen samples (get_or samples p 0) n a ≡ seen samples f n a
            → p ≤ q))

seen_place :
    (samples : List ℕ) (v n a : ℕ)
    → 0 < seen samples v n a
    → (p : ℕ) × (a ≤ p) × (p < a + n) × (get_or samples p 0 ≡ v)
unfolding seen
seen_place samples v zero a h = absurd (omega arith)
seen_place samples v (suc n) a h = elim (ℕ_discrete (get_or samples a 0) v) [
  | yes e ↦ (a, omega arith, omega arith, e)
  | no ne ↦
      let (p, from, to, e) = seen_place samples v n (a + 1) (ground arith) in
      (p, omega arith, omega arith, e)
]

pub IsWindow-IsMostCommon :
    (samples : List ℕ) (k a : ℕ) (w : Window)
    → ((i : ℕ) → get_or samples i 0 < k)
    → 0 < w.size
    → IsWindow samples k w.size a w
    → IsMostCommon samples w.size a w.frequent
IsWindow-IsMostCommon samples k a w low pos (l, counts, latest, (f, c, top)) =
    let most : (v : ℕ) → v < k → seen samples v w.size a ≤ seen samples w.frequent w.size a =
      λ v lt. omega (arith, counts v lt, counts w.frequent f, c, (top v lt).0) in
    let (p, from, to, e) =
      seen_place samples w.frequent w.size a
        (omega (arith, seen_first samples w.size a pos, most (get_or samples a 0) (low a))) in
    let (p_low, p_high, p_same) =
      subst
        (λ v.
          (p ≤ get_or w.win_poses v 0)
          × (get_or w.win_poses v 0 < a + w.size)
          × (get_or samples (get_or w.win_poses v 0) 0 ≡ v))
        e (latest.2 p to) in
    (
      λ r lt. most (get_or samples r 0) (low r),
      (
        get_or w.win_poses w.frequent 0,
        omega arith,
        p_high,
        p_same,
        λ r lt same. omega (
          arith,
          (latest.2 r lt).0,
          (top (get_or samples r 0) (low r)).1
              (omega (arith, counts (get_or samples r 0) (low r), counts w.frequent f, c, same)),
        ),
      ),
    )
