-- ===== src/Predict/Windows/Slide.antt =====
-- How a window of multi_mcw_test (internal/nist/cpp/non_iid/multi_mcw_test.h) is filled and slides.
use nist_sp_800_90b_go.Base.{
  ℕ, ◌+◌, ◌-◌, ◌≤◌, ◌<◌, ◌≡◌, refl, ◌∙◌, sym, ap, subst, List, arith, ◌==◌, true, length, get_or,
  set, length-set, ℕ_discrete,
}
use nist_sp_800_90b_go.Predict.Windows.{Window, Best, count_first, choose, search_best}
use nist_sp_800_90b_go.Predict.Windows.Search.{IsBest, search_best-IsBest}
use nist_sp_800_90b_go.Predict.Windows.Counted.{
  seen, seen_end, IsLatest, IsTop, IsWindow, get_or-set, set-IsLatest,
}

count_first-IsTop :
    (w : Window) (k x i : ℕ)
    → x < k
    → length w.win_cnts ≡ k
    → length w.win_poses ≡ k
    → ((v : ℕ) → v < k → get_or w.win_poses v 0 ≤ i)
    → IsTop k w.win_cnts w.win_poses w.max_cnt w.frequent
    → let u = count_first x i w in IsTop k u.win_cnts u.win_poses u.max_cnt u.frequent
unfolding count_first
count_first-IsTop w k x i xk lc lp bound (f, c, top) =
    let n = get_or w.win_cnts x 0 + 1 in
    let cnts = λ (v : ℕ). get_or-set w.win_cnts x v n (omega (arith, lc, xk)) in
    let poses = λ (v : ℕ). get_or-set w.win_poses x v i (omega (arith, lp, xk)) in
    (
      ground arith,
      ground (arith, cnts x, cnts w.frequent),
      λ v lt. (
        ground (arith, cnts v, (top v lt).0),
        λ e. ground (
          arith,
          cnts v,
          top v lt,
          poses v,
          poses x,
          poses w.frequent,
          bound v lt,
          bound w.frequent f,
        ),
      ),
    )

-- The first `n` samples, and one more.
pub count_first-IsWindow :
    (samples : List ℕ) (k n : ℕ) (w : Window)
    → get_or samples n 0 < k
    → IsWindow samples k n 0 w
    → IsWindow samples k (n + 1) 0 (count_first (get_or samples n 0) n w)
unfolding count_first
count_first-IsWindow samples k n w xk (l, count, latest, top) =
    let x = get_or samples n 0 in
    let m = get_or w.win_cnts x 0 + 1 in
    let same : get_or samples (0 + n) 0 ≡ x = ap (λ j. get_or samples j 0) (omega arith) in
    let here : IsLatest samples k n w.win_poses =
      subst (λ e. IsLatest samples k e w.win_poses) {x = 0 + n} (omega arith) latest in
    (
      length-set w.win_cnts x m ∙ l,
      λ v lt. ground (
        arith,
        get_or-set w.win_cnts x v m (omega (arith, l, xk)),
        count v lt,
        count x xk,
        seen_end samples v n 0,
        same,
        ap (λ u. seen samples u n 0),
      ),
      subst (λ e. IsLatest samples k e (set w.win_poses x n)) {x = n + 1} (omega arith)
          (set-IsLatest samples k n w.win_poses xk here),
      count_first-IsTop w k x n xk l here.0 here.1 top,
    )

IsBest-IsTop :
    (cnts poses : List ℕ) (k : ℕ) (b : Best)
    → IsBest cnts poses k k b
    → IsTop k cnts poses b.max_cnt b.frequent
IsBest-IsTop cnts poses k b (f, c, p, all) = (
  f,
  omega (arith, c, (all b.frequent f).0),
  λ v lt. ((all v lt).0, λ e. omega (arith, (all v lt).1 e, p)),
)

-- The search that follows when the frequent value leaves the window.
abbrev start_search : (i : ℕ) → Window → Best
start_search i w = record { max_cnt = w.max_cnt - 1; frequent = w.frequent; max_pos = i - w.size }

choose-search :
    (k old x i : ℕ) (cnts poses : List ℕ) (w : Window)
    → old ≡ w.frequent
    → choose k old x i cnts poses w ≡ search_best cnts poses k 0 (start_search i w)
unfolding choose
choose-search k old x i cnts poses w q =
    let e : (old == w.frequent) ≡ true = ground (arith, q) in rw e refl

-- The same for `choose`, after `old` has left the counts and `x` has come in at place `i`.
pub choose-IsTop :
    (w : Window) (k old x i : ℕ)
    → old < k
    → x < k
    → length w.win_cnts ≡ k
    → length w.win_poses ≡ k
    → ((v : ℕ) → v < k → get_or w.win_poses v 0 ≤ i)
    → 0 < get_or w.win_cnts old 0
    → i - w.size ≤ get_or w.win_poses old 0
    → IsTop k w.win_cnts w.win_poses w.max_cnt w.frequent
    → let less = set w.win_cnts old (get_or w.win_cnts old 0 - 1) in
      let cnts = set less x (get_or less x 0 + 1) in
      let poses = set w.win_poses x i in
      let b = choose k old x i cnts poses w in IsTop k cnts poses b.max_cnt b.frequent
unfolding choose
choose-IsTop w k old x i ok xk lc lp bound some_old place (f, c, top) =
    let less = set w.win_cnts old (get_or w.win_cnts old 0 - 1) in
    let cnts = set less x (get_or less x 0 + 1) in
    let poses = set w.win_poses x i in
    let fewer = λ (v : ℕ).
      get_or-set w.win_cnts old v (get_or w.win_cnts old 0 - 1) (omega (arith, lc, ok)) in
    let ll = length-set w.win_cnts old (get_or w.win_cnts old 0 - 1) in
    let count = λ (v : ℕ). get_or-set less x v (get_or less x 0 + 1) (omega (arith, lc, ll, xk)) in
    let at = λ (v : ℕ). get_or-set w.win_poses x v i (omega (arith, lp, xk)) in
    elim (ℕ_discrete old w.frequent) [
      | yes q ↦
          subst (λ b. IsTop k cnts poses b.max_cnt b.frequent)
            (sym (choose-search k old x i cnts poses w q))
            (IsBest-IsTop cnts poses k _ (
              search_best-IsBest cnts poses k k 0 (start_search i w) (omega arith) (
                f,
                ground (arith, count w.frequent, fewer w.frequent, fewer x, c),
                ground (
                  arith,
                  at w.frequent,
                  place,
                  bound w.frequent f,
                  ap (λ v. get_or w.win_poses v 0) q,
                ),
                λ v l. absurd (omega arith),
              )))
      | no q ↦ (
        ground arith,
        ground (arith, count x, count w.frequent, fewer w.frequent),
        λ v lt. (
          ground (arith, count v, count x, fewer v, fewer x, top v lt),
          λ e.
              ground
                (arith, count v, count x, fewer v, top v lt, at v, at x, at w.frequent, bound v lt),
        ),
      )
    ]
