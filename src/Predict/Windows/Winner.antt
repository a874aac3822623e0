-- ===== src/Predict/Windows/Winner.antt =====
-- The scoreboard and the winner of multi_mcw_test (internal/nist/cpp/non_iid/multi_mcw_test.h), and
-- its whole run.
use nist_sp_800_90b_go.Base.{
  ℕ, zero, suc, ◌+◌, ◌≤◌, ◌<◌, ◌≡◌, refl, ◌∙◌, sym, ap, ap₂, inl, inr, Bool, true, false, ◌&&◌,
  List, [], ◌∷◌, arith, leb, ◌==◌, length, get_or, length-set, map, Bool-cases,
}
use nist_sp_800_90b_go.Predict.Windows.{
  Window, Scores, test_winner, score_window, score_windows, frequent_at, fill_window, fill_windows,
  slide_window, predict_sample, predict_samples, count_first, slide,
}
use nist_sp_800_90b_go.Predict.Windows.Counted.{get_or-set}

-- The winner leads the scoreboard.
abbrev pub IsLed : Scores → Type 0
IsLed s =
    (length s.scoreboard ≡ 4)
    × (s.winner < 4)
    × ((j : ℕ) → get_or s.scoreboard j 0 ≤ get_or s.scoreboard s.winner 0)

score_window-IsLed :
    (x i j : ℕ) (w : Window) (s : Scores) → j < 4 → IsLed s → IsLed (score_window x i j w s)
unfolding score_window
score_window-IsLed x i j w s lt (l, win, led) =
    let more = get_or s.scoreboard j 0 + 1 in
    let at = λ (v : ℕ). get_or-set s.scoreboard j v more (omega (arith, l, lt)) in
    elim (Bool-cases (leb w.size i && w.frequent == x)) [
      | inl hit ↦ rw hit (
        length-set s.scoreboard j more ∙ l,
        ground arith,
        λ v. ground (arith, at v, at s.winner, at j, led v, led j),
      )
      | inr miss ↦ rw miss (l, win, led)
    ]

score_windows-IsLed :
    (x i j : ℕ) (vs : List Window) (s : Scores)
    → j + length vs ≤ 4
    → IsLed s
    → IsLed (score_windows x i j vs s)
unfolding score_windows
score_windows-IsLed x i j [] s h led = led
score_windows-IsLed x i j (w ∷ vs) s h led =
    score_windows-IsLed x i (j + 1) vs _ (omega arith)
      (score_window-IsLed x i j w s (omega arith) led)

test_winner-IsLed : (hit : Bool) (s : Scores) → IsLed s → IsLed (test_winner hit s)
unfolding test_winner
test_winner-IsLed false s led = led
test_winner-IsLed true s led = led

unfoldable pub sizes : List Window → List ℕ
sizes vs = map (λ (w : Window). w.size) vs

sizes-map :
    (f : Window → Window) (vs : List Window)
    → ((w : Window) → (f w).size ≡ w.size)
    → sizes (map f vs) ≡ sizes vs
unfolding sizes
sizes-map f [] h = refl
sizes-map f (w ∷ vs) h = ap₂ (λ n ns. n ∷ ns) (h w) (sizes-map f vs h)

pub length-sizes : (vs : List Window) → length (sizes vs) ≡ length vs
unfolding sizes
length-sizes [] = refl
length-sizes (w ∷ vs) = ap suc (length-sizes vs)

size-fill_window :
    (samples : List ℕ) (k i : ℕ) (w : Window) → (fill_window samples k i w).size ≡ w.size
unfolding fill_window count_first
size-fill_window samples k i w = ground arith

size-slide_window :
    (samples : List ℕ) (k i : ℕ) (w : Window) → (slide_window samples k i w).size ≡ w.size
unfolding slide_window slide
size-slide_window samples k i w = ground arith

pub fill_windows-sizes :
    (samples : List ℕ) (k n i : ℕ) (vs : List Window)
    → sizes (fill_windows samples k n i vs) ≡ sizes vs
unfolding fill_windows
fill_windows-sizes samples k zero i vs = refl
fill_windows-sizes samples k (suc n) i vs =
    fill_windows-sizes samples k n (i + 1) _ ∙ sizes-map _ vs (size-fill_window samples k i)

pub predict_samples-IsLed :
    (samples : List ℕ) (k n i : ℕ) (st : List Window × Scores)
    → length st.0 ≡ 4
    → IsLed st.1
    → let out = predict_samples samples k n i st in (sizes out.0 ≡ sizes st.0) × IsLed out.1
unfolding predict_samples predict_sample
predict_samples-IsLed samples k zero i (vs, s) l led = (refl, led)
predict_samples-IsLed samples k (suc n) i (vs, s) l led =
    let x = get_or samples i 0 in
    let same = sizes-map (slide_window samples k i) vs (size-slide_window samples k i) in
    let (e, out) =
      predict_samples-IsLed samples k n (i + 1) _
        (sym (length-sizes _) ∙ ap length same ∙ length-sizes vs ∙ l)
        (score_windows-IsLed x i 0 vs _ (omega (arith, l))
          (test_winner-IsLed (frequent_at vs s.winner == x) s led)) in
    (e ∙ same, out)
