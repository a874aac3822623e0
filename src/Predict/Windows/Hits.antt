-- ===== src/Predict/Windows/Hits.antt =====
-- The counts of correct predictions and of their runs in multi_mcw_test,
-- internal/nist/cpp/non_iid/multi_mcw_test.h.
use nist_sp_800_90b_go.Base.{
  ℕ, zero, suc, ◌+◌, ◌≤◌, ◌<◌, ◌≡◌, refl, ◌∙◌, sym, ap, subst, Bool, true, false, List, [], ◌∷◌,
  arith, ltb, ◌==◌, if◌then◌else◌, get_or, ℕ_discrete, Bool-cases, ◌⊎◌, inl, inr,
}
use nist_sp_800_90b_go.Predict.Windows.{
  Window, Scores, test_winner, score_window, score_windows, frequent_at, predict_sample,
  predict_samples, mcw_after, no_scores,
}

-- How many of the first `n` are true.
unfoldable pub trues : (hit : ℕ → Bool) → (n : ℕ) → ℕ
trues hit zero = 0
trues hit (suc n) = let rest = trues hit n in if hit n then rest + 1 else rest

trues_next : (hit : ℕ → Bool) (n : ℕ) → trues hit (n + 1) ≡ trues hit n + (if hit n then 1 else 0)
unfolding trues
trues_next hit n =
    let e : trues hit (n + 1) ≡ trues hit (suc n) =
      ap (trues hit) {x = n + 1} {y = suc n} (omega arith) in
    ground (arith, e)

-- All of the `m` places from `a` on are true.
abbrev pub IsRun : (hit : ℕ → Bool) (a m : ℕ) → Type 0
IsRun hit a m = (t : ℕ) → a ≤ t → t < a + m → hit t ≡ true

-- `m` is the length of the longest run before `n`.
abbrev pub IsLongest : (hit : ℕ → Bool) (n m : ℕ) → Type 0
IsLongest hit n m =
    ((a : ℕ) × (a + m ≤ n) × IsRun hit a m) × ((a b : ℕ) → a + b ≤ n → IsRun hit a b → b ≤ m)

-- `m` is the length of the longest run that ends at `n`.
abbrev IsLast : (hit : ℕ → Bool) (n m : ℕ) → Type 0
IsLast hit n m =
    ((a : ℕ) × (a + m ≡ n) × IsRun hit a m) × ((a b : ℕ) → a + b ≡ n → IsRun hit a b → b ≤ m)

abbrev pub IsTallied : (hit : ℕ → Bool) (n correct run longest : ℕ) → Type 0
IsTallied hit n correct run longest =
    (correct ≡ trues hit n) × IsLast hit n run × IsLongest hit n longest

-- A run before `n + 1` that does not end there is one before `n`.
shorter :
    (hit : ℕ → Bool) (n a b : ℕ)
    → a + suc b ≡ n + 1
    → IsRun hit a (suc b)
    → (a + b ≡ n) × IsRun hit a b
shorter hit n a b e r = (omega arith, λ t l h. r t l (omega arith))

longer :
    (hit : ℕ → Bool) (n a m : ℕ) → a + m ≡ n → hit n ≡ true → IsRun hit a m → IsRun hit a (m + 1)
longer hit n a m e h r t l lt = elim (ℕ_discrete t n) [
  | yes q ↦ ap hit q ∙ h
  | no q ↦ r t l (omega arith)
]

IsLast-hit : (hit : ℕ → Bool) (n m : ℕ) → hit n ≡ true → IsLast hit n m → IsLast hit (n + 1) (m + 1)
IsLast-hit hit n m h ((a, e, r), most) = ((a, omega arith, longer hit n a m e h r), later)
  where
    later : (c b : ℕ) → c + b ≡ n + 1 → IsRun hit c b → b ≤ m + 1
    later c zero q s = omega arith
    later c (suc b) q s = let (q', s') = shorter hit n c b q s in omega (arith, most c b q' s')

IsLast-miss : (hit : ℕ → Bool) (n : ℕ) → hit n ≡ false → IsLast hit (n + 1) 0
IsLast-miss hit n h = ((n + 1, omega arith, λ t l lt. absurd (omega arith)), none_longer)
  where
    none_longer : (c b : ℕ) → c + b ≡ n + 1 → IsRun hit c b → b ≤ 0
    none_longer c zero q s = omega arith
    none_longer c (suc b) q s =
        let e : hit n ≡ true = s n (omega arith) (omega arith) in ground (arith, h, e)

-- The longest run before `n + 1` from that before `n` and the one that ends at `n + 1`.
IsLongest-next :
    (hit : ℕ → Bool) (n m u : ℕ)
    → IsLongest hit n m
    → IsLast hit (n + 1) u
    → IsLongest hit (n + 1) (if ltb m u then u else m)
IsLongest-next hit n m u ((a, e, r), most) ((c, q, s), last) = elim (Bool-cases (ltb m u)) [
  | inl above ↦ rw above ((c, omega arith, s), λ a' b l t. ground (arith, above, either a' b l t))
  | inr below ↦ rw below ((a, omega arith, r), λ a' b l t. ground (arith, below, either a' b l t))
]
  where
    either : (a' b : ℕ) → a' + b ≤ n + 1 → IsRun hit a' b → (b ≤ u) ⊎ (b ≤ m)
    either a' b l t = elim (ℕ_discrete (a' + b) (n + 1)) [
      | yes e ↦ inl (last a' b e t)
      | no e ↦ inr (most a' b (omega arith) t)
    ]

test_winner-IsTallied :
    (hit : ℕ → Bool) (n : ℕ) (s : Scores)
    → IsTallied hit n s.correct s.run_len s.max_run_len
    → let u = test_winner (hit n) s in IsTallied hit (n + 1) u.correct u.run_len u.max_run_len
unfolding test_winner
test_winner-IsTallied hit n s (c, last, most) = elim (Bool-cases (hit n)) [
  | inl h ↦ rw h (
    ground (arith, trues_next hit n, h, c),
    IsLast-hit hit n s.run_len h last,
    IsLongest-next hit n s.max_run_len (s.run_len + 1) most (IsLast-hit hit n s.run_len h last),
  )
  | inr h ↦ rw h (
    ground (arith, trues_next hit n, h, c),
    IsLast-miss hit n h,
    subst (IsLongest hit (n + 1)) {x = if ltb s.max_run_len 0 then 0 else s.max_run_len}
        (ground arith) (IsLongest-next hit n s.max_run_len 0 most (IsLast-miss hit n h)),
  )
]

-- The scores leave these counts alone.
score_window-correct :
    (x i j : ℕ) (w : Window) (s : Scores)
    → let u = score_window x i j w s in
      (u.correct ≡ s.correct) × (u.run_len ≡ s.run_len) × (u.max_run_len ≡ s.max_run_len)
unfolding score_window
score_window-correct x i j w s = (ground arith, ground arith, ground arith)

score_windows-IsTallied :
    (hit : ℕ → Bool) (n x i j : ℕ) (vs : List Window) (s : Scores)
    → IsTallied hit n s.correct s.run_len s.max_run_len
    → let u = score_windows x i j vs s in IsTallied hit n u.correct u.run_len u.max_run_len
unfolding score_windows
score_windows-IsTallied hit n x i j [] s h = h
score_windows-IsTallied hit n x i j (w ∷ vs) s h =
    score_windows-IsTallied hit n x i (j + 1) vs _
      (let (c, r, m) = score_window-correct x i j w s in rw (c, r, m) h)

predict_samples_next :
    (samples : List ℕ) (k n i : ℕ) (st : List Window × Scores)
    → predict_samples samples k (suc n) i st
      ≡ predict_sample samples k (i + n) (predict_samples samples k n i st)
unfolding predict_samples
predict_samples_next samples k zero i st = ap (λ m. predict_sample samples k m st) (omega arith)
predict_samples_next samples k (suc n) i st =
    predict_samples_next samples k n (i + 1) (predict_sample samples k i st)
    ∙ ap
        (λ m.
          predict_sample samples k m
            (predict_samples samples k n (i + 1) (predict_sample samples k i st)))
        {x = i + 1 + n} (omega arith)

-- Whether prediction `t` is correct.
unfoldable pub prediction_hits : (samples : List ℕ) (k t : ℕ) → Bool
prediction_hits samples k t =
    let (vs, s) = mcw_after samples k t in frequent_at vs s.winner == get_or samples (63 + t) 0

-- The same for the counts of a state.
abbrev Tallies : (samples : List ℕ) (k n : ℕ) → List Window × Scores → Type 0
Tallies samples k n (vs, s) =
    IsTallied (prediction_hits samples k) n s.correct s.run_len s.max_run_len

predict_sample-IsTallied :
    (samples : List ℕ) (k n : ℕ)
    → Tallies samples k n (mcw_after samples k n)
    → Tallies samples k (suc n) (predict_sample samples k (63 + n) (mcw_after samples k n))
unfolding predict_sample prediction_hits
predict_sample-IsTallied samples k n h =
    let (vs, s) = mcw_after samples k n in
    let x = get_or samples (63 + n) 0 in
    subst (λ m. Tallies samples k m (predict_sample samples k (63 + n) (mcw_after samples k n)))
      {x = n + 1} (omega arith)
      (score_windows-IsTallied (prediction_hits samples k) (n + 1) x (63 + n) 0 vs _
        (test_winner-IsTallied (prediction_hits samples k) n s h))

no_scores-IsTallied : (hit : ℕ → Bool) → IsTallied hit 0 0 0 0
unfolding trues
no_scores-IsTallied hit = (
  refl,
  ((0, omega arith, λ t l h. absurd (omega arith)), λ a b e r. omega arith),
  ((0, omega arith, λ t l h. absurd (omega arith)), λ a b e r. omega arith),
)

-- After every number of predictions.
pub mcw_after-IsTallied : (samples : List ℕ) (k n : ℕ) → Tallies samples k n (mcw_after samples k n)
unfolding mcw_after predict_samples no_scores
mcw_after-IsTallied samples k zero = no_scores-IsTallied (prediction_hits samples k)
mcw_after-IsTallied samples k (suc n) =
    subst (Tallies samples k (suc n)) (sym (predict_samples_next samples k n 63 _))
      (predict_sample-IsTallied samples k n (mcw_after-IsTallied samples k n))
