-- ===== src/Predict/Windows/Run.antt =====
-- The whole run of multi_mcw_test, internal/nist/cpp/non_iid/multi_mcw_test.h.
use nist_sp_800_90b_go.Base.{
  ℕ, ◌+◌, ◌-◌, ◌≤◌, ◌<◌, ◌≡◌, refl, ◌∙◌, sym, ap, List, [], ◌∷◌, arith, ltb, length, get_or,
  get_or-All, All, some, false,
}
use nist_sp_800_90b_go.Files.Tables.{get_or-replicate}
use nist_sp_800_90b_go.Predict.Windows.{
  fill_windows, no_scores, empty_windows, empty_window, mcw_after, multi_mcw_counts,
}
use nist_sp_800_90b_go.Predict.Windows.Mode.{IsMostCommon, IsWindow-IsMostCommon}
use nist_sp_800_90b_go.Predict.Windows.Fill.{
  IsCurrent, fill_windows-IsCurrent, predict_samples-IsCurrent, All-each,
}
use nist_sp_800_90b_go.Predict.Windows.Hits.{trues, prediction_hits, IsLongest, mcw_after-IsTallied}
use nist_sp_800_90b_go.Predict.Windows.Winner.{
  IsLed, sizes, length-sizes, fill_windows-sizes, predict_samples-IsLed,
}

no_scores-IsLed : (samples : List ℕ) (k : ℕ) → IsLed (no_scores samples k)
unfolding no_scores
no_scores-IsLed samples k = (refl, omega arith, λ j. omega (arith, get_or-replicate 4 j))

get_or-below :
    (samples : List ℕ) (k : ℕ)
    → 0 < length samples
    → All (λ x. x < k) samples
    → (i : ℕ) → get_or samples i 0 < k
get_or-below [] k h a = absurd (omega arith)
get_or-below (x ∷ xs) k h (p, a) = get_or-All k (x ∷ xs) (omega (arith, p)) (p, a)

mcw_after-Both :
    (samples : List ℕ) (k n : ℕ)
    → ((i : ℕ) → get_or samples i 0 < k)
    → let (vs, s) = mcw_after samples k n in
      (sizes vs ≡ 63 ∷ 255 ∷ 1023 ∷ 4095 ∷ [])
      × All (λ w. IsMostCommon samples w.size (63 + n - w.size) w.frequent) vs
      × IsLed s
unfolding mcw_after
mcw_after-Both samples k n low =
    let vs = fill_windows samples k 4095 0 (empty_windows samples k) in
    let same : sizes vs ≡ 63 ∷ 255 ∷ 1023 ∷ 4095 ∷ [] =
      fill_windows-sizes samples k 4095 0 (empty_windows samples k) ∙ start in
    let (e, led) =
      predict_samples-IsLed samples k n 63 (vs, no_scores samples k)
        (sym (length-sizes vs) ∙ ap length same) (no_scores-IsLed samples k) in
    (
      e ∙ same,
      All-each (IsCurrent samples k (63 + n)) _ _
          (λ w h. IsWindow-IsMostCommon samples k (63 + n - w.size) w low h.0 h.1)
          (predict_samples-IsCurrent samples k low n 63 (63 + n) (vs, no_scores samples k)
            (omega arith) (fill_windows-IsCurrent samples k low)),
      led,
    )
  where
    start : sizes (empty_windows samples k) ≡ 63 ∷ 255 ∷ 1023 ∷ 4095 ∷ []
    start = unfold sizes empty_windows empty_window in refl

-- For at least 4096 samples, all below alph_size, after `n` of the predictions: each of the four
-- windows has as its frequent value one that no value exceeds in frequency among the 63, 255, 1023 or
-- 4095 samples before the next one (or among the first as many, while there are fewer before it), and
-- of the values as frequent as it the one that occurred last; the winner has the highest score of the
-- four; C is the number of the predictions, made from the winner's frequent value, that were correct,
-- and max_run_len is the length of the longest run of them. The whole run makes 63 predictions fewer
-- than there are samples, and gives out their number, how many were correct and the longest run.
pub mcw_after-IsMostCommon :
    (samples : List ℕ) (k n : ℕ)
    → 4095 < length samples
    → All (λ x. x < k) samples
    → n + 63 ≤ length samples
    → let (vs, s) = mcw_after samples k n in
      let hit = prediction_hits samples k in
      (sizes vs ≡ 63 ∷ 255 ∷ 1023 ∷ 4095 ∷ [])
      × All (λ w. IsMostCommon samples w.size (63 + n - w.size) w.frequent) vs
      × (s.winner < 4)
      × ((j : ℕ) → get_or s.scoreboard j 0 ≤ get_or s.scoreboard s.winner 0)
      × (s.correct ≡ trues hit n)
      × IsLongest hit n s.max_run_len
      × ((r : ℕ) × (multi_mcw_counts samples k
            ≡ some (trues hit (length samples - 63), length samples - 63, r))
          × IsLongest hit (length samples - 63) r)
unfolding multi_mcw_counts
mcw_after-IsMostCommon samples k n enough low inside =
    let (same, modes, led) =
      mcw_after-Both samples k n (get_or-below samples k (omega arith) low) in
    let part = mcw_after-IsTallied samples k n in
    let whole = mcw_after-IsTallied samples k (length samples - 63) in
    let go : ltb (length samples) 4096 ≡ false = ground arith in
    (
      same,
      modes,
      led.1,
      led.2,
      part.0,
      part.2,
      ((mcw_after samples k (length samples - 63)).1.max_run_len, rw (go, whole.0) refl, whole.2),
    )
