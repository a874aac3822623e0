-- ===== src/Predict/Windows/Tests.antt =====
-- The loops of internal/nist/cpp/non_iid/multi_mcw_test.h on 4096 samples.
use nist_sp_800_90b_go.Base.{
  ℕ, zero, suc, ◌+◌, ◌-◌, ◌≤◌, ◌<◌, ◌≡◌, List, [], ◌∷◌, ◌++◌, arith, length, get_or, replicate,
  length-replicate, length-append, All, All-append, some,
}
use nist_sp_800_90b_go.Predict.Windows.{mcw_after, multi_mcw_counts}
use nist_sp_800_90b_go.Predict.Windows.Mode.{IsMostCommon}
use nist_sp_800_90b_go.Predict.Windows.Hits.{trues, prediction_hits, IsLongest}
use nist_sp_800_90b_go.Predict.Windows.Winner.{sizes}
use nist_sp_800_90b_go.Predict.Windows.Run.{mcw_after-IsMostCommon}

-- Ones and then zeros.
abbrev two_phases : List ℕ
two_phases = replicate 96 1 ++ replicate 4000 0

All-replicate : (n x k : ℕ) → x < k → All (λ y. y < k) (replicate n x)
All-replicate zero x k h = tt
All-replicate (suc n) x k h = (h, All-replicate n x k h)

length-two_phases : length two_phases ≡ 4096
length-two_phases = omega (
  arith,
  length-append {A = ℕ} (replicate 96 1) (replicate 4000 0),
  length-replicate {A = ℕ} 96 1,
  length-replicate {A = ℕ} 4000 0,
)

mcw_after-IsMostCommon_example :
    let (vs, s) = mcw_after two_phases 2 100 in
    let hit = prediction_hits two_phases 2 in
    (sizes vs ≡ 63 ∷ 255 ∷ 1023 ∷ 4095 ∷ [])
    × All (λ w. IsMostCommon two_phases w.size (63 + 100 - w.size) w.frequent) vs
    × (s.winner < 4)
    × ((j : ℕ) → get_or s.scoreboard j 0 ≤ get_or s.scoreboard s.winner 0)
    × (s.correct ≡ trues hit 100)
    × IsLongest hit 100 s.max_run_len
    × ((r : ℕ) × (multi_mcw_counts two_phases 2
          ≡ some (trues hit (length two_phases - 63), length two_phases - 63, r))
        × IsLongest hit (length two_phases - 63) r)
mcw_after-IsMostCommon_example =
    mcw_after-IsMostCommon two_phases 2 100 (omega (arith, length-two_phases))
      (All-append (λ y. y < 2) (replicate 96 1) (replicate 4000 0)
        (All-replicate 96 1 2 (omega arith)) (All-replicate 4000 0 2 (omega arith)))
      (omega (arith, length-two_phases))
