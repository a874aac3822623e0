-- ===== src/Predict/Windows.antt =====
-- internal/nist/cpp/non_iid/multi_mcw_test.h: the loops of multi_mcw_test. The arrays that it indexes
-- by window, but the scoreboard, are one record for each window.
pub mod Search
pub mod Counted
pub mod Slide
pub mod Mode
pub mod Fill
pub mod Winner
pub mod Hits
pub mod Run
mod Tests
use nist_sp_800_90b_go.Base.{
  ℕ, zero, suc, ◌+◌, ◌-◌, Bool, not, ◌&&◌, ◌||◌, Option, none, some, List, [], ◌∷◌, map, ltb, leb,
  ◌==◌, if◌then◌else◌, length, get_or, set, replicate,
}

-- W[j], win_cnts[j], win_poses[j], max_cnts[j] and frequent[j].
pub record Window : Type 0 where
  pub size : ℕ
  pub win_cnts : List ℕ
  pub win_poses : List ℕ
  pub max_cnt : ℕ
  pub frequent : ℕ

-- The zeros at the start. The source leaves `frequent` open until the first sample.
unfoldable pub empty_window : (alph_size size : ℕ) → Window
empty_window k w = record {
  size = w;
  win_cnts = replicate k 0;
  win_poses = replicate k 0;
  max_cnt = 0;
  frequent = 0;
}

-- `x` at place `i` is counted, when the window is first filled.
unfoldable pub count_first : (x i : ℕ) → Window → Window
count_first x i v =
    let n = get_or v.win_cnts x 0 + 1 in
    let tops = leb v.max_cnt n in
    record v {
      win_cnts = set v.win_cnts x n;
      win_poses = set v.win_poses x i;
      max_cnt = if tops then n else v.max_cnt;
      frequent = if tops then x else v.frequent;
    }

-- max_cnts[j], frequent[j] and max_pos while a new frequent value is searched.
pub record Best : Type 0 where
  pub max_cnt : ℕ
  pub frequent : ℕ
  pub max_pos : ℕ

unfoldable pub better : (cnts poses : List ℕ) → (k : ℕ) → Best → Best
better cnts poses k b =
    let n = get_or cnts k 0 in
    let p = get_or poses k 0 in
    if ltb b.max_cnt n || (b.max_cnt == n && leb b.max_pos p)
    then record { max_cnt = n; frequent = k; max_pos = p }
    else b

unfoldable pub search_best : (cnts poses : List ℕ) → (rounds k : ℕ) → Best → Best
search_best cnts poses zero k b = b
search_best cnts poses (suc n) k b = search_best cnts poses n (k + 1) (better cnts poses k b)

-- The frequent value after `old` has left the window and `x` has come in.
unfoldable pub choose : (alph_size old x i : ℕ) → (cnts poses : List ℕ) → Window → Best
choose k old x i cnts poses v =
    if not (old == v.frequent) && leb v.max_cnt (get_or cnts x 0)
    then record { max_cnt = get_or cnts x 0; frequent = x; max_pos = 0 }
    else if old == v.frequent
    then search_best cnts poses k 0
        (record { max_cnt = v.max_cnt - 1; frequent = v.frequent; max_pos = i - v.size })
    else record { max_cnt = v.max_cnt; frequent = v.frequent; max_pos = 0 }

unfoldable pub slide : (alph_size old x i : ℕ) → Window → Window
slide k old x i v =
    let less = set v.win_cnts old (get_or v.win_cnts old 0 - 1) in
    let cnts = set less x (get_or less x 0 + 1) in
    let poses = set v.win_poses x i in
    let b = choose k old x i cnts poses v in
    record v { win_cnts = cnts; win_poses = poses; max_cnt = b.max_cnt; frequent = b.frequent }

-- The windows with scoreboard, winner, C, run_len and max_run_len.
pub record Scores : Type 0 where
  pub scoreboard : List ℕ
  pub winner : ℕ
  pub correct : ℕ
  pub run_len : ℕ
  pub max_run_len : ℕ

-- The test of the winner's prediction.
unfoldable pub test_winner : (hit : Bool) → Scores → Scores
test_winner hit s =
    let run = s.run_len + 1 in
    if hit
    then record s {
      correct = s.correct + 1;
      run_len = run;
      max_run_len = if ltb s.max_run_len run then run else s.max_run_len;
    }
    else record s { run_len = 0 }

-- Window `j` for sample `x` at place `i`.
unfoldable pub score_window : (x i j : ℕ) → Window → Scores → Scores
score_window x i j v s =
    let n = get_or s.scoreboard j 0 + 1 in
    let board = set s.scoreboard j n in
    if leb v.size i && v.frequent == x
    then record s {
      scoreboard = board;
      winner = if leb (get_or board s.winner 0) n then j else s.winner;
    }
    else s

unfoldable pub score_windows : (x i j : ℕ) → List Window → Scores → Scores
score_windows x i j [] s = s
score_windows x i j (v ∷ vs) s = score_windows x i (j + 1) vs (score_window x i j v s)

-- `frequent[j]`
unfoldable pub frequent_at : List Window → (j : ℕ) → ℕ
frequent_at [] j = 0
frequent_at (v ∷ vs) zero = v.frequent
frequent_at (v ∷ vs) (suc j) = frequent_at vs j

module _ (samples : List ℕ) (alph_size : ℕ) where
  unfoldable pub fill_window : (i : ℕ) → Window → Window
  fill_window i v = if ltb i v.size then count_first (get_or samples i 0) i v else v

  -- The initial window counts, from place `i` on.
  unfoldable pub fill_windows : (rounds i : ℕ) → List Window → List Window
  fill_windows zero i vs = vs
  fill_windows (suc n) i vs = fill_windows n (i + 1) (map (fill_window i) vs)

  unfoldable pub slide_window : (i : ℕ) → Window → Window
  slide_window i v =
      if leb v.size i
      then slide alph_size (get_or samples (i - v.size) 0) (get_or samples i 0) i v
      else v

  -- One sample of the predictions.
  unfoldable pub predict_sample : (i : ℕ) → List Window × Scores → List Window × Scores
  predict_sample i (vs, s) =
      let x = get_or samples i 0 in
      (
        map (slide_window i) vs,
        score_windows x i 0 vs (test_winner (frequent_at vs s.winner == x) s),
      )

  unfoldable pub predict_samples : (rounds i : ℕ) → List Window × Scores → List Window × Scores
  predict_samples zero i st = st
  predict_samples (suc n) i st = predict_samples n (i + 1) (predict_sample i st)

  unfoldable pub no_scores : Scores
  no_scores = record {
    scoreboard = replicate 4 0;
    winner = 0;
    correct = 0;
    run_len = 0;
    max_run_len = 0;
  }

  unfoldable pub empty_windows : List Window
  empty_windows =
      empty_window alph_size 63
      ∷ empty_window alph_size 255
      ∷ empty_window alph_size 1023
      ∷ empty_window alph_size 4095
      ∷ []

  -- The state after the first `rounds` predictions.
  unfoldable pub mcw_after : (rounds : ℕ) → List Window × Scores
  mcw_after n = predict_samples n 63 (fill_windows 4095 0 empty_windows, no_scores)

  -- C, N and max_run_len as predictionEstimate gets them; `none` is the result -1.0 for too few
  -- samples.
  unfoldable pub multi_mcw_counts : Option (ℕ × ℕ × ℕ)
  multi_mcw_counts =
      let n = length samples - 63 in
      let s = (mcw_after n).1 in
      if ltb (length samples) 4096 then none else some (s.correct, n, s.max_run_len)
