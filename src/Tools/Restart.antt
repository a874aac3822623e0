-- ===== src/Tools/Restart.antt =====
-- internal/nist/cpp/restart_main.cpp: the sanity check of Section 3.1.4.3 on the rows and columns of
-- the restart matrix, with the column data that it makes.
pub mod Counting
pub mod Columns
pub mod Sanity
mod Tests
use nist_sp_800_90b_go.Base.{
  ℕ, zero, suc, ◌+◌, ◌*◌, max, Bool, not, List, ltb, if◌then◌else◌, get_or, set, replicate,
}

-- `counts` and the largest count so far, X_i.
pub record Tally : Type 0 where
  pub counts : List ℕ
  pub top : ℕ

-- `memset(counts, 0, ...); X_i = 0;`
unfoldable pub fresh_tally : Tally
fresh_tally = record { counts = replicate 256 0; top = 0 }

-- `if (++counts[x] > X_i) X_i = counts[x];`
unfoldable pub count_symbol : Tally → ℕ → Tally
count_symbol t x =
    let n = get_or t.counts x 0 + 1 in
    record { counts = set t.counts x n; top = if ltb t.top n then n else t.top }

module _ (rdata : List ℕ) where
  -- Row `i`, from column `j` on.
  unfoldable pub row_loop : (r i rounds j : ℕ) → Tally → Tally
  row_loop r i zero j t = t
  row_loop r i (suc n) j t = row_loop r i n (j + 1) (count_symbol t (get_or rdata (i * r + j) 0))

  -- The rows from `i` on, each of `c` columns; the result is X_r.
  unfoldable pub maximum_row : (r c rounds i x_r : ℕ) → ℕ
  maximum_row r c zero i x_r = x_r
  maximum_row r c (suc n) i x_r =
      let t = row_loop r i c 0 fresh_tally in
      maximum_row r c n (i + 1) (if ltb x_r t.top then t.top else x_r)

  -- Column `j`, from row `i` on, with `cdata` as written so far.
  unfoldable pub column_loop : (r c j rounds i : ℕ) → (cdata : List ℕ) → Tally → List ℕ × Tally
  column_loop r c j zero i cdata t = (cdata, t)
  column_loop r c j (suc n) i cdata t =
      let cdata' = set cdata (j * c + i) (get_or rdata (i * r + j) 0) in
      column_loop r c j n (i + 1) cdata' (count_symbol t (get_or cdata' (j * c + i) 0))

  -- The columns from `j` on, each of `r` rows; the result is the column data and X_c.
  unfoldable pub maximum_column : (r c rounds j : ℕ) → (cdata : List ℕ) → (x_c : ℕ) → List ℕ × ℕ
  maximum_column r c zero j cdata x_c = (cdata, x_c)
  maximum_column r c (suc n) j cdata x_c =
      let (cdata', t) = column_loop r c j r 0 cdata fresh_tally in
      maximum_column r c n (j + 1) cdata' (if ltb x_c t.top then t.top else x_c)

-- The check passes unless X_max is above the cutoff. `room` is what malloc gave for the columns.
unfoldable pub passes_sanity : (r c x_cutoff : ℕ) → (rdata room : List ℕ) → Bool
passes_sanity r c x_cutoff rdata room =
    let x_r = maximum_row rdata r c r 0 0 in
    let (cdata, x_c) = maximum_column rdata r c c 0 room 0 in not (ltb x_cutoff (max x_r x_c))

-- The column data that the estimators get.
unfoldable pub column_data : (r c : ℕ) → (rdata room : List ℕ) → List ℕ
column_data r c rdata room = (maximum_column rdata r c c 0 room 0).0
