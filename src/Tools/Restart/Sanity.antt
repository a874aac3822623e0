-- ===== src/Tools/Restart/Sanity.antt =====
-- The sanity check of internal/nist/cpp/restart_main.cpp, and the column data that its estimators get.
use nist_sp_800_90b_go.Base.{
  ℕ, zero, suc, ◌+◌, ◌*◌, ◌≤◌, ◌<◌, ◌≡◌, refl, ◌∙◌, subst, ◌↔◌, true, List, [], ◌∷◌, ◌++◌, arith,
  ltb, if◌then◌else◌, length, get_or, All, get_or-All, length-append,
}
use nist_sp_800_90b_go.Counts.Mode.{occurrences}
use nist_sp_800_90b_go.Tools.Transpose.Matrix.{column, columns_from, transposed, length-column}
use nist_sp_800_90b_go.Tools.Transpose.Written.{append_assoc}
use nist_sp_800_90b_go.Tools.Restart.{
  fresh_tally, maximum_row, maximum_column, passes_sanity, column_data,
}
use nist_sp_800_90b_go.Tools.Restart.Counting.{tally, fresh_tally-le}
use nist_sp_800_90b_go.Tools.Restart.Columns.{row, maximum_row-le, column_loop-column}

-- No symbol of column `i` is counted more than `K` times.
abbrev Low : (rdata : List ℕ) (n K i : ℕ) → Type 0
Low rdata n K i = (tally fresh_tally (column rdata n n 0 i)).top ≤ K

-- The same for row `i`.
abbrev LowRow : (rdata : List ℕ) (n K i : ℕ) → Type 0
LowRow rdata n K i = (tally fresh_tally (row rdata n n 0 i)).top ≤ K

maximum_column-lem :
    (rdata : List ℕ) (n m j : ℕ) (done rest : List ℕ) (x : ℕ)
    → length done ≡ j * n
    → length rest ≡ m * n
    → let out = maximum_column rdata n n m j (done ++ rest) x in
      (out.0 ≡ done ++ columns_from rdata n n m j)
      × ((K : ℕ)
          → (out.1 ≤ K) ↔ (
              (x ≤ K)
              × ((k : ℕ) → k < m → (tally fresh_tally (column rdata n n 0 (j + k))).top ≤ K)))
unfolding maximum_column columns_from
maximum_column-lem rdata n zero j done [] x e h =
    (refl, λ K. (λ p. (p, λ k l. absurd (omega arith)), λ p. p.0))
maximum_column-lem rdata n zero j done (y ∷ rest) x e h = absurd (omega arith)
maximum_column-lem rdata n (suc m) j done rest x e h =
    let (left, run, size) =
      column_loop-column rdata n j n 0 done rest fresh_tally (omega arith) (omega arith) in
    let here = tally fresh_tally (column rdata n n 0 j) in
    let x' = if ltb x here.top then here.top else x in
    let (out, ih) =
      maximum_column-lem rdata n m (j + 1) (done ++ column rdata n n 0 j) left x'
        (omega (arith, length-append done (column rdata n n 0 j), length-column rdata n n 0 j))
        (omega arith) in
    rw (maximum_column, run)
      (
        out ∙ append_assoc done (column rdata n n 0 j) (columns_from rdata n n m (j + 1)),
        λ K.
            let (there, back) = ih K in
            (
              λ p. let (q, r) = there p in (ground arith, columns K (ground arith) r),
              λ (p, q). back (
                ground (arith, first K (q 0 (omega arith))),
                λ k l. later K k (q (suc k) (omega arith)),
              ),
            ),
      )
  where
    first : (K : ℕ) → Low rdata n K (j + 0) → Low rdata n K j
    first K p = subst (Low rdata n K) {x = j + 0} (omega arith) p

    later : (K k : ℕ) → Low rdata n K (j + suc k) → Low rdata n K (j + 1 + k)
    later K k p = subst (Low rdata n K) {x = j + suc k} (omega arith) p

    columns :
        (K : ℕ)
        → Low rdata n K j
        → ((k : ℕ) → k < m → Low rdata n K (j + 1 + k))
        → (k : ℕ) → k < suc m
        → Low rdata n K (j + k)
    columns K p q zero l = subst (Low rdata n K) {x = j} (omega arith) p
    columns K p q (suc k) l =
        subst (Low rdata n K) {x = j + 1 + k} (omega arith) (q k (omega arith))

All-row :
    (rdata : List ℕ) (r n j i : ℕ)
    → ((k : ℕ) → get_or rdata k 0 < 256)
    → All (λ x. x < 256) (row rdata r n j i)
unfolding row
All-row rdata r zero j i h = tt
All-row rdata r (suc n) j i h = (h (i * r + j), All-row rdata r n (j + 1) i h)

All-column :
    (rdata : List ℕ) (c n j i : ℕ)
    → ((k : ℕ) → get_or rdata k 0 < 256)
    → All (λ x. x < 256) (column rdata c n j i)
unfolding column
All-column rdata c zero j i h = tt
All-column rdata c (suc n) j i h = (h (c * j + i), All-column rdata c n (j + 1) i h)

plus_zero : (P : ℕ → Type 0) (k : ℕ) → P (0 + k) → P k
plus_zero P k p = subst P {x = 0 + k} (omega arith) p

from_zero : (P : ℕ → Type 0) (k : ℕ) → P k → P (0 + k)
from_zero P k p = subst P {x = k} (omega arith) p

-- For an n by n matrix of bytes and as much room for its columns: the check with cutoff K passes
-- just when no byte occurs more than K times in a row or in a column; and the column data is the
-- transpose of the matrix.
pub passes_sanity-occurrences :
    (n K : ℕ) (rdata room : List ℕ)
    → All (λ x. x < 256) rdata
    → length room ≡ n * n
    → ((passes_sanity n n K rdata room ≡ true) ↔ (
        ((i v : ℕ) → i < n → v < 256 → occurrences v (row rdata n n 0 i) ≤ K)
        × ((j v : ℕ) → j < n → v < 256 → occurrences v (column rdata n n 0 j) ≤ K)))
      × (column_data n n rdata room ≡ transposed n n rdata)
unfolding passes_sanity column_data transposed
passes_sanity-occurrences n K rdata room bytes size =
    let at = get_or-All 256 rdata (omega arith) bytes in
    let (out, cols) = maximum_column-lem rdata n n 0 [] room 0 (omega arith) size in
    let (rows_there, rows_back) = maximum_row-le rdata n n n 0 0 K in
    let (cols_there, cols_back) = cols K in
    let x_r = maximum_row rdata n n n 0 0 in
    let x_c = (maximum_column rdata n n n 0 room 0).1 in
    (
      (
        λ p.
            let r = (rows_there (ground (arith, p))).1 in
            let c = (cols_there (ground (arith, p))).1 in
            (
              λ i v l w.
                  (fresh_tally-le _ K (All-row rdata n n 0 i at)).0
                    (plus_zero (LowRow rdata n K) i (r i l)) v w,
              λ j v l w.
                  (fresh_tally-le _ K (All-column rdata n n 0 j at)).0
                    (plus_zero (Low rdata n K) j (c j l)) v w,
            ),
        λ (r, c).
            let low : x_r ≤ K = rows_back (
              omega arith,
              λ k l.
                  from_zero (LowRow rdata n K) k
                    ((fresh_tally-le _ K (All-row rdata n n 0 k at)).1 (λ v w. r k v l w)),
            ) in
            let low' : x_c ≤ K = cols_back (
              omega arith,
              λ k l.
                  from_zero (Low rdata n K) k
                    ((fresh_tally-le _ K (All-column rdata n n 0 k at)).1 (λ v w. c k v l w)),
            ) in
            ground arith,
      ),
      out,
    )
