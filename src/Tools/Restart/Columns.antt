-- ===== src/Tools/Restart/Columns.antt =====
-- The passes of internal/nist/cpp/restart_main.cpp over the rows and the columns of a square matrix.
use nist_sp_800_90b_go.Base.{
  ℕ, zero, suc, ◌+◌, ◌*◌, ◌≤◌, ◌<◌, ◌≡◌, refl, sym, ◌∙◌, ap, subst, ◌↔◌, List, [], ◌∷◌, ◌++◌, arith,
  length, get_or, set, length-append,
}
use nist_sp_800_90b_go.Tools.Transpose.Matrix.{column}
use nist_sp_800_90b_go.Tools.Transpose.Written.{append_assoc, append_nil}
use nist_sp_800_90b_go.Tools.Restart.{
  Tally, fresh_tally, count_symbol, row_loop, maximum_row, column_loop,
}
use nist_sp_800_90b_go.Tools.Restart.Counting.{tally}

-- Entries `j` to `j + n - 1` of row `i` of a matrix with rows of `r` entries.
unfoldable pub row : (rdata : List ℕ) → (r n j i : ℕ) → List ℕ
row rdata r zero j i = []
row rdata r (suc n) j i = get_or rdata (i * r + j) 0 ∷ row rdata r n (j + 1) i

row_loop-tally :
    (rdata : List ℕ) (r i n j : ℕ) (t : Tally)
    → row_loop rdata r i n j t ≡ tally t (row rdata r n j i)
unfolding row_loop row tally
row_loop-tally rdata r i zero j t = refl
row_loop-tally rdata r i (suc n) j t = row_loop-tally rdata r i n (j + 1) _

-- The maximum over rows is at most `K` just when every row's is.
pub maximum_row-le :
    (rdata : List ℕ) (r c n i x K : ℕ)
    → (maximum_row rdata r c n i x ≤ K)
      ↔ ((x ≤ K) × ((k : ℕ) → k < n → (tally fresh_tally (row rdata r c 0 (i + k))).top ≤ K))
unfolding maximum_row
maximum_row-le rdata r c zero i x K = (λ h. (h, λ k l. absurd (omega arith)), λ h. h.0)
maximum_row-le rdata r c (suc n) i x K =
    let e = row_loop-tally rdata r i c 0 fresh_tally in
    let (there, back) = maximum_row-le rdata r c n (i + 1) _ K in
    let here : (row_loop rdata r i c 0 fresh_tally).top
        ≡ (tally fresh_tally (row rdata r c 0 (i + 0))).top =
      ap (λ (t : Tally). t.top) e
      ∙ ap (λ (m : ℕ). (tally fresh_tally (row rdata r c 0 m)).top) (omega arith) in
    (
      λ h. let (p, q) = there h in (ground arith, rows (ground (arith, here)) q),
      λ (p, q).
          back (ground (arith, here, q 0 (omega arith)), λ k l. later k (q (suc k) (omega arith))),
    )
  where
    rows :
        (tally fresh_tally (row rdata r c 0 (i + 0))).top ≤ K
        → ((k : ℕ) → k < n → (tally fresh_tally (row rdata r c 0 (i + 1 + k))).top ≤ K)
        → (k : ℕ) → k < suc n
        → (tally fresh_tally (row rdata r c 0 (i + k))).top ≤ K
    rows p q zero l = p
    rows p q (suc k) l =
        subst (λ (m : ℕ). (tally fresh_tally (row rdata r c 0 m)).top ≤ K) {x = i + 1 + k}
          (omega arith) (q k (omega arith))

    later :
        (k : ℕ)
        → (tally fresh_tally (row rdata r c 0 (i + suc k))).top ≤ K
        → (tally fresh_tally (row rdata r c 0 (i + 1 + k))).top ≤ K
    later k h =
        subst (λ (m : ℕ). (tally fresh_tally (row rdata r c 0 m)).top ≤ K) {x = i + suc k}
          (omega arith) h

set_next :
    (done rest : List ℕ) (x v m : ℕ)
    → m ≡ length done
    → (set (done ++ (x ∷ rest)) m v ≡ (done ++ (v ∷ [])) ++ rest)
      × (get_or (set (done ++ (x ∷ rest)) m v) m 0 ≡ v)
set_next [] rest x v zero e = (refl, refl)
set_next [] rest x v (suc m) e = absurd (omega arith)
set_next (d ∷ done) rest x v zero e = absurd (omega arith)
set_next (d ∷ done) rest x v (suc m) e =
    let (p, q) = set_next done rest x v m (omega arith) in (ap (λ l. d ∷ l) p, q)

-- One column, written behind what is done.
pub column_loop-column :
    (rdata : List ℕ) (r j n i : ℕ) (done rest : List ℕ) (t : Tally)
    → length done ≡ j * r + i
    → n ≤ length rest
    → (left : List ℕ) × (column_loop rdata r r j n i (done ++ rest) t
        ≡ ((done ++ column rdata r n i j) ++ left, tally t (column rdata r n i j)))
      × (length rest ≡ n + length left)
unfolding column_loop column tally
column_loop-column rdata r j zero i done rest t e h =
    (rest, ap (λ l. (l ++ rest, t)) (sym (append_nil done)), omega arith)
column_loop-column rdata r j (suc n) i done [] t e h = absurd (omega arith)
column_loop-column rdata r j (suc n) i done (x ∷ rest) t e h =
    let v = get_or rdata (r * i + j) 0 in
    let v' : get_or rdata (i * r + j) 0 ≡ v = ap (λ (m : ℕ). get_or rdata m 0) (omega arith) in
    let (p, q) = set_next done rest x v (j * r + i) (sym e) in
    let (left, run, size) =
      column_loop-column rdata r j n (i + 1) (done ++ (v ∷ [])) rest (count_symbol t v)
        (omega (arith, length-append done (v ∷ []))) (omega arith) in
    (
      left,
      rw (v', q, p)
          (run
            ∙ ap (λ l. (l ++ left, tally (count_symbol t v) (column rdata r n (i + 1) j)))
                (append_assoc done (v ∷ []) (column rdata r n (i + 1) j))),
      omega arith,
    )
