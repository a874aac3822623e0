-- ===== src/Tools/Transpose/Matrix.antt =====
-- The order in which internal/nist/cpp/transpose_main.cpp writes the bytes of a matrix.
use native.Mathlib.Nat.{mod-lt, div-lt_iff_lt-mul, div-add-mod}
use nist_sp_800_90b_go.Base.{
  ℕ, zero, suc, ◌+◌, ◌*◌, ◌/◌, ◌%◌, ◌<◌, ◌≤◌, ◌≡◌, refl, sym, ◌∙◌, ap, ap₂, List, [], ◌∷◌, ◌++◌,
  arith, length, get_or, length-append,
}

module _ (raw : List ℕ) where
  -- Entries `j` to `j + n - 1` of column `i` of a matrix with `c` columns.
  unfoldable pub column : (c n j i : ℕ) → List ℕ
  column c zero j i = []
  column c (suc n) j i = get_or raw (c * j + i) 0 ∷ column c n (j + 1) i

  -- Columns `i` to `i + n - 1` of a matrix with `r` rows and `c` columns.
  unfoldable pub columns_from : (r c n i : ℕ) → List ℕ
  columns_from r c zero i = []
  columns_from r c (suc n) i = column c r 0 i ++ columns_from r c n (i + 1)

  pub length-column : (c n j i : ℕ) → length (column c n j i) ≡ n
  unfolding column
  length-column c zero j i = refl
  length-column c (suc n) j i = ap suc (length-column c n (j + 1) i)

  column-get :
      (c n j i k : ℕ) → k < n → get_or (column c n j i) k 0 ≡ get_or raw (c * (j + k) + i) 0
  unfolding column
  column-get c zero j i k h = absurd (omega arith)
  column-get c (suc n) j i zero h = ap (λ (t : ℕ). get_or raw (c * t + i) 0) (omega arith)
  column-get c (suc n) j i (suc k) h =
      column-get c n (j + 1) i k (omega arith)
      ∙ ap (λ (t : ℕ). get_or raw (c * t + i) 0) (omega arith)

  pub length-columns_from : (r c n i : ℕ) → length (columns_from r c n i) ≡ n * r
  unfolding columns_from
  length-columns_from r c zero i = omega arith
  length-columns_from r c (suc n) i = omega (
    arith,
    length-append (column c r 0 i) (columns_from r c n (i + 1)),
    length-column c r 0 i,
    length-columns_from r c n (i + 1),
  )

get_or-left : (xs ys : List ℕ) (k : ℕ) → k < length xs → get_or (xs ++ ys) k 0 ≡ get_or xs k 0
get_or-left [] ys k h = absurd (omega arith)
get_or-left (x ∷ xs) ys zero h = refl
get_or-left (x ∷ xs) ys (suc k) h = get_or-left xs ys k (omega arith)

get_or-right :
    (xs ys : List ℕ) (k m : ℕ) → m ≡ length xs + k → get_or (xs ++ ys) m 0 ≡ get_or ys k 0
get_or-right [] ys k m e = ap (λ (t : ℕ). get_or ys t 0) (omega arith)
get_or-right (x ∷ xs) ys k zero e = absurd (omega arith)
get_or-right (x ∷ xs) ys k (suc m) e = get_or-right xs ys k m (omega arith)

-- Entry `j` of column `i` is at place `i * r + j`.
pub columns_from-get :
    (raw : List ℕ) (r c n i k j : ℕ)
    → k < n
    → j < r
    → get_or (columns_from raw r c n i) (k * r + j) 0 ≡ get_or raw (c * j + (i + k)) 0
unfolding columns_from
columns_from-get raw r c zero i k j h l = absurd (omega arith)
columns_from-get raw r c (suc n) i zero j h l =
    ap (λ (t : ℕ). get_or (column raw c r 0 i ++ columns_from raw r c n (i + 1)) t 0) {y = j}
      (omega arith)
    ∙ get_or-left (column raw c r 0 i) (columns_from raw r c n (i + 1)) j
        (omega (arith, length-column raw c r 0 i))
    ∙ column-get raw c r 0 i j l
    ∙ ap (λ (t : ℕ). get_or raw (c * t + i) 0) {y = j} (omega arith)
    ∙ ap (λ (t : ℕ). get_or raw (c * j + t) 0) (omega arith)
columns_from-get raw r c (suc n) i (suc k) j h l =
    get_or-right (column raw c r 0 i) (columns_from raw r c n (i + 1)) (k * r + j) (suc k * r + j)
      (omega (arith, length-column raw c r 0 i))
    ∙ columns_from-get raw r c n (i + 1) k j (omega arith) l
    ∙ ap (λ (t : ℕ). get_or raw (c * j + t) 0) (omega arith)

-- The transpose of a matrix with `r` rows and `c` columns.
unfoldable pub transposed : (r c : ℕ) → List ℕ → List ℕ
transposed r c raw = columns_from raw r c c 0

pub list_ext :
    (xs ys : List ℕ)
    → length xs ≡ length ys
    → ((k : ℕ) → k < length xs → get_or xs k 0 ≡ get_or ys k 0)
    → xs ≡ ys
list_ext [] [] e h = refl
list_ext [] (y ∷ ys) e h = absurd (omega arith)
list_ext (x ∷ xs) [] e h = absurd (omega arith)
list_ext (x ∷ xs) (y ∷ ys) e h =
    ap₂ ◌∷◌ (h 0 (omega arith)) (list_ext xs ys (omega arith) λ k l. h (suc k) (omega arith))

entry :
    (r c : ℕ) (raw : List ℕ) (k : ℕ)
    → k < r * c
    → get_or (transposed c r (transposed r c raw)) k 0 ≡ get_or raw k 0
unfolding transposed
entry r c raw k h =
    let some_columns : 1 ≤ c = positive c h in
    let q = k / c in
    let m = k % c in
    let whole : c * q + m ≡ k = div-add-mod k c in
    let low : m < c = mod-lt k some_columns in
    let row : q < r = (div-lt_iff_lt-mul some_columns).1 h in
    let t = columns_from raw r c c 0 in
    ap (λ (x : ℕ). get_or (columns_from t c r r 0) x 0) {y = q * c + m} (omega (arith, whole))
    ∙ columns_from-get t c r r 0 q m row low
    ∙ ap (λ (x : ℕ). get_or t x 0) {y = m * r + q} (omega arith)
    ∙ columns_from-get raw r c c 0 m q low row
    ∙ ap (λ (x : ℕ). get_or raw x 0) (omega (arith, whole))
  where
    positive : (c : ℕ) → k < r * c → 1 ≤ c
    positive zero h = absurd (omega arith)
    positive (suc c) h = omega arith

-- Transposing twice gives the matrix back.
pub transposed-transposed :
    (r c : ℕ) (raw : List ℕ) → length raw ≡ r * c → transposed c r (transposed r c raw) ≡ raw
unfolding transposed
transposed-transposed r c raw e =
    list_ext _ raw (length-columns_from (columns_from raw r c c 0) c r r 0 ∙ sym e)
      λ k l. entry r c raw k (omega (arith, length-columns_from (columns_from raw r c c 0) c r r 0))
