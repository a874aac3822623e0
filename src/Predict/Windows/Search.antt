-- ===== src/Predict/Windows/Search.antt =====
-- The search of multi_mcw_test (internal/nist/cpp/non_iid/multi_mcw_test.h) for a new frequent value.
use nist_sp_800_90b_go.Base.{
  ℕ, zero, suc, ◌+◌, ◌≤◌, ◌<◌, ◌≡◌, List, arith, get_or, sym, subst, ℕ_discrete,
}
use nist_sp_800_90b_go.Predict.Windows.{Best, better, search_best}

-- Value `v` has a smaller count than the best, or as large a one at an earlier place.
abbrev pub Beaten : (cnts poses : List ℕ) (m p v : ℕ) → Type 0
Beaten cnts poses m p v = (get_or cnts v 0 ≤ m) × (get_or cnts v 0 ≡ m → get_or poses v 0 ≤ p)

-- The best is a value below `k`, not above its own count and place, and beats all values below `n`.
abbrev pub IsBest : (cnts poses : List ℕ) (k n : ℕ) → Best → Type 0
IsBest cnts poses k n b =
    (b.frequent < k)
    × (b.max_cnt ≤ get_or cnts b.frequent 0)
    × (b.max_pos ≤ get_or poses b.frequent 0)
    × ((v : ℕ) → v < n → Beaten cnts poses b.max_cnt b.max_pos v)

pub below_suc : (P : ℕ → Type 0) (n : ℕ) → ((v : ℕ) → v < n → P v) → P n → (v : ℕ) → v < n + 1 → P v
below_suc P n low here v h = elim (ℕ_discrete v n) [
  | yes e ↦ subst P (sym e) here
  | no ne ↦ low v (omega arith)
]

better-Steps :
    (cnts poses : List ℕ) (k n : ℕ) (b : Best)
    → n < k
    → IsBest cnts poses k n b
    → let c = better cnts poses n b in
      (c.frequent < k)
      × (c.max_cnt ≤ get_or cnts c.frequent 0)
      × (c.max_pos ≤ get_or poses c.frequent 0)
      × Beaten cnts poses c.max_cnt c.max_pos n
      × ((v : ℕ)
          → Beaten cnts poses b.max_cnt b.max_pos v
          → Beaten cnts poses c.max_cnt c.max_pos v)
unfolding better
better-Steps cnts poses k n b h (f, c, p, all) = (
  ground arith,
  ground arith,
  ground arith,
  (ground arith, λ e. ground arith),
  λ v (l, t). (ground arith, λ e. ground arith),
)

better-IsBest :
    (cnts poses : List ℕ) (k n : ℕ) (b : Best)
    → n < k
    → IsBest cnts poses k n b
    → IsBest cnts poses k (n + 1) (better cnts poses n b)
better-IsBest cnts poses k n b h i =
    let (f, c, p, here, kept) = better-Steps cnts poses k n b h i in
    (f, c, p, below_suc (Beaten cnts poses _ _) n (λ v l. kept v (i.3 v l)) here)

-- From a value below `k` on, the search over all values ends with one that beats every other.
pub search_best-IsBest :
    (cnts poses : List ℕ) (k rounds n : ℕ) (b : Best)
    → rounds + n ≡ k
    → IsBest cnts poses k n b
    → IsBest cnts poses k k (search_best cnts poses rounds n b)
unfolding search_best
search_best-IsBest cnts poses k zero n b e i =
    subst (λ m. IsBest cnts poses k m b) {x = n} (omega arith) i
search_best-IsBest cnts poses k (suc m) n b e i =
    search_best-IsBest cnts poses k m (n + 1) (better cnts poses n b) (omega arith)
      (better-IsBest cnts poses k n b (omega arith) i)
