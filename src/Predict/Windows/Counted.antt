-- ===== src/Predict/Windows/Counted.antt =====
-- What a window of multi_mcw_test (internal/nist/cpp/non_iid/multi_mcw_test.h) holds of the samples.
use nist_sp_800_90b_go.Base.{
  ℕ, zero, suc, ◌+◌, ◌≤◌, ◌<◌, ◌≡◌, ◌∙◌, sym, ap, subst, List, arith, ◌==◌, if◌then◌else◌, length,
  get_or, set, length-set, get_or-set_self, get_or-set_ne, ℕ_discrete,
}
use nist_sp_800_90b_go.Predict.Windows.{Window}

-- How often `v` is among the `n` samples from place `a` on.
unfoldable pub seen : (samples : List ℕ) (v n a : ℕ) → ℕ
seen samples v zero a = 0
seen samples v (suc n) a =
    let rest = seen samples v n (a + 1) in if get_or samples a 0 == v then suc rest else rest

-- One more sample at the end.
pub seen_end :
    (samples : List ℕ) (v n a : ℕ)
    → seen samples v (n + 1) a
      ≡ seen samples v n a + (if get_or samples (a + n) 0 == v then 1 else 0)
unfolding seen
seen_end samples v zero a =
    let e : get_or samples (a + 0) 0 ≡ get_or samples a 0 =
      ap (λ m. get_or samples m 0) (omega arith) in
    ground (arith, e)
seen_end samples v (suc n) a =
    let e : get_or samples (a + 1 + n) 0 ≡ get_or samples (a + suc n) 0 =
      ap (λ m. get_or samples m 0) (omega arith) in
    ground (arith, e, seen_end samples v n (a + 1))

-- One step to the right.
pub seen_slide :
    (samples : List ℕ) (v n a : ℕ)
    → seen samples v n (a + 1) + (if get_or samples a 0 == v then 1 else 0)
      ≡ seen samples v n a + (if get_or samples (a + n) 0 == v then 1 else 0)
unfolding seen
seen_slide samples v n a =
    let one : seen samples v (n + 1) a ≡ seen samples v (suc n) a =
      ap (λ m. seen samples v m a) {y = suc n} (omega arith) in
    ground (arith, seen_end samples v n a, one)

-- Place `m` is before `e`, not before `p`, and has the same value as `p`.
abbrev pub IsPlace : (samples : List ℕ) (p e m : ℕ) → Type 0
IsPlace samples p e m = (p ≤ m) × (m < e) × (get_or samples m 0 ≡ get_or samples p 0)

-- Places are those of the last occurrence before place `e`.
abbrev pub IsLatest : (samples : List ℕ) (k e : ℕ) (poses : List ℕ) → Type 0
IsLatest samples k e poses =
    (length poses ≡ k)
    × ((v : ℕ) → v < k → get_or poses v 0 ≤ e)
    × ((p : ℕ) → p < e → IsPlace samples p e (get_or poses (get_or samples p 0) 0))

-- Value `f` below `k` has the largest count, `m`, and of the values with this count the last place.
abbrev pub IsTop : (k : ℕ) (cnts poses : List ℕ) (m f : ℕ) → Type 0
IsTop k cnts poses m f =
    (f < k)
    × (get_or cnts f 0 ≡ m)
    × ((v : ℕ)
        → v < k
        → (get_or cnts v 0 ≤ m) × (get_or cnts v 0 ≡ m → get_or poses v 0 ≤ get_or poses f 0))

-- The counts of the `n` samples from place `a` on, for an alphabet of `k` values, and the last place
-- of each value, with the frequent value at the top.
abbrev pub IsWindow : (samples : List ℕ) (k n a : ℕ) → Window → Type 0
IsWindow samples k n a w =
    (length w.win_cnts ≡ k)
    × ((v : ℕ) → v < k → get_or w.win_cnts v 0 ≡ seen samples v n a)
    × IsLatest samples k (a + n) w.win_poses
    × IsTop k w.win_cnts w.win_poses w.max_cnt w.frequent

-- `set` raises or lowers one entry.
pub get_or-set :
    (xs : List ℕ) (x v y : ℕ)
    → x < length xs
    → get_or (set xs x y) v 0 ≡ (if x == v then y else get_or xs v 0)
get_or-set xs x v y h = elim (ℕ_discrete x v) [
  | yes e ↦ ground (arith, get_or-set_self xs x y 0 h, ap (λ m. get_or (set xs x y) m 0) e)
  | no n ↦ ground (arith, get_or-set_ne xs x v y 0 n)
]

pub set-IsLatest :
    (samples : List ℕ) (k e : ℕ) (poses : List ℕ)
    → get_or samples e 0 < k
    → IsLatest samples k e poses
    → IsLatest samples k (e + 1) (set poses (get_or samples e 0) e)
set-IsLatest samples k e poses h (l, bound, last) = (
  length-set poses (get_or samples e 0) e ∙ l,
  λ v lt. ground (arith, get_or-set poses (get_or samples e 0) v e (omega arith), bound v lt),
  λ p lt. elim (ℕ_discrete (get_or samples e 0) (get_or samples p 0)) [
    | yes q ↦
        subst (IsPlace samples p (e + 1)) {x = e}
          (sym (
            ap (λ m. get_or (set poses (get_or samples e 0) e) m 0) (sym q)
            ∙ get_or-set_self poses (get_or samples e 0) e 0 (omega arith)))
          (omega arith, omega arith, q)
    | no q ↦
        let early : p < e = elim (ℕ_discrete p e) [
          | yes r ↦ absurd (q (ap (λ m. get_or samples m 0) (sym r)))
          | no r ↦ omega arith
        ] in
        subst (IsPlace samples p (e + 1)) {x = get_or poses (get_or samples p 0) 0}
          (sym (get_or-set_ne poses (get_or samples e 0) (get_or samples p 0) e 0 q))
          (let (a, b, c) = last p early in (a, omega arith, c))
  ],
)
