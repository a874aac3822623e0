-- ===== src/Tools/Restart/Counting.antt =====
-- The count of the most frequent symbol of a line, as internal/nist/cpp/restart_main.cpp keeps it.
use nist_sp_800_90b_go.Base.{
  ℕ, ◌+◌, ◌≤◌, ◌<◌, ◌≡◌, refl, ap, ◌∙◌, true, ◌↔◌, List, [], ◌∷◌, arith, ◌==◌, if◌then◌else◌,
  length, get_or, All, length-set, get_or-set_self, get_or-set_ne, ℕ_discrete,
}
use nist_sp_800_90b_go.Files.Tables.{get_or-replicate}
use nist_sp_800_90b_go.Counts.Mode.{occurrences}
use nist_sp_800_90b_go.Tools.Restart.{Tally, fresh_tally, count_symbol}

unfoldable pub tally : Tally → List ℕ → Tally
tally t [] = t
tally t (x ∷ xs) = tally (count_symbol t x) xs

-- No count is above the top.
abbrev Topped : Tally → Type 0
Topped t = (length t.counts ≡ 256) × ((v : ℕ) → v < 256 → get_or t.counts v 0 ≤ t.top)

count_symbol-count :
    (t : Tally) (x v : ℕ)
    → x < length t.counts
    → get_or (count_symbol t x).counts v 0 ≡ get_or t.counts v 0 + (if x == v then 1 else 0)
unfolding count_symbol
count_symbol-count t x v h = elim (ℕ_discrete x v) [
  | yes e ↦ ground (arith, get_or-set_self t.counts x (get_or t.counts x 0 + 1) 0 h)
  | no n ↦ ground (arith, get_or-set_ne t.counts x v (get_or t.counts x 0 + 1) 0 n)
]

count_symbol-top :
    (t : Tally) (x : ℕ)
    → (t.top ≤ (count_symbol t x).top)
      × (get_or t.counts x 0 + 1 ≤ (count_symbol t x).top)
      × ((K : ℕ) → t.top ≤ K → get_or t.counts x 0 + 1 ≤ K → (count_symbol t x).top ≤ K)
unfolding count_symbol
count_symbol-top t x = (ground arith, ground arith, λ K p q. ground arith)

count_symbol-Topped : (t : Tally) (x : ℕ) → x < 256 → Topped t → Topped (count_symbol t x)
count_symbol-Topped t x h (l, top) = (
  length-counts t x l,
  λ v lt. elim (ℕ_discrete x v) [
    | yes e ↦ ground (
      arith,
      count_symbol-count t x v (omega (arith, l)),
      (count_symbol-top t x).1,
      ap (λ (w : ℕ). get_or t.counts w 0) e,
    )
    | no n ↦
        ground
          (arith, count_symbol-count t x v (omega (arith, l)), (count_symbol-top t x).0, top v lt)
  ],
)
  where
    length-counts :
        (t : Tally) (x : ℕ) → length t.counts ≡ 256 → length (count_symbol t x).counts ≡ 256
    length-counts t x l = unfold count_symbol in length-set t.counts x (get_or t.counts x 0 + 1) ∙ l

-- The top of a line is at most `K` just when no symbol's count exceeds it.
pub tally-le :
    (xs : List ℕ) (t : Tally) (K : ℕ)
    → Topped t
    → All (λ x. x < 256) xs
    → ((tally t xs).top ≤ K)
      ↔ ((t.top ≤ K) × ((v : ℕ) → v < 256 → get_or t.counts v 0 + occurrences v xs ≤ K))
unfolding tally occurrences
tally-le [] t K (l, top) a = (λ h. (h, λ v lt. omega (arith, top v lt)), λ h. h.0)
tally-le (x ∷ xs) t K w (h, a) =
    let u = count_symbol t x in
    let inside : x < length t.counts = omega (arith, w.0) in
    let (there, back) = tally-le xs u K (count_symbol-Topped t x h w) a in
    let (low, mine, least) = count_symbol-top t x in
    (
      λ p.
          let (q, each) = there p in
          (
            omega (arith, q, low),
            λ v lt. ground (arith, each v lt, count_symbol-count t x v inside),
          ),
      λ (p, each). back (
        least K p (let e : (x == x) ≡ true = ground arith in ground (arith, each x h)),
        λ v lt. ground (arith, each v lt, count_symbol-count t x v inside),
      ),
    )

fresh-Topped : Topped fresh_tally
unfolding fresh_tally
fresh-Topped = (refl, λ v lt. omega (arith, get_or-replicate 256 v))

-- The same for a line counted from the start.
pub fresh_tally-le :
    (xs : List ℕ) (K : ℕ)
    → All (λ x. x < 256) xs
    → ((tally fresh_tally xs).top ≤ K) ↔ ((v : ℕ) → v < 256 → occurrences v xs ≤ K)
unfolding fresh_tally
fresh_tally-le xs K a =
    let (there, back) = tally-le xs fresh_tally K fresh-Topped a in
    (
      λ h v lt. omega (arith, (there h).1 v lt, get_or-replicate 256 v),
      λ h. back (omega arith, λ v lt. omega (arith, h v lt, get_or-replicate 256 v)),
    )
