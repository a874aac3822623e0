-- ===== src/Permutation/Series.antt =====
-- periodicity and covariance of internal/nist/cpp/iid/permutation_tests.h, against the pairs of samples that lie `p` apart.
use nist_sp_800_90b_go.Base.{
  ℕ, zero, suc, ◌+◌, ◌*◌, ◌-◌, ◌≤◌, ◌<◌, ◌≡◌, refl, ap, ◌∙◌, some, List, [], ◌∷◌, arith, le→leb,
  ◌==◌, if◌then◌else◌, length, get_or, drop,
}
use nist_sp_800_90b_go.Permutation.{count_repeats, periodicity, sum_products, covariance}

-- The samples paired with those `p` places on.
unfoldable pub pairs : List ℕ → List ℕ → List (ℕ × ℕ)
pairs [] ys = []
pairs (x ∷ xs) [] = []
pairs (x ∷ xs) (y ∷ ys) = (x, y) ∷ pairs xs ys

unfoldable pub how_many : List (ℕ × ℕ) → ℕ
how_many [] = 0
how_many ((x, y) ∷ ps) = if x == y then suc (how_many ps) else how_many ps

unfoldable pub products : List (ℕ × ℕ) → ℕ
products [] = 0
products ((x, y) ∷ ps) = x * y + products ps

-- A list from place `i` on starts with its element at `i`.
drop-get_or : (i : ℕ) (xs : List ℕ) → i < length xs → drop i xs ≡ get_or xs i 0 ∷ drop (suc i) xs
drop-get_or i [] h = absurd (omega arith)
drop-get_or zero (x ∷ xs) h = refl
drop-get_or (suc i) (x ∷ xs) h = drop-get_or i xs (omega arith)

drop-all : (i : ℕ) (xs : List ℕ) → length xs ≤ i → drop i xs ≡ []
drop-all zero [] h = refl
drop-all (suc i) [] h = refl
drop-all zero (x ∷ xs) h = absurd (omega arith)
drop-all (suc i) (x ∷ xs) h = drop-all i xs (omega arith)

pairs-nil : (xs : List ℕ) → pairs xs [] ≡ []
unfolding pairs
pairs-nil [] = refl
pairs-nil (x ∷ xs) = refl

module _ (p : ℕ) (xs : List ℕ) where
  abbrev from : ℕ → List (ℕ × ℕ)
  from i = pairs (drop i xs) (drop (i + p) xs)

  pairs-drop :
      (i : ℕ) → i + p < length xs → from i ≡ (get_or xs i 0, get_or xs (i + p) 0) ∷ from (i + 1)
  unfolding pairs
  pairs-drop i h =
      let e : suc (i + p) ≡ i + 1 + p = omega arith in
      let e' : suc i ≡ i + 1 = omega arith in
      rw (drop-get_or i xs (omega arith), drop-get_or (i + p) xs h, e, ← e') refl

  pairs_end : (i : ℕ) → length xs ≤ i + p → from i ≡ []
  pairs_end i h = rw (drop-all (i + p) xs h) (pairs-nil (drop i xs))

  count_repeats-pairs :
      (k i t : ℕ) → k + i + p ≡ length xs → count_repeats k i p xs t ≡ t + how_many (from i)
  unfolding count_repeats how_many
  count_repeats-pairs zero i t h = rw (pairs_end i (omega (arith, h))) (omega arith)
  count_repeats-pairs (suc k) i t h =
      count_repeats-pairs k (i + 1) _ (omega (arith, h))
      ∙ rw (pairs-drop i (omega (arith, h))) (ground arith)

  sum_products-pairs :
      (k i t : ℕ) → k + i + p ≡ length xs → sum_products k i p xs t ≡ t + products (from i)
  unfolding sum_products products
  sum_products-pairs zero i t h = rw (pairs_end i (omega (arith, h))) (omega arith)
  sum_products-pairs (suc k) i t h =
      sum_products-pairs k (i + 1) _ (omega (arith, h))
      ∙ rw (pairs-drop i (omega (arith, h))) (omega arith)

  -- For a lag p of at most the number of samples, periodicity counts the equal pairs of samples p
  -- places apart, and covariance adds up their products.
  pub periodicity-pairs :
      p ≤ length xs
      → (periodicity xs p ≡ some (how_many (pairs xs (drop p xs))))
        × (covariance xs p ≡ products (pairs xs (drop p xs)))
  unfolding periodicity covariance
  periodicity-pairs h =
      let z : 0 + p ≡ p = omega arith in
      let e : length xs - p + 0 + p ≡ length xs = omega (arith, h) in
      (
        rw (le→leb p (length xs) h)
            (ap some (count_repeats-pairs (length xs - p) 0 0 e ∙ rw z (omega arith))),
        sum_products-pairs (length xs - p) 0 0 e ∙ rw z (omega arith),
      )
