-- ===== src/Permutation/Rises.antt =====
-- num_increases_decreases of internal/nist/cpp/iid/permutation_tests.h on the sequence that
-- alt_sequence1 makes, against the steps of the samples.
use nist_sp_800_90b_go.Base.{
  ℕ, suc, ◌+◌, ◌≡◌, refl, ◌∙◌, List, [], ◌∷◌, arith, ltb, if◌then◌else◌, length, max, Bool-cases,
  ◌<◌, some, ℤ, inl, inr,
}
use nist_sp_800_90b_go.Permutation.{alt_sequence1, directions, count_ones, num_increases_decreases}

-- The steps from a sample to the next that do not go down, and those that do.
unfoldable pub rises : List ℕ → ℕ
rises [] = 0
rises (x ∷ []) = 0
rises (x ∷ y ∷ xs) = let rest = rises (y ∷ xs) in if ltb y x then rest else suc rest

unfoldable pub falls : List ℕ → ℕ
falls [] = 0
falls (x ∷ []) = 0
falls (x ∷ y ∷ xs) = let rest = falls (y ∷ xs) in if ltb y x then suc rest else rest

count_ones-directions : (xs : List ℕ) (n : ℕ) → count_ones (directions xs) n ≡ n + rises xs
unfolding count_ones directions rises
count_ones-directions [] n = omega arith
count_ones-directions (x ∷ []) n = omega arith
count_ones-directions (x ∷ y ∷ xs) n = elim (Bool-cases (ltb y x)) [
  | inl down ↦ rw down (count_ones-directions (y ∷ xs) n)
  | inr up ↦ rw up (count_ones-directions (y ∷ xs) (suc n) ∙ omega arith)
]

length-directions : (xs : List ℕ) → length (directions xs) ≡ rises xs + falls xs
unfolding directions rises falls
length-directions [] = refl
length-directions (x ∷ []) = refl
length-directions (x ∷ y ∷ xs) = ground (arith, length-directions (y ∷ xs))

-- For at least one sample, alt_sequence1 does not throw, and num_increases_decreases of the directions
-- that it gives is the number of steps that do not go down or the number of steps that do, whichever
-- is larger.
pub num_increases_decreases-alt_sequence1 :
    (xs : List ℕ)
    → 0 < length xs
    → (ret : List ℤ) × (alt_sequence1 xs ≡ some ret)
      × (num_increases_decreases ret ≡ max (rises xs) (falls xs))
unfolding num_increases_decreases alt_sequence1
num_increases_decreases-alt_sequence1 [] h = absurd (omega arith)
num_increases_decreases-alt_sequence1 (x ∷ xs) h = (
  directions (x ∷ xs),
  refl,
  ground (arith, count_ones-directions (x ∷ xs) 0, length-directions (x ∷ xs)),
)
