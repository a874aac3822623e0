-- ===== src/Counts/Markov.antt =====
-- The counts of markov_test, internal/nist/cpp/non_iid/markov_test.h.
use nist_sp_800_90b_go.Base.{
  ℕ, suc, ◌+◌, ◌-◌, ◌≤◌, ◌≡◌, Bool, true, false, List, [], ◌∷◌, arith, ◌==◌, if◌then◌else◌, length,
  lt→ltb, ◌<◌, refl, some, Bool-cases, inl, inr,
}
use nist_sp_800_90b_go.Counts.{MarkovCounts, markov_loop, markov_counts, markov_c_1, markov_step}

-- How many values in `xs` before the last are 0, and how many of the transitions go from 0 to 0, and
-- from another value to 0.
unfoldable pub zeros_before_last : List ℕ → ℕ
zeros_before_last [] = 0
zeros_before_last (x ∷ []) = 0
zeros_before_last (x ∷ y ∷ xs) =
    let rest = zeros_before_last (y ∷ xs) in if x == 0 then suc rest else rest

unfoldable pub transitions : (from_zero : ℕ → Bool) → List ℕ → ℕ
transitions p [] = 0
transitions p (x ∷ []) = 0
transitions p (x ∷ y ∷ xs) =
    let rest = transitions p (y ∷ xs) in if p x then (if y == 0 then suc rest else rest) else rest

abbrev pub is_zero : ℕ → Bool
is_zero x = x == 0

abbrev pub not_zero : ℕ → Bool
not_zero x = if x == 0 then false else true

-- `c` with the counts of `xs` added
abbrev Adds : List ℕ → MarkovCounts → MarkovCounts → Type 0
Adds xs c out =
    (out.c_0 ≡ c.c_0 + zeros_before_last xs)
    × (out.c_00 ≡ c.c_00 + transitions is_zero xs)
    × (out.c_10 ≡ c.c_10 + transitions not_zero xs)

markov_loop-Adds : (xs : List ℕ) (c : MarkovCounts) → Adds xs c (markov_loop xs c)
unfolding markov_loop markov_step zeros_before_last transitions
markov_loop-Adds [] c = omega arith
markov_loop-Adds (x ∷ []) c = omega arith
markov_loop-Adds (x ∷ y ∷ xs) c =
    let h = markov_loop-Adds (y ∷ xs) (markov_step x y c) in ground (arith, h)

zeros_before_last-le : (xs : List ℕ) → zeros_before_last xs ≤ length xs - 1
unfolding zeros_before_last
zeros_before_last-le [] = omega arith
zeros_before_last-le (x ∷ []) = omega arith
zeros_before_last-le (x ∷ y ∷ xs) = ground (arith, zeros_before_last-le (y ∷ xs))

transitions-le :
    (xs : List ℕ)
    → (transitions is_zero xs ≤ zeros_before_last xs)
      × (transitions not_zero xs + zeros_before_last xs ≤ length xs - 1)
unfolding transitions zeros_before_last
transitions-le [] = omega arith
transitions-le (x ∷ []) = omega arith
transitions-le (x ∷ y ∷ xs) =
    let h = transitions-le (y ∷ xs) in
    elim (Bool-cases (x == 0)) [
      | inl zero_x ↦ elim (Bool-cases (y == 0)) [
        | inl zero_y ↦ rw (zero_x, zero_y) (omega (arith, h))
        | inr other_y ↦ rw (zero_x, other_y) (omega (arith, h))
      ]
      | inr other_x ↦ elim (Bool-cases (y == 0)) [
        | inl zero_y ↦ rw (other_x, zero_y) (omega (arith, h))
        | inr other_y ↦ rw (other_x, other_y) (omega (arith, h))
      ]
    ]

-- From two bits on, markov_test's assertion holds, and it counts the zeros before the last bit and the
-- transitions from 0 to 0 and from 1 to 0; C_0 and C_1 add up to len - 1, and C_00 is at most C_0 and
-- C_10 at most C_1, so that the quotients C_00 / C_0 and C_10 / C_1 that it takes for probabilities are
-- at most 1.
pub markov_counts-transitions :
    (xs : List ℕ)
    → 1 < length xs
    → (c : MarkovCounts) × (markov_counts xs ≡ some c)
      × (c.c_0 ≡ zeros_before_last xs)
      × (c.c_00 ≡ transitions is_zero xs)
      × (c.c_10 ≡ transitions not_zero xs)
      × (c.c_0 + markov_c_1 xs c + 1 ≡ length xs)
      × (c.c_00 ≤ c.c_0)
      × (c.c_10 ≤ markov_c_1 xs c)
unfolding markov_c_1 markov_counts
markov_counts-transitions xs two =
    let start : MarkovCounts = record { c_0 = 0; c_00 = 0; c_10 = 0 } in
    let c = markov_loop xs start in
    let counts = markov_loop-Adds xs start in
    let zeros = zeros_before_last-le xs in
    let steps = transitions-le xs in
    (
      c,
      rw (lt→ltb 1 (length xs) two) refl,
      omega (arith, counts),
      omega (arith, counts),
      omega (arith, counts),
      omega (arith, counts, zeros),
      omega (arith, counts, steps),
      omega (arith, counts, steps, zeros),
    )
