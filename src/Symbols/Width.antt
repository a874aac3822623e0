-- ===== src/Symbols/Width.antt =====
-- How many bits the samples need, against the two scans for the highest bit in use:
-- internal/nist/cpp/shared/utils.h (read_file) and internal/nist/wrapper/wrapper.cpp (prepare_data).
use nist_sp_800_90b_go.Base.{
  ℕ, ◌+◌, ◌-◌, ◌^◌, ◌≤◌, ◌<◌, ◌≡◌, refl, ◌⊎◌, Bool, true, ◌&&◌, ◌||◌, List, [], ◌∷◌, arith, bit_or,
  dec_lt, get_elem?, some, All-get, ltb, leb, ◌==◌, every_below, every_below-holds, All,
}
use native.Mathlib.Nat.{one-le-pow, pow-le-pow_right}
use nist_sp_800_90b_go.Base.Bits.{bit_or-lt, le-bit_or}
use nist_sp_800_90b_go.Symbols.{data_mask, file_width, wrapper_width, word_size_for}

abbrev pub Fits : ℕ → List ℕ → Type 0
Fits w = All (λ x. x < 2 ^ w)

data_mask-lt : (w acc : ℕ) (xs : List ℕ) → acc < 2 ^ w → Fits w xs → data_mask acc xs < 2 ^ w
unfolding data_mask
data_mask-lt w acc [] h f = h
data_mask-lt w acc (x ∷ xs) h (p, f) = data_mask-lt w (bit_or acc x) xs (bit_or-lt w acc x h p) f

le-data_mask :
    (acc : ℕ) (xs : List ℕ) → (acc ≤ data_mask acc xs) × All (λ x. x ≤ data_mask acc xs) xs
unfolding data_mask
le-data_mask acc [] = (omega arith, tt)
le-data_mask acc (x ∷ xs) =
    let (up, rest) = le-data_mask (bit_or acc x) xs in
    let (l, r) = le-bit_or acc x in (omega arith, (omega arith, rest))

All-le-lt : (xs : List ℕ) {m n : ℕ} → All (λ x. x ≤ m) xs → m < n → All (λ x. x < n) xs
All-le-lt [] a h = tt
All-le-lt (x ∷ xs) (p, a) h = (omega arith, All-le-lt xs a h)

abbrev width_check : ℕ → Bool
width_check m =
    ltb m (2 ^ file_width m)
    && (file_width m == 0 || leb (2 ^ (file_width m - 1)) m)
    && leb (file_width m) 8
    && wrapper_width m == file_width m + 1

width_table : every_below 256 width_check ≡ true
unfolding every_below file_width wrapper_width
width_table = refl

width_facts :
    (m : ℕ)
    → m < 256
    → (m < 2 ^ file_width m)
      × ((file_width m ≡ 0) ⊎ (2 ^ (file_width m - 1) ≤ m))
      × (file_width m ≤ 8)
      × (wrapper_width m ≡ file_width m + 1)
width_facts m h = ground (arith, every_below-holds 256 width_check width_table m h)

data_mask-byte : (xs : List ℕ) → Fits 8 xs → data_mask 0 xs < 256
data_mask-byte xs f = data_mask-lt 8 0 xs (omega arith) f

-- The width that read_file finds for samples that are bytes is at most 8, every sample fits in it,
-- and it is the least width in which every sample fits.
pub file_width_least :
    (xs : List ℕ)
    → Fits 8 xs
    → let w = file_width (data_mask 0 xs) in (w ≤ 8) × Fits w xs × ((v : ℕ) → Fits v xs → w ≤ v)
file_width_least xs f =
    let m = data_mask 0 xs in
    let facts = width_facts m (data_mask-byte xs f) in
    (
      facts.2,
      All-le-lt xs (le-data_mask 0 xs).1 facts.0,
      λ v g. below v (data_mask-lt v 0 xs (one-le-pow v 2 (omega arith)) g),
    )
  where
    below : (v : ℕ) → data_mask 0 xs < 2 ^ v → file_width (data_mask 0 xs) ≤ v
    below v lt = elim (dec_lt v (file_width (data_mask 0 xs))) [
      | yes l ↦ absurd (
          omega (
            arith,
            (width_facts _ (data_mask-byte xs f)).1,
            pow-le-pow_right {n = 2} (omega arith) {i = v} {j = file_width (data_mask 0 xs) - 1}
                (omega arith),
          ))
      | no n ↦ omega arith
    ]

-- For samples that are bytes, the width that prepare_data detects when bits_per_symbol is 0 is one
-- more than the width that read_file finds; so it is never the least width in which they all fit.
pub word_size_for-auto :
    (xs : List ℕ) → Fits 8 xs → word_size_for 0 xs ≡ file_width (data_mask 0 xs) + 1
unfolding word_size_for
word_size_for-auto xs f = (width_facts _ (data_mask-byte xs f)).3

-- A sample that uses the highest bit of its byte makes the detected width 9.
pub word_size_for-high :
    (xs : List ℕ) (i x : ℕ) → Fits 8 xs → get_elem? xs i ≡ some x → 128 ≤ x → word_size_for 0 xs ≡ 9
word_size_for-high xs i x f e h =
    let m = data_mask 0 xs in
    let (bound, fits, _) = file_width_least xs f in
    let below : x < 2 ^ file_width m = All-get (λ y. y < 2 ^ file_width m) xs i fits e in
    omega (arith, word_size_for-auto xs f, high (file_width m) bound)
  where
    high : (w : ℕ) → w ≤ 8 → x < 2 ^ w → w ≡ 8
    high w le lt = elim (dec_lt w 8) [
      | yes l ↦
          absurd
            (omega (arith, pow-le-pow_right {n = 2} (omega arith) {i = w} {j = 7} (omega arith)))
      | no n ↦ omega arith
    ]

pub word_size_for-positive : (n : ℕ) (xs : List ℕ) → 1 ≤ word_size_for n xs
unfolding word_size_for wrapper_width
word_size_for-positive n xs = ground arith
