-- ===== src/Base/Bits.antt =====
-- Laws of `&`, `|` and `^` at variables, from the recursion on binary digits that they stand for.
use Prim.Native.Nat.{
  ℕ, zero, suc, ◌+◌, ◌*◌, ◌/◌, ◌%◌, ◌-◌, ◌^◌, ◌≤◌, ◌<◌, min, max, bit_and, bit_or, bit_xor, digits,
  bitwise, differ, bit_and-bitwise, bit_or-bitwise, bit_xor-bitwise,
}
use mathlib.Core.Path.{◌≡◌, refl, ap, ◌∙◌}
use native.Mathlib.Nat.{
  le_refl, pow-suc, one-le-pow, mod-lt, mod-eq_of_lt, div-add-mod, add_comm, zero-add,
}
use native.Mathlib.Nat.{add-mul-mod_self_left}
use native.Mathlib.Omega.{arith}

module _ (rest : ℕ → ℕ) (digit : ℕ → ℕ → ℕ) where
  -- One round of fuel more changes nothing once there is a round for each halving.
  spare_round :
      (rounds x y : ℕ)
      → x ≤ rounds
      → digits rest digit (suc rounds) x y ≡ digits rest digit rounds x y
  spare_round zero zero y h = refl
  spare_round zero (suc x) y h = absurd (omega arith)
  spare_round (suc rounds) zero y h = refl
  spare_round (suc rounds) (suc x) y h =
      omega (arith, spare_round rounds (suc x / 2) (y / 2) (omega arith))

  spare_rounds :
      (more rounds x y : ℕ)
      → x ≤ rounds
      → digits rest digit (more + rounds) x y ≡ digits rest digit rounds x y
  spare_rounds zero rounds x y h = ap (λ t. digits rest digit t x y) (zero-add rounds)
  spare_rounds (suc more) rounds x y h =
      ap (λ t. digits rest digit t x y) (suc_left more rounds)
      ∙ spare_round (more + rounds) x y (omega arith)
      ∙ spare_rounds more rounds x y h
    where
      suc_left : (m n : ℕ) → suc m + n ≡ suc (m + n)
      suc_left m n = omega arith

  halve-bitwise :
      (x y : ℕ)
      → 1 ≤ x
      → bitwise rest digit x y ≡ digit (x % 2) (y % 2) + 2 * bitwise rest digit (x / 2) (y / 2)
  halve-bitwise zero y h = absurd (omega arith)
  halve-bitwise (suc x) y h =
      let half = suc x / 2 in
      let enough : (x - half) + half ≡ x = omega arith in
      let same = spare_rounds (x - half) half half (y / 2) (le_refl half) in
      omega (arith, ap (λ t. digits rest digit t half (y / 2)) enough, same)

pub bit_or_halves : (x y : ℕ) → bit_or x y ≡ max (x % 2) (y % 2) + 2 * bit_or (x / 2) (y / 2)
bit_or_halves zero y = simp bit_or-bitwise (omega arith)
bit_or_halves (suc x) y =
    rw (bit_or-bitwise (suc x) y, bit_or-bitwise (suc x / 2) (y / 2))
      (halve-bitwise (λ t. t) max (suc x) y (omega arith))

pub bit_and_halves : (x y : ℕ) → bit_and x y ≡ min (x % 2) (y % 2) + 2 * bit_and (x / 2) (y / 2)
bit_and_halves zero y = simp bit_and-bitwise (omega arith)
bit_and_halves (suc x) y =
    rw (bit_and-bitwise (suc x) y, bit_and-bitwise (suc x / 2) (y / 2))
      (halve-bitwise (λ t. 0) min (suc x) y (omega arith))

-- A result fits the bits that both arguments fit.
pub bit_or-lt : (k a b : ℕ) → a < 2 ^ k → b < 2 ^ k → bit_or a b < 2 ^ k
bit_or-lt zero zero zero p q = omega (arith, bit_or_halves 0 0)
bit_or-lt zero zero (suc b) p q = absurd (omega arith)
bit_or-lt zero (suc a) b p q = absurd (omega arith)
bit_or-lt (suc k) a b p q = omega (
  arith,
  pow-suc 2 k,
  bit_or_halves a b,
  bit_or-lt k (a / 2) (b / 2) (omega (arith, pow-suc 2 k)) (omega (arith, pow-suc 2 k)),
)

le-bit_or_fuel : (n a b : ℕ) → a + b ≤ n → (a ≤ bit_or a b) × (b ≤ bit_or a b)
le-bit_or_fuel zero a b h = omega arith
le-bit_or_fuel (suc n) zero zero h = omega arith
le-bit_or_fuel (suc n) zero (suc b) h =
    omega (arith, bit_or_halves 0 (suc b), le-bit_or_fuel n 0 (suc b / 2) (omega arith))
le-bit_or_fuel (suc n) (suc a) b h =
    omega (arith, bit_or_halves (suc a) b, le-bit_or_fuel n (suc a / 2) (b / 2) (omega arith))

pub le-bit_or : (a b : ℕ) → (a ≤ bit_or a b) × (b ≤ bit_or a b)
le-bit_or a b = le-bit_or_fuel (a + b) a b (le_refl _)

-- Halving a number leads down to 0.
by_halves :
    (P : ℕ → Type 0) → P 0 → ((x : ℕ) → P (suc x / 2) → P (suc x)) → (bound x : ℕ) → x ≤ bound → P x
by_halves P base step bound zero h = base
by_halves P base step zero (suc x) h = absurd (omega arith)
by_halves P base step (suc bound) (suc x) h =
    step x (by_halves P base step bound (suc x / 2) (omega arith))

bit_and-zero : (a : ℕ) → bit_and a 0 ≡ 0
bit_and-zero a =
    by_halves (λ x. bit_and x 0 ≡ 0) refl (λ x ih. omega (arith, bit_and_halves (suc x) 0, ih)) a a
      (le_refl a)

mod_unique : (a m q r : ℕ) → a ≡ m * q + r → r < m → a % m ≡ r
mod_unique a m q r e h = rw (e, add_comm (m * q) r, add-mul-mod_self_left) (mod-eq_of_lt h)

mod-double : (a m : ℕ) → 1 ≤ m → a % (m * 2) ≡ a / 2 % m * 2 + a % 2
mod-double a m h =
    mod_unique a (m * 2) (a / 2 / m) (a / 2 % m * 2 + a % 2)
      (omega (arith, ap (λ (t : ℕ). t * 2) (div-add-mod (a / 2) m)))
      (omega (arith, mod-lt (a / 2) {m = m} h))

bit_or-zero : (a : ℕ) → bit_or a 0 ≡ a
bit_or-zero a =
    by_halves (λ x. bit_or x 0 ≡ x) refl (λ x ih. omega (arith, bit_or_halves (suc x) 0, ih)) a a
      (le_refl a)

-- Appending a binary digit.
pub bit_or_append : (a b : ℕ) → b ≤ 1 → bit_or (a * 2) b ≡ a * 2 + b
bit_or_append a b h =
    let e : a * 2 / 2 ≡ a = omega arith in
    let z : b / 2 ≡ 0 = omega arith in rw (bit_or_halves, e, z, bit_or-zero a) (omega arith)

-- The remainder by `2 ^ suc k` has the digit `a / 2 ^ k % 2` above the remainder by `2 ^ k`.
pub mod_digit : (k a : ℕ) → a % 2 ^ suc k ≡ a / 2 ^ k % 2 * 2 ^ k + a % 2 ^ k
mod_digit k a =
    let m = 2 ^ k in
    let p : 1 ≤ m = one-le-pow k 2 (omega arith) in
    let lt = mod-lt a {m = m} p in
    let q = a / m in
    mod_unique a (2 ^ suc k) (q / 2) (q % 2 * m + a % m)
      (omega (
        arith,
        pow-suc 2 k,
        div-add-mod a m,
        ap (λ (t : ℕ). t * (q / 2)) (pow-suc 2 k),
        ap (λ (t : ℕ). m * t) (div-add-mod q 2),
      ))
      (grind (arith, pow-suc 2 k, mod-lt q {m = 2} (omega arith)))

-- A mask of `k` low bits is the remainder by `2 ^ k`.
pub bit_and_mask : (k a : ℕ) → bit_and a (2 ^ k - 1) ≡ a % 2 ^ k
bit_and_mask zero a = omega (arith, bit_and-zero a)
bit_and_mask (suc k) a =
    let p : 1 ≤ 2 ^ k = one-le-pow k 2 (omega arith) in
    let half : (2 ^ suc k - 1) / 2 ≡ 2 ^ k - 1 = omega (arith, pow-suc 2 k) in
    let odd : (2 ^ suc k - 1) % 2 ≡ 1 = omega (arith, pow-suc 2 k) in
    rw (bit_and_halves, half, odd, bit_and_mask k (a / 2), pow-suc, mod-double a (2 ^ k) p)
      (omega arith)

differ-le : (a b : ℕ) → a ≤ 1 → b ≤ 1 → differ a b ≤ 1
differ-le zero b p q = q
differ-le (suc a) zero p q = omega arith
differ-le (suc zero) (suc zero) p q = omega arith
differ-le (suc zero) (suc (suc b)) p q = absurd (omega arith)
differ-le (suc (suc a)) (suc b) p q = absurd (omega arith)

bit_xor_digits : (x y : ℕ) → bit_xor x y ≡ differ (x % 2) (y % 2) + 2 * bit_xor (x / 2) (y / 2)
bit_xor_digits zero y = simp bit_xor-bitwise (omega (arith, low-lone (y % 2)))
  where
    low-lone : (t : ℕ) → differ 0 t ≡ t
    low-lone t = refl
bit_xor_digits (suc x) y =
    rw (bit_xor-bitwise (suc x) y, bit_xor-bitwise (suc x / 2) (y / 2))
      (halve-bitwise (λ t. t) differ (suc x) y (omega arith))

pub bit_xor-lt : (k a b : ℕ) → a < 2 ^ k → b < 2 ^ k → bit_xor a b < 2 ^ k
bit_xor-lt zero zero zero p q = omega arith
bit_xor-lt zero zero (suc b) p q = absurd (omega arith)
bit_xor-lt zero (suc a) b p q = absurd (omega arith)
bit_xor-lt (suc k) a b p q = omega (
  arith,
  pow-suc 2 k,
  bit_xor_digits a b,
  differ-le (a % 2) (b % 2) (omega arith) (omega arith),
  bit_xor-lt k (a / 2) (b / 2) (omega (arith, pow-suc 2 k)) (omega (arith, pow-suc 2 k)),
)

pub bit_xor-zero : (a : ℕ) → bit_xor a 0 ≡ a
bit_xor-zero a =
    by_halves (λ x. bit_xor x 0 ≡ x) refl
      (λ x ih. omega (arith, bit_xor_digits (suc x) 0, low (suc x % 2) (omega arith), ih)) a a
      (le_refl a)
  where
    low : (d : ℕ) → d ≤ 1 → differ d 0 ≡ d
    low zero h = refl
    low (suc zero) h = refl
    low (suc (suc d)) h = absurd (omega arith)

pub zero-bit_xor : (a : ℕ) → bit_xor 0 a ≡ a
zero-bit_xor a = simp bit_xor-bitwise

differ_assoc : (a b c : ℕ) → a ≤ 1 → b ≤ 1 → c ≤ 1 → differ (differ a b) c ≡ differ a (differ b c)
differ_assoc zero b c p q r = refl
differ_assoc (suc zero) zero c p q r = refl
differ_assoc (suc zero) (suc zero) zero p q r = refl
differ_assoc (suc zero) (suc zero) (suc zero) p q r = refl
differ_assoc (suc zero) (suc zero) (suc (suc c)) p q r = absurd (omega arith)
differ_assoc (suc zero) (suc (suc b)) c p q r = absurd (omega arith)
differ_assoc (suc (suc a)) b c p q r = absurd (omega arith)

bit_xor_halves :
    (a b : ℕ)
    → (bit_xor a b / 2 ≡ bit_xor (a / 2) (b / 2)) × (bit_xor a b % 2 ≡ differ (a % 2) (b % 2))
bit_xor_halves a b =
    omega (arith, bit_xor_digits a b, differ-le (a % 2) (b % 2) (omega arith) (omega arith))

bit_xor_assoc_fuel :
    (n a b c : ℕ) → a + b + c ≤ n → bit_xor (bit_xor a b) c ≡ bit_xor a (bit_xor b c)
bit_xor_assoc_fuel n zero b c h = rw (zero-bit_xor b, zero-bit_xor (bit_xor b c)) refl
bit_xor_assoc_fuel zero (suc a) b c h = absurd (omega arith)
bit_xor_assoc_fuel (suc n) (suc a) b c h =
    let d = suc a in
    let (h1, l1) = bit_xor_halves d b in
    let (h2, l2) = bit_xor_halves b c in
    let ih = bit_xor_assoc_fuel n (d / 2) (b / 2) (c / 2) (omega arith) in
    let low = differ_assoc (d % 2) (b % 2) (c % 2) (omega arith) (omega arith) (omega arith) in
    rw (bit_xor_digits (bit_xor d b) c, h1, l1, ih, low, bit_xor_digits d (bit_xor b c), h2, l2)
      refl

pub bit_xor_assoc : (a b c : ℕ) → bit_xor (bit_xor a b) c ≡ bit_xor a (bit_xor b c)
bit_xor_assoc a b c = bit_xor_assoc_fuel (a + b + c) a b c (le_refl _)

pub bit_xor_self : (a : ℕ) → bit_xor a a ≡ 0
bit_xor_self a =
    by_halves (λ x. bit_xor x x ≡ 0) refl
      (λ x ih. omega (arith, bit_xor_digits (suc x) (suc x), same (suc x % 2) (omega arith), ih)) a
      a (le_refl a)
  where
    same : (d : ℕ) → d ≤ 1 → differ d d ≡ 0
    same zero h = refl
    same (suc zero) h = refl
    same (suc (suc d)) h = absurd (omega arith)

-- What leaves a number unchanged is 0.
pub bit_xor_fixed : (a b : ℕ) → bit_xor a b ≡ b → a ≡ 0
bit_xor_fixed a b e = rw (← bit_xor-zero a, ← bit_xor_self b, ← bit_xor_assoc a b b, e) refl
