-- ===== src/Symbols/Bitstring.antt =====
-- The bit string of internal/nist/wrapper/wrapper.cpp, prepare_data, read back by
-- compressedBitSymbols of internal/nist/cpp/shared/utils.h.
use native.Mathlib.Nat.{one-le-pow, pow-suc, mod-eq_of_lt, mod-lt, pow-le-pow_right}
use mathlib.Core.Option.{some-injective}
use nist_sp_800_90b_go.Base.{
  ℕ, zero, suc, ◌+◌, ◌-◌, ◌*◌, ◌/◌, ◌%◌, ◌^◌, ◌≤◌, ◌<◌, ◌≡◌, refl, ap, Option, none, some, List, [],
  ◌∷◌, ◌++◌, arith, bit_and, bit_or, leb, le→leb, All-append, if◌then◌else◌, length, get_elem?,
  get_or, ◌∙◌, drop, All, length-append,
}
use nist_sp_800_90b_go.Base.Bits.{bit_or_append, bit_and_mask, mod_digit}
use nist_sp_800_90b_go.Symbols.{bits_of, bitstring}

-- The loop of compressedBitSymbols over `S`, in uint32_t. `none` is a failed assertion, or a read
-- past the end.
pub pack_bits : (rounds acc : ℕ) → List ℕ → Option ℕ
pack_bits zero acc s = some acc
pack_bits (suc n) acc [] = none
pack_bits (suc n) acc (x ∷ s) =
    let rest = pack_bits n (bit_or (acc * 2 % 2 ^ 32) x) s in if leb x 1 then rest else none

pub compressed_bit_symbols : List ℕ → ℕ → Option ℕ
unfolding pack_bits
compressed_bit_symbols s n = if leb n 32 then pack_bits n 0 s else none

pub length-bits_of : (w raw : ℕ) → length (bits_of w raw) ≡ w
unfolding bits_of
length-bits_of zero raw = refl
length-bits_of (suc w) raw = ap suc (length-bits_of w raw)

digit : (a : ℕ) → bit_and a 1 ≡ a % 2
digit a = bit_and_mask 1 a

pub bits_of-bits : (w raw : ℕ) → All (λ b. b ≤ 1) (bits_of w raw)
unfolding bits_of
bits_of-bits zero raw = tt
bits_of-bits (suc w) raw = (omega (arith, digit (raw / 2 ^ w)), bits_of-bits w raw)

pack_bits-bits_of :
    (w acc raw : ℕ) (rest : List ℕ)
    → acc * 2 ^ w + 2 ^ w ≤ 2 ^ 32
    → pack_bits w acc (bits_of w raw ++ rest) ≡ some (acc * 2 ^ w + raw % 2 ^ w)
unfolding pack_bits bits_of
pack_bits-bits_of zero acc raw rest h = ap some (omega arith)
pack_bits-bits_of (suc w) acc raw rest h =
    let b = raw / 2 ^ w % 2 in
    let p : 1 ≤ 2 ^ w = one-le-pow w 2 (omega arith) in
    let e : 2 ^ suc w ≡ 2 ^ w * 2 = pow-suc 2 w in
    let g : acc ≤ acc * 2 ^ w = grind arith in
    let f : acc * 2 ^ suc w ≡ acc * 2 ^ w * 2 = omega (arith, ap (λ (t : ℕ). acc * t) e) in
    let bit : b ≤ 1 = omega arith in
    let room : (acc * 2 + b) * 2 ^ w + 2 ^ w ≤ 2 ^ 32 = grind arith in
    let small : acc * 2 < 2 ^ 32 = omega arith in
    let sums : (acc * 2 + b) * 2 ^ w + raw % 2 ^ w ≡ acc * 2 ^ suc w + raw % 2 ^ suc w =
      omega (arith, mod_digit w raw) in
    rw
      (
        digit (raw / 2 ^ w),
        le→leb b 1 bit,
        mod-eq_of_lt small,
        bit_or_append acc b bit,
        pack_bits-bits_of w (acc * 2 + b) raw rest room,
      )
      (ap some sums)

drop-append : (xs ys : List ℕ) (n : ℕ) → drop (length xs + n) (xs ++ ys) ≡ drop n ys
drop-append [] ys n = ap (λ k. drop k ys) (omega arith)
drop-append (x ∷ xs) ys n =
    let e : suc (length xs) + n ≡ suc (length xs + n) = omega arith in rw e (drop-append xs ys n)

pub length-bitstring : (w mask : ℕ) (xs : List ℕ) → length (bitstring w mask xs) ≡ length xs * w
unfolding bitstring
length-bitstring w mask [] = omega arith
length-bitstring w mask (x ∷ xs) = omega (
  arith,
  length-append (bits_of w (bit_and x mask)) (bitstring w mask xs),
  length-bits_of w (bit_and x mask),
  length-bitstring w mask xs,
)

pub bitstring-bits : (w mask : ℕ) (xs : List ℕ) → All (λ b. b ≤ 1) (bitstring w mask xs)
unfolding bitstring
bitstring-bits w mask [] = tt
bitstring-bits w mask (x ∷ xs) =
    All-append (λ b. b ≤ 1) (bits_of w (bit_and x mask)) (bitstring w mask xs)
      (bits_of-bits w (bit_and x mask)) (bitstring-bits w mask xs)

bits_of-get :
    (w raw j : ℕ) (rest : List ℕ)
    → j < w
    → get_or (bits_of w raw ++ rest) j 0 ≡ raw / 2 ^ (w - 1 - j) % 2
unfolding bits_of
bits_of-get zero raw j rest h = absurd (omega arith)
bits_of-get (suc w) raw zero rest h =
    digit (raw / 2 ^ w) ∙ ap (λ (n : ℕ). raw / 2 ^ n % 2) (omega arith)
bits_of-get (suc w) raw (suc j) rest h =
    bits_of-get w raw j rest (omega arith) ∙ ap (λ (n : ℕ). raw / 2 ^ n % 2) (omega arith)

get_or-after :
    (xs ys : List ℕ) (k m : ℕ) → m ≡ length xs + k → get_or (xs ++ ys) m 0 ≡ get_or ys k 0
get_or-after [] ys k m e = ap (λ (t : ℕ). get_or ys t 0) (omega arith)
get_or-after (x ∷ xs) ys k zero e = absurd (omega arith)
get_or-after (x ∷ xs) ys k (suc m) e = get_or-after xs ys k m (omega arith)

-- Place `i * w + j` has bit `w - 1 - j` of sample `i`.
pub bitstring-get :
    (w : ℕ) (xs : List ℕ) (i x j : ℕ)
    → get_elem? xs i ≡ some x
    → j < w
    → get_or (bitstring w (2 ^ w - 1) xs) (i * w + j) 0 ≡ x % 2 ^ w / 2 ^ (w - 1 - j) % 2
unfolding bitstring
bitstring-get w [] i x j e h = absurd (cc)
bitstring-get w (y ∷ ys) zero x j e h =
    let rest = bitstring w (2 ^ w - 1) ys in
    let y' = bit_and y (2 ^ w - 1) in
    ap (λ (m : ℕ). get_or (bits_of w y' ++ rest) m 0) (omega arith)
    ∙ bits_of-get w y' j rest h
    ∙ ap (λ (n : ℕ). n / 2 ^ (w - 1 - j) % 2)
        (bit_and_mask w y ∙ ap (λ (n : ℕ). n % 2 ^ w) (some-injective y x e))
bitstring-get w (y ∷ ys) (suc i) x j e h =
    let y' = bit_and y (2 ^ w - 1) in
    get_or-after (bits_of w y') (bitstring w (2 ^ w - 1) ys) (i * w + j) (suc i * w + j)
      (omega (arith, length-bits_of w y'))
    ∙ bitstring-get w ys i x j e h

-- For words of at most 32 bits, compressedBitSymbols at the place of sample `i` in the bit string
-- gives back the low `w` bits of that sample, read with the highest bit first.
pub compressed_bit_symbols-bitstring :
    (w : ℕ) (xs : List ℕ) (i x : ℕ)
    → w ≤ 32
    → get_elem? xs i ≡ some x
    → compressed_bit_symbols (drop (i * w) (bitstring w (2 ^ w - 1) xs)) w ≡ some (x % 2 ^ w)
unfolding bitstring compressed_bit_symbols
compressed_bit_symbols-bitstring w [] i x h e = absurd (cc)
compressed_bit_symbols-bitstring w (y ∷ ys) zero x h e =
    let m = 2 ^ w - 1 in
    let p : 1 ≤ 2 ^ w = one-le-pow w 2 (omega arith) in
    let z : zero * w ≡ 0 = omega arith in
    let le : 2 ^ w ≤ 2 ^ 32 = pow-le-pow_right {n = 2} (omega arith) {i = w} {j = 32} h in
    let s = bit_and y m in
    let read = pack_bits-bits_of w 0 s (bitstring w m ys) (omega arith) in
    let ex : y ≡ x = some-injective y x e in
    let es : s ≡ x % 2 ^ w = rw (bit_and_mask w y, ex) refl in
    let lt : s < 2 ^ w = omega (arith, es, mod-lt x {m = 2 ^ w} p) in
    let same : 0 * 2 ^ w + s % 2 ^ w ≡ x % 2 ^ w = omega (arith, es, mod-eq_of_lt lt) in
    rw (z, le→leb w 32 h, read) (ap some same)
compressed_bit_symbols-bitstring w (y ∷ ys) (suc i) x h e =
    let m = 2 ^ w - 1 in
    let z : suc i * w ≡ length (bits_of w (bit_and y m)) + i * w =
      omega (arith, length-bits_of w (bit_and y m)) in
    rw (z, drop-append (bits_of w (bit_and y m)) (bitstring w m ys) (i * w))
      (compressed_bit_symbols-bitstring w ys i x h e)
