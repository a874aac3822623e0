-- ===== src/Generator/Range.antt =====
-- randomRange64 of internal/nist/cpp/shared/utils.h: its range, and the words that give one result.
use native.Mathlib.Nat.{
  mod-lt, mod-eq_of_lt, div-add-mod, add-mul-mod_self_left, mul-le-mul, mul-le-mul_left,
}
use nist_sp_800_90b_go.Base.{
  ℕ, zero, suc, ◌+◌, ◌-◌, ◌*◌, ◌/◌, ◌%◌, ◌^◌, ◌≤◌, ◌<◌, ◌≡◌, refl, ◌↔◌, ap, sym, ◌∙◌, dec_lt, Bool,
  true, some, not, arith, ltb, ◌==◌, Bool-cases, ==_iff, inl, inr, ◌||◌,
}
use nist_sp_800_90b_go.Generator.{
  State, xoshiro256starstar, low_word, high_word, threshold, redraw, random_range64,
}
use nist_sp_800_90b_go.Generator.Words.{IsState, xoshiro256starstar-IsState}

-- (2 ^ 64 - n) mod n is 2 ^ 64 mod n.
threshold_lem : (n : ℕ) → 1 ≤ n → n < 2 ^ 64 → threshold n ≡ 2 ^ 64 % n
unfolding threshold
threshold_lem n p h =
    let m : (2 ^ 64 - n) % 2 ^ 64 ≡ 2 ^ 64 - n = omega arith in
    let e : 2 ^ 64 ≡ 2 ^ 64 - n + n * 1 = omega arith in
    rw m (sym (ap (λ (t : ℕ). t % n) e ∙ add-mul-mod_self_left (2 ^ 64 - n) n 1))

product-lt : (n x : ℕ) → n < 2 ^ 64 → x < 2 ^ 64 → x * n < 2 ^ 128
product-lt n x h k =
    let le : x * n ≤ (2 ^ 64 - 1) * (2 ^ 64 - 1) =
      mul-le-mul {n₂ = 2 ^ 64 - 1} {m₂ = 2 ^ 64 - 1} (omega arith) (omega arith) in
    omega arith

-- `(p + (n - 1)) / n` is the least number that times `n` reaches `p`.
ceiling : (n p : ℕ) → 1 ≤ n → let c = (p + (n - 1)) / n in (p ≤ n * c) × (n * c < p + n)
ceiling n p h = omega (arith, div-add-mod (p + (n - 1)) n, mod-lt (p + (n - 1)) {m = n} h)

-- The multiples of `n` in [p, p + n * q) are those of the `q` numbers from the ceiling on.
multiples :
    (n p q x : ℕ)
    → 1 ≤ n
    → let c = (p + (n - 1)) / n in ((p ≤ n * x) × (n * x < p + n * q)) ↔ ((c ≤ x) × (x < c + q))
multiples n p q x h = (into, out)
  where
    c : ℕ
    c = (p + (n - 1)) / n

    scaled : (a b : ℕ) → a ≤ b → n * a ≤ n * b
    scaled a b le = mul-le-mul_left n le

    into : (p ≤ n * x) × (n * x < p + n * q) → (c ≤ x) × (x < c + q)
    into (lo, hi) = (
      elim (dec_lt x c) [
        | yes lt ↦ absurd (omega (arith, ceiling n p h, scaled (x + 1) c (omega arith)))
        | no ge ↦ omega arith
      ],
      elim (dec_lt x (c + q)) [
        | yes lt ↦ lt
        | no ge ↦ absurd (omega (arith, ceiling n p h, scaled (c + q) x (omega arith)))
      ],
    )

    out : (c ≤ x) × (x < c + q) → (p ≤ n * x) × (n * x < p + n * q)
    out (lo, hi) = omega (arith, ceiling n p h, scaled c x lo, scaled (x + 1) (c + q) (omega arith))

words :
    (n x : ℕ)
    → n < 2 ^ 64
    → x < 2 ^ 64
    → 1 ≤ n
    → (low_word n x ≡ n * x % 2 ^ 64) × (high_word n x ≡ n * x / 2 ^ 64)
unfolding low_word high_word
words n x h k p =
    let small = product-lt n x h k in
    let e : x * n % 2 ^ 128 ≡ n * x = omega arith in
    let lt : n * x / 2 ^ 64 < 2 ^ 64 = omega arith in (rw e refl, rw e (mod-eq_of_lt lt))

-- The generator's word `x` is not rejected for the range [0, n).
unfoldable pub accepted : (n x : ℕ) → Bool
accepted n x = not (ltb (low_word n x) (threshold n))

accepted_iff : (n x : ℕ) → (accepted n x ≡ true) ↔ (threshold n ≤ low_word n x)
unfolding accepted
accepted_iff n x = ground arith

-- A draw that is accepted gives `r` exactly when it lies among 2 ^ 64 / n consecutive words, whose
-- number does not depend on `r`: for every range [0, n) and every word `x`, each result is as likely
-- as any other.
pub high_word_unbiased :
    (n r x : ℕ)
    → 1 ≤ n
    → n < 2 ^ 64
    → r < n
    → x < 2 ^ 64
    → let first = (r * 2 ^ 64 + 2 ^ 64 % n + (n - 1)) / n in
      ((accepted n x ≡ true) × (high_word n x ≡ r)) ↔ ((first ≤ x) × (x < first + 2 ^ 64 / n))
unfolding accepted
high_word_unbiased n r x p h k l =
    let (low, high) = words n x h l p in
    let t = threshold_lem n p h in
    let split : n * (2 ^ 64 / n) + 2 ^ 64 % n ≡ 2 ^ 64 = div-add-mod (2 ^ 64) n in
    let many = multiples n (r * 2 ^ 64 + 2 ^ 64 % n) (2 ^ 64 / n) x p in
    (
      λ (ok, hit). many.0 (
        omega (arith, low, high, t, hit, (accepted_iff n x).0 ok),
        omega (arith, low, high, t, hit, split),
      ),
      λ range.
          let (lo, hi) = many.1 range in
          (
            (accepted_iff n x).1 (omega (arith, low, t, lo, hi, split)),
            omega (arith, high, lo, hi, split),
          ),
    )

-- One of the words from `x` on is accepted within the fuel.
unfoldable pub accepts_within : (fuel n x : ℕ) → State → Bool
unfolding accepted
accepts_within zero n x st = accepted n x
accepts_within (suc f) n x st =
    accepted n x || accepts_within f n (xoshiro256starstar st).0 (xoshiro256starstar st).1

high_word-lt : (n x : ℕ) → 1 ≤ n → n < 2 ^ 64 → x < 2 ^ 64 → high_word n x < n
high_word-lt n x p h l =
    omega (arith, (words n x h l p).1, mul-le-mul_left {m = x} {n = 2 ^ 64 - 1} n (omega arith))

abbrev Drawn : ℕ → ℕ × State → Type 0
Drawn n (r, st) = (r < n) × IsState st

redraw_lem :
    (f n x : ℕ) (st : State)
    → 1 ≤ n
    → n < 2 ^ 64
    → x < 2 ^ 64
    → IsState st
    → accepts_within f n x st ≡ true
    → (out : ℕ × State) × (redraw f n x st ≡ some out) × Drawn n out
unfolding redraw accepts_within
redraw_lem zero n x st p h l v ok = ((high_word n x, st), ground arith, (high_word-lt n x p h l, v))
redraw_lem (suc f) n x st p h l v ok = elim (Bool-cases (ltb (low_word n x) (threshold n))) [
  | inl reject ↦
      let (lt, v') = xoshiro256starstar-IsState st v in
      let (out, e, d) = redraw_lem f n _ _ p h lt v' (ground (arith, reject)) in
      (out, rw reject e, d)
  | inr accept ↦ ((high_word n x, st), rw accept refl, (high_word-lt n x p h l, v))
]

-- One of the words that a call of randomRange64 draws is accepted within the fuel.
unfoldable pub draws_within : (fuel s : ℕ) → State → Bool
unfolding accepts_within
draws_within fuel s st =
    s == 2 ^ 64 - 1
    || accepts_within fuel (s + 1) (xoshiro256starstar st).0 (xoshiro256starstar st).1

-- From words of 64 bits, randomRange64 returns a result in [0, s] as soon as one of its draws is
-- accepted, and leaves words of 64 bits.
pub random_range64_bounds :
    (fuel s : ℕ) (st : State)
    → s < 2 ^ 64
    → IsState st
    → draws_within fuel s st ≡ true
    → (r : ℕ) × (st' : State) × (random_range64 fuel s st ≡ some (r, st')) × (r ≤ s) × IsState st'
unfolding random_range64 draws_within
random_range64_bounds fuel s st h v ok =
    let (lt, v') = xoshiro256starstar-IsState st v in
    let (x, st') = xoshiro256starstar st in
    elim (Bool-cases (s == 2 ^ 64 - 1)) [
      | inl all ↦ (x, st', rw all refl, omega (arith, (==_iff s (2 ^ 64 - 1)).0 all), v')
      | inr part ↦ elim (Bool-cases (ltb (low_word (s + 1) x) (s + 1))) [
        | inl slow ↦
            let n : s + 1 < 2 ^ 64 = ground (arith, part) in
            let (out, e, d) = redraw_lem fuel (s + 1) x st' (omega arith) n lt v' (rw part at ok) in
            (out.0, out.1, rw (part, slow) e, omega (arith, d.0), d.1)
        | inr fast ↦
            let n : s + 1 < 2 ^ 64 = ground (arith, part) in
            (
              high_word (s + 1) x,
              st',
              rw (part, fast) refl,
              omega (arith, high_word-lt (s + 1) x (omega arith) n lt),
              v',
            )
      ]
    ]
