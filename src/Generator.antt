-- ===== src/Generator.antt =====
-- internal/nist/cpp/shared/utils.h: the generator xoshiro256**, its jump function, randomRange64
-- and FYshuffle. Words are uint64_t, with every wrap written out.
pub mod Words
pub mod Range
pub mod Jump
pub mod Shuffle
mod Tests
use nist_sp_800_90b_go.Base.{
  ℕ, zero, suc, ◌+◌, ◌-◌, ◌*◌, ◌/◌, ◌%◌, ◌^◌, Bool, true, false, Option, none, some, List, [], ◌∷◌,
  bit_and, bit_or, bit_xor, ltb, ◌==◌, if◌then◌else◌, length, get_or, set,
}

pub record State : Type 0 where
  pub s0 : ℕ
  pub s1 : ℕ
  pub s2 : ℕ
  pub s3 : ℕ

pub rotl : ℕ → ℕ → ℕ
rotl x k = bit_or (x * 2 ^ k % 2 ^ 64) (x / 2 ^ (64 - k))

pub xoshiro256starstar : State → ℕ × State
unfolding rotl
xoshiro256starstar st =
    let result = rotl (st.s1 * 5 % 2 ^ 64) 7 * 9 % 2 ^ 64 in
    let t = st.s1 * 2 ^ 17 % 2 ^ 64 in
    let b2 = bit_xor st.s2 st.s0 in
    let b3 = bit_xor st.s3 st.s1 in
    let b1 = bit_xor st.s1 b2 in
    let b0 = bit_xor st.s0 b3 in
    (result, record { s0 = b0; s1 = b1; s2 = bit_xor b2 t; s3 = rotl b3 45 })

abbrev pub xor_state : State → State → State
xor_state a b = record {
  s0 = bit_xor a.s0 b.s0;
  s1 = bit_xor a.s1 b.s1;
  s2 = bit_xor a.s2 b.s2;
  s3 = bit_xor a.s3 b.s3;
}

-- `for(b = 0; b < 64; b++)` over one word of JUMP, with `rounds` = 64 - b to go
pub jump_bits : (rounds b word : ℕ) → State → State → State × State
jump_bits zero b word acc st = (acc, st)
jump_bits (suc k) b word acc st =
    jump_bits k (b + 1) word (if bit_and word (2 ^ b) == 0 then acc else xor_state acc st)
      (xoshiro256starstar st).1

pub jump_words : List ℕ → State → State → State × State
jump_words [] acc st = (acc, st)
jump_words (word ∷ ws) acc st =
    let (acc', st') = jump_bits 64 0 word acc st in jump_words ws acc' st'

pub jump_table : List ℕ
jump_table = 0x180ec6d33cfd0aba ∷ 0xd5a61266f0c9392c ∷ 0xa9582618e03fc9aa ∷ 0x39abdc4529b1661c ∷ []

-- `s0` to `s3` are cleared before the loop over `j`, and not within it.
pub jump_loop : (rounds : ℕ) → State → State → State
jump_loop zero acc st = st
jump_loop (suc k) acc st = let (acc', st') = jump_words jump_table acc st in jump_loop k acc' acc'

abbrev pub zero_state : State
zero_state = record { s0 = 0; s1 = 0; s2 = 0; s3 = 0 }

pub xoshiro_jump : ℕ → State → State
unfolding jump_loop jump_words jump_bits jump_table xoshiro256starstar
xoshiro_jump count st = jump_loop count zero_state st

-- `m = (uint128_t)x * (uint128_t)s` for the incremented `s`, its low and its high word, and
-- `t = ((uint64_t)(-s)) % s`
pub low_word : (s x : ℕ) → ℕ
low_word s x = x * s % 2 ^ 128 % 2 ^ 64

pub high_word : (s x : ℕ) → ℕ
high_word s x = x * s % 2 ^ 128 / 2 ^ 64 % 2 ^ 64

pub threshold : ℕ → ℕ
threshold s = (2 ^ 64 - s) % 2 ^ 64 % s

-- `while(l < t)`: draw again. `none` means that the fuel ran out.
pub redraw : (fuel s x : ℕ) → State → Option (ℕ × State)
redraw zero s x st = if ltb (low_word s x) (threshold s) then none else some (high_word s x, st)
redraw (suc f) s x st =
    let rest = redraw f s (xoshiro256starstar st).0 (xoshiro256starstar st).1 in
    if ltb (low_word s x) (threshold s) then rest else some (high_word s x, st)

pub random_range64 : (fuel s : ℕ) → State → Option (ℕ × State)
unfolding redraw low_word high_word threshold xoshiro256starstar
random_range64 fuel s st =
    let (x, st') = xoshiro256starstar st in
    if s == 2 ^ 64 - 1
    then some (x, st')
    else (if ltb (low_word (s + 1) x) (s + 1)
        then redraw fuel (s + 1) x st'
        else some (high_word (s + 1) x, st'))

-- SWAP(data[r], data[i])
pub swap : List ℕ → ℕ → ℕ → List ℕ
swap xs r i = set (set xs r (get_or xs i 0)) i (get_or xs r 0)

-- `for(i = sample_size - 1; i > 0; --i)`, started at `i`
pub shuffle_from : (fuel i : ℕ) → List ℕ → List ℕ → State → Option (List ℕ × List ℕ × State)
shuffle_from fuel zero xs ys st = some (xs, ys, st)
shuffle_from fuel (suc i) xs ys st = elim (random_range64 fuel (suc i) st) [
  | none ↦ none
  | some (r, st') ↦ shuffle_from fuel i (swap xs r (suc i)) (swap ys r (suc i)) st'
]

-- The length of the lists stands for `const int sample_size`, so it is below 2^31.
pub fy_shuffle : (fuel : ℕ) → List ℕ → List ℕ → State → Option (List ℕ × List ℕ × State)
unfolding shuffle_from
fy_shuffle fuel xs ys st = shuffle_from fuel (length xs - 1) xs ys st
