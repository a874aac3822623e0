-- ===== src/Generator/Jump.antt =====
-- The jump function of internal/nist/cpp/shared/utils.h, xoshiro_jump, as its count grows.
use nist_sp_800_90b_go.Base.{
  ℕ, zero, suc, ◌+◌, ◌^◌, ◌≤◌, ◌≡◌, ◌≢◌, refl, sym, ◌∙◌, ap, List, [], ◌∷◌, arith, bit_and, ◌==◌,
  Bool-cases, inl, inr,
}
use nist_sp_800_90b_go.Base.Bits.{bit_xor_assoc, bit_xor-zero, zero-bit_xor, bit_xor_fixed}
use nist_sp_800_90b_go.Generator.{
  State, xor_state, zero_state, jump_bits, jump_words, jump_table, jump_loop, xoshiro_jump,
}

xor_state_assoc : (a b c : State) → xor_state (xor_state a b) c ≡ xor_state a (xor_state b c)
xor_state_assoc a b c = λ i. record {
  s0 = bit_xor_assoc a.s0 b.s0 c.s0 i;
  s1 = bit_xor_assoc a.s1 b.s1 c.s1 i;
  s2 = bit_xor_assoc a.s2 b.s2 c.s2 i;
  s3 = bit_xor_assoc a.s3 b.s3 c.s3 i;
}

xor_state-zero : (a : State) → xor_state a zero_state ≡ a
xor_state-zero a = λ i. record {
  s0 = bit_xor-zero a.s0 i;
  s1 = bit_xor-zero a.s1 i;
  s2 = bit_xor-zero a.s2 i;
  s3 = bit_xor-zero a.s3 i;
}

zero-xor_state : (a : State) → xor_state zero_state a ≡ a
zero-xor_state a = λ i. record {
  s0 = zero-bit_xor a.s0 i;
  s1 = zero-bit_xor a.s1 i;
  s2 = zero-bit_xor a.s2 i;
  s3 = zero-bit_xor a.s3 i;
}

-- What stands in the accumulator at the start is added to the result.
jump_bits-xor :
    (k b word : ℕ) (x acc st : State)
    → jump_bits k b word (xor_state x acc) st
      ≡ (xor_state x (jump_bits k b word acc st).0, (jump_bits k b word acc st).1)
unfolding jump_bits
jump_bits-xor zero b word x acc st = refl
jump_bits-xor (suc k) b word x acc st = elim (Bool-cases (bit_and word (2 ^ b) == 0)) [
  | inl clear ↦ rw (clear, jump_bits) (jump_bits-xor k (b + 1) word x acc _)
  | inr set ↦
      rw (set, jump_bits, xor_state_assoc x acc st)
        (jump_bits-xor k (b + 1) word x (xor_state acc st) _)
]

jump_words-xor :
    (ws : List ℕ) (x acc st : State)
    → jump_words ws (xor_state x acc) st
      ≡ (xor_state x (jump_words ws acc st).0, (jump_words ws acc st).1)
unfolding jump_words
jump_words-xor [] x acc st = refl
jump_words-xor (w ∷ ws) x acc st = rw (jump_bits-xor 64 0 w x acc st) (jump_words-xor ws x _ _)

abbrev jumped : State → State
jumped st = (jump_words jump_table zero_state st).0

jump_words-jumped : (x st : State) → (jump_words jump_table x st).0 ≡ xor_state x (jumped st)
jump_words-jumped x st =
    ap (λ (s : State). (jump_words jump_table s st).0) (sym (xor_state-zero x))
    ∙ ap (λ (p : State × State). p.0) (jump_words-xor jump_table x zero_state st)

jumped_once : (st : State) → xoshiro_jump 1 st ≡ jumped st
unfolding xoshiro_jump jump_loop
jumped_once st = refl

-- The rounds after the first start with the accumulator equal to the state.
jump_loop_same :
    (k : ℕ) (x : State)
    → jump_loop (suc k) x x ≡ xor_state (jump_loop k x x) (jumped (jump_loop k x x))
unfolding jump_loop
jump_loop_same zero x = jump_words-jumped x x
jump_loop_same (suc k) x = jump_loop_same k (jump_words jump_table x x).0

-- After the first jump the accumulator is not cleared: from a count n of at least 1 on, one more
-- jump gives the sum (exclusive or) of the state after n jumps and the state one jump after that.
pub xoshiro_jump-suc :
    (n : ℕ) (st : State)
    → 1 ≤ n
    → xoshiro_jump (suc n) st ≡ xor_state (xoshiro_jump n st) (xoshiro_jump 1 (xoshiro_jump n st))
unfolding xoshiro_jump jump_loop
xoshiro_jump-suc zero st h = absurd (omega arith)
xoshiro_jump-suc (suc n) st h = jump_loop_same n (jumped st)

fixed_zero : (a b : State) → xor_state a b ≡ b → a ≡ zero_state
fixed_zero a b e = λ i. record {
  s0 = bit_xor_fixed a.s0 b.s0 (ap (λ (s : State). s.s0) e) i;
  s1 = bit_xor_fixed a.s1 b.s1 (ap (λ (s : State). s.s1) e) i;
  s2 = bit_xor_fixed a.s2 b.s2 (ap (λ (s : State). s.s2) e) i;
  s3 = bit_xor_fixed a.s3 b.s3 (ap (λ (s : State). s.s3) e) i;
}

-- From a count n of at least 1 on, unless the state after n jumps is zero, n + 1 jumps never lead
-- where one jump leads from the state after n jumps.
pub xoshiro_jump-ne :
    (n : ℕ) (st : State)
    → 1 ≤ n
    → xoshiro_jump n st ≢ zero_state
    → xoshiro_jump (suc n) st ≢ xoshiro_jump 1 (xoshiro_jump n st)
xoshiro_jump-ne n st h z e =
    z (fixed_zero _ (xoshiro_jump 1 (xoshiro_jump n st)) (sym (xoshiro_jump-suc n st h) ∙ e))
