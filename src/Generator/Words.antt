-- ===== src/Generator/Words.antt =====
-- The size of the words of xoshiro256**, internal/nist/cpp/shared/utils.h.
use nist_sp_800_90b_go.Base.{ℕ, ◌-◌, ◌*◌, ◌/◌, ◌%◌, ◌^◌, ◌<◌, arith}
use nist_sp_800_90b_go.Base.Bits.{bit_or-lt, bit_xor-lt}
use nist_sp_800_90b_go.Generator.{State, rotl, xoshiro256starstar}

pub record IsState (st : State) : Type 0 where
  pub word0 : st.s0 < 2 ^ 64
  pub word1 : st.s1 < 2 ^ 64
  pub word2 : st.s2 < 2 ^ 64
  pub word3 : st.s3 < 2 ^ 64

rotl-lt : (x k : ℕ) → x < 2 ^ 64 → rotl x k < 2 ^ 64
unfolding rotl
rotl-lt x k h = bit_or-lt 64 (x * 2 ^ k % 2 ^ 64) (x / 2 ^ (64 - k)) (omega arith) (omega arith)

-- A step of the generator from words below 2 ^ 64 returns such a word and leaves such words.
pub xoshiro256starstar-IsState :
    (st : State)
    → IsState st
    → ((xoshiro256starstar st).0 < 2 ^ 64) × IsState (xoshiro256starstar st).1
unfolding xoshiro256starstar
xoshiro256starstar-IsState st v =
    let b2 = bit_xor-lt 64 st.s2 st.s0 v.word2 v.word0 in
    let b3 = bit_xor-lt 64 st.s3 st.s1 v.word3 v.word1 in
    let b1 = bit_xor-lt 64 st.s1 _ v.word1 b2 in
    let b0 = bit_xor-lt 64 st.s0 _ v.word0 b3 in
    (
      omega arith,
      record {
        word0 = b0;
        word1 = b1;
        word2 = bit_xor-lt 64 _ _ b2 (omega arith);
        word3 = rotl-lt _ 45 b3;
      },
    )
