-- ===== src/Counts/Collision.antt =====
-- The loop of collision_test, internal/nist/cpp/non_iid/collision_test.h, against the division of the
-- bits into blocks that each end with their first repeated value.
use nist_sp_800_90b_go.Base.{
  ℕ, ◌+◌, ◌*◌, ◌≤◌, ◌≡◌, refl, ap, ◌⊎◌, inl, inr, false, List, [], ◌∷◌, ◌++◌, arith, ◌==◌, ◌≢◌,
  length, Bool-cases, All, ==_iff,
}
use nist_sp_800_90b_go.Counts.{Waits, wait, collision_loop}

-- Two equal values, or two different values and a third that repeats one of them.
pub data Block : List ℕ → Type 0 where
  twice : (x y : ℕ) → x ≡ y → Block (x ∷ y ∷ [])
  thrice : (x y z : ℕ) → x ≢ y → (z ≡ x) ⊎ (z ≡ y) → Block (x ∷ y ∷ z ∷ [])

-- No value is repeated among bits.
pub data Unrepeated : List ℕ → Type 0 where
  nothing : Unrepeated []
  alone : (x : ℕ) → Unrepeated (x ∷ [])
  pair : (x y : ℕ) → x ≢ y → Unrepeated (x ∷ y ∷ [])

unfoldable pub joined : List (List ℕ) → List ℕ → List ℕ
joined [] rest = rest
joined (b ∷ bs) rest = b ++ joined bs rest

unfoldable pub total : List (List ℕ) → ℕ
total [] = 0
total (b ∷ bs) = length b + total bs

unfoldable pub squares : List (List ℕ) → ℕ
squares [] = 0
squares (b ∷ bs) = length b * length b + squares bs

-- The division of `xs`, and what it adds to the counts.
pub record Divides (xs : List ℕ) (w out : Waits) : Type 0 where
  pub blocks : List (List ℕ)
  pub rest : List ℕ
  pub whole : xs ≡ joined blocks rest
  pub each : All Block blocks
  pub last : Unrepeated rest
  pub v_eq : out.v ≡ w.v + length blocks
  pub s_eq : out.s ≡ w.s + squares blocks
  pub i_eq : out.i ≡ w.i + total blocks

stop : (xs : List ℕ) (w : Waits) → Unrepeated xs → Divides xs w w
unfolding joined squares total
stop xs w u = record {
  blocks = [];
  rest = xs;
  whole = refl;
  each = tt;
  last = u;
  v_eq = omega arith;
  s_eq = omega arith;
  i_eq = omega arith;
}

Block-Divides :
    (b xs : List ℕ) (t : ℕ) (w out : Waits)
    → Block b
    → length b ≡ t
    → Divides xs (wait t w) out
    → Divides (b ++ xs) w out
unfolding wait joined squares total
Block-Divides b xs t w out h e d = record {
  blocks = b ∷ d.blocks;
  rest = d.rest;
  whole = ap (λ zs. b ++ zs) d.whole;
  each = (h, d.each);
  last = d.last;
  v_eq = omega (arith, d.v_eq);
  s_eq = rw e (omega (arith, d.s_eq));
  i_eq = omega (arith, d.i_eq, e);
}

third : (x y z : ℕ) → x ≤ 1 → y ≤ 1 → z ≤ 1 → x ≢ y → (z ≡ x) ⊎ (z ≡ y)
third x y z p q r n = ground arith

differs : (x y : ℕ) → (x == y) ≡ false → x ≢ y
differs x y h e = absurd (ground (arith, h, e))

-- For bits, collision_test's loop divides them into blocks that each end with their first repeated
-- value and a rest without one: v is the number of blocks, s the sum of their squared lengths, and
-- i the sum of their lengths.
pub collision_loop-Divides :
    (xs : List ℕ) (w : Waits) → All (λ x. x ≤ 1) xs → Divides xs w (collision_loop xs w)
unfolding collision_loop
collision_loop-Divides [] w a = stop [] w nothing
collision_loop-Divides (x ∷ []) w a = stop (x ∷ []) w (alone x)
collision_loop-Divides (x ∷ y ∷ []) w a = elim (Bool-cases (x == y)) [
  | inl hit ↦ rw hit (
      Block-Divides (x ∷ y ∷ []) [] 2 w _ (twice x y ((==_iff x y).0 hit)) refl
        (stop [] (wait 2 w) nothing))
  | inr miss ↦ rw miss (stop (x ∷ y ∷ []) w (pair x y (differs x y miss)))
]
collision_loop-Divides (x ∷ y ∷ z ∷ xs) w (p, (q, (r, a))) = elim (Bool-cases (x == y)) [
  | inl hit ↦ rw hit (
      Block-Divides (x ∷ y ∷ []) (z ∷ xs) 2 w _ (twice x y ((==_iff x y).0 hit)) refl
        (collision_loop-Divides (z ∷ xs) (wait 2 w) (r, a)))
  | inr miss ↦
      let n = differs x y miss in
      rw miss (
        Block-Divides (x ∷ y ∷ z ∷ []) xs 3 w _ (thrice x y z n (third x y z p q r n)) refl
          (collision_loop-Divides xs (wait 3 w) a))
]
