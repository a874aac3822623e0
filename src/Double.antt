-- ===== src/Double.antt =====
-- IEEE doubles as the estimators use them: a type with the comparisons and the operations that the
-- C and C++ code calls. It stands for the hardware's arithmetic, which is not code of the repository.
use nist_sp_800_90b_go.Base.{
  ℕ, ◌+◌, ◌*◌, ◌≡◌, refl, Bool, true, false, ltb, leb, if◌then◌else◌, arith,
}

pub record Double : Type 1 where
  pub F : Type 0
  pub lt : F → F → Bool
  pub le : F → F → Bool
  pub mul : F → F → F
  pub of_int : ℕ → F
  pub minus_one : F
  pub nought : F
  pub one : F

module _ (d : Double) where
  open d use {F, lt, le, nought, minus_one}

  -- std::min
  unfoldable pub std_min : F → F → F
  std_min a b = if lt b a then b else a

  -- `a` is not above `b`.
  abbrev pub AtMost : F → F → Type 0
  AtMost a b = lt b a ≡ false

  -- Among the values that occur, none of which is NaN, `<` is the strict part of a total order; and
  -- -1.0 is below 0.0.
  pub record IsOrdered : Type 0 where
    pub le_refl : (a : F) → AtMost a a
    pub le_trans : (a b c : F) → AtMost a b → AtMost b c → AtMost a c
    pub le_of_lt : (a b : F) → lt a b ≡ true → AtMost a b
    pub minus_one_negative : le nought minus_one ≡ false

  module _ (laws : IsOrdered) where
    open laws use {le_refl, le_of_lt}

    pub std_min-AtMost : (a b : F) → AtMost (std_min a b) a × AtMost (std_min a b) b
    unfolding std_min
    std_min-AtMost a b = ground (arith, le_refl a, le_refl b, le_of_lt b a)

-- Tenths, with 10 for nought: an instance at which the assumptions hold.
abbrev pub tenths : Double
tenths = record {
  F = ℕ;
  lt = ltb;
  le = leb;
  mul = λ a b. a * b;
  of_int = λ n. 10 + 10 * n;
  minus_one = 0;
  nought = 10;
  one = 20;
}

pub tenths-IsOrdered : IsOrdered tenths
tenths-IsOrdered = record {
  le_refl = λ a. ground arith;
  le_trans = λ a b c p q. ground arith;
  le_of_lt = λ a b p. ground arith;
  minus_one_negative = refl;
}
