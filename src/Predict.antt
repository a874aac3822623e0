-- ===== src/Predict.antt =====
-- internal/nist/cpp/shared/utils.h, class PostfixDictionary: how often each symbol followed one
-- prefix, and the symbol to predict next.
pub mod Dictionary
pub mod Windows
mod Tests
use nist_sp_800_90b_go.Base.{
  ℕ, suc, ◌+◌, Bool, true, false, ◌&&◌, ◌||◌, Option, none, some, List, [], ◌∷◌, ltb, ◌==◌,
  if◌then◌else◌,
}

pub record PostfixDictionary : Type 0 where
  pub postfixes : ℕ → Option ℕ
  pub cur_best : ℕ
  pub cur_prediction : ℕ

pub new_dictionary : PostfixDictionary
new_dictionary = record { postfixes = λ y. none; cur_best = 0; cur_prediction = 0 }

-- `none` is the failure of `assert(curBest > 0)`; the pair is the prediction and `count`.
pub predict : PostfixDictionary → Option (ℕ × ℕ)
predict d = if ltb 0 d.cur_best then some (d.cur_prediction, d.cur_best) else none

-- The entry of `x` becomes `count`, and `x` the prediction if it is now the best.
pub note_count : (x count : ℕ) → PostfixDictionary → PostfixDictionary
note_count x count d =
    let entered : ℕ → Option ℕ = λ y. if y == x then some count else d.postfixes y in
    if ltb d.cur_best count || (count == d.cur_best && ltb d.cur_prediction x)
    then record { postfixes = entered; cur_best = count; cur_prediction = x }
    else record d { postfixes = entered }

-- The result says whether an entry is new.
pub increment_postfix : (x : ℕ) → (make_new : Bool) → PostfixDictionary → Bool × PostfixDictionary
unfolding note_count
increment_postfix x make_new d = elim (d.postfixes x) [
  | some c ↦ (false, note_count x (suc c) d)
  | none ↦ if make_new then (true, note_count x 1 d) else (false, d)
]

-- Calls of incrementPostfix, one after the other.
pub increment_all : List (ℕ × Bool) → PostfixDictionary → PostfixDictionary
unfolding increment_postfix
increment_all [] d = d
increment_all ((x, make_new) ∷ calls) d = increment_all calls (increment_postfix x make_new d).1
