-- ===== src/Counts.antt =====
-- The counting loops of three estimators: internal/nist/cpp/shared/most_common.h,
-- internal/nist/cpp/non_iid/markov_test.h and internal/nist/cpp/non_iid/collision_test.h. The formulas
-- that turn the counts into an entropy are floating point and not modelled.
pub mod Mode
pub mod Markov
pub mod Collision
mod Tests
use nist_sp_800_90b_go.Base.{
  ℕ, zero, suc, ◌+◌, ◌-◌, ◌*◌, Bool, not, ◌&&◌, Option, none, some, List, [], ◌∷◌, ltb, ◌==◌,
  if◌then◌else◌, length, get_or, set, replicate,
}

-- most_common: `for (i = 0; i < len; i++) counts[data[i]]++;`, where `none` is an access beyond the
-- array
pub count_values : List ℕ → (counts : List ℕ) → Option (List ℕ)
count_values [] counts = some counts
count_values (x ∷ xs) counts =
    let rest = count_values xs (set counts x (suc (get_or counts x 0))) in
    if ltb x (length counts) then rest else none

-- `if(counts[i] > mode) mode = counts[i];`
pub largest : List ℕ → (mode : ℕ) → ℕ
largest [] mode = mode
largest (c ∷ cs) mode = largest cs (if ltb mode c then c else mode)

-- The mode count that most_common works with. `none` also stands for the failure of
-- `assert(len > 1)`.
pub mode_count : List ℕ → (alph_size : ℕ) → Option ℕ
unfolding count_values largest
mode_count xs k =
    if ltb 1 (length xs)
    then elim (count_values xs (replicate k 0)) [
      | none ↦ none
      | some counts ↦ some (largest counts 0)
    ]
    else none

pub record MarkovCounts : Type 0 where
  pub c_0 : ℕ
  pub c_00 : ℕ
  pub c_10 : ℕ

-- markov_test: the body of the loop for data[i] = x and data[i+1] = y
pub markov_step : (x y : ℕ) → MarkovCounts → MarkovCounts
markov_step x y c = record {
  c_0 = if x == 0 then suc c.c_0 else c.c_0;
  c_00 = if x == 0 && y == 0 then suc c.c_00 else c.c_00;
  c_10 = if not (x == 0) && y == 0 then suc c.c_10 else c.c_10;
}

-- the loop over i below len - 1
pub markov_loop : List ℕ → MarkovCounts → MarkovCounts
unfolding markov_step
markov_loop [] c = c
markov_loop (x ∷ []) c = c
markov_loop (x ∷ y ∷ xs) c = markov_loop (y ∷ xs) (markov_step x y c)

-- `none` is the failure of `assert(len > 1)`.
pub markov_counts : List ℕ → Option MarkovCounts
unfolding markov_loop
markov_counts xs =
    if ltb 1 (length xs)
    then some (markov_loop xs (record { c_0 = 0; c_00 = 0; c_10 = 0 }))
    else none

-- `C_1 = len - 1 - C_0`
pub markov_c_1 : List ℕ → MarkovCounts → ℕ
markov_c_1 xs c = length xs - 1 - c.c_0

-- collision_test: the number `v` of collisions, the sum `s` of the squared waiting times, and the
-- place `i` that the loop has come to
pub record Waits : Type 0 where
  pub v : ℕ
  pub s : ℕ
  pub i : ℕ

pub wait : (t : ℕ) → Waits → Waits
wait t w = record { v = suc w.v; s = w.s + t * t; i = w.i + t }

pub collision_loop : List ℕ → Waits → Waits
unfolding wait
collision_loop [] w = w
collision_loop (x ∷ []) w = w
collision_loop (x ∷ y ∷ []) w = if x == y then wait 2 w else w
collision_loop (x ∷ y ∷ z ∷ xs) w =
    let short = collision_loop (z ∷ xs) (wait 2 w) in
    let long = collision_loop xs (wait 3 w) in if x == y then short else long
