-- ===== src/Permutation.antt =====
-- internal/nist/cpp/iid/permutation_tests.h: the counters and the verdict of permutation_tests, and
-- the statistics that count runs, collisions and repetitions. What the comparison of two test
-- statistics (long doubles) gives is an argument.
pub mod Verdict
pub mod Runs
pub mod Series
pub mod Rises
pub mod Windows
mod Tests
use nist_sp_800_90b_go.Base.{
  ℕ, zero, suc, ◌+◌, Bool, true, false, not, ◌&&◌, ◌||◌, List, [], ◌∷◌, ltb, leb, if◌then◌else◌, ℤ,
  pos, negsuc, length, get_or, set, replicate, max, ◌-◌, ◌*◌, ◌==◌, Option, some, none,
}

-- `tp[j] > t[j]`, `tp[j] == t[j]`, or neither
pub data Comparison : Type 0 where
  above equal neither : Comparison

-- C[j] and test_status[j] of one test
pub record Counter : Type 0 where
  pub c0 : ℕ
  pub c1 : ℕ
  pub c2 : ℕ
  pub status : Bool

pub fresh_counter : Counter
fresh_counter = record { c0 = 0; c1 = 0; c2 = 0; status = true }

pub count_one : Comparison → Counter → Counter
count_one above c = record c { c0 = c.c0 + 1 }
count_one equal c = record c { c1 = c.c1 + 1 }
count_one neither c = record c { c2 = c.c2 + 1 }

-- `(C[j][0] + C[j][1] > 5) && (C[j][1] + C[j][2] > 5)`
abbrev pub settled : Counter → Bool
settled c = ltb 5 (c.c0 + c.c1) && ltb 5 (c.c1 + c.c2)

-- The round of the loop over `j` for one test.
pub aggregate_one : Comparison → Counter → Counter
unfolding count_one
aggregate_one t c =
    if c.status
    then (let c' = count_one t c in if settled c' then record c' { status = false } else c')
    else c

-- The loop over `j`: one comparison for each test.
pub aggregate : List Comparison → List Counter → List Counter
unfolding aggregate_one
aggregate [] cs = cs
aggregate (t ∷ ts) [] = []
aggregate (t ∷ ts) (c ∷ cs) = aggregate_one t c ∷ aggregate ts cs

-- `passed_count`: the tests whose status is false
pub passed_count : List Counter → ℕ
passed_count [] = 0
passed_count (c ∷ cs) = let rest = passed_count cs in if c.status then rest else suc rest

-- One thread's loop over the permutations: each gives a row of comparisons, which is taken in only as
-- long as fewer than `num_tests` tests had settled after the last row.
pub permute_rounds : (num_tests passed : ℕ) → List (List Comparison) → List Counter → List Counter
unfolding aggregate passed_count
permute_rounds num_tests passed [] cs = cs
permute_rounds num_tests passed (row ∷ rows) cs =
    let cs' = if ltb passed num_tests then aggregate row cs else cs in
    let passed' = if ltb passed num_tests then passed_count (aggregate row cs) else passed in
    permute_rounds num_tests passed' rows cs'

-- The last loop: `(C[i][0] + C[i][1] <= 5) || (C[i][1] + C[i][2] <= 5)` for no test.
pub verdict : List Counter → Bool
verdict [] = true
verdict (c ∷ cs) =
    let rest = verdict cs in if leb (c.c0 + c.c1) 5 || leb (c.c1 + c.c2) 5 then false else rest

-- `data[i] > data[i+1]` gives -1, anything else 1, for i below sample_size - 1
pub directions : List ℕ → List ℤ
directions [] = []
directions (x ∷ []) = []
directions (x ∷ y ∷ xs) = (if ltb y x then negsuc 0 else pos 1) ∷ directions (y ∷ xs)

-- `none`: for no samples, `vector<int> ret(sample_size-1, 0)` throws std::length_error.
pub alt_sequence1 : List ℕ → Option (List ℤ)
unfolding directions
alt_sequence1 [] = none
alt_sequence1 (x ∷ xs) = some (directions (x ∷ xs))

-- `below` is the comparison `data[i] < median` with the double `median`.
pub alt_sequence2 : (below : ℕ → Bool) → List ℕ → List ℤ
alt_sequence2 below [] = []
alt_sequence2 below (x ∷ xs) = (if below x then negsuc 0 else pos 1) ∷ alt_sequence2 below xs

-- `alt_seq[i] == alt_seq[i-1]`
abbrev pub same : ℤ → ℤ → Bool
same (pos a) (pos b) = a == b
same (pos a) (negsuc b) = false
same (negsuc a) (pos b) = false
same (negsuc a) (negsuc b) = a == b

-- the loops from i = 1 on, where `prev` is alt_seq[i-1]
pub count_runs : (prev : ℤ) → List ℤ → (num_runs : ℕ) → ℕ
count_runs prev [] num = num
count_runs prev (x ∷ xs) num = count_runs x xs (if same x prev then num else suc num)

pub num_directional_runs : List ℤ → ℕ
unfolding count_runs
num_directional_runs [] = 0
num_directional_runs (x ∷ xs) = count_runs x xs 1

pub longest_run : (prev : ℤ) → List ℤ → (run max_run : ℕ) → ℕ
longest_run prev [] run max_run = if ltb max_run run then run else max_run
longest_run prev (x ∷ xs) run max_run =
    longest_run x xs (if same x prev then suc run else 1)
      (if same x prev then max_run else (if ltb max_run run then run else max_run))

-- For an empty sequence the loop is not entered and `run` is 1.
pub len_directional_runs : List ℤ → ℕ
unfolding longest_run
len_directional_runs [] = 1
len_directional_runs (x ∷ xs) = longest_run x xs 1 0

pub count_ones : List ℤ → ℕ → ℕ
count_ones [] n = n
count_ones (x ∷ xs) n = count_ones xs (if same x (pos 1) then suc n else n)

-- `max(pos, alt_seq.size() - pos)`
pub num_increases_decreases : List ℤ → ℕ
unfolding count_ones
num_increases_decreases xs = max (count_ones xs 0) (length xs - count_ones xs 0)

-- the loops over i below n - p, with `rounds` to go
pub count_repeats : (rounds i p : ℕ) → List ℕ → ℕ → ℕ
count_repeats zero i p xs t = t
count_repeats (suc k) i p xs t =
    count_repeats k (i + 1) p xs (if get_or xs i 0 == get_or xs (i + p) 0 then suc t else t)

-- `none` is the failure of `assert(n>=p)`.
pub periodicity : List ℕ → (p : ℕ) → Option ℕ
unfolding count_repeats
periodicity xs p = if leb p (length xs) then some (count_repeats (length xs - p) 0 p xs 0) else none

pub sum_products : (rounds i p : ℕ) → List ℕ → ℕ → ℕ
sum_products zero i p xs t = t
sum_products (suc k) i p xs t =
    sum_products k (i + 1) p xs (t + get_or xs i 0 * get_or xs (i + p) 0)

-- For p at most n; otherwise the unsigned difference n - p wraps around.
pub covariance : List ℕ → (p : ℕ) → ℕ
unfolding sum_products
covariance xs p = sum_products (length xs - p) 0 p xs 0

-- find_collisions: both loops at data[i+j], with `dups` of the window that starts at i. `none` is an
-- access beyond `dups`.
pub collisions_from : List ℕ → (dups : List Bool) → (j k : ℕ) → Option (List ℕ)
collisions_from [] dups j k = some []
collisions_from (x ∷ xs) dups j k =
    let next = collisions_from xs (replicate k false) 0 k in
    let longer = collisions_from xs (set dups x true) (j + 1) k in
    if ltb x (length dups)
    then (if get_or dups x false
        then elim next [ none ↦ none | some ret ↦ some ((j + 1) ∷ ret) ]
        else longer)
    else none

pub find_collisions : List ℕ → (k : ℕ) → Option (List ℕ)
unfolding collisions_from
find_collisions xs k = collisions_from xs (replicate k false) 0 k
