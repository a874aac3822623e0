-- ===== src/Permutation/Verdict.antt =====
-- permutation_tests of internal/nist/cpp/iid/permutation_tests.h stops counting for a test that is
-- settled, and stops altogether once all are; here beside a count of everything.
use nist_sp_800_90b_go.Base.{
  ℕ, zero, suc, ◌+◌, ◌≤◌, ◌≡◌, refl, sym, ap, ◌⊎◌, inl, inr, true, false, List, [], ◌∷◌, arith, ltb,
  if◌then◌else◌, length, replicate, length-replicate, Bool-cases, subst,
}
use nist_sp_800_90b_go.Permutation.{
  Comparison, above, equal, neither, Counter, fresh_counter, count_one, settled, aggregate_one,
  aggregate, passed_count, permute_rounds, verdict,
}

-- The description: every comparison of every permutation is counted.
pub count_row : List Comparison → List Counter → List Counter
count_row [] cs = cs
count_row (t ∷ ts) [] = []
count_row (t ∷ ts) (c ∷ cs) = count_one t c ∷ count_row ts cs

pub count_rows : List (List Comparison) → List Counter → List Counter
unfolding count_row
count_rows [] cs = cs
count_rows (row ∷ rows) cs = count_rows rows (count_row row cs)

-- `a` has counted as `b`, or both have settled.
abbrev Agree : Counter → Counter → Type 0
Agree a b =
    ((a.status ≡ true) × (settled a ≡ false) × (a.c0 ≡ b.c0) × (a.c1 ≡ b.c1) × (a.c2 ≡ b.c2))
    ⊎ ((a.status ≡ false) × (settled a ≡ true) × (settled b ≡ true))

AllAgree : List Counter → List Counter → Type 0
AllAgree [] [] = Unit {0}
AllAgree (a ∷ xs) (b ∷ ys) = Agree a b × AllAgree xs ys
AllAgree [] (b ∷ ys) = ⊥
AllAgree (a ∷ xs) [] = ⊥

count_one-settled :
    (t : Comparison) (c : Counter) → settled c ≡ true → settled (count_one t c) ≡ true
unfolding count_one
count_one-settled above c h = ground (arith, h)
count_one-settled equal c h = ground (arith, h)
count_one-settled neither c h = ground (arith, h)

settle-Agree :
    (a b : Counter)
    → a.status ≡ true
    → a.c0 ≡ b.c0
    → a.c1 ≡ b.c1
    → a.c2 ≡ b.c2
    → Agree (if settled a then record a { status = false } else a) b
settle-Agree a b on e0 e1 e2 = elim (Bool-cases (settled a)) [
  | inl done ↦ rw done (inr (refl, done, ground (arith, done, e0, e1, e2)))
  | inr running ↦ rw running (inl (on, running, e0, e1, e2))
]

aggregate_one_running :
    (t : Comparison) (a : Counter)
    → a.status ≡ true
    → aggregate_one t a
      ≡ (let c = count_one t a in if settled c then record c { status = false } else c)
unfolding aggregate_one
aggregate_one_running t a on =
    ap
      (λ b.
        if b
        then (let c = count_one t a in if settled c then record c { status = false } else c)
        else a)
      on

aggregate_one_off : (t : Comparison) (a : Counter) → a.status ≡ false → aggregate_one t a ≡ a
unfolding aggregate_one
aggregate_one_off t a off =
    ap
      (λ b.
        if b
        then (let c = count_one t a in if settled c then record c { status = false } else c)
        else a)
      off

count_one-Agree :
    (t : Comparison) (a b : Counter)
    → a.status ≡ true
    → a.c0 ≡ b.c0
    → a.c1 ≡ b.c1
    → a.c2 ≡ b.c2
    → let c = count_one t a in
      Agree (if settled c then record c { status = false } else c) (count_one t b)
unfolding count_one
count_one-Agree above a b on e0 e1 e2 =
    settle-Agree (record a { c0 = a.c0 + 1 }) (record b { c0 = b.c0 + 1 }) on (omega (arith, e0)) e1
      e2
count_one-Agree equal a b on e0 e1 e2 =
    settle-Agree (record a { c1 = a.c1 + 1 }) (record b { c1 = b.c1 + 1 }) on e0 (omega (arith, e1))
      e2
count_one-Agree neither a b on e0 e1 e2 =
    settle-Agree (record a { c2 = a.c2 + 1 }) (record b { c2 = b.c2 + 1 }) on e0 e1
      (omega (arith, e2))

aggregate_one-Agree :
    (t : Comparison) (a b : Counter) → Agree a b → Agree (aggregate_one t a) (count_one t b)
aggregate_one-Agree t a b (inr (off, sa, sb)) =
    subst (λ c. Agree c (count_one t b)) (sym (aggregate_one_off t a off))
      (inr (off, sa, count_one-settled t b sb))
aggregate_one-Agree t a b (inl (on, sa, e0, e1, e2)) =
    subst (λ c. Agree c (count_one t b)) (sym (aggregate_one_running t a on))
      (count_one-Agree t a b on e0 e1 e2)

aggregate-AllAgree :
    (row : List Comparison) (xs ys : List Counter)
    → AllAgree xs ys
    → AllAgree (aggregate row xs) (count_row row ys)
unfolding aggregate count_row AllAgree
aggregate-AllAgree [] xs ys h = h
aggregate-AllAgree (t ∷ row) [] [] h = tt
aggregate-AllAgree (t ∷ row) [] (b ∷ ys) h = absurd h
aggregate-AllAgree (t ∷ row) (a ∷ xs) [] h = absurd h
aggregate-AllAgree (t ∷ row) (a ∷ xs) (b ∷ ys) (p, h) =
    (aggregate_one-Agree t a b p, aggregate-AllAgree row xs ys h)

passed_count-le : (cs : List Counter) → passed_count cs ≤ length cs
unfolding passed_count
passed_count-le [] = omega arith
passed_count-le (c ∷ cs) = ground (arith, passed_count-le cs)

-- When as many tests are off as there are, a further row changes nothing that counts.
stopped-AllAgree :
    (row : List Comparison) (xs ys : List Counter)
    → AllAgree xs ys
    → length xs ≤ passed_count xs
    → AllAgree xs (count_row row ys)
unfolding passed_count AllAgree count_row
stopped-AllAgree [] xs ys h p = h
stopped-AllAgree (t ∷ row) [] [] h p = tt
stopped-AllAgree (t ∷ row) [] (b ∷ ys) h p = absurd h
stopped-AllAgree (t ∷ row) (a ∷ xs) [] h p = absurd h
stopped-AllAgree (t ∷ row) (a ∷ xs) (b ∷ ys) (inl (on, sa, e0, e1, e2), h) p =
    absurd (ground (arith, passed_count-le xs, on))
stopped-AllAgree (t ∷ row) (a ∷ xs) (b ∷ ys) (inr (off, sa, sb), h) p =
    (inr (off, sa, count_one-settled t b sb), stopped-AllAgree row xs ys h (ground (arith, off)))

length-aggregate :
    (row : List Comparison) (xs : List Counter) → length (aggregate row xs) ≡ length xs
unfolding aggregate
length-aggregate [] xs = refl
length-aggregate (t ∷ row) [] = refl
length-aggregate (t ∷ row) (a ∷ xs) = ap suc (length-aggregate row xs)

verdict-AllAgree : (xs ys : List Counter) → AllAgree xs ys → verdict xs ≡ verdict ys
unfolding verdict AllAgree
verdict-AllAgree [] [] h = refl
verdict-AllAgree [] (b ∷ ys) h = absurd h
verdict-AllAgree (a ∷ xs) [] h = absurd h
verdict-AllAgree (a ∷ xs) (b ∷ ys) (inl (on, sa, e0, e1, e2), h) =
    rw (e0, e1, e2, verdict-AllAgree xs ys h) refl
verdict-AllAgree (a ∷ xs) (b ∷ ys) (inr (off, sa, sb), h) =
    ground (arith, sa, sb, verdict-AllAgree xs ys h)

permute_rounds_agree :
    (n : ℕ) (rows : List (List Comparison)) (passed : ℕ) (xs ys : List Counter)
    → AllAgree xs ys
    → length xs ≤ n
    → passed ≤ passed_count xs
    → verdict (permute_rounds n passed rows xs) ≡ verdict (count_rows rows ys)
unfolding permute_rounds count_rows
permute_rounds_agree n [] passed xs ys h l p = verdict-AllAgree xs ys h
permute_rounds_agree n (row ∷ rows) passed xs ys h l p = elim (Bool-cases (ltb passed n)) [
  | inl going ↦ rw going (
      permute_rounds_agree n rows _ (aggregate row xs) (count_row row ys)
        (aggregate-AllAgree row xs ys h) (omega (arith, length-aggregate row xs)) (omega arith))
  | inr stopped ↦ rw stopped (
      permute_rounds_agree n rows passed xs (count_row row ys)
        (stopped-AllAgree row xs ys h (ground (arith, stopped))) l p)
]

fresh-AllAgree : (n : ℕ) → AllAgree (replicate n fresh_counter) (replicate n fresh_counter)
unfolding AllAgree fresh_counter
fresh-AllAgree zero = tt
fresh-AllAgree (suc n) = (inl (refl, refl, refl, refl, refl), fresh-AllAgree n)

-- On one thread, for any number of tests and any comparisons: the verdict of permutation_tests, which
-- stops counting for a settled test and skips the permutations once all tests are settled, is the
-- verdict that counting every comparison of every permutation gives.
pub permute_rounds-verdict :
    (n : ℕ) (rows : List (List Comparison))
    → verdict (permute_rounds n 0 rows (replicate n fresh_counter))
      ≡ verdict (count_rows rows (replicate n fresh_counter))
permute_rounds-verdict n rows =
    permute_rounds_agree n rows 0 (replicate n fresh_counter) (replicate n fresh_counter)
      (fresh-AllAgree n) (omega (arith, length-replicate n fresh_counter)) (omega arith)
