-- ===== src/Generator/Shuffle.antt =====
-- FYshuffle of internal/nist/cpp/shared/utils.h, and the pairs of its two arrays.
use mathlib.Core.List.{zip, Perm}
use mathlib.Core.List.Perm
use nist_sp_800_90b_go.Base.{
  ℕ, zero, suc, ◌-◌, ◌^◌, ◌≤◌, ◌<◌, ◌≡◌, refl, sym, ◌∙◌, ap, ◌≢◌, Bool, true, false, Option, none,
  some, List, [], ◌∷◌, arith, ◌&&◌, length, get_or, set, length-set, get_or-set_ne, ℕ_discrete,
}
use nist_sp_800_90b_go.Generator.{State, random_range64, swap, shuffle_from, fy_shuffle}
use nist_sp_800_90b_go.Generator.Words.{IsState}
use nist_sp_800_90b_go.Generator.Range.{draws_within, random_range64_bounds}

and_left : (a b : Bool) → a && b ≡ true → a ≡ true
and_left a b h = ground arith

and_right : (a b : Bool) → a && b ≡ true → b ≡ true
and_right a b h = ground arith

module _ {ℓ} {A : Type ℓ} where
  -- Putting `b` in the place of what stands at `i` exchanges the two.
  set-perm :
      (xs : List A) (i : ℕ) (b d : A) → i < length xs → Perm (b ∷ xs) (get_or xs i d ∷ set xs i b)
  set-perm [] i b d h = absurd (omega arith)
  set-perm (x ∷ xs) zero b d h = Perm.swap _ _ _
  set-perm (x ∷ xs) (suc i) b d h =
      Perm.trans (Perm.swap _ _ _)
        (Perm.trans (Perm.cons x (set-perm xs i b d (omega arith))) (Perm.swap _ _ _))

  set_same : (xs : List A) (i : ℕ) (d : A) → i < length xs → set xs i (get_or xs i d) ≡ xs
  set_same [] i d h = refl
  set_same (x ∷ xs) zero d h = refl
  set_same (x ∷ xs) (suc i) d h = ap (λ l. x ∷ l) (set_same xs i d (omega arith))

  set_twice : (xs : List A) (i : ℕ) (a b : A) → set (set xs i a) i b ≡ set xs i b
  set_twice [] i a b = refl
  set_twice (x ∷ xs) zero a b = refl
  set_twice (x ∷ xs) (suc i) a b = ap (λ l. x ∷ l) (set_twice xs i a b)

  -- SWAP at two places in range permutes.
  exchange-perm :
      (xs : List A) (r i : ℕ) (d : A)
      → r < length xs
      → i < length xs
      → Perm (set (set xs r (get_or xs i d)) i (get_or xs r d)) xs
  exchange-perm xs r i d hr hi = elim (ℕ_discrete r i) [
    | yes e ↦ rw (e, set_same xs i d hi, set_same xs i d hi) (Perm.refl xs)
    | no ne ↦ Perm.symm (Perm.cons_inv (Perm.trans (set-perm xs r (get_or xs i d) d hr) (back ne)))
  ]
    where
      back :
          r ≢ i
          → Perm
              (get_or xs r d ∷ set xs r (get_or xs i d))
              (get_or xs i d ∷ set (set xs r (get_or xs i d)) i (get_or xs r d))
      back ne = rw (get_or-set_ne xs r i (get_or xs i d) d ne) at (
          set-perm (set xs r (get_or xs i d)) i (get_or xs r d) d
            (omega (arith, length-set xs r (get_or xs i d))))

-- SWAP in both arrays is a SWAP in the array of pairs.
zip-set : (xs ys : List ℕ) (i a b : ℕ) → zip (set xs i a) (set ys i b) ≡ set (zip xs ys) i (a, b)
unfolding zip
zip-set [] ys i a b = refl
zip-set (x ∷ xs) [] zero a b = refl
zip-set (x ∷ xs) [] (suc i) a b = refl
zip-set (x ∷ xs) (y ∷ ys) zero a b = refl
zip-set (x ∷ xs) (y ∷ ys) (suc i) a b = ap (λ l. (x, y) ∷ l) (zip-set xs ys i a b)

get_or-zip :
    (xs ys : List ℕ) (i : ℕ)
    → length xs ≡ length ys
    → get_or (zip xs ys) i (0, 0) ≡ (get_or xs i 0, get_or ys i 0)
unfolding zip
get_or-zip [] [] i e = refl
get_or-zip [] (y ∷ ys) i e = absurd (omega arith)
get_or-zip (x ∷ xs) [] i e = absurd (omega arith)
get_or-zip (x ∷ xs) (y ∷ ys) zero e = refl
get_or-zip (x ∷ xs) (y ∷ ys) (suc i) e = get_or-zip xs ys i (omega arith)

length-zip : (xs ys : List ℕ) → length xs ≡ length ys → length (zip xs ys) ≡ length xs
unfolding zip
length-zip [] [] e = refl
length-zip [] (y ∷ ys) e = absurd (omega arith)
length-zip (x ∷ xs) [] e = absurd (omega arith)
length-zip (x ∷ xs) (y ∷ ys) e = ap suc (length-zip xs ys (omega arith))

length-swap : (xs : List ℕ) (r i : ℕ) → length (swap xs r i) ≡ length xs
unfolding swap
length-swap xs r i =
    length-set (set xs r (get_or xs i 0)) i (get_or xs r 0) ∙ length-set xs r (get_or xs i 0)

zip-swap :
    (xs ys : List ℕ) (r i : ℕ)
    → length xs ≡ length ys
    → r < length xs
    → i < length xs
    → Perm (zip (swap xs r i) (swap ys r i)) (zip xs ys)
unfolding swap
zip-swap xs ys r i e hr hi =
    rw (zip-set, zip-set, ← get_or-zip xs ys i e, ← get_or-zip xs ys r e)
      (exchange-perm (zip xs ys) r i (0, 0) (omega (arith, length-zip xs ys e))
        (omega (arith, length-zip xs ys e)))

-- Every call of randomRange64 in the loop from `i` down has a draw accepted within the fuel.
unfoldable pub shuffles_within : (fuel i : ℕ) → State → Bool
shuffles_within fuel zero st = true
shuffles_within fuel (suc i) st =
    draws_within fuel (suc i) st && elim (random_range64 fuel (suc i) st) [
      | none ↦ false
      | some (r, st') ↦ shuffles_within fuel i st'
    ]

-- The result of a shuffle of `xs` and `ys`.
pub record IsShuffle (xs ys : List ℕ) (out : Option (List ℕ × List ℕ × State)) : Type 0 where
  pub xs' : List ℕ
  pub ys' : List ℕ
  pub st' : State
  pub returned : out ≡ some (xs', ys', st')
  pub same_length : length xs' ≡ length ys'
  pub permuted : Perm (zip xs' ys') (zip xs ys)
  pub words : IsState st'

shuffle_from-IsShuffle :
    (fuel i : ℕ) (xs ys : List ℕ) (st : State)
    → length xs ≡ length ys
    → i ≤ length xs - 1
    → length xs < 2 ^ 64
    → IsState st
    → shuffles_within fuel i st ≡ true
    → IsShuffle xs ys (shuffle_from fuel i xs ys st)
unfolding shuffle_from shuffles_within
shuffle_from-IsShuffle fuel zero xs ys st e h b v ok = record {
  xs' = xs;
  ys' = ys;
  st' = st;
  returned = refl;
  same_length = e;
  permuted = Perm.refl (zip xs ys);
  words = v;
}
shuffle_from-IsShuffle fuel (suc i) xs ys st e h b v ok =
    let (r, st', out, le, v') =
      random_range64_bounds fuel (suc i) st (omega arith) v (and_left _ _ ok) in
    let ok' : shuffles_within fuel i st' ≡ true = ground (arith, out) in
    let ex = length-swap xs r (suc i) in
    let ey = length-swap ys r (suc i) in
    let rec =
      shuffle_from-IsShuffle fuel i (swap xs r (suc i)) (swap ys r (suc i)) st' (ex ∙ e ∙ sym ey)
        (omega arith) (omega arith) v' ok' in
    rw (out, shuffle_from)
      (record {
        xs' = rec.xs';
        ys' = rec.ys';
        st' = rec.st';
        returned = rec.returned;
        same_length = rec.same_length;
        permuted = Perm.trans rec.permuted (zip-swap xs ys r (suc i) e (omega arith) (omega arith));
        words = rec.words;
      })

-- For arrays of one length, from words of 64 bits, and if each draw is accepted within the fuel,
-- FYshuffle returns, its two arrays have one length, and their pairs are a permutation of the
-- original pairs: both arrays are permuted in the same way.
pub fy_shuffle-IsShuffle :
    (fuel : ℕ) (xs ys : List ℕ) (st : State)
    → length xs ≡ length ys
    → length xs < 2 ^ 64
    → IsState st
    → shuffles_within fuel (length xs - 1) st ≡ true
    → IsShuffle xs ys (fy_shuffle fuel xs ys st)
unfolding fy_shuffle
fy_shuffle-IsShuffle fuel xs ys st e b v ok =
    shuffle_from-IsShuffle fuel (length xs - 1) xs ys st e (omega arith) b v ok
