-- ===== src/Permutation/Windows.antt =====
-- find_collisions of internal/nist/cpp/iid/permutation_tests.h, against the division of the samples
-- into windows that each end with their first repeated value.
use nist_sp_800_90b_go.Base.{
  ℕ, zero, suc, ◌+◌, ◌<◌, ◌≡◌, refl, sym, ap, ◌∙◌, ◌⊎◌, inl, inr, Bool, true, false, ◌||◌, some,
  List, [], ◌∷◌, ◌++◌, map, arith, ltb, lt→ltb, ◌==◌, ==_iff, length, length-set, length-replicate,
  get_or, set, replicate, get_or-set_self, get_or-set_ne, All, Bool-cases, subst,
}
use nist_sp_800_90b_go.Permutation.{collisions_from, find_collisions}

unfoldable pub occurs : ℕ → List ℕ → Bool
occurs v [] = false
occurs v (x ∷ xs) = x == v || occurs v xs

-- After `seen`, no value of the list repeats an earlier one.
abbrev pub Fresh : List ℕ → List ℕ → Type 0
Fresh seen [] = Unit {0}
Fresh seen (x ∷ xs) = (occurs x seen ≡ false) × Fresh (x ∷ seen) xs

-- After `seen`, the last value of the list repeats an earlier one, and no other does.
abbrev pub FirstRepeat : List ℕ → List ℕ → Type 0
FirstRepeat seen [] = ⊥
FirstRepeat seen (x ∷ []) = occurs x seen ≡ true
FirstRepeat seen (x ∷ y ∷ ys) = (occurs x seen ≡ false) × FirstRepeat (x ∷ seen) (y ∷ ys)

unfoldable pub joined : List (List ℕ) → List ℕ → List ℕ
joined [] rest = rest
joined (b ∷ bs) rest = b ++ joined bs rest

-- The windows of `xs` and what is left over.
pub record Windows (xs ret : List ℕ) : Type 0 where
  pub windows : List (List ℕ)
  pub rest : List ℕ
  pub whole : xs ≡ joined windows rest
  pub each : All (λ b. FirstRepeat [] b) windows
  pub last : Fresh [] rest
  pub lengths : ret ≡ map length windows

-- The same within a window, after `seen` and `j` values.
abbrev Within : (seen : List ℕ) (j : ℕ) (xs ret : List ℕ) → Type 0
Within seen j xs ret =
    (Fresh seen xs × (ret ≡ []))
    ⊎ ((b : List ℕ) × (ys : List ℕ) × (tail : List ℕ) × (xs ≡ b ++ ys)
        × FirstRepeat seen b
        × Windows ys tail
        × (ret ≡ (j + length b) ∷ tail))

Within-Windows : (xs ret : List ℕ) → Within [] 0 xs ret → Windows xs ret
unfolding joined
Within-Windows xs ret (inl (f, e)) = record {
  windows = [];
  rest = xs;
  whole = refl;
  each = tt;
  last = f;
  lengths = e;
}
Within-Windows xs ret (inr (b, ys, tail, e, h, w, r)) = record {
  windows = b ∷ w.windows;
  rest = w.rest;
  whole = e ∙ ap (λ zs. b ++ zs) w.whole;
  each = (h, w.each);
  last = w.last;
  lengths = r ∙ head b tail (map length w.windows) w.lengths;
}
  where
    head : (b tail out : List ℕ) → tail ≡ out → ((0 + length b) ∷ tail) ≡ (length b ∷ out)
    head b tail out e = rw e (ap (λ (n : ℕ). n ∷ out) (zero_left (length b)))
      where
        zero_left : (n : ℕ) → 0 + n ≡ n
        zero_left n = omega arith

-- `dups` marks the values seen.
abbrev Marks : (k : ℕ) → List Bool → List ℕ → Type 0
Marks k dups seen = (length dups ≡ k) × ((v : ℕ) → v < k → get_or dups v false ≡ occurs v seen)

fresh-Marks : (k : ℕ) → Marks k (replicate k false) []
unfolding occurs
fresh-Marks k = (length-replicate k false, λ v h. go k v)
  where
    go : (k v : ℕ) → get_or (replicate k false) v false ≡ false
    go zero v = refl
    go (suc k) zero = refl
    go (suc k) (suc v) = go k v

set-Marks :
    (k : ℕ) (dups : List Bool) (seen : List ℕ) (x : ℕ)
    → x < k
    → Marks k dups seen
    → Marks k (set dups x true) (x ∷ seen)
unfolding occurs
set-Marks k dups seen x lt (l, m) = (
  length-set dups x true ∙ l,
  λ v h. elim (Bool-cases (x == v)) [
    | inl here ↦ rw here (
        subst (λ t. get_or (set dups x true) t false ≡ true) ((==_iff x v).0 here)
          (get_or-set_self dups x true false (omega (arith, l))))
    | inr there ↦
        rw there
          (get_or-set_ne dups x v true false (λ q. absurd (ground (arith, there, q))) ∙ m v h)
  ],
)

extend :
    (x : ℕ) (xs seen ret : List ℕ) (j : ℕ)
    → occurs x seen ≡ false
    → Within (x ∷ seen) (j + 1) xs ret
    → Within seen j (x ∷ xs) ret
extend x xs seen ret j n (inl (f, e)) = inl ((n, f), e)
extend x xs seen ret j n (inr ([], ys, tail, e, h, w, r)) = absurd h
extend x xs seen ret j n (inr (y ∷ b, ys, tail, e, h, w, r)) = inr (
  x ∷ y ∷ b,
  ys,
  tail,
  ap (λ zs. x ∷ zs) e,
  (n, h),
  w,
  r ∙ ap (λ (m : ℕ). m ∷ tail) (longer j (length b)),
)
  where
    longer : (j n : ℕ) → j + 1 + suc n ≡ j + suc (suc n)
    longer j n = omega arith

collisions_from-Within :
    (xs : List ℕ) (dups : List Bool) (seen : List ℕ) (j k : ℕ)
    → All (λ x. x < k) xs
    → Marks k dups seen
    → (ret : List ℕ) × (collisions_from xs dups j k ≡ some ret) × Within seen j xs ret
unfolding collisions_from
collisions_from-Within [] dups seen j k a m = ([], refl, inl (tt, refl))
collisions_from-Within (x ∷ xs) dups seen j k (lt, a) m =
    let inside : ltb x (length dups) ≡ true = lt→ltb x (length dups) (omega (arith, m.0)) in
    elim (Bool-cases (get_or dups x false)) [
      | inl hit ↦
          let (ret, e, w) =
            collisions_from-Within xs (replicate k false) [] 0 k a (fresh-Marks k) in
          (
            (j + 1) ∷ ret,
            rw (inside, hit, e) refl,
            inr (x ∷ [], xs, ret, refl, sym (m.1 x lt) ∙ hit, Within-Windows xs ret w, refl),
          )
      | inr miss ↦
          let (ret, e, w) =
            collisions_from-Within xs (set dups x true) (x ∷ seen) (j + 1) k a
              (set-Marks k dups seen x lt m) in
          (ret, rw (inside, miss) e, extend x xs seen ret j (sym (m.1 x lt) ∙ miss) w)
    ]

-- For samples below k, find_collisions gives the lengths of the windows into which the samples divide
-- so that each ends with its first repeated value and what is left over has none.
pub find_collisions-Windows :
    (xs : List ℕ) (k : ℕ)
    → All (λ x. x < k) xs
    → (ret : List ℕ) × (find_collisions xs k ≡ some ret) × Windows xs ret
unfolding find_collisions
find_collisions-Windows xs k a =
    let (ret, e, w) = collisions_from-Within xs (replicate k false) [] 0 k a (fresh-Marks k) in
    (ret, e, Within-Windows xs ret w)
