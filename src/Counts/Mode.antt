-- ===== src/Counts/Mode.antt =====
-- The mode count of most_common, internal/nist/cpp/shared/most_common.h.
use nist_sp_800_90b_go.Base.{
  ℕ, zero, suc, ◌+◌, ◌≤◌, ◌<◌, ◌≡◌, refl, sym, ◌∙◌, ◌⊎◌, inl, inr, some, List, [], ◌∷◌, arith, ltb,
  lt→ltb, ◌==◌, if◌then◌else◌, length, get_or, set, replicate, length-set, length-replicate,
  get_or-set_self, get_or-set_ne, All, Bool-cases, ==_iff, subst,
}
use nist_sp_800_90b_go.Counts.{count_values, largest, mode_count}

-- How often `v` occurs.
unfoldable pub occurrences : ℕ → List ℕ → ℕ
occurrences v [] = 0
occurrences v (x ∷ xs) = let rest = occurrences v xs in if x == v then suc rest else rest

-- For values below the length of the array, every count rises by the occurrences of its index.
count_values-occurrences :
    (xs counts : List ℕ)
    → All (λ x. x < length counts) xs
    → (out : List ℕ) × (count_values xs counts ≡ some out)
      × (length out ≡ length counts)
      × ((v : ℕ) → v < length counts → get_or out v 0 ≡ get_or counts v 0 + occurrences v xs)
unfolding count_values occurrences
count_values-occurrences [] counts a = (counts, refl, refl, λ v h. omega arith)
count_values-occurrences (x ∷ xs) counts (lt, a) =
    let next = set counts x (suc (get_or counts x 0)) in
    let same : length next ≡ length counts = length-set counts x (suc (get_or counts x 0)) in
    let (out, e, l, f) = count_values-occurrences xs next (rw same a) in
    (
      out,
      rw (lt→ltb x (length counts) lt) e,
      l ∙ same,
      λ v h. elim (Bool-cases (x == v)) [
        | inl here ↦
            let risen : get_or next v 0 ≡ suc (get_or counts v 0) =
              subst (λ t. get_or next t 0 ≡ suc (get_or counts t 0)) ((==_iff x v).0 here)
                (get_or-set_self counts x (suc (get_or counts x 0)) 0 lt) in
            rw here (omega (arith, f v (omega (arith, same)), risen))
        | inr there ↦
            let kept : get_or next v 0 ≡ get_or counts v 0 =
              get_or-set_ne counts x v (suc (get_or counts x 0)) 0
                (λ q. absurd (ground (arith, there, q))) in
            rw there (omega (arith, f v (omega (arith, same)), kept))
      ],
    )

-- `t` is at least `m` and every element, and it is one of them.
abbrev Tops : List ℕ → (m t : ℕ) → Type 0
Tops cs m t =
    (m ≤ t)
    × ((i : ℕ) → i < length cs → get_or cs i 0 ≤ t)
    × ((t ≡ m) ⊎ ((i : ℕ) × (i < length cs) × (get_or cs i 0 ≡ t)))

each_place :
    (c : ℕ) (cs : List ℕ) (t : ℕ)
    → c ≤ t
    → ((i : ℕ) → i < length cs → get_or cs i 0 ≤ t)
    → (i : ℕ) → i < suc (length cs)
    → get_or (c ∷ cs) i 0 ≤ t
each_place c cs t top rest zero h = top
each_place c cs t top rest (suc i) h = rest i (omega arith)

later_place :
    (c : ℕ) (cs : List ℕ) (t : ℕ)
    → (i : ℕ) × (i < length cs) × (get_or cs i 0 ≡ t)
    → (i : ℕ) × (i < suc (length cs)) × (get_or (c ∷ cs) i 0 ≡ t)
later_place c cs t (i, lt, e) = (suc i, omega arith, e)

largest-Tops : (cs : List ℕ) (m : ℕ) → Tops cs m (largest cs m)
unfolding largest
largest-Tops [] m = (omega arith, λ i h. absurd (omega arith), inl refl)
largest-Tops (c ∷ cs) m = elim (Bool-cases (ltb m c)) [
  | inl above ↦
      let (up, all, at) = largest-Tops cs c in
      rw above (
        ground (arith, above, up),
        each_place c cs (largest cs c) up all,
        elim at [
          | inl top ↦ inr (0, omega arith, sym top)
          | inr later ↦ inr (later_place c cs (largest cs c) later)
        ],
      )
  | inr below ↦
      let (up, all, at) = largest-Tops cs m in
      rw below (
        up,
        each_place c cs (largest cs m) (ground (arith, below, up)) all,
        elim at [ inl top ↦ inl top | inr later ↦ inr (later_place c cs (largest cs m) later) ],
      )
]

get_or-replicate : (n i : ℕ) → get_or {A = ℕ} (replicate n 0) i 0 ≡ 0
get_or-replicate zero i = refl
get_or-replicate (suc n) zero = refl
get_or-replicate (suc n) (suc i) = get_or-replicate n i

when_zero :
    (xs : List ℕ) (k t : ℕ)
    → 1 < length xs
    → All (λ x. x < k) xs
    → t ≡ 0
    → ((v : ℕ) → v < k → occurrences v xs ≤ t)
    → (v : ℕ) × (v < k) × (occurrences v xs ≡ t)
when_zero [] k t two a z h = absurd (omega arith)
when_zero (x ∷ xs) k t two (p, a) z h = (x, p, omega (arith, h x p))

-- For at least two samples, all of them below alph_size: most_common's mode is the largest number of
-- times that a value occurs, and some value occurs so often.
pub mode_count-occurrences :
    (xs : List ℕ) (k : ℕ)
    → 1 < length xs
    → All (λ x. x < k) xs
    → (mode : ℕ) × (mode_count xs k ≡ some mode)
      × ((v : ℕ) → v < k → occurrences v xs ≤ mode)
      × ((v : ℕ) × (v < k) × (occurrences v xs ≡ mode))
unfolding mode_count
mode_count-occurrences xs k two a =
    let zeros = replicate k 0 in
    let len : length zeros ≡ k = length-replicate k 0 in
    let (out, e, l, f) = count_values-occurrences xs zeros (rw len a) in
    let (up, all, at) = largest-Tops out 0 in
    let count : (v : ℕ) → v < k → get_or out v 0 ≡ occurrences v xs =
      λ v h. omega (arith, f v (omega (arith, len)), get_or-replicate k v) in
    (
      largest out 0,
      rw (lt→ltb 1 (length xs) two, e) refl,
      λ v h. omega (arith, count v h, all v (omega (arith, len, l))),
      elim at [
        | inl none_counted ↦
            when_zero xs k (largest out 0) two a none_counted
              (λ v h. omega (arith, count v h, all v (omega (arith, len, l))))
        | inr (i, lt, top) ↦ (i, omega (arith, len, l), sym (count i (omega (arith, len, l))) ∙ top)
      ],
    )
