-- ===== src/Symbols/Alphabet.antt =====
-- The alphabet that internal/nist/wrapper/wrapper.cpp, prepare_data, builds: which entries of the
-- symbol table are marked, and the codes that they get.
use nist_sp_800_90b_go.Base.{
  ℕ, zero, suc, ◌+◌, ◌≤◌, ◌<◌, ◌≡◌, refl, ◌≢◌, ap, ◌⊎◌, inl, inr, none, some, List, [], ◌∷◌, map,
  arith, bit_and, ltb, ◌==◌, if◌then◌else◌, length, get_or, set, All, length-set, get_or-set_self,
  get_or-set_ne, ℕ_discrete,
}
use nist_sp_800_90b_go.Symbols.{mark_symbols, assign_codes}

abbrev pub masked : ℕ → List ℕ → List ℕ
masked mask = map (λ x. bit_and x mask)

pub mark_symbols-masked :
    (mask : ℕ) (xs : List ℕ) (top : ℕ) (t : List ℕ)
    → ((mark_symbols mask xs top t).symbols ≡ masked mask xs)
      × (length (mark_symbols mask xs top t).table ≡ length t)
unfolding mark_symbols
mark_symbols-masked mask [] top t = (refl, refl)
mark_symbols-masked mask (x ∷ xs) top t =
    let s = bit_and x mask in
    let top' = if ltb top s then s else top in
    let t' = if get_or t s 0 == 0 then set t s 1 else t in
    let ih = mark_symbols-masked mask xs top' t' in
    (ap (λ l. s ∷ l) ih.0, ground (arith, ih.1, length-set t s 1))

pub le-maxsymbol :
    (mask : ℕ) (xs : List ℕ) (top : ℕ) (t : List ℕ)
    → let m = mark_symbols mask xs top t in
      (top ≤ m.maxsymbol) × All (λ s. s ≤ m.maxsymbol) (masked mask xs)
unfolding mark_symbols
le-maxsymbol mask [] top t = (omega arith, tt)
le-maxsymbol mask (x ∷ xs) top t =
    let s = bit_and x mask in
    let top' = if ltb top s then s else top in
    let t' = if get_or t s 0 == 0 then set t s 1 else t in
    let ih = le-maxsymbol mask xs top' t' in
    let up : (top ≤ top') × (s ≤ top') = ground arith in
    (omega (arith, ih.0, up.0), (omega (arith, ih.0, up.1), ih.1))

-- A mark that is set stays set, and a step marks its own symbol.
mark_step :
    (t : List ℕ) (s v : ℕ)
    → v < length t
    → (v ≡ s) ⊎ (get_or t v 0 ≢ 0)
    → get_or (if get_or t s 0 == 0 then set t s 1 else t) v 0 ≢ 0
mark_step t s v h c = elim (ℕ_discrete s v) [
  | yes e ↦ ground (arith, get_or-set_self t s 1 0)
  | no n ↦ ground (arith, get_or-set_ne t s v 1 0 n)
]

pub mark_kept :
    (mask : ℕ) (xs : List ℕ) (top : ℕ) (t : List ℕ) (v : ℕ)
    → v < length t
    → get_or t v 0 ≢ 0
    → get_or (mark_symbols mask xs top t).table v 0 ≢ 0
unfolding mark_symbols
mark_kept mask [] top t v h n = n
mark_kept mask (x ∷ xs) top t v h n =
    let s = bit_and x mask in
    let t' = if get_or t s 0 == 0 then set t s 1 else t in
    mark_kept mask xs _ t' v (ground (arith, length-set t s 1)) (mark_step t s v h (inr n))

-- Every masked sample within the table is marked.
pub mark_symbols-marks :
    (mask : ℕ) (xs : List ℕ) (top : ℕ) (t : List ℕ)
    → All (λ s. s < length t) (masked mask xs)
    → All (λ s. get_or (mark_symbols mask xs top t).table s 0 ≢ 0) (masked mask xs)
unfolding mark_symbols
mark_symbols-marks mask [] top t h = tt
mark_symbols-marks mask (x ∷ xs) top t (h, hs) =
    let s = bit_and x mask in
    let top' = if ltb top s then s else top in
    let t' = if get_or t s 0 == 0 then set t s 1 else t in
    let e : length t' ≡ length t = ground (arith, length-set t s 1) in
    (
      mark_kept mask xs top' t' s (omega arith) (mark_step t s s h (inl refl)),
      mark_symbols-marks mask xs top' t' (rw e hs),
    )

-- How many of the first `k` entries are marked.
unfoldable pub marked : (k : ℕ) → List ℕ → ℕ
marked zero t = 0
marked (suc k) [] = 0
marked (suc k) (x ∷ t) = (if x == 0 then 0 else 1) + marked k t

pub marked-le : (k : ℕ) (t : List ℕ) → marked k t ≤ k
unfolding marked
marked-le zero t = omega arith
marked-le (suc k) [] = omega arith
marked-le (suc k) (x ∷ t) = ground (arith, marked-le k t)

-- Codes rise strictly along the marked entries.
pub marked_mono : (i j : ℕ) (t : List ℕ) → i < j → get_or t i 0 ≢ 0 → marked i t < marked j t
unfolding marked
marked_mono i zero t h n = absurd (omega arith)
marked_mono i (suc j) [] h n = absurd (n refl)
marked_mono zero (suc j) (x ∷ t) h n = ground arith
marked_mono (suc i) (suc j) (x ∷ t) h n = ground (arith, marked_mono i j t (omega arith) n)

-- Within the table the loop gives each marked entry its rank, and counts the marked entries.
pub assign_codes_lem :
    (k : ℕ) (t : List ℕ) (next : ℕ)
    → k ≤ length t
    → (codes : List ℕ) × (assign_codes k t next ≡ some (codes, next + marked k t))
      × ((i : ℕ) → i < k → get_or t i 0 ≢ 0 → get_or codes i 0 ≡ next + marked i t)
unfolding assign_codes marked
assign_codes_lem zero t next h = (t, ground arith, λ i lt. absurd (omega arith))
assign_codes_lem (suc k) [] next h = absurd (omega arith)
assign_codes_lem (suc k) (x ∷ t) next h =
    let next' = if x == 0 then next else next + 1 in
    let (codes, e, ranks) = assign_codes_lem k t next' (omega arith) in
    ((if x == 0 then 0 else next) ∷ codes, ground (arith, e), first codes ranks)
  where
    first :
        (codes : List ℕ)
        → ((i : ℕ)
            → i < k
            → get_or t i 0 ≢ 0
            → get_or codes i 0 ≡ (if x == 0 then next else next + 1) + marked i t)
        → (i : ℕ) → i < suc k
        → get_or (x ∷ t) i 0 ≢ 0
        → get_or ((if x == 0 then 0 else next) ∷ codes) i 0 ≡ next + marked i (x ∷ t)
    first codes ranks zero lt n = ground arith
    first codes ranks (suc i) lt n = ground (arith, ranks i (omega arith) n)

-- A table that is too short is read beyond its end.
pub assign_codes-short :
    (k : ℕ) (t : List ℕ) (next : ℕ) → length t < k → assign_codes k t next ≡ none
unfolding assign_codes
assign_codes-short zero t next h = absurd (omega arith)
assign_codes-short (suc k) [] next h = refl
assign_codes-short (suc k) (x ∷ t) next h =
    rw (assign_codes-short k t (if x == 0 then next else next + 1) (omega arith))

pub maxsymbol-le :
    (mask : ℕ) (xs : List ℕ) (top : ℕ) (t : List ℕ) (n : ℕ)
    → top ≤ n
    → All (λ s. s ≤ n) (masked mask xs)
    → (mark_symbols mask xs top t).maxsymbol ≤ n
unfolding mark_symbols
maxsymbol-le mask [] top t n h a = h
maxsymbol-le mask (x ∷ xs) top t n h (p, a) =
    let s = bit_and x mask in
    let top' = if ltb top s then s else top in
    let t' = if get_or t s 0 == 0 then set t s 1 else t in
    maxsymbol-le mask xs top' t' n (ground arith) a
