-- ===== src/Files/Tables.antt =====
-- The symbol table of read_file_subset and read_file, internal/nist/cpp/shared/utils.h, which has an
-- entry for each symbol of the word size, beside that of prepare_data,
-- internal/nist/wrapper/wrapper.cpp, which has 256.
use nist_sp_800_90b_go.Base.{
  ℕ, zero, suc, ◌+◌, ◌%◌, ◌^◌, ◌≤◌, ◌<◌, ◌≡◌, refl, ap, ap₂, ◌≢◌, some, List, [], ◌∷◌, map, arith,
  bit_and, ltb, ◌==◌, if◌then◌else◌, length, get_or, set, All, length-set, get_or-set_self,
  get_or-set_ne, ℕ_discrete, replicate,
}
use nist_sp_800_90b_go.Symbols.{mark_symbols}
use nist_sp_800_90b_go.Symbols.Alphabet.{masked, marked}
use nist_sp_800_90b_go.Files.{assign_byte_codes}

abbrev pub Agrees : ℕ → List ℕ → List ℕ → Type 0
Agrees k t u = (i : ℕ) → i < k → get_or t i 0 ≡ get_or u i 0

mark_step-Agrees :
    (k s : ℕ) (t u : List ℕ)
    → k ≤ length t
    → k ≤ length u
    → s < k
    → Agrees k t u
    → Agrees k
        (if get_or t s 0 == 0 then set t s 1 else t)
        (if get_or u s 0 == 0 then set u s 1 else u)
mark_step-Agrees k s t u lt lu h a i l = elim (ℕ_discrete s i) [
  | yes e ↦ ground (arith, a i l, get_or-set_self t s 1 0, get_or-set_self u s 1 0)
  | no n ↦ ground (arith, a i l, a s h, get_or-set_ne t s i 1 0 n, get_or-set_ne u s i 1 0 n)
]

-- Tables that agree below `k` are marked alike by symbols below `k`.
pub mark_symbols-Agrees :
    (k mask : ℕ) (xs : List ℕ) (top : ℕ) (t u : List ℕ)
    → k ≤ length t
    → k ≤ length u
    → All (λ s. s < k) (masked mask xs)
    → Agrees k t u
    → let m = mark_symbols mask xs top t in
      let n = mark_symbols mask xs top u in
      (m.symbols ≡ n.symbols) × (m.maxsymbol ≡ n.maxsymbol) × Agrees k m.table n.table
unfolding mark_symbols
mark_symbols-Agrees k mask [] top t u lt lu h a = (refl, refl, a)
mark_symbols-Agrees k mask (x ∷ xs) top t u lt lu (h, hs) a =
    let s = bit_and x mask in
    let t' = if get_or t s 0 == 0 then set t s 1 else t in
    let u' = if get_or u s 0 == 0 then set u s 1 else u in
    let (e, e', a') =
      mark_symbols-Agrees k mask xs (if ltb top s then s else top) t' u'
        (ground (arith, length-set t s 1)) (ground (arith, length-set u s 1)) hs
        (mark_step-Agrees k s t u lt lu h a) in
    (ap (λ l. s ∷ l) e, e', a')

pub marked-Agrees :
    (k : ℕ) (t u : List ℕ) → k ≤ length t → k ≤ length u → Agrees k t u → marked k t ≡ marked k u
unfolding marked
marked-Agrees zero t u lt lu a = refl
marked-Agrees (suc k) [] u lt lu a = absurd (omega arith)
marked-Agrees (suc k) (x ∷ t) [] lt lu a = absurd (omega arith)
marked-Agrees (suc k) (x ∷ t) (y ∷ u) lt lu a =
    let e : x ≡ y = a 0 (omega arith) in
    let ih = marked-Agrees k t u (omega arith) (omega arith) λ i l. a (suc i) (omega arith) in
    ap₂ (λ (p q : ℕ). (if p == 0 then 0 else 1) + q) e ih

-- Within the table the loop gives each marked entry its rank as a byte, and counts the marked ones.
pub assign_byte_codes_lem :
    (k : ℕ) (t : List ℕ) (c : ℕ)
    → k ≤ length t
    → (codes : List ℕ) × (assign_byte_codes k t c ≡ some (codes, c + marked k t))
      × ((i : ℕ) → i < k → get_or t i 0 ≢ 0 → get_or codes i 0 ≡ (c + marked i t) % 2 ^ 8)
unfolding assign_byte_codes marked
assign_byte_codes_lem zero t c h = (t, ground arith, λ i lt. absurd (omega arith))
assign_byte_codes_lem (suc k) [] c h = absurd (omega arith)
assign_byte_codes_lem (suc k) (x ∷ t) c h =
    let c' = if x == 0 then c else c + 1 in
    let (codes, e, ranks) = assign_byte_codes_lem k t c' (omega arith) in
    ((if x == 0 then 0 else c % 2 ^ 8) ∷ codes, ground (arith, e), first codes ranks)
  where
    first :
        (codes : List ℕ)
        → ((i : ℕ)
            → i < k
            → get_or t i 0 ≢ 0
            → get_or codes i 0 ≡ ((if x == 0 then c else c + 1) + marked i t) % 2 ^ 8)
        → (i : ℕ) → i < suc k
        → get_or (x ∷ t) i 0 ≢ 0
        → get_or ((if x == 0 then 0 else c % 2 ^ 8) ∷ codes) i 0 ≡ (c + marked i (x ∷ t)) % 2 ^ 8
    first codes ranks zero lt n = ground arith
    first codes ranks (suc i) lt n = ground (arith, ranks i (omega arith) n)

pub map-All : (f g : ℕ → ℕ) (xs : List ℕ) → All (λ x. f x ≡ g x) xs → map f xs ≡ map g xs
map-All f g [] h = refl
map-All f g (x ∷ xs) (e, h) = ap₂ ◌∷◌ e (map-All f g xs h)

pub get_or-replicate : (n i : ℕ) → get_or (replicate {A = ℕ} n 0) i 0 ≡ 0
get_or-replicate zero i = refl
get_or-replicate (suc n) zero = refl
get_or-replicate (suc n) (suc i) = get_or-replicate n i
