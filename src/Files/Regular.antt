-- ===== src/Files/Regular.antt =====
-- internal/nist/cpp/shared/utils.h, read_file_subset on a regular file, and
-- internal/nist/wrapper/wrapper.cpp, prepare_data, on the same samples.
use native.Mathlib.Nat.{mod-eq_of_lt, mul-le-mul}
use nist_sp_800_90b_go.Base.{
  ℕ, zero, suc, ◌+◌, ◌-◌, ◌*◌, ◌%◌, ◌^◌, ◌≤◌, ◌<◌, ◌≡◌, refl, sym, ◌∙◌, ap, true, false, List, [],
  ◌∷◌, arith, ltb, ◌==◌, if◌then◌else◌, length, take, drop, Bool-cases, inl, inr, pos, min, lt→ltb,
  le→ltb_false, dec_lt,
}
use nist_sp_800_90b_go.Symbols.{Data, data_mask, file_width}
use nist_sp_800_90b_go.Symbols.Prepare.{Heap, Allocator, ready, prepare_data}
use nist_sp_800_90b_go.Files.Effects.{Step, next, after, ◌>>=◌, ◌>>◌}
use nist_sp_800_90b_go.Files.Blocks.{translate-prepare_data}
use nist_sp_800_90b_go.Files.{
  File, Reading, Reads, given, open_file, file_length, check_tell, block, refuse_empty,
  establish_width, warn, load, fill, allocate_samples, read_samples, fclose, read_file_subset,
}

-- A regular file with the bytes `xs`: it opens, can be positioned within what a long holds, and
-- fread gives as many bytes as there are.
pub record IsRegular (f : File) (xs : List ℕ) : Type 0 where
  pub opens : f.opens ≡ true
  pub seek_end : f.seek_end ≡ true
  pub tell : f.tell ≡ pos (length xs)
  pub seek : (o : ℕ) → o < 2 ^ 63 → f.seek o ≡ true
  pub read : (o n : ℕ) → f.read o n ≡ take n (drop o xs)

-- The samples of a subset: all of them when its size is 0.
abbrev pub subset_of : (index size : ℕ) → List ℕ → List ℕ
subset_of index size xs = if size == 0 then xs else take size (drop (index * size) xs)

establish_width-Next :
    (w : ℕ) (xs : List ℕ) (s : Reading)
    → let found = file_width (data_mask 0 xs) in
      found ≤ (if w == 0 then found else w)
      → (s' : Reading) × (establish_width w xs s ≡ (next (if w == 0 then found else w), s'))
unfolding establish_width warn ◌>>=◌ ◌>>◌ after
establish_width-Next w xs s h =
    let found = file_width (data_mask 0 xs) in
    elim (Bool-cases (w == 0)) [
      | inl z ↦ rw z (s, refl)
      | inr z ↦ elim (Bool-cases (ltb found w)) [
        | inl narrow ↦ rw (z, narrow) (_, refl)
        | inr fits ↦ rw (z, fits, le→ltb_false w found (ground arith)) (s, refl)
      ]
    ]

load-Next :
    (f : File) (al : Allocator) (offset len : ℕ) (xs : List ℕ) (s : Reading)
    → s.file ≡ true
    → al.symbols ≡ true
    → al.rawsymbols ≡ true
    → len < 2 ^ 63
    → f.read offset len ≡ xs
    → length xs ≡ len
    → (s' : Reading) × (load f al offset len s ≡ (next xs, s'))
unfolding load fill given allocate_samples read_samples fclose ◌>>=◌ ◌>>◌ after
load-Next f al offset len xs s o one two room e l =
    let all : (length xs == len) ≡ true = ground arith in
    rw (one, two, lt→ltb len (2 ^ 63) room, e, all, o) (_, refl)

open_file-Next :
    (f : File) (s : Reading) → f.opens ≡ true → open_file f s ≡ (next tt, record s { file = true })
unfolding open_file
open_file-Next f s e = rw e refl

file_length-Next :
    (f : File) (xs : List ℕ) (s : Reading)
    → IsRegular f xs
    → file_length f s ≡ (next (length xs), s)
unfolding file_length check_tell
file_length-Next f xs s g = rw (g.seek_end, g.tell) refl

block-Next :
    (f : File) (xs : List ℕ) (index size : ℕ) (s : Reading)
    → IsRegular f xs
    → length xs < 2 ^ 63
    → index * size < length xs
    → block f index size (length xs) s ≡ (
      next (
          if size == 0
          then (0, length xs)
          else (index * size, min (length xs - index * size) size)),
      s,
    )
unfolding block
block-Next f xs index size s g room inside =
    let whole : index * size % 2 ^ 64 ≡ index * size = mod-eq_of_lt (omega arith) in
    let left : (length xs + 2 ^ 64 - index * size) % 2 ^ 64 ≡ length xs - index * size =
      omega arith in
    elim (Bool-cases (size == 0)) [
      | inl z ↦ rw z refl
      | inr z ↦ rw (z, whole, g.seek (index * size) (omega arith), left) refl
    ]

refuse_empty-Next : (n : ℕ) (s : Reading) → 1 ≤ n → refuse_empty n s ≡ (next tt, s)
unfolding refuse_empty
refuse_empty-Next n s h = let e : (n == 0) ≡ false = ground arith in rw e refl

length-take {ℓ} : {A : Type ℓ} (n : ℕ) (xs : List A) → length (take n xs) ≡ min n (length xs)
length-take zero xs = omega arith
length-take (suc n) [] = omega arith
length-take (suc n) (x ∷ xs) = omega (arith, length-take n xs)

length-drop {ℓ} : {A : Type ℓ} (n : ℕ) (xs : List A) → length (drop n xs) ≡ length xs - n
length-drop zero xs = omega arith
length-drop (suc n) [] = omega arith
length-drop (suc n) (x ∷ xs) = omega (arith, length-drop n xs)

take_all {ℓ} : {A : Type ℓ} (n : ℕ) (xs : List A) → length xs ≤ n → take n xs ≡ xs
take_all zero [] h = refl
take_all zero (x ∷ xs) h = absurd (omega arith)
take_all (suc n) [] h = refl
take_all (suc n) (x ∷ xs) h = ap (λ l. x ∷ l) (take_all n xs (omega arith))

unfoldable pub Got : {A : Type 0} → Step (Unit {0}) A × Reading → A → Type 0
Got m a = m.0 ≡ next a

Got-value : {A : Type 0} (o : Step (Unit {0}) A × Reading) (a : A) → o.0 ≡ next a → Got o a
unfolding Got
Got-value o a e = e

-- After a step that goes on.
Got-bind :
    {A B : Type 0} (m : Reads A) (k : A → Reads B) (s s' : Reading) (a : A) (b : B)
    → m s ≡ (next a, s')
    → Got (k a s') b
    → Got ((m >>= k) s) b
unfolding ◌>>=◌ after Got
Got-bind m k s s' a b e g = ap (λ r. (after k r).0) e ∙ g

take-min {ℓ} : {A : Type ℓ} (n : ℕ) (xs : List A) → take (min (length xs) n) xs ≡ take n xs
take-min n xs = elim (dec_lt n (length xs)) [
  | yes l ↦ ap (λ k. take k xs) (omega arith)
  | no g ↦
      ap (λ k. take k xs) {y = length xs} (omega arith)
      ∙ take_all (length xs) xs (omega arith)
      ∙ sym (take_all n xs (omega arith))
]

-- Where `block` says to read, and how much.
abbrev place : (index size : ℕ) → List ℕ → ℕ × ℕ
place index size xs =
    if size == 0 then (0, length xs) else (index * size, min (length xs - index * size) size)

place-read :
    (f : File) (xs : List ℕ) (index size : ℕ)
    → IsRegular f xs
    → index * size < length xs
    → let p = place index size xs in
      (f.read p.0 p.1 ≡ subset_of index size xs)
      × (length (subset_of index size xs) ≡ p.1)
      × (1 ≤ p.1)
      × (p.1 ≤ length xs)
place-read f xs index size g inside = elim (Bool-cases (size == 0)) [
  | inl z ↦
      rw z (
        g.read 0 (length xs) ∙ take_all (length xs) xs (omega arith),
        refl,
        omega arith,
        omega arith,
      )
  | inr z ↦
      let o = index * size in
      let long = length-drop o xs in
      let pos_size : 1 ≤ size = ground arith in
      rw z (
        g.read o _
            ∙ ap (λ (k : ℕ). take (min k size) (drop o xs)) (sym long)
            ∙ take-min size (drop o xs),
        omega (arith, length-take size (drop o xs), long),
        omega arith,
        omega arith,
      )
]

few : (n w : ℕ) → n < 2 ^ 60 → w ≤ 8 → n * w < 2 ^ 63
few n w h le = let scaled : n * w ≤ n * 8 = mul-le-mul (omega arith) le in omega arith

-- For a regular file of fewer than 2^60 bytes, a subset that starts within it, a word size of 0 (to
-- be found) or one in which the subset's samples fit, and a resulting width `w` of 1 to 8, when
-- every buffer can be allocated: read_file_subset succeeds, and its data is the one that
-- prepare_data makes of the subset's samples for `w` bits per symbol.
pub read_file_subset-prepare_data :
    (f : File) (al : Allocator) (xs : List ℕ) (word_size index size : ℕ) (s : Reading)
    → IsRegular f xs
    → al.symbols ≡ true
    → al.rawsymbols ≡ true
    → al.bsymbols ≡ true
    → length xs < 2 ^ 60
    → index * size < length xs
    → let samples = subset_of index size xs in
      let found = file_width (data_mask 0 samples) in
      let w = if word_size == 0 then found else word_size in
      found ≤ w
      → 1 ≤ w
      → w ≤ 8
      → (dp : Data) × (h : Heap) × (prepare_data al samples w ≡ ready dp h)
        × Got (read_file_subset f al word_size index size s) dp
unfolding read_file_subset ◌>>◌
read_file_subset-prepare_data f al xs word_size index size s g one two three room inside fits low
      high =
    let samples = subset_of index size xs in
    let found = file_width (data_mask 0 samples) in
    let w = if word_size == 0 then found else word_size in
    let p = place index size xs in
    let s1 : Reading = record s { file = true } in
    let (read, long, some_read, bounded) = place-read f xs index size g inside in
    let (s2, loaded) = load-Next f al p.0 p.1 samples s1 refl one two (omega arith) read long in
    let (s3, established) = establish_width-Next word_size samples s2 fits in
    let (dp, h, prepared, ended) =
      translate-prepare_data al false w samples s3 one two three low high
        (few (length samples) w (omega (arith, long, bounded)) high) in
    (
      dp,
      h,
      prepared,
      (Got-bind (open_file f) _ s s1 tt dp (open_file-Next f s g.opens) (
          Got-bind (file_length f) _ s1 s1 (length xs) dp (file_length-Next f xs s1 g) (
            Got-bind (block f index size (length xs)) _ s1 s1 p dp
              (block-Next f xs index size s1 g (omega (arith, room)) inside)
              (Got-bind (refuse_empty p.1) _ s1 s1 tt dp (refuse_empty-Next p.1 s1 some_read) (
                Got-bind (load f al p.0 p.1) _ s1 s2 samples dp loaded (
                  Got-bind (establish_width word_size samples) _ s2 s3 w dp established
                    (Got-value _ dp ended))))))),
    )
