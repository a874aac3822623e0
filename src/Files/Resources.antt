-- ===== src/Files/Resources.antt =====
-- What read_file_subset and read_file of internal/nist/cpp/shared/utils.h leave open and allocated,
-- with free_data.
use nist_sp_800_90b_go.Base.{
  ℕ, zero, suc, ◌+◌, ◌-◌, ◌*◌, ◌%◌, ◌^◌, ◌≤◌, ◌≡◌, refl, ◌∙◌, Bool, true, false, some, List, [],
  ◌∷◌, arith, ltb, ◌==◌, if◌then◌else◌, length, replicate, length-replicate, Bool-cases, inl, inr,
  ℤ, pos, negsuc, ◌<◌, ◌/◌, min, All, ==_iff, lt→ltb, subst,
}
use nist_sp_800_90b_go.Result.{Text}
use nist_sp_800_90b_go.Symbols.{Data, Marked, data_mask, scan_width, file_width, mark_symbols}
use nist_sp_800_90b_go.Symbols.Width.{file_width_least}
use nist_sp_800_90b_go.Symbols.Alphabet.{mark_symbols-masked}
use nist_sp_800_90b_go.Symbols.Prepare.{
  Heap, empty, Allocator, free_symbols, free_rawsymbols, free_bsymbols, free_data,
}
use nist_sp_800_90b_go.Files.Effects.{Ends, Ends-bind, after, ◌>>=◌, ◌>>◌}
use nist_sp_800_90b_go.Files.{
  File, Reading, return_false, report_error, fclose, release, fail_closed, open_file, check_tell,
  file_length, finish_coded, block, refuse_empty, given, allocate_samples, read_samples, fill, load,
  warn, establish_width, assign_byte_codes, allocate_bitstring, finish_data, translate,
  read_file_subset,
}

-- The two buffers of the samples.
abbrev samples_held : Heap
samples_held = record { symbols = true; rawsymbols = true; bsymbols = false }

-- The bit string alone.
abbrev pub bitstring_held : Heap
bitstring_held = record { symbols = false; rawsymbols = false; bsymbols = true }

-- The stream is closed and no buffer is allocated.
abbrev pub Released : Reading → Type 0
Released s = (s.file ≡ false) × (s.heap ≡ empty)

abbrev Opened : {A : Type 0} → A → Reading → Type 0
Opened _ s = (s.file ≡ true) × (s.heap ≡ empty)

abbrev Loaded : {A : Type 0} → A → Reading → Type 0
Loaded _ s = (s.file ≡ false) × (s.heap ≡ samples_held)

-- free_data frees every buffer, or at word size 0 all but the bit string, and then `z`; and the word
-- size has room for the alphabet.
abbrev pub Prepares : (z : Type 0) → Data → Reading → Type 0
Prepares z dp s =
    (s.file ≡ false)
    × (dp.alph_size ≤ 2 ^ dp.word_size)
    × (free_data dp s.heap ≡ some (if dp.word_size == 0 then bitstring_held else empty))
    × (dp.word_size ≡ 0 → z)

-- fread gives bytes.
abbrev pub GivesBytes : File → Type 0
GivesBytes f = (offset count : ℕ) → All (λ x. x < 2 ^ 8) (f.read offset count)

-- Where a subset starts and how long it is; with size 0 it is the whole file.
abbrev pub place_of : (index size file_len : ℕ) → ℕ × ℕ
place_of index size file_len =
    let offset = index * size % 2 ^ 64 in
    if size == 0 then (0, file_len) else (offset, min ((file_len + 2 ^ 64 - offset) % 2 ^ 64) size)

-- The subset of the file is not empty, and all its bytes are zero.
abbrev pub AllZero : File → (index size : ℕ) → Type 0
AllZero f index size =
    (file_len : ℕ) × (f.tell ≡ pos file_len)
    × (let (offset, count) = place_of index size file_len in
        (0 < count)
        × (length (f.read offset count) ≡ count)
        × All (λ x. x ≡ 0) (f.read offset count))

abbrev pub Left : Unit {0} → Reading → Type 0
Left _ s = Released s

fail_closed-Ends :
    {A : Type 0} (message : Text) (p : A → Reading → Type 0) (s : Reading)
    → Opened tt s
    → Ends p Left (fail_closed message s)
unfolding fail_closed report_error fclose return_false ◌>>=◌ ◌>>◌ after Ends
fail_closed-Ends message p s (o, e) = rw o (refl, e)

open_file-Ends : (f : File) (s : Reading) → Released s → Ends Opened Left (open_file f s)
unfolding open_file report_error return_false ◌>>=◌ ◌>>◌ after Ends
open_file-Ends f s (c, e) = elim (Bool-cases f.opens) [
  | inl o ↦ rw o (refl, e)
  | inr o ↦ rw o (c, e)
]

check_tell-Ends :
    (t : ℤ) (s : Reading)
    → Opened tt s
    → Ends (λ n s'. Opened n s' × (t ≡ pos n)) Left (check_tell t s)
unfolding check_tell Ends
check_tell-Ends (pos n) s o = (o, refl)
check_tell-Ends (negsuc n) s o = fail_closed-Ends _ _ s o

file_length-Ends :
    (f : File) (s : Reading)
    → Opened tt s
    → Ends (λ n s'. Opened n s' × (f.tell ≡ pos n)) Left (file_length f s)
unfolding file_length Ends
file_length-Ends f s o = elim (Bool-cases f.seek_end) [
  | inl e ↦ rw e (check_tell-Ends f.tell s o)
  | inr e ↦ rw e (fail_closed-Ends _ (λ n s'. Opened n s' × (f.tell ≡ pos n)) s o)
]

block-Ends :
    (f : File) (index size len : ℕ) (s : Reading)
    → Opened tt s
    → Ends (λ p s'. Opened p s' × (p ≡ place_of index size len)) Left (block f index size len s)
unfolding block Ends
block-Ends f index size len s o = elim (Bool-cases (size == 0)) [
  | inl z ↦ rw z (o, refl)
  | inr z ↦ elim (Bool-cases (f.seek (index * size % 2 ^ 64))) [
    | inl e ↦ rw (z, e) (o, refl)
    | inr e ↦ rw (z, e) (fail_closed-Ends _ _ s o)
  ]
]

refuse_empty-Ends :
    (len : ℕ) (s : Reading)
    → Opened tt s
    → Ends (λ u s'. Opened u s' × (0 < len)) Left (refuse_empty len s)
unfolding refuse_empty Ends
refuse_empty-Ends len s o = elim (Bool-cases (len == 0)) [
  | inl z ↦ rw z (fail_closed-Ends _ (λ u s'. Opened u s' × (0 < len)) s o)
  | inr z ↦ rw z (o, ground (arith, z))
]

-- The samples are loaded.
abbrev Sampled : (f : File) (offset len : ℕ) → List ℕ → Reading → Type 0
Sampled f offset len xs s = Loaded xs s × (xs ≡ f.read offset len) × (length xs ≡ len)

fill-Ends :
    (f : File) (offset len : ℕ) (one two : Bool) (s : Reading)
    → Opened tt s
    → Ends (Sampled f offset len) Left (fill f offset len one two s)
unfolding fill read_samples allocate_samples report_error fclose release return_false free_symbols
    free_rawsymbols ◌>>=◌ ◌>>◌ after Ends
fill-Ends f offset len true true s (o, e) = elim (Bool-cases (length (f.read offset len) == len)) [
  | inl all ↦ rw (all, o) ((refl, refl), refl, (==_iff _ len).0 all)
  | inr few ↦ rw (few, o) (refl, refl)
]
fill-Ends f offset len true false s (o, e) = rw o (refl, refl)
fill-Ends f offset len false true s (o, e) = rw o (refl, refl)
fill-Ends f offset len false false s (o, e) = rw o (refl, refl)

load-Ends :
    (f : File) (al : Allocator) (offset len : ℕ) (s : Reading)
    → Opened tt s
    → Ends (Sampled f offset len) Left (load f al offset len s)
unfolding load
load-Ends f al offset len s o =
    fill-Ends f offset len (given al.symbols len) (given al.rawsymbols len) s o

scan_width-le : (i curbit mask : ℕ) → scan_width i curbit mask ≤ i
unfolding scan_width
scan_width-le zero curbit mask = omega arith
scan_width-le (suc i) curbit mask = ground (arith, scan_width-le i (curbit / 2) mask)

-- The word size that is established: at most 8, and 0 only when it is found so.
abbrev Established : List ℕ → ℕ → Reading → Type 0
Established xs w s = Loaded w s × (w ≤ 8) × (w ≡ 0 → file_width (data_mask 0 xs) ≡ 0)

establish_width-Ends :
    (w : ℕ) (xs : List ℕ) (s : Reading)
    → w ≤ 8
    → Loaded tt s
    → Ends (Established xs) Left (establish_width w xs s)
unfolding establish_width warn report_error release return_false free_symbols free_rawsymbols ◌>>=◌
    ◌>>◌ after Ends file_width
establish_width-Ends w xs s small (o, e) =
    let i = file_width (data_mask 0 xs) in
    elim (Bool-cases (w == 0)) [
      | inl z ↦ rw z ((o, e), scan_width-le 8 0x80 (data_mask 0 xs), λ q. q)
      | inr z ↦
          let given_width : w ≡ 0 → file_width (data_mask 0 xs) ≡ 0 =
            λ q. absurd (ground (arith, z, q)) in
          elim (Bool-cases (ltb i w)) [
            | inl narrow ↦ rw (z, narrow) ((o, e), small, given_width)
            | inr fits ↦ elim (Bool-cases (ltb w i)) [
              | inl wide ↦ rw (z, fits, wide, e) (o, refl)
              | inr same ↦ rw (z, fits, same) ((o, e), small, given_width)
            ]
          ]
    ]

-- The table has an entry for every round.
pub assign_byte_codes-runs :
    (k : ℕ) (t : List ℕ) (c : ℕ)
    → k ≤ length t
    → (out : List ℕ × ℕ) × (assign_byte_codes k t c ≡ some out) × (out.1 ≤ c + k)
unfolding assign_byte_codes
assign_byte_codes-runs zero t c h = ((t, c), refl, omega arith)
assign_byte_codes-runs (suc k) [] c h = absurd (omega arith)
assign_byte_codes-runs (suc k) (x ∷ t) c h =
    let (out, e, few) = assign_byte_codes-runs k t (if x == 0 then c else c + 1) (omega arith) in
    (((if x == 0 then 0 else c % 2 ^ 8) ∷ out.0, out.1), rw e refl, ground arith)

finish_data-Ends :
    (z : Type 0) (al : Allocator) (reports : Bool) (w : ℕ) (xs : List ℕ) (m : Marked)
    (table : List ℕ) (count : ℕ) (s : Reading)
    → count ≤ 2 ^ w
    → (w ≡ 0 → z)
    → Loaded tt s
    → Ends (Prepares z) Left (finish_data al reports w xs m table count s)
unfolding finish_data allocate_bitstring report_error release return_false free_symbols
    free_rawsymbols free_bsymbols free_data ◌>>=◌ ◌>>◌ after Ends
finish_data-Ends z al reports w xs m table count s few no_bits (o, e) = elim (Bool-cases (w == 1)) [
  | inl one ↦ rw (one, e) (o, few, ground arith, no_bits)
  | inr many ↦ elim (Bool-cases (given al.bsymbols (length xs * w))) [
    | inl given_bits ↦ rw (many, given_bits, e) (o, few, ground arith, no_bits)
    | inr denied ↦ elim (Bool-cases reports) [
      | inl told ↦ rw (many, denied, told, e) (o, refl)
      | inr silent ↦ rw (many, denied, silent, e) (o, refl)
    ]
  ]
]

translate-Ends :
    (z : Type 0) (al : Allocator) (reports : Bool) (w : ℕ) (xs : List ℕ) (s : Reading)
    → w ≤ 8
    → (w ≡ 0 → z)
    → Loaded tt s
    → Ends (Prepares z) Left (translate al reports w xs s)
unfolding translate finish_coded
translate-Ends z al reports w xs s small no_bits l =
    let m = mark_symbols (2 ^ w - 1) xs 0 (replicate (2 ^ w) 0) in
    let long : length m.table ≡ 2 ^ w =
      (mark_symbols-masked (2 ^ w - 1) xs 0 (replicate (2 ^ w) 0)).1 ∙ length-replicate (2 ^ w) 0 in
    let (out, e, few) = assign_byte_codes-runs (2 ^ w) m.table 0 (omega (arith, long)) in
    rw (lt→ltb w 31 (omega arith), e)
      (finish_data-Ends z al reports w xs m out.0 out.1 s (omega arith) no_bits l)

zeros : (xs : List ℕ) → All (λ x. x < 2 ^ 0) xs → All (λ x. x ≡ 0) xs
zeros [] a = tt
zeros (x ∷ xs) (p, a) = (omega arith, zeros xs a)

-- Samples whose width is found to be 0.
zeros-found :
    (xs : List ℕ) → All (λ x. x < 2 ^ 8) xs → file_width (data_mask 0 xs) ≡ 0 → All (λ x. x ≡ 0) xs
zeros-found xs a e = zeros xs (subst (λ w. All (λ x. x < 2 ^ w) xs) e (file_width_least xs a).1)

-- From the samples' place in the file on.
rest-Ends :
    (f : File) (al : Allocator) (w index size file_len : ℕ) (place : ℕ × ℕ) (s : Reading)
    → GivesBytes f
    → w ≤ 8
    → f.tell ≡ pos file_len
    → place ≡ place_of index size file_len
    → Opened tt s
    → Ends (Prepares (AllZero f index size)) Left (
        (do
          refuse_empty place.1
          xs ← load f al place.0 place.1
          w' ← establish_width w xs
          translate al false w' xs)
          s)
unfolding ◌>>=◌ ◌>>◌
rest-Ends f al w index size file_len place s bytes small told at o =
    let z = AllZero f index size in
    Ends-bind _ (Prepares z) Left _ _ (refuse_empty-Ends place.1 s o) λ _ s1 (o1, some_bytes).
      Ends-bind _ (Prepares z) Left _ _ (load-Ends f al place.0 place.1 s1 o1)
        λ xs s2 (l, read, long).
          Ends-bind _ (Prepares z) Left _ _ (establish_width-Ends w xs s2 small l)
            λ w' s3 (l3, small', found).
              translate-Ends z al false w' xs s3 small'
                (λ q. (
                  file_len,
                  told,
                  subst
                      (λ (p : ℕ × ℕ).
                        (0 < p.1)
                        × (length (f.read p.0 p.1) ≡ p.1)
                        × All (λ x. x ≡ 0) (f.read p.0 p.1))
                      at
                      (
                        some_bytes,
                        subst (λ (ys : List ℕ). length ys ≡ place.1) read long,
                        zeros-found (f.read place.0 place.1) (bytes place.0 place.1)
                            (subst (λ ys. file_width (data_mask 0 ys) ≡ 0) read (found q)),
                      ),
                ))
                l3

-- Started without an open stream or a buffer, for a word size of at most 8 (0 to be found) and a file
-- that gives bytes, whatever the subset and the outcomes of the calls on the file and of malloc:
-- read_file_subset closes the stream exactly once if it was opened, makes no bad free or access to
-- its table, and on failure leaves no buffer; on success free_data then frees every buffer, except
-- that at word size 0, which only a non-empty subset of zero bytes has, the bit string stays
-- allocated; and the alphabet has at most 2 to the power of the word size many symbols.
pub read_file_subset-Ends :
    (f : File) (al : Allocator) (w index size : ℕ) (s : Reading)
    → GivesBytes f
    → w ≤ 8
    → Released s
    → Ends (Prepares (AllZero f index size)) Left (read_file_subset f al w index size s)
unfolding read_file_subset ◌>>=◌ ◌>>◌
read_file_subset-Ends f al w index size s bytes small r =
    let z = AllZero f index size in
    Ends-bind Opened (Prepares z) Left _ _ (open_file-Ends f s r) λ _ s1 o1.
      Ends-bind _ (Prepares z) Left _ _ (file_length-Ends f s1 o1) λ n s2 (o2, told).
        Ends-bind _ (Prepares z) Left _ _ (block-Ends f index size n s2 o2)
          λ place s3 (o3, at). rest-Ends f al w index size n place s3 bytes small told at o3
