-- ===== src/Symbols/Prepare/Memory.antt =====
-- The buffers that prepare_data of internal/nist/wrapper/wrapper.cpp allocates and that it or
-- free_data of internal/nist/cpp/shared/utils.h frees.
use nist_sp_800_90b_go.Base.{
  ℕ, ◌-◌, ◌^◌, ◌≤◌, ◌<◌, ◌≡◌, refl, true, false, none, some, List, arith, ◌==◌, length, get_elem?,
  get_or, ◌≢◌, ◌∙◌, Bool-cases, inl, inr,
}
use native.Mathlib.Nat.{pow-le-pow_right, zero-add}
use nist_sp_800_90b_go.Symbols.{Marked, word_size_for, mark_symbols, assign_codes}
use nist_sp_800_90b_go.Symbols.Width.{Fits, word_size_for-high}
use nist_sp_800_90b_go.Symbols.Alphabet.{
  assign_codes_lem, assign_codes-short, mark_symbols-masked, marked,
}
use nist_sp_800_90b_go.Symbols.Prepare.{
  Heap, empty, Allocator, Prepared, ready, failed, undefined, failing, free_symbols,
  free_rawsymbols, free_bsymbols, fresh_table, build, prepare_data, free_data,
}

-- Success leaves what free_data then frees, no more and no less; failure leaves nothing.
abbrev pub Balanced : Prepared → Type 0
Balanced (ready d h) = free_data d h ≡ some empty
Balanced (failed why h) = h ≡ empty
Balanced undefined = ⊥

pub length-fresh_table : length fresh_table ≡ 256
unfolding fresh_table
length-fresh_table = refl

abbrev pub two_buffers : Heap
two_buffers = record { symbols = true; rawsymbols = true; bsymbols = false }

build-Balanced :
    (al : Allocator) (w : ℕ) (xs : List ℕ) (m : Marked) (codes : List ℕ) (count : ℕ)
    → 1 ≤ w
    → Balanced (build al w xs m codes count two_buffers)
unfolding build free_data free_symbols free_rawsymbols free_bsymbols failing
build-Balanced al w xs m codes count h = elim (Bool-cases (w == 1)) [
  | inl one ↦ rw one (ground arith)
  | inr many ↦ elim (Bool-cases al.bsymbols) [
    | inl given ↦ rw (many, given) (ground arith)
    | inr denied ↦ rw (many, denied) refl
  ]
]

-- If both samples' buffers are allocated and the word size is at most 8, prepare_data goes on to
-- `build` with the rank of each marked symbol for its code.
pub prepare_data-build :
    (al : Allocator) (xs : List ℕ) (bits : ℕ)
    → al.symbols ≡ true
    → al.rawsymbols ≡ true
    → word_size_for bits xs ≤ 8
    → let w = word_size_for bits xs in
      let m = mark_symbols (2 ^ w - 1) xs 0 fresh_table in
      (codes : List ℕ) × ((i : ℕ)
        → i < 2 ^ w
        → get_or m.table i 0 ≢ 0
        → get_or codes i 0 ≡ marked i m.table)
      × (prepare_data al xs bits ≡ build al w xs m codes (marked (2 ^ w) m.table) two_buffers)
unfolding prepare_data
prepare_data-build al xs bits one two q =
    let w = word_size_for bits xs in
    let m = mark_symbols (2 ^ w - 1) xs 0 fresh_table in
    let long : length m.table ≡ 256 =
      (mark_symbols-masked (2 ^ w - 1) xs 0 fresh_table).1 ∙ length-fresh_table in
    let small : 2 ^ w ≤ 2 ^ 8 = pow-le-pow_right {n = 2} (omega arith) {i = w} {j = 8} q in
    let (codes, e, ranks) = assign_codes_lem (2 ^ w) m.table 0 (omega arith) in
    (codes, λ i lt n. ranks i lt n ∙ zero-add (marked i m.table), simp (one, two, e, zero-add))

-- When the word size is 1 to 8, whichever allocations fail: prepare_data has no undefined
-- behaviour; if it succeeds, free_data then frees exactly the buffers that are allocated; and if it
-- fails, it has freed every buffer itself.
pub prepare_data-Balanced :
    (al : Allocator) (xs : List ℕ) (bits : ℕ)
    → 1 ≤ word_size_for bits xs
    → word_size_for bits xs ≤ 8
    → Balanced (prepare_data al xs bits)
prepare_data-Balanced al xs bits p q = elim (Bool-cases al.symbols) [
  | inl one ↦ elim (Bool-cases al.rawsymbols) [
    | inl two ↦ allocated one two
    | inr two ↦ unfold prepare_data free_symbols free_rawsymbols failing in rw (one, two) refl
  ]
  | inr one ↦ elim (Bool-cases al.rawsymbols) [
    | inl two ↦ unfold prepare_data free_symbols free_rawsymbols failing in rw (one, two) refl
    | inr two ↦ unfold prepare_data free_symbols free_rawsymbols failing in rw (one, two) refl
  ]
]
  where
    allocated : al.symbols ≡ true → al.rawsymbols ≡ true → Balanced (prepare_data al xs bits)
    allocated one two =
        let (codes, h, e) = prepare_data-build al xs bits one two q in
        rw e (build-Balanced al _ xs _ codes _ p)

-- When bits_per_symbol is 0 and some sample uses the highest bit of its byte, the detected width 9
-- makes prepare_data go beyond the end of its table of 256 entries.
pub prepare_data-undefined :
    (al : Allocator) (xs : List ℕ) (i x : ℕ)
    → al.symbols ≡ true
    → al.rawsymbols ≡ true
    → Fits 8 xs
    → get_elem? xs i ≡ some x
    → 128 ≤ x
    → prepare_data al xs 0 ≡ undefined
unfolding prepare_data
prepare_data-undefined al xs i x one two f e h =
    let w = word_size_for 0 xs in
    let nine : w ≡ 9 = word_size_for-high xs i x f e h in
    let m = mark_symbols (2 ^ w - 1) xs 0 fresh_table in
    let long : length m.table ≡ 256 =
      (mark_symbols-masked (2 ^ w - 1) xs 0 fresh_table).1 ∙ length-fresh_table in
    let large : 2 ^ w ≡ 512 = rw nine refl in
    let short : assign_codes (2 ^ w) m.table 0 ≡ none =
      assign_codes-short (2 ^ w) m.table 0 (omega arith) in
    simp (one, two, short)
