-- ===== src/Symbols/Prepare/Codes.antt =====
-- The alphabet of the data that internal/nist/wrapper/wrapper.cpp, prepare_data, prepares.
use native.Mathlib.Nat.{pow-le-pow_right, one-le-pow, mod-lt, mod-eq_of_lt}
use nist_sp_800_90b_go.Base.{
  ℕ, ◌+◌, ◌-◌, ◌*◌, ◌%◌, ◌^◌, ◌≤◌, ◌<◌, ◌≡◌, refl, sym, ◌∙◌, ap, ap₂, length-map, [], ◌∷◌, ◌/◌, ◌≢◌,
  true, false, some, List, map, arith, ltb, ◌==◌, if◌then◌else◌, length, get_elem?, get_or, All,
  All-both, All-map, All-const, All-get, map_self, Bool-cases, ==_iff, le→ltb_false, inl, inr,
  bit_and,
}
use nist_sp_800_90b_go.Base.Bits.{bit_and_mask}
use nist_sp_800_90b_go.Symbols.{
  Data, word_size_for, mark_symbols, map_down, Marked, bitstring, bits_of,
}
use nist_sp_800_90b_go.Symbols.Alphabet.{
  masked, mark_symbols-masked, mark_symbols-marks, le-maxsymbol, marked, marked-le, marked_mono,
  maxsymbol-le,
}
use nist_sp_800_90b_go.Symbols.Bitstring.{length-bitstring, bitstring-get}
use nist_sp_800_90b_go.Symbols.Prepare.{Heap, Allocator, ready, fresh_table, build, prepare_data}
use nist_sp_800_90b_go.Symbols.Prepare.Memory.{prepare_data-build, length-fresh_table}

abbrev pub Occurs : ℕ → List ℕ → Type 0
Occurs a xs = (i : ℕ) × (get_elem? xs i ≡ some a)

-- `out` replaces the values of `raw` by codes below `count`, in their order.
pub record IsCoding (raw : List ℕ) (count : ℕ) (out : List ℕ) : Type 0 where
  pub code : ℕ → ℕ
  pub coded : out ≡ map code raw
  pub rising : (a b : ℕ) → Occurs a raw → Occurs b raw → a < b → code a < code b
  pub below : All (λ s. s < count) out

pub masked-lt : (w : ℕ) (xs : List ℕ) → All (λ s. s < 2 ^ w) (masked (2 ^ w - 1) xs)
masked-lt w xs =
    All-map (λ s. s < 2 ^ w) (λ x. bit_and x (2 ^ w - 1)) xs
      (All-const (λ x. bit_and x (2 ^ w - 1) < 2 ^ w) xs
        λ x. rw (bit_and_mask w x) (mod-lt x (one-le-pow w 2 (omega arith))))

masked_bit : (x : ℕ) → bit_and x (2 ^ 1 - 1) ≤ 1
masked_bit x = omega (arith, bit_and_mask 1 x)

bitstring-one :
    (mask : ℕ) (xs : List ℕ) → ((x : ℕ) → bit_and x mask ≤ 1) → bitstring 1 mask xs ≡ masked mask xs
unfolding bitstring bits_of
bitstring-one mask [] h = refl
bitstring-one mask (x ∷ xs) h =
    ap₂ ◌∷◌ (omega (arith, h x, bit_and_mask 1 (bit_and x mask / 2 ^ 0))) (bitstring-one mask xs h)

length-marks :
    (w : ℕ) (xs : List ℕ) → length (mark_symbols (2 ^ w - 1) xs 0 fresh_table).symbols ≡ length xs
length-marks w xs =
    ap length (mark_symbols-masked (2 ^ w - 1) xs 0 fresh_table).0
    ∙ length-map xs (λ x. bit_and x (2 ^ w - 1))

module _ (w : ℕ) (xs : List ℕ) (small : w ≤ 8) where
  abbrev marks : Marked
  marks = mark_symbols (2 ^ w - 1) xs 0 fresh_table

  abbrev raws : List ℕ
  raws = masked (2 ^ w - 1) xs

  abbrev size : ℕ
  size = marked (2 ^ w) marks.table

  byte : 2 ^ w ≤ 2 ^ 8
  byte = pow-le-pow_right {n = 2} (omega arith) {i = w} {j = 8} small

  All-marked : All (λ s. get_or marks.table s 0 ≢ 0) raws
  All-marked = mark_symbols-marks (2 ^ w - 1) xs 0 fresh_table (
      All-both (λ s. s < 2 ^ w) (λ s. s < 2 ^ w) (λ s. s < length fresh_table) raws
        (λ s p q. omega (arith, byte, length-fresh_table)) (masked-lt w xs) (masked-lt w xs))

  module _ (codes : List ℕ)
      (ranks : (i : ℕ)
        → i < 2 ^ w
        → get_or marks.table i 0 ≢ 0
        → get_or codes i 0 ≡ marked i marks.table) where
    code_of :
        (s : ℕ)
        → s < 2 ^ w
        → get_or marks.table s 0 ≢ 0
        → (get_or codes s 0 % 2 ^ 8 ≡ marked s marks.table) × (marked s marks.table < size)
    code_of s lt n =
        let up = marked_mono s (2 ^ w) marks.table lt n in
        let fit : marked s marks.table < 2 ^ 8 =
          omega (arith, up, byte, marked-le (2 ^ w) marks.table) in
        (rw (ranks s lt n) (mod-eq_of_lt fit), up)

    mapped : IsCoding raws size (map_down codes marks.symbols)
    unfolding map_down
    mapped = record {
      code = λ s. get_or codes s 0 % 2 ^ 8;
      coded = rw ((mark_symbols-masked (2 ^ w - 1) xs 0 fresh_table).0) refl;
      rising = λ a b (i, ia) (j, jb) lt.
          let fa =
            code_of a (All-get _ raws i (masked-lt w xs) ia) (All-get _ raws i All-marked ia) in
          let fb =
            code_of b (All-get _ raws j (masked-lt w xs) jb) (All-get _ raws j All-marked jb) in
          let m = marked_mono a b marks.table lt (All-get _ raws i All-marked ia) in
          omega (arith, fa.0, fb.0, m);
      below = rw ((mark_symbols-masked (2 ^ w - 1) xs 0 fresh_table).0) (
          All-map (λ s. s < size) (λ s. get_or codes s 0 % 2 ^ 8) raws
            (All-both _ _ (λ s. get_or codes s 0 % 2 ^ 8 < size) raws
              (λ s lt n. omega (arith, (code_of s lt n).0, (code_of s lt n).1)) (masked-lt w xs)
              All-marked));
    }

  unmapped : marks.maxsymbol < size → IsCoding raws size marks.symbols
  unmapped h =
      let e = (mark_symbols-masked (2 ^ w - 1) xs 0 fresh_table).0 in
      let top = (le-maxsymbol (2 ^ w - 1) xs 0 fresh_table).1 in
      record {
        code = λ s. s;
        coded = e ∙ sym (map_self raws);
        rising = λ a b p q lt. lt;
        below = rw e (All-both _ _ (λ s. s < size) raws (λ s p q. omega arith) top top);
      }

  -- The symbols that `build` stores.
  abbrev stored : List ℕ → List ℕ
  stored codes =
      if ltb size (marks.maxsymbol + 1) then map_down codes marks.symbols else marks.symbols

  coding :
      (codes : List ℕ)
      → ((i : ℕ) → i < 2 ^ w → get_or marks.table i 0 ≢ 0 → get_or codes i 0 ≡ marked i marks.table)
      → IsCoding raws size (stored codes)
  coding codes ranks = elim (Bool-cases (ltb size (marks.maxsymbol + 1))) [
    | inl few ↦ rw few (mapped codes ranks)
    | inr many ↦ rw many (unmapped (ground arith))
  ]

  -- At word size 1 two symbols are stored as they are.
  stored_bits : (codes : List ℕ) → w ≡ 1 → 1 < size → stored codes ≡ bitstring w (2 ^ w - 1) xs
  stored_bits codes e h =
      let top : marks.maxsymbol ≤ 1 = maxsymbol-le (2 ^ w - 1) xs 0 fresh_table 1 (omega arith) (
        All-both _ _ (λ s. s ≤ 1) raws (λ s p q. omega (arith, p, ap (λ (t : ℕ). 2 ^ t) e))
          (masked-lt w xs) (masked-lt w xs)) in
      let off : ltb size (marks.maxsymbol + 1) ≡ false = le→ltb_false _ _ (omega arith) in
      rw off ((mark_symbols-masked (2 ^ w - 1) xs 0 fresh_table).0 ∙ single)
    where
      single : raws ≡ bitstring w (2 ^ w - 1) xs
      single = rw e (sym (bitstring-one (2 ^ 1 - 1) xs λ x. masked_bit x))

-- What `build` stores when the third buffer is allocated.
record IsBuilt (w : ℕ) (xs codes_of : List ℕ) (count : ℕ) (d : Data) : Type 0 where
  word_size : d.word_size ≡ w
  rawsymbols : d.rawsymbols ≡ xs
  len : d.len ≡ length xs
  blen : d.blen ≡ length d.bsymbols
  alph_size : d.alph_size ≡ count
  symbols : d.symbols ≡ codes_of
  bsymbols : d.bsymbols ≡ (if w == 1 then codes_of else bitstring w (2 ^ w - 1) xs)

build-IsBuilt :
    (al : Allocator) (w : ℕ) (xs : List ℕ) (m : Marked) (codes : List ℕ) (count : ℕ) (h : Heap)
    → al.bsymbols ≡ true
    → length m.symbols ≡ length xs
    → (d : Data) × (h' : Heap) × (build al w xs m codes count h ≡ ready d h')
      × IsBuilt w xs
          (if ltb count (m.maxsymbol + 1) then map_down codes m.symbols else m.symbols)
          count
          d
unfolding build map_down
build-IsBuilt al w xs m codes count h given same = elim (Bool-cases (w == 1)) [
  | inl one ↦ rw one (
    _,
    h,
    refl,
    record {
      word_size = refl;
      rawsymbols = refl;
      len = refl;
      blen = rw (long, (==_iff w 1).0 one) (omega arith);
      alph_size = refl;
      symbols = refl;
      bsymbols = rw one refl;
    },
  )
  | inr many ↦
      rw (many, given)
        (
          _,
          record h { bsymbols = true },
          refl,
          record {
            word_size = refl;
            rawsymbols = refl;
            len = refl;
            blen = sym (length-bitstring w (2 ^ w - 1) xs);
            alph_size = refl;
            symbols = refl;
            bsymbols = rw many refl;
          },
        )
]
  where
    long :
        length (if ltb count (m.maxsymbol + 1) then map_down codes m.symbols else m.symbols)
        ≡ length xs
    long = elim (Bool-cases (ltb count (m.maxsymbol + 1))) [
      | inl few ↦ rw few (length-map m.symbols (λ s. get_or codes s 0 % 2 ^ 8) ∙ same)
      | inr many ↦ rw many same
    ]

-- When all buffers are allocated and the word size `w` is at most 8, prepare_data succeeds: it keeps
-- the raw samples and their number, records `w`, and its symbols replace the low `w` bits of the
-- samples by codes below alph_size that keep their order, and so tell apart what differs.
pub prepare_data-IsCoding :
    (al : Allocator) (xs : List ℕ) (bits : ℕ)
    → al.symbols ≡ true
    → al.rawsymbols ≡ true
    → al.bsymbols ≡ true
    → word_size_for bits xs ≤ 8
    → let w = word_size_for bits xs in
      (d : Data) × (h : Heap) × (prepare_data al xs bits ≡ ready d h)
      × (d.word_size ≡ w)
      × (d.rawsymbols ≡ xs)
      × (d.len ≡ length xs)
      × (d.blen ≡ length d.bsymbols)
      × IsCoding (masked (2 ^ w - 1) xs) d.alph_size d.symbols
prepare_data-IsCoding al xs bits one two three q =
    let w = word_size_for bits xs in
    let (codes, ranks, e) = prepare_data-build al xs bits one two q in
    let (d, h, e', b) = build-IsBuilt al w xs _ codes _ _ three (length-marks w xs) in
    (
      d,
      h,
      e ∙ e',
      b.word_size,
      b.rawsymbols,
      b.len,
      b.blen,
      rw (b.alph_size, b.symbols) (coding w xs q codes ranks),
    )

prepare_data-stored :
    (al : Allocator) (xs : List ℕ) (bits : ℕ) {d : Data} {h : Heap}
    → al.symbols ≡ true
    → al.rawsymbols ≡ true
    → al.bsymbols ≡ true
    → word_size_for bits xs ≤ 8
    → prepare_data al xs bits ≡ ready d h
    → 1 < d.alph_size
    → let w = word_size_for bits xs in d.bsymbols ≡ bitstring w (2 ^ w - 1) xs
prepare_data-stored al xs bits {d} {h} one two three q e n =
    let w = word_size_for bits xs in
    let (codes, ranks, e1) = prepare_data-build al xs bits one two q in
    let (d', h', e2, b) = build-IsBuilt al w xs _ codes _ _ three (length-marks w xs) in
    let same : d ≡ d' = data_path (sym e ∙ e1 ∙ e2) in
    rw (same, b.bsymbols)
      (bits_path w q codes (omega (arith, n, ap (λ (x : Data). x.alph_size) same, b.alph_size)))
  where
    data_path : {d d' : Data} {h h' : Heap} → ready d h ≡ ready d' h' → d ≡ d'
    data_path e = cc

    bits_path :
        (w : ℕ) (q : w ≤ 8) (codes : List ℕ)
        → 1 < size w xs q
        → (if w == 1 then stored w xs q codes else bitstring w (2 ^ w - 1) xs)
          ≡ bitstring w (2 ^ w - 1) xs
    bits_path w q codes n = elim (Bool-cases (w == 1)) [
      | inl e ↦ rw e (stored_bits w xs q codes ((==_iff w 1).0 e) n)
      | inr e ↦ rw e refl
    ]

-- When all buffers are allocated, the word size `w` is at most 8, and the alphabet has more than one
-- symbol, the bit string that prepare_data stores, also at word size 1, where it is the buffer of the
-- symbols, has `w` places for each sample, and place `j` of sample `i` has bit `w - 1 - j` of the low
-- `w` bits of that sample: the highest bit comes first.
pub prepare_data-bitstring :
    (al : Allocator) (xs : List ℕ) (bits : ℕ) {d : Data} {h : Heap}
    → al.symbols ≡ true
    → al.rawsymbols ≡ true
    → al.bsymbols ≡ true
    → word_size_for bits xs ≤ 8
    → prepare_data al xs bits ≡ ready d h
    → 1 < d.alph_size
    → let w = word_size_for bits xs in
      (length d.bsymbols ≡ length xs * w)
      × ((i x j : ℕ)
          → get_elem? xs i ≡ some x
          → j < w
          → get_or d.bsymbols (i * w + j) 0 ≡ x % 2 ^ w / 2 ^ (w - 1 - j) % 2)
prepare_data-bitstring al xs bits {d} one two three q e n =
    let w = word_size_for bits xs in
    let same = prepare_data-stored al xs bits one two three q e n in
    (
      ap (λ (l : List ℕ). length l) same ∙ length-bitstring w (2 ^ w - 1) xs,
      λ i x j at inside.
          ap (λ (l : List ℕ). get_or l (i * w + j) 0) same ∙ bitstring-get w xs i x j at inside,
    )
