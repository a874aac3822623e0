-- ===== src/Files/Blocks.antt =====
-- internal/nist/cpp/shared/utils.h, the end of read_file_subset and read_file, beside prepare_data of
-- internal/nist/wrapper/wrapper.cpp on the same samples.
use native.Mathlib.Nat.{pow-le-pow_right, zero-add}
use nist_sp_800_90b_go.Base.{
  ℕ, ◌+◌, ◌-◌, ◌*◌, ◌%◌, ◌^◌, ◌≤◌, ◌<◌, ◌≡◌, refl, sym, ◌∙◌, subst, ◌≢◌, true, Bool, List, arith,
  ◌==◌, length, get_or, All, All-both, replicate, length-replicate, Bool-cases, inl, inr, lt→ltb,
}
use nist_sp_800_90b_go.Symbols.{Data, Marked, word_size_for, mark_symbols, map_down}
use nist_sp_800_90b_go.Symbols.Alphabet.{masked, mark_symbols-masked, mark_symbols-marks, marked}
use nist_sp_800_90b_go.Symbols.Prepare.{Heap, Allocator, ready, fresh_table, build, prepare_data}
use nist_sp_800_90b_go.Symbols.Prepare.Memory.{two_buffers, prepare_data-build, length-fresh_table}
use nist_sp_800_90b_go.Symbols.Prepare.Codes.{masked-lt}
use nist_sp_800_90b_go.Files.Effects.{next, after, ◌>>=◌, ◌>>◌}
use nist_sp_800_90b_go.Files.Tables.{
  Agrees, mark_symbols-Agrees, marked-Agrees, assign_byte_codes_lem, map-All, get_or-replicate,
}
use nist_sp_800_90b_go.Files.{
  Reading, given, allocate_bitstring, finish_data, finish_coded, translate,
}

module _ (w : ℕ) (xs : List ℕ) (positive : 1 ≤ w) (small : w ≤ 8) where
  mask : ℕ
  mask = 2 ^ w - 1

  byte : 2 ^ w ≤ 2 ^ 8
  byte = pow-le-pow_right {n = 2} (omega arith) {i = w} {j = 8} small

  abbrev of_file : Marked
  of_file = mark_symbols (2 ^ w - 1) xs 0 (replicate (2 ^ w) 0)

  abbrev of_wrapper : Marked
  of_wrapper = mark_symbols (2 ^ w - 1) xs 0 fresh_table

  fresh-Agrees : Agrees (2 ^ w) (replicate (2 ^ w) 0) fresh_table
  unfolding fresh_table
  fresh-Agrees i l = get_or-replicate (2 ^ w) i ∙ sym (get_or-replicate 256 i)

  tables :
      (of_file.symbols ≡ of_wrapper.symbols)
      × (of_file.maxsymbol ≡ of_wrapper.maxsymbol)
      × Agrees (2 ^ w) of_file.table of_wrapper.table
  tables =
      mark_symbols-Agrees (2 ^ w) (2 ^ w - 1) xs 0 (replicate (2 ^ w) 0) fresh_table
        (omega (arith, length-replicate {A = ℕ} (2 ^ w) 0))
        (omega (arith, byte, length-fresh_table)) (masked-lt w xs) fresh-Agrees

  long_file : length of_file.table ≡ 2 ^ w
  long_file =
      (mark_symbols-masked (2 ^ w - 1) xs 0 (replicate (2 ^ w) 0)).1 ∙ length-replicate (2 ^ w) 0

  long_wrapper : length of_wrapper.table ≡ 256
  long_wrapper = (mark_symbols-masked (2 ^ w - 1) xs 0 fresh_table).1 ∙ length-fresh_table

  count : marked (2 ^ w) of_file.table ≡ marked (2 ^ w) of_wrapper.table
  count =
      marked-Agrees (2 ^ w) of_file.table of_wrapper.table (omega (arith, long_file))
        (omega (arith, long_wrapper, byte)) tables.2

  abbrev raws : List ℕ
  raws = masked (2 ^ w - 1) xs

  All-marked : All (λ s. get_or of_wrapper.table s 0 ≢ 0) raws
  All-marked = mark_symbols-marks (2 ^ w - 1) xs 0 fresh_table (
      All-both (λ s. s < 2 ^ w) (λ s. s < 2 ^ w) (λ s. s < length fresh_table) raws
        (λ s p q. omega (arith, byte, length-fresh_table)) (masked-lt w xs) (masked-lt w xs))

  -- Both tables map the samples down to the same symbols.
  mapped :
      (codes codes' : List ℕ)
      → ((i : ℕ)
          → i < 2 ^ w
          → get_or of_file.table i 0 ≢ 0
          → get_or codes i 0 ≡ (0 + marked i of_file.table) % 2 ^ 8)
      → ((i : ℕ)
          → i < 2 ^ w
          → get_or of_wrapper.table i 0 ≢ 0
          → get_or codes' i 0 ≡ marked i of_wrapper.table)
      → map_down codes of_file.symbols ≡ map_down codes' of_wrapper.symbols
  unfolding map_down
  mapped codes codes' r r' =
      rw (tables.0, (mark_symbols-masked (2 ^ w - 1) xs 0 fresh_table).0)
        (map-All _ _ raws (
          All-both (λ s. s < 2 ^ w) (λ s. get_or of_wrapper.table s 0 ≢ 0) _ raws same
            (masked-lt w xs) All-marked))
    where
      same :
          (s : ℕ)
          → s < 2 ^ w
          → get_or of_wrapper.table s 0 ≢ 0
          → get_or codes s 0 % 2 ^ 8 ≡ get_or codes' s 0 % 2 ^ 8
      same s lt n =
          let e = tables.2 s lt in
          let m : marked s of_file.table ≡ marked s of_wrapper.table =
            marked-Agrees s of_file.table of_wrapper.table (omega (arith, long_file))
              (omega (arith, long_wrapper, byte)) (λ i l. tables.2 i (omega arith)) in
          let p = r s lt (λ z. n (sym e ∙ z)) in let q = r' s lt n in omega arith

word_size_for-given : (w : ℕ) (xs : List ℕ) → 1 ≤ w → word_size_for w xs ≡ w
unfolding word_size_for
word_size_for-given w xs h = ground arith

-- The two ends agree when their tables do.
finish_data-build :
    (al : Allocator) (reports : Bool) (w : ℕ) (xs : List ℕ) (m m' : Marked) (t t' : List ℕ)
    (c c' : ℕ) (s : Reading) (h : Heap)
    → al.bsymbols ≡ true
    → length xs * w < 2 ^ 63
    → m.symbols ≡ m'.symbols
    → m.maxsymbol ≡ m'.maxsymbol
    → map_down t m.symbols ≡ map_down t' m'.symbols
    → c ≡ c'
    → (dp : Data) × (h' : Heap) × (build al w xs m' t' c' h ≡ ready dp h')
      × ((finish_data al reports w xs m t c s).0 ≡ next dp)
unfolding build finish_data given allocate_bitstring ◌>>=◌ ◌>>◌ after
finish_data-build al reports w xs m m' t t' c c' s h bits room es em ed ec =
    elim (Bool-cases (w == 1)) [
      | inl one ↦ rw one (_, _, refl, rw (ec, em, ed, es) refl)
      | inr many ↦
          rw (many, bits, lt→ltb (length xs * w) (2 ^ 63) room)
            (_, _, refl, rw (ec, em, ed, es) refl)
    ]

-- What prepare_data builds for word size `v`.
abbrev IsBuilt : (al : Allocator) (xs : List ℕ) (w v : ℕ) → Type 0
IsBuilt al xs w v =
    let m = mark_symbols (2 ^ v - 1) xs 0 fresh_table in
    (codes : List ℕ) × ((i : ℕ)
      → i < 2 ^ v
      → get_or m.table i 0 ≢ 0
      → get_or codes i 0 ≡ marked i m.table)
    × (prepare_data al xs w ≡ build al v xs m codes (marked (2 ^ v) m.table) two_buffers)

-- From the samples on, the data is that of prepare_data.
pub translate-prepare_data :
    (al : Allocator) (reports : Bool) (w : ℕ) (xs : List ℕ) (s : Reading)
    → al.symbols ≡ true
    → al.rawsymbols ≡ true
    → al.bsymbols ≡ true
    → 1 ≤ w
    → w ≤ 8
    → length xs * w < 2 ^ 63
    → (dp : Data) × (h : Heap) × (prepare_data al xs w ≡ ready dp h)
      × ((translate al reports w xs s).0 ≡ next dp)
unfolding translate finish_coded
translate-prepare_data al reports w xs s one two three positive small room =
    let e : word_size_for w xs ≡ w = word_size_for-given w xs positive in
    let (codes', r', p) =
      subst (IsBuilt al xs w) e (prepare_data-build al xs w one two (omega (arith, e))) in
    let (codes, q, r) =
      assign_byte_codes_lem (2 ^ w) (of_file w xs positive small).table 0
        (omega (arith, long_file w xs positive small)) in
    let (same, top, _) = tables w xs positive small in
    let (dp, h, b, f) =
      finish_data-build al reports w xs (of_file w xs positive small)
        (of_wrapper w xs positive small) codes codes' _ _ s two_buffers three room same top
        (mapped w xs positive small codes codes' r r') (zero-add _ ∙ count w xs positive small) in
    (dp, h, p ∙ b, rw (lt→ltb w 31 (omega (arith, small)), q) f)
