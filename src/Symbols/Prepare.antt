-- ===== src/Symbols/Prepare.antt =====
-- internal/nist/wrapper/wrapper.cpp, prepare_data and DataGuard, with
-- internal/nist/cpp/shared/utils.h, free_data, over the three buffers that they allocate.
pub mod Memory
pub mod Codes
use nist_sp_800_90b_go.Base.{
  ℕ, ◌+◌, ◌-◌, ◌*◌, ◌^◌, Bool, true, false, not, ◌&&◌, Option, none, some, List, ltb, ◌==◌,
  if◌then◌else◌, length, replicate,
}
use nist_sp_800_90b_go.Symbols.{
  Data, Marked, word_size_for, mark_symbols, assign_codes, map_down, bitstring,
}

-- Which of the three buffers are allocated.
pub record Heap : Type 0 where
  pub symbols : Bool
  pub rawsymbols : Bool
  pub bsymbols : Bool

abbrev pub empty : Heap
empty = record { symbols = false; rawsymbols = false; bsymbols = false }

-- Which calls of malloc succeed.
pub record Allocator : Type 0 where
  pub symbols : Bool
  pub rawsymbols : Bool
  pub bsymbols : Bool

-- `none` is a free of a buffer that is not allocated.
unfoldable pub free_symbols : Heap → Option Heap
free_symbols h = if h.symbols then some (record h { symbols = false }) else none

unfoldable pub free_rawsymbols : Heap → Option Heap
free_rawsymbols h = if h.rawsymbols then some (record h { rawsymbols = false }) else none

unfoldable pub free_bsymbols : Heap → Option Heap
free_bsymbols h = if h.bsymbols then some (record h { bsymbols = false }) else none

infixl 5 ◌>>=◌
abbrev pub ◌>>=◌ : Option Heap → (Heap → Option Heap) → Option Heap
none >>= f = none
some h >>= f = f h

-- The messages that prepare_data passes to set_error.
pub data Shortage : Type 0 where
  for_symbols for_bitstring : Shortage

-- `undefined` is undefined behaviour: an access beyond the table, or a bad free.
pub data Prepared : Type 0 where
  ready : Data → Heap → Prepared
  failed : Shortage → Heap → Prepared
  undefined : Prepared

pub failing : Shortage → Option Heap → Prepared
failing why none = undefined
failing why (some h) = failed why h

-- `std::array<int, 256> symbol_map_down_table{}`
unfoldable pub fresh_table : List ℕ
fresh_table = replicate 256 0

-- The end of prepare_data, once the codes are assigned. At word size 1 `bsymbols` is `symbols`.
unfoldable pub build : Allocator → (word_size : ℕ) → List ℕ → Marked → List ℕ → ℕ → Heap → Prepared
build al w samples m codes count h =
    let symbols = if ltb count (m.maxsymbol + 1) then map_down codes m.symbols else m.symbols in
    let data_with : List ℕ → Data = λ bits. record {
      word_size = w;
      alph_size = count;
      maxsymbol = m.maxsymbol;
      rawsymbols = samples;
      symbols = symbols;
      bsymbols = bits;
      len = length samples;
      blen = length samples * w;
    } in
    if w == 1
    then ready (data_with symbols) h
    else if al.bsymbols
    then ready (data_with (bitstring w (2 ^ w - 1) samples)) (record h { bsymbols = true })
    else failing for_bitstring (free_symbols h >>= free_rawsymbols)

unfoldable pub prepare_data : Allocator → List ℕ → (bits_per_symbol : ℕ) → Prepared
unfolding build failing fresh_table
prepare_data al samples bits =
    let h : Heap = record { symbols = al.symbols; rawsymbols = al.rawsymbols; bsymbols = false } in
    let w = word_size_for bits samples in
    let m = mark_symbols (2 ^ w - 1) samples 0 fresh_table in
    if al.symbols && al.rawsymbols
    then elim (assign_codes (2 ^ w) m.table 0) [
      | none ↦ undefined
      | some (codes, count) ↦ build al w samples m codes count h
    ]
    else failing for_symbols (
        (if al.symbols then free_symbols h else some h) >>= λ h'.
        if al.rawsymbols then free_rawsymbols h' else some h')

-- The pointers of prepared data are not null.
unfoldable pub free_data : Data → Heap → Option Heap
unfolding free_symbols free_rawsymbols free_bsymbols
free_data d h = free_symbols h >>= free_rawsymbols >>= λ h'.
    if ltb 1 d.word_size then free_bsymbols h' else some h'
