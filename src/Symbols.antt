-- ===== src/Symbols.antt =====
-- internal/nist/wrapper/wrapper.cpp, prepare_data, and internal/nist/cpp/shared/utils.h: the struct
-- data_t, free_data, and the word-size scan that read_file makes of the same bytes.
pub mod Width
pub mod Alphabet
pub mod Bitstring
pub mod Prepare
pub mod Tests
use nist_sp_800_90b_go.Base.{
  ℕ, zero, suc, ◌+◌, ◌-◌, ◌*◌, ◌/◌, ◌%◌, ◌^◌, Bool, ◌&&◌, not, Option, none, some, List, [], ◌∷◌,
  ◌++◌, map, bit_and, bit_or, ltb, ◌==◌, if◌then◌else◌, length, get_or, set, replicate,
}

pub record Data : Type 0 where
  pub word_size : ℕ
  pub alph_size : ℕ
  pub maxsymbol : ℕ
  pub rawsymbols : List ℕ
  pub symbols : List ℕ
  pub bsymbols : List ℕ
  pub len : ℕ
  pub blen : ℕ

-- `datamask |= symbols[i]` over the samples
unfoldable pub data_mask : ℕ → List ℕ → ℕ
data_mask acc [] = acc
data_mask acc (x ∷ xs) = data_mask (bit_or acc x) xs

-- read_file: `for(i = 8; i > 0 && (datamask & curbit) == 0; i--) curbit >>= 1;`, which leaves `i`
unfoldable pub scan_width : (i curbit mask : ℕ) → ℕ
scan_width zero curbit mask = 0
scan_width (suc i) curbit mask =
    let rest = scan_width i (curbit / 2) mask in if bit_and mask curbit == 0 then rest else suc i

unfoldable pub file_width : ℕ → ℕ
unfolding scan_width
file_width mask = scan_width 8 0x80 mask

-- prepare_data: the same loop, which also sets `detected_size = i - 1` in each round
pub scan_detected : (i curbit mask detected : ℕ) → ℕ
scan_detected zero curbit mask detected = detected
scan_detected (suc i) curbit mask detected =
    let rest = scan_detected i (curbit / 2) mask i in
    if bit_and mask curbit == 0 then rest else detected

-- `detected_size` is at least 0, so the test against -1 never holds.
pub wrapper_width : ℕ → ℕ
unfolding scan_detected
wrapper_width mask = scan_detected 8 0x80 mask 8 + 1

unfoldable pub word_size_for : ℕ → List ℕ → ℕ
word_size_for bits samples = if bits == 0 then wrapper_width (data_mask 0 samples) else bits

pub record Marked : Type 0 where
  pub symbols : List ℕ
  pub maxsymbol : ℕ
  pub table : List ℕ

-- the loop that masks the symbols, finds the largest and marks those that occur
unfoldable pub mark_symbols : ℕ → List ℕ → ℕ → List ℕ → Marked
mark_symbols mask [] top table = record { symbols = []; maxsymbol = top; table = table }
mark_symbols mask (x ∷ xs) top table =
    let s = bit_and x mask in
    let top' = if ltb top s then s else top in
    let table' = if get_or table s 0 == 0 then set table s 1 else table in
    let rest = mark_symbols mask xs top' table' in
    record { symbols = s ∷ rest.symbols; maxsymbol = rest.maxsymbol; table = rest.table }

-- `for(i = 0; i < max_symbols; i++) if(table[i] != 0) table[i] = alph_size++;`, entry by entry.
-- `none` is an access beyond the table.
pub assign_codes : (rounds : ℕ) → List ℕ → ℕ → Option (List ℕ × ℕ)
assign_codes zero table next = some (table, next)
assign_codes (suc k) [] next = none
assign_codes (suc k) (x ∷ xs) next = elim (assign_codes k xs (if x == 0 then next else next + 1)) [
  | none ↦ none
  | some (codes, count) ↦ some ((if x == 0 then 0 else next) ∷ codes, count)
]

-- `(raw >> (word_size - 1 - j)) & 1` for j from 0, with `left` = word_size - j bits to go
pub bits_of : (left raw : ℕ) → List ℕ
bits_of zero raw = []
bits_of (suc left) raw = bit_and (raw / 2 ^ left) 1 ∷ bits_of left raw

pub bitstring : (word_size mask : ℕ) → List ℕ → List ℕ
bitstring w mask [] = []
bitstring w mask (x ∷ xs) = bits_of w (bit_and x mask) ++ bitstring w mask xs

-- `(uint8_t)symbol_map_down_table[symbols[i]]`
unfoldable pub map_down : List ℕ → List ℕ → List ℕ
map_down table symbols = map (λ s. get_or table s 0 % 2 ^ 8) symbols
