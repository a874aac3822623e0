-- ===== src/Symbols/Tests.antt =====
-- internal/nist/wrapper/wrapper.cpp, prepare_data, on small samples.
use nist_sp_800_90b_go.Base.{
  ℕ, ◌+◌, ◌-◌, ◌*◌, ◌^◌, ◌%◌, ◌≤◌, ◌<◌, ◌/◌, ◌≡◌, refl, true, false, some, List, [], ◌∷◌, arith,
  length, drop, get_elem?, get_or,
}
use nist_sp_800_90b_go.Symbols.{
  Data, data_mask, file_width, word_size_for, mark_symbols, assign_codes, bits_of, bitstring,
  map_down,
}
use nist_sp_800_90b_go.Symbols.Width.{Fits, file_width_least, word_size_for-auto}
use nist_sp_800_90b_go.Symbols.Alphabet.{masked}
use nist_sp_800_90b_go.Symbols.Bitstring.{compressed_bit_symbols, compressed_bit_symbols-bitstring}
use nist_sp_800_90b_go.Symbols.Prepare.{
  Heap, Allocator, ready, undefined, build, fresh_table, prepare_data, free_data, empty,
}
use nist_sp_800_90b_go.Symbols.Prepare.Memory.{
  Balanced, prepare_data-Balanced, prepare_data-undefined,
}
use nist_sp_800_90b_go.Symbols.Prepare.Codes.{
  IsCoding, prepare_data-IsCoding, prepare_data-bitstring,
}

abbrev pub sample : List ℕ
sample = 0 ∷ 7 ∷ 1 ∷ 3 ∷ []

abbrev pub full_memory : Allocator
full_memory = record { symbols = true; rawsymbols = true; bsymbols = true }

abbrev pub three_buffers : Heap
three_buffers = record { symbols = true; rawsymbols = true; bsymbols = true }

abbrev pub sample_data : Data
sample_data = record {
  word_size = 2;
  alph_size = 3;
  maxsymbol = 3;
  rawsymbols = sample;
  symbols = 0 ∷ 2 ∷ 1 ∷ 2 ∷ [];
  bsymbols = 0 ∷ 0 ∷ 1 ∷ 1 ∷ 0 ∷ 1 ∷ 1 ∷ 1 ∷ [];
  len = 4;
  blen = 8;
}

pub word_size_for-sample : word_size_for 2 sample ≡ 2
unfolding word_size_for
word_size_for-sample = refl

pub prepare_data-sample : prepare_data full_memory sample 2 ≡ ready sample_data three_buffers
unfolding prepare_data build fresh_table word_size_for mark_symbols assign_codes map_down bitstring
    bits_of
prepare_data-sample = refl

file_width_least_example :
    let w = file_width (data_mask 0 sample) in
    (w ≤ 8) × Fits w sample × ((v : ℕ) → Fits v sample → w ≤ v)
file_width_least_example = file_width_least sample (ground arith)

word_size_for-auto_example : word_size_for 0 sample ≡ file_width (data_mask 0 sample) + 1
word_size_for-auto_example = word_size_for-auto sample (ground arith)

prepare_data-Balanced_example :
    Balanced
      (prepare_data (record { symbols = true; rawsymbols = true; bsymbols = false }) sample 2)
prepare_data-Balanced_example =
    prepare_data-Balanced (record { symbols = true; rawsymbols = true; bsymbols = false }) sample 2
      (omega (arith, word_size_for-sample)) (omega (arith, word_size_for-sample))

prepare_data-undefined_example : prepare_data full_memory (3 ∷ 200 ∷ []) 0 ≡ undefined
prepare_data-undefined_example =
    prepare_data-undefined full_memory (3 ∷ 200 ∷ []) 1 200 refl refl (ground arith) refl
      (omega arith)

prepare_data-IsCoding_example :
    let w = word_size_for 2 sample in
    (d : Data) × (h : Heap) × (prepare_data full_memory sample 2 ≡ ready d h)
    × (d.word_size ≡ w)
    × (d.rawsymbols ≡ sample)
    × (d.len ≡ length sample)
    × (d.blen ≡ length d.bsymbols)
    × IsCoding (masked (2 ^ w - 1) sample) d.alph_size d.symbols
prepare_data-IsCoding_example =
    prepare_data-IsCoding full_memory sample 2 refl refl refl (omega (arith, word_size_for-sample))

prepare_data-bitstring_example :
    let w = word_size_for 2 sample in
    (length sample_data.bsymbols ≡ length sample * w)
    × ((i x j : ℕ)
        → get_elem? sample i ≡ some x
        → j < w
        → get_or sample_data.bsymbols (i * w + j) 0 ≡ x % 2 ^ w / 2 ^ (w - 1 - j) % 2)
prepare_data-bitstring_example =
    prepare_data-bitstring full_memory sample 2 refl refl refl (omega (arith, word_size_for-sample))
      prepare_data-sample (omega arith)

compressed_bit_symbols-bitstring_example :
    compressed_bit_symbols (drop (1 * 3) (bitstring 3 (2 ^ 3 - 1) sample)) 3 ≡ some (7 % 2 ^ 3)
compressed_bit_symbols-bitstring_example =
    compressed_bit_symbols-bitstring 3 sample 1 7 (omega arith) refl

pub free_data-sample : free_data sample_data three_buffers ≡ some empty
unfolding free_data
free_data-sample = refl
