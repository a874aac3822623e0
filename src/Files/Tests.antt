-- ===== src/Files/Tests.antt =====
-- internal/nist/cpp/shared/utils.h, read_file_subset and read_file, on small files.
use nist_sp_800_90b_go.Base.{
  ℕ, zero, suc, ◌<◌, ◌^◌, All, ◌≡◌, refl, true, false, List, [], ◌∷◌, arith, length, take, drop,
  pos, negsuc,
}
use nist_sp_800_90b_go.Result.{codes}
use nist_sp_800_90b_go.Symbols.{Data, mark_symbols, data_mask, file_width}
use nist_sp_800_90b_go.Symbols.Prepare.{
  Heap, empty, Allocator, ready, prepare_data, free_symbols, free_rawsymbols,
}
use nist_sp_800_90b_go.Symbols.Tests.{sample, full_memory}
use nist_sp_800_90b_go.Files.Effects.{Ends, after, ◌>>=◌, ◌>>◌}
use nist_sp_800_90b_go.Files.Resources.{Prepares, Left, AllZero, GivesBytes, read_file_subset-Ends}
use nist_sp_800_90b_go.Files.Whole.{Alike, read_file_subset-read_file}
use nist_sp_800_90b_go.Files.Regular.{IsRegular, Got, read_file_subset-prepare_data}
use nist_sp_800_90b_go.Files.{
  TestRun, File, Reading, read_file_subset, read_file, open_file, file_length, check_tell, block,
  refuse_empty, load, fill, allocate_samples, given, read_samples, fclose, establish_width,
  translate, finish_coded, finish_data, report_error, release, return_false, fail_closed,
  assign_byte_codes,
}

abbrev pub regular : List ℕ → File
regular xs = record {
  opens = true;
  seek_end = true;
  tell = pos (length xs);
  seek = λ o. true;
  read = λ o n. take n (drop o xs);
}

pub regular-IsRegular : (xs : List ℕ) → IsRegular (regular xs) xs
regular-IsRegular xs = record {
  opens = refl;
  seek_end = refl;
  tell = refl;
  seek = λ o h. refl;
  read = λ o n. refl;
}

abbrev pub fresh_run : TestRun
fresh_run = record {
  timestamp = [];
  sha256 = [];
  filename = [];
  error_level = pos 0;
  error_msg = [];
  kind = [];
  commandline = [];
}

abbrev pub fresh : Reading
fresh = record { run = fresh_run; file = false; heap = empty }

abbrev pub bytes : List ℕ
bytes = 9 ∷ 9 ∷ 9 ∷ 9 ∷ sample

abbrev no_bitstring : Allocator
no_bitstring = record { symbols = true; rawsymbols = true; bsymbols = false }

-- read_file_subset leaves the error level at 0 when the bit string cannot be allocated; read_file
-- sets it.
silent_failure :
    ((read_file_subset (regular bytes) no_bitstring 0 0 0 fresh).1.run.error_level ≡ pos 0)
    × ((read_file (regular bytes) no_bitstring 0 fresh).1.run.error_level ≡ negsuc 0)
unfolding read_file_subset read_file ◌>>=◌ ◌>>◌ after open_file file_length check_tell block
    refuse_empty load fill allocate_samples given read_samples fclose establish_width translate
    finish_coded finish_data report_error release return_false fail_closed assign_byte_codes
    file_width data_mask mark_symbols free_symbols free_rawsymbols
silent_failure = (refl, refl)

-- A subset beyond the end of the file is a read failure.
beyond_end :
    (read_file_subset (regular bytes) full_memory 0 3 4 fresh).1.run.error_msg
    ≡ codes "Error: file read failure"
unfolding read_file_subset ◌>>=◌ ◌>>◌ after open_file file_length check_tell block refuse_empty load
    fill allocate_samples given read_samples fclose establish_width translate finish_coded
    finish_data report_error release return_false fail_closed assign_byte_codes file_width data_mask
    mark_symbols free_symbols free_rawsymbols
beyond_end = refl

All-take : (P : ℕ → Type 0) (n : ℕ) (xs : List ℕ) → All P xs → All P (take n xs)
All-take P zero xs a = tt
All-take P (suc n) [] a = tt
All-take P (suc n) (x ∷ xs) (p, a) = (p, All-take P n xs a)

All-drop : (P : ℕ → Type 0) (n : ℕ) (xs : List ℕ) → All P xs → All P (drop n xs)
All-drop P zero xs a = a
All-drop P (suc n) [] a = tt
All-drop P (suc n) (x ∷ xs) (p, a) = All-drop P n xs a

pub regular-GivesBytes : (xs : List ℕ) → All (λ x. x < 2 ^ 8) xs → GivesBytes (regular xs)
regular-GivesBytes xs a o n =
    All-take (λ x. x < 2 ^ 8) n (drop o xs) (All-drop (λ x. x < 2 ^ 8) o xs a)

pub bytes-GivesBytes : GivesBytes (regular bytes)
bytes-GivesBytes = regular-GivesBytes bytes (ground arith)

read_file_subset-Ends_example :
    Ends
      (Prepares (AllZero (regular bytes) 1 4))
      Left
      (read_file_subset (regular bytes) no_bitstring 2 1 4 fresh)
read_file_subset-Ends_example =
    read_file_subset-Ends (regular bytes) no_bitstring 2 1 4 fresh bytes-GivesBytes (omega arith)
      (refl, refl)

read_file_subset-read_file_example :
    Alike
      (read_file_subset (regular bytes) full_memory 4 1 0 fresh)
      (read_file (regular bytes) full_memory 4 fresh)
read_file_subset-read_file_example =
    read_file_subset-read_file (regular bytes) full_memory 4 1 fresh

read_file_subset-prepare_data_example :
    (dp : Data) × (h : Heap) × (prepare_data full_memory sample 3 ≡ ready dp h)
    × Got (read_file_subset (regular bytes) full_memory 0 1 4 fresh) dp
unfolding file_width data_mask
read_file_subset-prepare_data_example =
    read_file_subset-prepare_data (regular bytes) full_memory bytes 0 1 4 fresh
      (regular-IsRegular bytes) refl refl refl (omega arith) (omega arith) (omega arith)
      (omega arith) (omega arith)
