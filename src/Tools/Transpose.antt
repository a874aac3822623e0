-- ===== src/Tools/Transpose.antt =====
-- internal/nist/cpp/transpose_main.cpp: the program that turns the rows of a restart matrix into its
-- columns.
pub mod Matrix
pub mod Written
use nist_sp_800_90b_go.Base.{
  ℕ, zero, suc, ◌+◌, ◌-◌, ◌*◌, ◌^◌, Bool, true, false, not, ◌||◌, Option, none, some, List, [], ◌∷◌,
  ◌++◌, ltb, ◌==◌, if◌then◌else◌, length, get_elem?, ℤ, pos, negsuc,
}
use nist_sp_800_90b_go.Result.{Text}
use nist_sp_800_90b_go.Symbols.{Data}
use nist_sp_800_90b_go.Symbols.Prepare.{Heap, empty, Allocator, free_data}
use nist_sp_800_90b_go.Files.{TestRun, File, Reading, read_file_subset}
use nist_sp_800_90b_go.Files.Effects.{Step, next, stop, undefined, Io, ◌>>=◌, ◌>>◌, return}
use nist_sp_800_90b_go.Tools.{
  Flag, opt_i, opt_c, opt_a, opt_t, opt_v, opt_q, opt_l, opt_o, opt_other, Environment, Ending,
  exit, asks_version, start_run,
}

-- What the C library does with the output file: whether it opens, and which of the one-byte writes,
-- by their number, succeed.
pub record Output : Type 0 where
  pub opens : Text → Bool
  pub writes : ℕ → Bool

pub record Copier : Type 0 where
  pub io : Reading
  pub verbose : ℕ
  pub subset_index : ℕ
  pub subset_size : ℕ
  pub output_open : Bool
  pub output : List ℕ

abbrev pub Copying : Type 0 → Type 0
Copying = Io Copier Ending

abbrev pub matrix_rows : ℕ
matrix_rows = 1000

abbrev pub matrix_columns : ℕ
matrix_columns = 1000

unfoldable pub quit : {A : Type 0} → ℤ → Copying A
quit status s = (stop (exit status), s)

unfoldable pub take_flag : Environment → Flag → Copying (Unit {0})
take_flag env opt_v s = (next tt, record s { verbose = s.verbose + 1 })
take_flag env (opt_l optarg) s =
    let index = env.strtoull optarg in
    if ltb (2 ^ 64 - 1) index.value || index.invalid then quit (negsuc 0) s else (
      next tt,
      record s { subset_index = index.value; subset_size = matrix_rows * matrix_columns },
    )
take_flag env opt_i s = quit (negsuc 0) s
take_flag env opt_c s = quit (negsuc 0) s
take_flag env opt_a s = quit (negsuc 0) s
take_flag env opt_t s = quit (negsuc 0) s
take_flag env opt_q s = quit (negsuc 0) s
take_flag env (opt_o optarg) s = quit (negsuc 0) s
take_flag env opt_other s = quit (negsuc 0) s

unfoldable pub take_flags : Environment → List Flag → Copying (Unit {0})
take_flags env [] = return tt
take_flags env (f ∷ rest) = take_flag env f >> take_flags env rest

unfoldable pub two_arguments : List Text → Copying (Text × Text)
two_arguments (input ∷ output ∷ []) = return (input, output)
two_arguments [] = quit (negsuc 0)
two_arguments (a ∷ []) = quit (negsuc 0)
two_arguments (a ∷ b ∷ c ∷ rest) = quit (negsuc 0)

unfoldable pub when_read : Step (Unit {0}) Data × Reading → Copying Data
when_read (next dp, io) s = (next dp, record s { io = io })
when_read (stop e, io) s = quit (negsuc 0) (record s { io = io })
when_read (undefined, io) s = (undefined, record s { io = io })

unfoldable pub read_matrix : Environment → Text → Copying Data
read_matrix env path s =
    when_read (read_file_subset (env.files path) env.memory 0 s.subset_index s.subset_size s.io) s

unfoldable pub open_output : Output → Text → Copying (Unit {0})
open_output out path s =
    if out.opens path then (next tt, record s { output_open = true }) else quit (negsuc 0) s

-- fwrite of one byte of `rawsymbols`, where none is beyond its end
unfoldable pub write_byte : Output → Option ℕ → Copying (Unit {0})
write_byte out none s = (undefined, s)
write_byte out (some b) s =
    if out.writes (length s.output)
    then (next tt, record s { output = s.output ++ (b ∷ []) })
    else quit (negsuc 0) s

module _ (out : Output) (raw : List ℕ) where
  -- `for (int j = 0; j < r; j++)` from `j` on
  unfoldable pub write_column : (c rounds j i : ℕ) → Copying (Unit {0})
  write_column c zero j i = return tt
  write_column c (suc n) j i =
      write_byte out (get_elem? raw (c * j + i)) >> write_column c n (j + 1) i

  -- `for (int i = 0; i < c; i++)` from `i` on
  unfoldable pub write_columns : (r c rounds i : ℕ) → Copying (Unit {0})
  write_columns r c zero i = return tt
  write_columns r c (suc n) i = write_column c r 0 i >> write_columns r c n (i + 1)

unfoldable pub close_output : Data → Copying ℤ
close_output dp s = elim (free_data dp s.io.heap) [
  | none ↦ (undefined, s)
  | some h ↦ (next (pos 0), record s { output_open = false; io = record s.io { heap = h } })
]

unfoldable pub main : Environment → Output → Copying ℤ
main env out = do
  (if asks_version env.argv then quit (pos 0) else return tt)
  take_flags env env.flags
  paths ← two_arguments env.arguments
  dp ← read_matrix env paths.0
  (if not (dp.len == matrix_rows * matrix_columns) then quit (negsuc 0) else return tt)
  open_output out paths.1
  write_columns out dp.rawsymbols matrix_rows matrix_columns matrix_columns 0
  close_output dp
