-- ===== src/Files.antt =====
-- internal/nist/cpp/shared/utils.h, read_file_subset and read_file, with the fields of TestRunBase
-- in internal/nist/cpp/shared/test_run_base.h that they write. What the C library does with one file
-- is a parameter.
pub mod Effects
pub mod Resources
pub mod Whole
pub mod Tables
pub mod Blocks
pub mod Regular
pub mod Tests
use nist_sp_800_90b_go.Base.{
  ℕ, zero, suc, ◌+◌, ◌-◌, ◌*◌, ◌/◌, ◌%◌, ◌^◌, min, Bool, true, false, not, ◌&&◌, Option, none, some,
  List, [], ◌∷◌, ◌++◌, ltb, ◌==◌, if◌then◌else◌, length, replicate, ℤ, pos, negsuc,
}
use nist_sp_800_90b_go.Result.{Text, codes}
use nist_sp_800_90b_go.Symbols.{
  Data, Marked, data_mask, file_width, mark_symbols, map_down, bitstring,
}
use nist_sp_800_90b_go.Symbols.Prepare.{
  Heap, Allocator, free_symbols, free_rawsymbols, free_bsymbols,
}
use nist_sp_800_90b_go.Files.Effects.{Step, next, stop, undefined, Io, ◌>>=◌, ◌>>◌, return}

pub record TestRun : Type 0 where
  pub timestamp : Text
  pub sha256 : Text
  pub filename : Text
  pub error_level : ℤ
  pub error_msg : Text
  pub kind : Text
  pub commandline : Text

-- fopen, fseek to the end, ftell there (negative on failure), fseek to an offset, and the bytes that
-- fread gives from an offset on when asked for a number of them.
pub record File : Type 0 where
  pub opens : Bool
  pub seek_end : Bool
  pub tell : ℤ
  pub seek : ℕ → Bool
  pub read : (offset count : ℕ) → List ℕ

-- `file` says whether the stream is open.
pub record Reading : Type 0 where
  pub run : TestRun
  pub file : Bool
  pub heap : Heap

-- A function that stops has returned false.
abbrev pub Reads : Type 0 → Type 0
Reads = Io Reading (Unit {0})

unfoldable pub return_false : {A : Type 0} → Reads A
return_false s = (stop tt, s)

-- `errorLevel = -1` and the message.
unfoldable pub report_error : Text → Reads (Unit {0})
report_error message s =
    (next tt, record s { run = record s.run { error_level = negsuc 0; error_msg = message } })

unfoldable pub fclose : Reads (Unit {0})
fclose s = if s.file then (next tt, record s { file = false }) else (undefined, s)

-- free, and the assignment of NULL
unfoldable pub release : (Heap → Option Heap) → Reads (Unit {0})
release f s = elim (f s.heap) [ none ↦ (undefined, s) | some h ↦ (next tt, record s { heap = h }) ]

unfoldable pub fail_closed : {A : Type 0} → Text → Reads A
fail_closed message = do report_error message; fclose; return_false

-- The message keeps its `%s`: in the source the file's name is the right side of a comma operator.
unfoldable pub open_file : File → Reads (Unit {0})
open_file f s =
    if f.opens
    then (next tt, record s { file = true })
    else (report_error (codes "Error: could not open '%s'\n") >> return_false) s

unfoldable pub check_tell : ℤ → Reads ℕ
check_tell (pos n) = return n
check_tell (negsuc n) = fail_closed (codes "Error: ftell failed")

-- The length of the file, from fseek and ftell; rewind follows.
unfoldable pub file_length : File → Reads ℕ
file_length f = if f.seek_end then check_tell f.tell else fail_closed (codes "Error: fseek failed")

-- Where to read and how much, in unsigned long.
unfoldable pub block : File → (index size file_len : ℕ) → Reads (ℕ × ℕ)
block f index size file_len =
    let offset = index * size % 2 ^ 64 in
    if size == 0
    then return (0, file_len)
    else if f.seek offset
    then return (offset, min ((file_len + 2 ^ 64 - offset) % 2 ^ 64) size)
    else fail_closed (codes "Error: fseek failed")

unfoldable pub refuse_empty : ℕ → Reads (Unit {0})
refuse_empty len = if len == 0 then fail_closed (codes "Error: '%s' is empty\n") else return tt

-- malloc of `n` bytes, which gives no object of 2^63 bytes or more.
pub given : Bool → ℕ → Bool
given b n = b && ltb n (2 ^ 63)

unfoldable pub allocate_samples : (one two : Bool) → Reads (Unit {0})
allocate_samples one two s =
    (next tt, record s { heap = record { symbols = one; rawsymbols = two; bsymbols = false } })

unfoldable pub read_samples : File → (offset len : ℕ) → Reads (List ℕ)
read_samples f offset len =
    let xs = f.read offset len in
    if length xs == len then (fclose >> return xs) else (do
      report_error (codes "Error: file read failure")
      fclose
      release free_symbols
      release free_rawsymbols
      return_false)

unfoldable pub fill : File → (offset len : ℕ) → (one two : Bool) → Reads (List ℕ)
fill f offset len one two = do
  allocate_samples one two
  (if one && two then read_samples f offset len else (do
    report_error (codes "Error: failure to initialize memory for symbols")
    fclose
    (if one then release free_symbols else return tt)
    (if two then release free_rawsymbols else return tt)
    return_false))

-- malloc of the two buffers, fread, fclose
unfoldable pub load : File → Allocator → (offset len : ℕ) → Reads (List ℕ)
load f al offset len = fill f offset len (given al.symbols len) (given al.rawsymbols len)

-- std::to_string, on fuel: a number has at most that many digits.
decimal_digits : (fuel n : ℕ) → Text → Text
decimal_digits zero n acc = acc
decimal_digits (suc fuel) n acc =
    let rest = decimal_digits fuel (n / 10) in
    if ltb n 10 then (48 + n) ∷ acc else rest ((48 + n % 10) ∷ acc)

unfoldable pub decimal : ℕ → Text
unfolding decimal_digits
decimal n = decimal_digits 20 n []

unfoldable pub misfit : (found word_size : ℕ) → Text
unfolding decimal
misfit i w =
    codes "Error: Incorrect bit width specification: Data ("
    ++ decimal i
    ++ codes ") does not fit within described bit width: "
    ++ decimal w
    ++ codes "."

unfoldable pub warn : Text → Reads (Unit {0})
warn message s = (next tt, record s { run = record s.run { error_msg = message } })

-- The word size: 0 asks for the width of the data.
unfoldable pub establish_width : ℕ → List ℕ → Reads ℕ
establish_width w xs =
    let i = file_width (data_mask 0 xs) in
    if w == 0
    then return i
    else if ltb i w
    then (do warn (codes "Warning: Symbols appear to be narrower than described."); return w)
    else if ltb w i
    then (do report_error (misfit i w); release free_symbols; release free_rawsymbols; return_false)
    else return w

-- `for(i = 0; i < max_symbols; i++) if(table[i] != 0) table[i] = (uint8_t)alph_size++;`
pub assign_byte_codes : (rounds : ℕ) → List ℕ → ℕ → Option (List ℕ × ℕ)
assign_byte_codes zero table next_code = some (table, next_code)
assign_byte_codes (suc k) [] next_code = none
assign_byte_codes (suc k) (x ∷ xs) next_code =
    elim (assign_byte_codes k xs (if x == 0 then next_code else next_code + 1)) [
      | none ↦ none
      | some (codes, count) ↦ some ((if x == 0 then 0 else next_code % 2 ^ 8) ∷ codes, count)
    ]

unfoldable pub allocate_bitstring : Reads (Unit {0})
allocate_bitstring s = (next tt, record s { heap = record s.heap { bsymbols = true } })

-- The end of both functions, once the codes are assigned. `reports` says whether a failure to
-- allocate the bit string sets the error level and message, which read_file_subset omits.
unfoldable pub finish_data :
    Allocator → (reports : Bool) → (word_size : ℕ) → List ℕ → Marked → List ℕ → ℕ → Reads Data
finish_data al reports w xs m table count =
    let symbols = if ltb count (m.maxsymbol + 1) then map_down table m.symbols else m.symbols in
    let data_with : List ℕ → Data = λ bits. record {
      word_size = w;
      alph_size = count;
      maxsymbol = m.maxsymbol;
      rawsymbols = xs;
      symbols = symbols;
      bsymbols = bits;
      len = length xs;
      blen = length xs * w;
    } in
    if w == 1
    then return (data_with symbols)
    else if given al.bsymbols (length xs * w)
    then (allocate_bitstring >> return (data_with (bitstring w (2 ^ w - 1) xs)))
    else (do
      (if reports
          then report_error (codes "Error: failure to initialize memory for bsymbols")
          else return tt)
      release free_symbols
      release free_rawsymbols
      return_false)

unfoldable pub finish_coded :
    Allocator
    → (reports : Bool) → (word_size : ℕ) → List ℕ
    → Marked
    → Option (List ℕ × ℕ)
    → Reads Data
finish_coded al reports w xs m none s = (undefined, s)
finish_coded al reports w xs m (some (table, count)) s = finish_data al reports w xs m table count s

-- From the word size on. `1 << word_size` is an int, so it is undefined from 31 on. The table of so
-- many ints stands on the stack, which is taken to have room for it.
unfoldable pub translate : Allocator → (reports : Bool) → (word_size : ℕ) → List ℕ → Reads Data
translate al reports w xs s =
    let m = mark_symbols (2 ^ w - 1) xs 0 (replicate (2 ^ w) 0) in
    if ltb w 31
    then finish_coded al reports w xs m (assign_byte_codes (2 ^ w) m.table 0) s
    else (undefined, s)

unfoldable pub read_file_subset : File → Allocator → (word_size index size : ℕ) → Reads Data
read_file_subset f al word_size index size = do
  open_file f
  file_len ← file_length f
  place ← block f index size file_len
  refuse_empty place.1
  xs ← load f al place.0 place.1
  w ← establish_width word_size xs
  translate al false w xs

unfoldable pub read_file : File → Allocator → (word_size : ℕ) → Reads Data
read_file f al word_size = do
  open_file f
  len ← file_length f
  refuse_empty len
  xs ← load f al 0 len
  w ← establish_width word_size xs
  translate al true w xs
