-- ===== src/Tools/Input.antt =====
-- What internal/nist/cpp/iid_main.cpp and internal/nist/cpp/non_iid_main.cpp do with their arguments
-- and their input file, and how they end.
use nist_sp_800_90b_go.Base.{
  ℕ, Bool, not, ◌&&◌, ◌||◌, Option, none, some, List, [], ◌∷◌, ◌++◌, ltb, leb, if◌then◌else◌, ℤ,
  pos, negsuc,
}
use nist_sp_800_90b_go.Result.{Text, codes}
use nist_sp_800_90b_go.Files.Effects.{Step, next, stop, undefined, ◌>>◌, return}
use nist_sp_800_90b_go.Symbols.{Data}
use nist_sp_800_90b_go.Symbols.Prepare.{Heap, free_data}
use nist_sp_800_90b_go.Files.{Reading, read_file_subset}
use nist_sp_800_90b_go.Tools.{
  change_options, Environment, Options, Main, min_size, print_usage, exit_with, change_run,
  report_failure, write_json, fail_usage,
}

unfoldable pub in_one_to_eight : ℤ → Option ℕ
in_one_to_eight (pos n) = if ltb n 1 || ltb 8 n then none else some n
in_one_to_eight (negsuc n) = none

-- The arguments after the path.
abbrev pub rest_of : List Text → List Text
rest_of [] = []
rest_of (path ∷ rest) = rest

-- `if (!all_bits && (data.blen > MIN_SIZE)) data.blen = MIN_SIZE;`
unfoldable pub truncate : Bool → Data → Data
truncate all_bits dp =
    if not all_bits && ltb min_size dp.blen then record dp { blen = min_size } else dp

module _ {Case : Type 0} where
  -- `if ((argc != 1) && (argc != 2))`, and the file's path
  unfoldable pub check_arguments : List Text → Main Case Text
  check_arguments [] = print_usage
  check_arguments (path ∷ []) = return path
  check_arguments (path ∷ bits ∷ []) = return path
  check_arguments (path ∷ bits ∷ more ∷ rest) = print_usage

  -- `if (quietMode) verbose = 0;`
  unfoldable pub settle_verbose : Main Case (Unit {0})
  settle_verbose = change_options (λ o. if o.quiet_mode then record o { verbose = 0 } else o)

  -- `testRun.sha256 = hash`, which reads an uninitialised buffer when sha256_file has failed.
  unfoldable pub set_hash : Option Text → Main Case (Unit {0})
  set_hash none s = (undefined, s)
  set_hash (some hash) s = change_run (λ r. record r { sha256 = hash }) s

  unfoldable pub set_filename : Text → Main Case (Unit {0})
  set_filename path = change_run (λ r. record r { filename = path })

  unfoldable pub accept_bits : (message : Text) → Option ℕ → Main Case ℕ
  accept_bits message none = fail_usage message
  accept_bits message (some n) = return n

  -- The optional argument for the bits per symbol, with the message when it is out of range.
  unfoldable pub take_bits : Environment → (message : ℤ → Text) → List Text → Main Case ℕ
  unfolding in_one_to_eight
  take_bits env message [] = return 0
  take_bits env message (bits ∷ rest) =
      accept_bits (message (env.atoi bits)) (in_one_to_eight (env.atoi bits))

  unfoldable pub when_read : Step (Unit {0}) Data × Reading → Main Case Data
  when_read (next dp, io) s = (next dp, record s { io = io })
  when_read (stop e, io) s = (write_json >> print_usage) (record s { io = io })
  when_read (undefined, io) s = (undefined, record s { io = io })

  unfoldable pub read_input : Environment → (path : Text) → (word_size : ℕ) → Main Case Data
  unfolding when_read
  read_input env path w s =
      when_read
        (read_file_subset (env.files path) env.memory w s.options.subset_index s.options.subset_size
          s.io)
        s

  unfoldable pub set_heap : Option Heap → Main Case (Unit {0})
  set_heap none s = (undefined, s)
  set_heap (some h) s = (next tt, record s { io = record s.io { heap = h } })

  unfoldable pub free_input : Data → Main Case (Unit {0})
  free_input dp s = set_heap (free_data dp s.io.heap) s

  unfoldable pub refuse_single : Data → Main Case (Unit {0})
  refuse_single dp =
      if leb dp.alph_size 1
      then (do
        report_failure (codes "Symbol alphabet consists of 1 symbol. No entropy awarded...")
        write_json
        free_input dp
        exit_with (negsuc 0))
      else return tt

  unfoldable pub get_options : Main Case Options
  get_options s = (next s.options, s)

  unfoldable pub push_case : Case → Main Case (Unit {0})
  push_case c s = (next tt, record s { cases = s.cases ++ (c ∷ []) })

  -- `testRun.errorLevel = 0`, the JSON file, free_data, `return 0`
  unfoldable pub finish_main : Data → Main Case ℤ
  finish_main dp = do
    change_run (λ r. record r { error_level = pos 0 })
    write_json
    free_input dp
    return (pos 0)
