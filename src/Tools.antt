-- ===== src/Tools.antt =====
-- What internal/nist/cpp/iid_main.cpp and internal/nist/cpp/non_iid_main.cpp have in common: their
-- options, arguments and exits, and the test runs and test cases of internal/nist/cpp/shared/
-- test_run_base.h, test_case_base.h, internal/nist/cpp/non_iid/non_iid_test_case.h and
-- internal/nist/cpp/iid/iid_test_case.h that they fill. What getopt, strtoull, atoi and the SHA-256
-- routine give is a parameter. Output to the screen is left out.
pub mod Flags
pub mod Input
pub mod NonIid
pub mod Iid
pub mod Transpose
pub mod Restart
pub mod Ends
pub mod Steps
pub mod Quiet
pub mod Exits
mod Tests
use nist_sp_800_90b_go.Base.{
  ℕ, zero, suc, ◌+◌, ◌-◌, ◌^◌, Bool, true, false, not, ◌&&◌, ◌||◌, Option, none, some, List, [],
  ◌∷◌, ◌++◌, ltb, leb, ◌==◌, if◌then◌else◌, ℤ, pos, negsuc,
}
use nist_sp_800_90b_go.Double.{Double}
use nist_sp_800_90b_go.Result.{Text, codes}
use nist_sp_800_90b_go.Symbols.{Data}
use nist_sp_800_90b_go.Symbols.Prepare.{Heap, empty, Allocator, free_data}
use nist_sp_800_90b_go.Files.Effects.{Step, next, stop, undefined, Io, ◌>>=◌, ◌>>◌, return}
use nist_sp_800_90b_go.Files.{TestRun, File, Reading, Reads, read_file_subset}
use nist_sp_800_90b_go.Assess.{Outcome, value, thrown, thrown_other}

-- One option as getopt gives it.
pub data Flag : Type 0 where
  opt_i opt_c opt_a opt_t opt_v opt_q : Flag
  opt_l opt_o : Text → Flag
  opt_other : Flag

-- strtoull: the number, what follows it, and whether errno is EINVAL then.
pub record Number : Type 0 where
  pub value : ℕ
  pub rest : Text
  pub invalid : Bool

-- The command line, as the C library gives it, with the C library's functions on texts and files;
-- `sha256` is none when sha256_file fails and leaves its buffer as it was.
pub record Environment : Type 0 where
  pub argv : List Text
  pub flags : List Flag
  pub arguments : List Text
  pub timestamp : Text
  pub strtoull : Text → Number
  pub atoi : Text → ℤ
  pub sha256 : Text → Option Text
  pub files : Text → File
  pub memory : Allocator

pub record Options : Type 0 where
  pub initial_entropy : Bool
  pub all_bits : Bool
  pub verbose : ℕ
  pub quiet_mode : Bool
  pub subset_index : ℕ
  pub subset_size : ℕ
  pub json_output : Bool
  pub outputfilename : Text

abbrev pub defaults : Options
defaults = record {
  initial_entropy = true;
  all_bits = true;
  verbose = 1;
  quiet_mode = false;
  subset_index = 2 ^ 64 - 1;
  subset_size = 0;
  json_output = false;
  outputfilename = [];
}

abbrev pub min_size : ℕ
min_size = 1000000

-- How the program ends early: exit with a status, or std::terminate on an exception.
pub data Ending : Type 0 where
  exit : ℤ → Ending
  terminate : Ending

-- The state of a program: the test run with its test cases, the open stream and the buffers, the
-- options, and the JSON files written, each as the run and the cases in it.
pub record Tool (Case : Type 0) : Type 0 where
  pub io : Reading
  pub cases : List Case
  pub options : Options
  pub written : List (Text × TestRun × List Case)

abbrev pub Main : Type 0 → Type 0 → Type 0
Main Case A = Io (Tool Case) Ending A

-- recreateCommandLine
pub recreate_command_line : List Text → Text
recreate_command_line [] = []
recreate_command_line (a ∷ []) = a
recreate_command_line (a ∷ b ∷ rest) = a ++ (32 ∷ recreate_command_line (b ∷ rest))

text_eq : Text → Text → Bool
text_eq [] [] = true
text_eq [] (y ∷ ys) = false
text_eq (x ∷ xs) [] = false
text_eq (x ∷ xs) (y ∷ ys) = x == y && text_eq xs ys

pub asks_version : List Text → Bool
unfolding text_eq
asks_version [] = false
asks_version (a ∷ rest) = text_eq (codes "--version") a || asks_version rest

unfoldable pub start_run : Environment → TestRun
start_run env = record {
  timestamp = env.timestamp;
  sha256 = [];
  filename = [];
  error_level = pos 0;
  error_msg = [];
  kind = [];
  commandline = recreate_command_line env.argv;
}

unfoldable pub start_tool : {Case : Type 0} → Environment → Tool Case
start_tool env = record {
  io = record { run = start_run env; file = false; heap = empty };
  cases = [];
  options = defaults;
  written = [];
}

-- TestCaseBase
pub record CaseBase (F : Type 0) : Type 0 where
  pub h_original : F
  pub h_bitstring : F
  pub h_assessed : F
  pub mcv_estimate_mode : F
  pub mcv_estimate_p_hat : F
  pub mcv_estimate_p_u : F
  pub literal_mcv_estimate : Bool
  pub ret_min_entropy : F
  pub data_word_size : F
  pub test_case_number : Text

abbrev pub fresh_base : (d : Double) → CaseBase d.F
fresh_base d = record {
  h_original = d.minus_one;
  h_bitstring = d.minus_one;
  h_assessed = d.minus_one;
  mcv_estimate_mode = d.minus_one;
  mcv_estimate_p_hat = d.minus_one;
  mcv_estimate_p_u = d.minus_one;
  literal_mcv_estimate = false;
  ret_min_entropy = d.minus_one;
  data_word_size = d.minus_one;
  test_case_number = [];
}

module _ {Case : Type 0} where
  unfoldable pub print_usage : {A : Type 0} → Main Case A
  print_usage s = (stop (exit (negsuc 0)), s)

  unfoldable pub exit_with : {A : Type 0} → ℤ → Main Case A
  exit_with status s = (stop (exit status), s)

  unfoldable pub change_options : (Options → Options) → Main Case (Unit {0})
  change_options f s = (next tt, record s { options = f s.options })

  unfoldable pub change_run : (TestRun → TestRun) → Main Case (Unit {0})
  change_run f s = (next tt, record s { io = record s.io { run = f s.io.run } })

  -- `testRun.errorLevel = -1` and the message.
  unfoldable pub report_failure : Text → Main Case (Unit {0})
  report_failure message =
      change_run (λ r. record r { error_level = negsuc 0; error_msg = message })

  -- `if (jsonOutput) { output.open(outputfilename); output << testRun.GetAsJson(); ... }`
  unfoldable pub write_json : Main Case (Unit {0})
  write_json s =
      if s.options.json_output
      then (
        next tt,
        record s { written = s.written ++ ((s.options.outputfilename, s.io.run, s.cases) ∷ []) },
      )
      else (next tt, s)

  unfoldable pub fail_usage : {A : Type 0} → Text → Main Case A
  fail_usage message = do report_failure message; write_json; print_usage

  unfoldable pub call : {A : Type 0} → Outcome A → Main Case A
  call (value a) s = (next a, s)
  call (thrown what) s = (stop terminate, s)
  call thrown_other s = (stop terminate, s)
