-- ===== src/Tools/Tests.antt =====
-- internal/nist/cpp/iid_main.cpp, non_iid_main.cpp and transpose_main.cpp on small inputs.
use nist_sp_800_90b_go.Base.{
  ℕ, arith, ◌+◌, ◌*◌, ◌<◌, ◌≡◌, refl, true, false, some, List, [], ◌∷◌, ◌++◌, length, get_or, pos,
}
use nist_sp_800_90b_go.Double.{tenths}
use nist_sp_800_90b_go.Result.{EntropyResult, create_result, codes}
use nist_sp_800_90b_go.Symbols.Tests.{full_memory, sample_data}
use nist_sp_800_90b_go.Files.Effects.{Ends, next}
use nist_sp_800_90b_go.Files.Tests.{bytes-GivesBytes, regular, bytes, fresh}
use nist_sp_800_90b_go.Assess.{value, thrown_other}
use nist_sp_800_90b_go.Assess.Iid.{iid_body}
use nist_sp_800_90b_go.Assess.NonIid.{non_iid_body}
use nist_sp_800_90b_go.Assess.Tests.{steady}
use nist_sp_800_90b_go.Tools.{Environment, Tool, opt_q, opt_l, opt_o, start_tool}
use nist_sp_800_90b_go.Tools.Ends.{Exits}
use nist_sp_800_90b_go.Tools.Steps.{Finished}
use nist_sp_800_90b_go.Tools.Exits.{iid_main-Ends}
use nist_sp_800_90b_go.Tools.NonIid.{ModeNotes}
use nist_sp_800_90b_go.Tools.NonIid.Program
use nist_sp_800_90b_go.Tools.NonIid.Wrapper.{Same}
use nist_sp_800_90b_go.Tools.NonIid.Agreement
use nist_sp_800_90b_go.Tools.NonIid.Agreement.{assess_data-non_iid_body}
use nist_sp_800_90b_go.Tools.NonIid.Exits.{non_iid_main-Ends}
use nist_sp_800_90b_go.Tools.Iid
use nist_sp_800_90b_go.Tools.Iid.Assessed.{assess_data-iid_body}
use nist_sp_800_90b_go.Tools.Transpose.{Output, Copier, write_columns}
use nist_sp_800_90b_go.Tools.Transpose.Matrix.{transposed}
use nist_sp_800_90b_go.Tools.Transpose.Written.{write_columns-transposed}

-- `ea_non_iid -q -o out -l 1,4 data 3`: every number reads as 1 before the comma and 4 after it.
abbrev small_environment : Environment
small_environment = record {
  argv = codes "ea_non_iid" ∷ codes "-q" ∷ codes "data" ∷ [];
  flags = opt_q ∷ opt_o (codes "out") ∷ opt_l (codes "1,4") ∷ [];
  arguments = codes "data" ∷ codes "3" ∷ [];
  timestamp = [];
  strtoull = λ t. record { value = length t; rest = 44 ∷ []; invalid = false };
  atoi = λ t. pos 3;
  sha256 = λ t. some (codes "00");
  files = λ t. regular bytes;
  memory = full_memory;
}

abbrev no_sizes : Iid.NegativeSize tenths
no_sizes = record {
  most_common = λ s n k. thrown_other;
  chi_square_tests = λ s n k. thrown_other;
  len_lrs_test = λ s n k. thrown_other;
}

abbrev no_notes : ModeNotes tenths
no_notes = λ s n k. (10, 10, 10)

steady-Answers : Iid.Assessed.Answers tenths steady
steady-Answers = record {
  most_common = λ s n k. (_, refl);
  chi_square_tests = λ s n k. (_, refl);
  len_lrs_test = λ s n k. (_, refl);
  calc_stats = λ dp. (_, refl);
  permutation_tests = λ dp m n. (_, refl);
}

non_iid_main-Ends_example :
    Ends Finished
      (Exits small_environment)
      (Program.main tenths small_environment steady no_notes (start_tool small_environment))
non_iid_main-Ends_example =
    non_iid_main-Ends tenths small_environment steady no_notes (λ path. (codes "00", refl))
      (λ path. bytes-GivesBytes)

iid_main-Ends_example :
    Ends Finished
      (Exits small_environment)
      (Iid.main tenths small_environment steady no_sizes (start_tool small_environment))
iid_main-Ends_example =
    iid_main-Ends tenths small_environment (λ path. (codes "00", refl)) (λ path. bytes-GivesBytes)
      steady no_sizes

assess_data-non_iid_body_example :
    Same tenths
      (λ _ s' _ r'. Agreement.Reported tenths true sample_data s' r')
      (Program.assess_data tenths steady no_notes true sample_data (start_tool small_environment))
      (non_iid_body tenths steady true sample_data (create_result tenths))
assess_data-non_iid_body_example =
    assess_data-non_iid_body tenths steady no_notes true sample_data (start_tool small_environment)
      (create_result tenths)

abbrev begin_iid : Tool (Iid.IidTestCase ℕ)
begin_iid = start_tool small_environment

assess_data-iid_body_example :
    (c : Iid.IidTestCase ℕ) × (r' : EntropyResult ℕ) × (Iid.assess_data tenths steady no_sizes 1
        true sample_data begin_iid
      ≡ (next tt, record begin_iid { cases = begin_iid.cases ++ (c ∷ []) }))
    × (iid_body tenths steady sample_data (create_result tenths) ≡ (value tt, r'))
    × Iid.Assessed.Reported tenths 1 sample_data c r'
assess_data-iid_body_example =
    assess_data-iid_body tenths steady no_sizes 1 sample_data begin_iid (create_result tenths)
      steady-Answers (omega arith)

abbrev any_output : Output
any_output = record { opens = λ t. true; writes = λ n. true }

abbrev matrix : List ℕ
matrix = 1 ∷ 2 ∷ 3 ∷ 4 ∷ 5 ∷ 6 ∷ []

abbrev copier : Copier
copier = record {
  io = fresh;
  verbose = 1;
  subset_index = 0;
  subset_size = 0;
  output_open = true;
  output = [];
}

write_columns-transposed_example :
    (write_columns any_output matrix 2 3 3 0 copier
      ≡ (next tt, record copier { output = copier.output ++ transposed 2 3 matrix }))
    × ((i j : ℕ)
        → i < 3
        → j < 2
        → get_or (transposed 2 3 matrix) (i * 2 + j) 0 ≡ get_or matrix (3 * j + i) 0)
    × (transposed 3 2 (transposed 2 3 matrix) ≡ matrix)
write_columns-transposed_example =
    write_columns-transposed any_output (λ n. refl) matrix 2 3 copier refl
