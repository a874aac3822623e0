-- ===== src/Lib.antt =====
-- Verification of the entropy assessment of NIST SP 800-90B as this repository carries it:
-- internal/nist/wrapper, the C interface that the Go service calls, and internal/nist/cpp, the
-- assessment tool: its headers, which the wrapper compiles in, and its command-line programs.
--
-- A call of calculate_iid_entropy or calculate_non_iid_entropy checks its input, prepares the samples
-- (word size, symbols, alphabet, bit string), runs the estimators on the symbols and on the bit
-- string, and fills in an EntropyResult; a guard frees the prepared data on every way out.
--
--   Base            numbers, tests, lists and bit operations that the other files share
--   Double          doubles, as a parameter with the comparisons and operations in use
--   Symbols         wrapper.cpp prepare_data and data_t; utils.h read_file's width scan,
--                   compressedBitSymbols
--   Symbols/Prepare prepare_data and free_data over the three buffers; the codes and the bit string
--   Result          wrapper.h EntropyResult; wrapper.cpp create_result, add_estimator,
--                   add_test_result, set_error
--   Assess          wrapper.cpp calculate_iid_entropy (Iid) and calculate_non_iid_entropy (NonIid)
--   Files           utils.h read_file and read_file_subset, over what the C library does with a file:
--                   effects on the stream, the buffers and the test run (Effects), what is held at
--                   each end (Resources), the two functions side by side (Whole), and the data read
--                   beside that of prepare_data (Tables, Blocks, Regular)
--   Tools           the programs: test runs, test cases and exits; Flags, Input: options, arguments
--                   and the file, as iid_main.cpp and non_iid_main.cpp take them; NonIid
--                   (non_iid_main.cpp), Iid (iid_main.cpp), Transpose (transpose_main.cpp), Restart
--                   (restart_main.cpp's sanity check); Ends, Steps, Quiet, Exits: how the programs end
--   Predict         utils.h PostfixDictionary; Windows: the loops of multi_mcw_test.h, with a record for
--                   each window, its counts (Counted, Slide, Fill), its frequent value (Search, Mode)
--                   the scoreboard (Winner) and the predictions (Hits, Run)
--   Counts          most_common.h, markov_test.h, collision_test.h: their counting loops
--   Permutation     permutation_tests.h: the counters and verdict of permutation_tests, and the
--                   statistics on runs, increases, collisions, repetitions and
--                   covariance
--   Generator       utils.h xoshiro256**, xoshiro_jump, randomRange64, FYshuffle
--
-- State. The data buffers are a record of three flags (Heap), so a double free or a free of a buffer
-- that was never allocated is seen; which calls of malloc succeed is an argument (Allocator). Code of
-- a try block is a function from the result so far to an outcome (a value or an exception) and the
-- result it leaves. Undefined behaviour is a result of its own (`undefined`, `broken`).
-- A step of a program or of the file input (Files.Effects) goes on with a value, ends the function or
-- the program, or is undefined; its state has the open stream, the buffers, the test run, the options
-- and the JSON files written, each as the run and the cases that the JSON library is given.
--
-- Numbers. uint8_t, uint32_t and uint64_t are natural numbers with each wrap-around written out; int
-- and long do not overflow for the lengths that fit in memory and are natural numbers, except the
-- arguments and error codes that can be negative, which are integers.
--
-- Fuel. Only randomRange64 can run without end, since it draws again until a draw is accepted: its
-- fuel bounds the number of further draws. The fuel is enough when one of the words drawn is accepted
-- (draws_within), and the theorems have that as their condition.
--
-- Permutation tests. Threads share the counters; the model is the loop of one thread. The comparison of
-- two statistics, which are long doubles, is its input.
--
-- Parameters. The estimators that the wrapper calls are the record Engine: what is stated of the
-- wrapper holds whatever they return or throw. NegativeSize is what three of them do for a negative
-- sample size, which iid_main gets when it narrows the number of samples to an int. Doubles are the
-- record Double, and IsOrdered has the laws of `<` on doubles that are not NaN; Double.tenths is an
-- instance. The C library's results for files and texts, and the SHA-256 routine, are the records
-- File, Environment and Output; that fread gives bytes is the hypothesis GivesBytes (HasBytes for
-- every file of an Environment), and that a hash is found is Hashes.
--
-- Not modelled: the texts that the programs print, the JSON library, conditioning_main.cpp,
-- restart_main.cpp but for the counts and the verdict of its sanity check, the prediction loops of
-- lag_test.h, multi_mmc_test.h and lz78y_test.h, the floating-point formulas of the estimators, and the
-- Go service around the engine.
pub mod Assess
pub mod Base
pub mod Counts
pub mod Double
pub mod Files
pub mod Generator
pub mod Permutation
pub mod Predict
pub mod Result
pub mod Symbols
pub mod Tools
