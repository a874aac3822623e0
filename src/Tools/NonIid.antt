-- ===== src/Tools/NonIid.antt =====
-- internal/nist/cpp/non_iid_main.cpp: the program that estimates min-entropy without the IID
-- assumption.
pub mod Program
pub mod Wrapper
pub mod Tuples
pub mod Agreement
pub mod Exits
use nist_sp_800_90b_go.Base.{
  ℕ, Bool, true, false, List, [], ◌∷◌, ltb, ◌==◌, ◌&&◌, ◌||◌, not, if◌then◌else◌, ℤ, pos, negsuc,
}
use nist_sp_800_90b_go.Double.{Double, std_min}
use nist_sp_800_90b_go.Result.{Text, codes}
use nist_sp_800_90b_go.Symbols.{Data}
use nist_sp_800_90b_go.Assess.{Outcome, Engine}
use nist_sp_800_90b_go.Assess.NonIid.{Entropies, lower_bitstring, lower_original}
use nist_sp_800_90b_go.Files.Effects.{Io, ◌>>=◌, ◌>>◌, return}
use nist_sp_800_90b_go.Tools.{
  Environment, Main, CaseBase, fresh_base, call, print_usage, asks_version, exit_with,
}
use nist_sp_800_90b_go.Tools.Flags.{take_options}
use nist_sp_800_90b_go.Tools.Input.{
  set_hash, set_filename, take_bits, read_input, refuse_single, truncate, get_options, push_case,
  check_arguments, settle_verbose, rest_of, finish_main,
}

-- NonIidTestCase
pub record NonIidTestCase (F : Type 0) : Type 0 where
  pub base : CaseBase F
  pub bin_t_tuple_res : F
  pub t_tuple_res : F
  pub bin_lrs_res : F
  pub lrs_res : F
  pub h_r : F
  pub h_c : F
  pub h_i : F
  pub n_in : F
  pub n_out : F
  pub nw : F
  pub h_in : F
  pub h_out : F
  pub h_p : F

-- What most_common writes into its test case: the mode, p-hat and p_u.
abbrev pub ModeNotes : Double → Type 0
ModeNotes d = List ℕ → ℕ → ℕ → d.F × d.F × d.F

module _ (d : Double) where
  open d use {F, le, mul, of_int, minus_one, nought, one}

  abbrev pub Case : Type 0
  Case = NonIidTestCase F

  abbrev pub fresh_case : Case
  fresh_case = record {
    base = fresh_base d;
    bin_t_tuple_res = minus_one;
    t_tuple_res = minus_one;
    bin_lrs_res = minus_one;
    lrs_res = minus_one;
    h_r = minus_one;
    h_c = minus_one;
    h_i = minus_one;
    n_in = minus_one;
    n_out = minus_one;
    nw = minus_one;
    h_in = minus_one;
    h_out = minus_one;
    h_p = minus_one;
  }

  unfoldable pub set_bitstring : F → Case → Case
  set_bitstring x c = record c { base = record c.base { h_bitstring = x } }

  unfoldable pub set_original : F → Case → Case
  set_original x c = record c { base = record c.base { h_original = x } }

  unfoldable pub named : Text → Case → Case
  named name c = record c { base = record c.base { test_case_number = name } }

  -- `literal_mcv_estimate` gets the result of a comparison that is 0 for the literal label.
  unfoldable pub note_mode : F × F × F → (differs : Bool) → Case → Case
  note_mode (mode, p_hat, p_u) differs c = record c {
    base = record c.base {
      mcv_estimate_mode = mode;
      mcv_estimate_p_hat = p_hat;
      mcv_estimate_p_u = p_u;
      literal_mcv_estimate = differs;
    };
  }

  -- The running minima with the test case of the estimator.
  abbrev pub Held : Type 0
  Held = Entropies F × Case

  -- `if (ret_min_entropy >= 0) { ... }`
  unfoldable pub hold_bitstring : F → Held → Held
  unfolding lower_bitstring set_bitstring
  hold_bitstring x (h, c) =
      if le nought x then (lower_bitstring d x h, set_bitstring x c) else (h, c)

  unfoldable pub hold_original : F → Held → Held
  unfolding lower_original set_original
  hold_original x (h, c) = if le nought x then (lower_original d x h, set_original x c) else (h, c)

  unfoldable pub push_named : Text → Held → Main Case (Entropies F)
  push_named name (h, c) = do push_case (named name c); return h

  -- An estimator whose result is always used; `note` is what it writes into its test case.
  unfoldable pub always_case :
      Text
      → (on_bits : Bool) → Outcome F
      → (note_bits : Case → Case) → (on_literal : Bool) → Outcome F
      → (note_literal : Case → Case) → Entropies F
      → Main Case (Entropies F)
  always_case name on_bits bits note_bits on_literal literal note_literal h = do
    s ←
        (if on_bits
          then (call bits >>= λ x.
              return (lower_bitstring d x h, set_bitstring x (note_bits fresh_case)))
          else return (h, fresh_case))
    t ←
        (if on_literal
          then (call literal >>= λ x.
              return (lower_original d x s.0, set_original x (note_literal s.1)))
          else return s)
    push_named name t

  -- An estimator whose negative results are passed over.
  unfoldable pub checked_case :
      Text
      → (on_bits : Bool) → Outcome F
      → (on_literal : Bool) → Outcome F
      → Entropies F
      → Main Case (Entropies F)
  checked_case name on_bits bits on_literal literal h = do
    s ←
        (if on_bits
          then (call bits >>= λ x. return (hold_bitstring x (h, fresh_case)))
          else return (h, fresh_case))
    t ← (if on_literal then (call literal >>= λ x. return (hold_original x s)) else return s)
    push_named name t

  -- SAalgs gives the t-tuple and the LRS estimate, which stay -1 where it is not called.
  unfoldable pub tuple_results : (on_bits : Bool) → Outcome (F × F) → Main Case (F × F)
  tuple_results on_bits bits = if on_bits then call bits else return (minus_one, minus_one)

  unfoldable pub hold_tuple : (on_bits : Bool) → F → (on_literal : Bool) → F → Held → Held
  unfolding lower_bitstring lower_original
  hold_tuple on_bits x on_literal y (h, c) =
      let (h', c') =
        if on_bits && le nought x
        then (lower_bitstring d x h, record c { bin_t_tuple_res = x })
        else (h, c) in
      if on_literal && le nought y
      then (lower_original d y h', record c' { t_tuple_res = y })
      else (h', c')

  unfoldable pub hold_lrs : (on_bits : Bool) → F → (on_literal : Bool) → F → Held → Held
  unfolding lower_bitstring lower_original
  hold_lrs on_bits x on_literal y (h, c) =
      let (h', c') =
        if on_bits && le nought x
        then (lower_bitstring d x h, record c { bin_lrs_res = x })
        else (h, c) in
      if on_literal && le nought y
      then (lower_original d y h', record c' { lrs_res = y })
      else (h', c')

  -- The t-tuple and the LRS estimate.
  unfoldable pub tuple_cases :
      (on_bits : Bool)
      → Outcome (F × F)
      → (on_literal : Bool) → Outcome (F × F)
      → Entropies F
      → Main Case (Entropies F)
  tuple_cases on_bits bits on_literal literal h = do
    x ← tuple_results on_bits bits
    y ← tuple_results on_literal literal
    h1 ← push_named (codes "T-Tuple Test") (hold_tuple on_bits x.0 on_literal y.0 (h, fresh_case))
    push_named (codes "LRS Test") (hold_lrs on_bits x.1 on_literal y.1 (h1, fresh_case))
