-- ===== src/Tools/NonIid/Exits.antt =====
-- internal/nist/cpp/non_iid_main.cpp, main, from the start of the program to each of its ends.
use nist_sp_800_90b_go.Base.{Bool, if◌then◌else◌}
use nist_sp_800_90b_go.Double.{Double}
use nist_sp_800_90b_go.Result.{Text}
use nist_sp_800_90b_go.Symbols.{Data}
use nist_sp_800_90b_go.Assess.{Engine, Outcome}
use nist_sp_800_90b_go.Assess.NonIid.{Entropies}
use nist_sp_800_90b_go.Files.Effects.{Ends, Ends-step, Ends-then, Ends-return, ◌>>=◌, return}
use nist_sp_800_90b_go.Files.Resources.{Released}
use nist_sp_800_90b_go.Tools.{Environment, Tool, Main, call, start_tool}
use nist_sp_800_90b_go.Tools.Ends.{Exits, Idle, Holds, take_options-Ends}
use nist_sp_800_90b_go.Tools.Steps.{
  version-Ends, check_arguments-Ends, settle_verbose-Ends, set_filename-Ends, set_hash-Ends,
  take_bits-Ends, Named, Asked, IsRead, read_input-Ends, refuse_single-Ends, truncate-Holds,
  Finished, finish_main-Ends,
}
use nist_sp_800_90b_go.Tools.Quiet.{
  Quiet, Quiet-return, Quiet-call, Quiet-push_case, Quiet-bind, Quiet-then, Quiet-if,
}
use nist_sp_800_90b_go.Tools.Exits.{Hashes, HasBytes, get_options-Ends, Quiet-Ends, begun}
use nist_sp_800_90b_go.Tools.NonIid.{
  ModeNotes, Case, Held, push_named, always_case, checked_case, tuple_results, tuple_cases,
}
use nist_sp_800_90b_go.Tools.NonIid.Program.{
  statistic_tests, predictor_tests, assess_data, front, main,
}

module _ (d : Double) where
  open d use {F}

  bind :
      {A B : Type 0} (m : Main (Case d) A) (k : A → Main (Case d) B)
      → Quiet (Case d) m
      → ((a : A) → Quiet (Case d) (k a))
      → Quiet (Case d) (m >>= k)
  bind = Quiet-bind (Case d)

  push_named-Quiet : (name : Text) (h : Held d) → Quiet (Case d) (push_named d name h)
  unfolding push_named
  push_named-Quiet name h = Quiet-then _ _ _ (Quiet-push_case _ _) (Quiet-return _ _)

  -- A call whose result is turned into the next minima, or nothing.
  optional :
      {A : Type 0} (b : Bool) (o : Outcome A) (k : A → Held d) (h : Held d)
      → Quiet (Case d) (if b then (call o >>= λ x. return (k x)) else return h)
  optional b o k h =
      Quiet-if _ b _ _ (bind _ _ (Quiet-call _ o) (λ a. Quiet-return _ _)) (Quiet-return _ h)

  always_case-Quiet :
      (name : Text) (x : Bool) (a : Outcome F) (na : Case d → Case d) (y : Bool) (b : Outcome F)
      (nb : Case d → Case d) (h : Entropies F)
      → Quiet (Case d) (always_case d name x a na y b nb h)
  unfolding always_case
  always_case-Quiet name x a na y b nb h =
      bind _ _ (optional x a _ _) λ s. bind _ _ (optional y b _ _) λ t. push_named-Quiet name t

  checked_case-Quiet :
      (name : Text) (x : Bool) (a : Outcome F) (y : Bool) (b : Outcome F) (h : Entropies F)
      → Quiet (Case d) (checked_case d name x a y b h)
  unfolding checked_case
  checked_case-Quiet name x a y b h =
      bind _ _ (optional x a _ _) λ s. bind _ _ (optional y b _ _) λ t. push_named-Quiet name t

  tuple_results-Quiet : (x : Bool) (a : Outcome (F × F)) → Quiet (Case d) (tuple_results d x a)
  unfolding tuple_results
  tuple_results-Quiet x a = Quiet-if _ x _ _ (Quiet-call _ a) (Quiet-return _ _)

  tuple_cases-Quiet :
      (x : Bool) (a : Outcome (F × F)) (y : Bool) (b : Outcome (F × F)) (h : Entropies F)
      → Quiet (Case d) (tuple_cases d x a y b h)
  unfolding tuple_cases
  tuple_cases-Quiet x a y b h = bind _ _ (tuple_results-Quiet x a) λ u.
      bind _ _ (tuple_results-Quiet y b)
        λ v. bind _ _ (push_named-Quiet _ _) λ h1. push_named-Quiet _ _

  assess_data-Quiet :
      (e : Engine d) (notes : ModeNotes d) (initial : Bool) (dp : Data)
      → Quiet (Case d) (assess_data d e notes initial dp)
  unfolding assess_data statistic_tests predictor_tests
  assess_data-Quiet e notes initial dp =
      bind _ _
        (bind _ _ (always_case-Quiet _ _ _ _ _ _ _ _) λ h1.
          bind _ _ (always_case-Quiet _ _ _ _ _ _ _ h1) λ h2.
            bind _ _ (always_case-Quiet _ _ _ _ _ _ _ h2)
              λ h3. bind _ _ (checked_case-Quiet _ _ _ _ _ h3) λ h4. tuple_cases-Quiet _ _ _ _ h4)
        λ h.
          bind _ _
            (bind _ _ (checked_case-Quiet _ _ _ _ _ h) λ h1.
              bind _ _ (checked_case-Quiet _ _ _ _ _ h1) λ h2.
                bind _ _ (checked_case-Quiet _ _ _ _ _ h2) λ h3. checked_case-Quiet _ _ _ _ _ h3)
            λ h'. Quiet-then _ _ _ (Quiet-push_case _ _) (Quiet-return _ h')

  front-Ends :
      (env : Environment) (s : Tool (Case d))
      → Hashes env
      → HasBytes env
      → Released s.io
      → Ends Holds (Exits env) (front d env s)
  unfolding front
  front-Ends env s hashes files r =
      Ends-then Idle Holds (Exits env) _ _ s (version-Ends env _ s r) λ _ s1 r1.
        Ends-then Idle Holds (Exits env) _ _ s1 (take_options-Ends env env.flags s1 r1) λ _ s2 r2.
          Ends-step (Named env.arguments) Holds (Exits env) _ _ s2
            (check_arguments-Ends env env.arguments s2 r2)
            λ path s3 (r3, (rest, named)).
              Ends-then Idle Holds (Exits env) _ _ s3 (settle_verbose-Ends env s3 r3) λ _ s4 r4.
                Ends-then Idle Holds (Exits env) _ _ s4
                  (set_hash-Ends env (env.sha256 path) s4 (hashes path) r4)
                  λ _ s5 r5.
                    Ends-then Idle Holds (Exits env) _ _ s5 (set_filename-Ends env path s5 r5)
                      λ _ s6 r6.
                        Ends-step Asked Holds (Exits env) _ _ s6 (take_bits-Ends env _ _ s6 r6)
                          λ w s7 (r7, small).
                            Ends-step (IsRead env) Holds (Exits env) _ _ s7
                              (read_input-Ends env path rest w s7 named (files path) r7 small)
                              λ dp s8 r8.
                                Ends-then (λ _ s'. Holds dp s') Holds (Exits env) _ _ s8
                                  (refuse_single-Ends env dp s8 r8)
                                  λ _ s9 r9.
                                    Ends-step (λ _ s'. Holds dp s') Holds (Exits env) _ _ s9
                                      (get_options-Ends env (Holds dp) s9 r9)
                                      λ o s10 r10.
                                        Ends-return Holds (Exits env) _ s10
                                          (truncate-Holds env o.all_bits dp s10 r10)

  -- When every file's hash can be computed and fread gives bytes, non_iid_main has no undefined
  -- behaviour of memory or stream, and every way out of it leaves no open stream: returning gives
  -- status 0, error level 0 and no buffer held; exiting leaves no buffer, but possibly the bit string
  -- when the subset that the options give of the file named by the first argument has at least one
  -- byte and only zero bytes; and an exception of an estimator ends the process.
  pub non_iid_main-Ends :
      (env : Environment) (e : Engine d) (notes : ModeNotes d)
      → Hashes env
      → HasBytes env
      → Ends Finished (Exits env) (main d env e notes (start_tool env))
  unfolding main
  non_iid_main-Ends env e notes hashes files =
      Ends-step Holds Finished (Exits env) _ _ (start_tool env)
        (front-Ends env (start_tool env) hashes files (begun _ env))
        λ dp s1 h1.
          Ends-step (λ _ s'. Holds dp s') Finished (Exits env) _ _ s1
            (get_options-Ends env (Holds dp) s1 h1)
            λ o s2 h2.
              Ends-then (λ _ s'. Holds dp s') Finished (Exits env) _ _ s2
                (Quiet-Ends env _ dp s2 (assess_data-Quiet e notes o.initial_entropy dp) h2)
                λ _ s3 h3. finish_main-Ends env dp s3 h3
