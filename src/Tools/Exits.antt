-- ===== src/Tools/Exits.antt =====
-- internal/nist/cpp/iid_main.cpp and internal/nist/cpp/non_iid_main.cpp, main, from the start of the
-- program to each of its ends.
use nist_sp_800_90b_go.Base.{ℕ, Bool, some, ◌≡◌, refl, ◌∙◌, ap}
use nist_sp_800_90b_go.Double.{Double}
use nist_sp_800_90b_go.Result.{Text}
use nist_sp_800_90b_go.Symbols.{Data}
use nist_sp_800_90b_go.Assess.{Engine}
use nist_sp_800_90b_go.Symbols.Prepare.{free_data}
use nist_sp_800_90b_go.Files.{Reading}
use nist_sp_800_90b_go.Files.Effects.{
  Step, next, stop, undefined, Ends, Ends-step, Ends-then, Ends-return, ◌>>=◌,
}
use nist_sp_800_90b_go.Files.Resources.{Released, GivesBytes}
use nist_sp_800_90b_go.Tools.{Environment, Ending, terminate, Tool, Main, start_tool}
use nist_sp_800_90b_go.Tools.Input.{get_options}
use nist_sp_800_90b_go.Tools.Ends.{Exits, Idle, Holds, take_options-Ends}
use nist_sp_800_90b_go.Tools.Steps.{
  version-Ends, check_arguments-Ends, settle_verbose-Ends, set_filename-Ends, set_hash-Ends,
  take_bits-Ends, Named, Asked, IsRead, read_input-Ends, refuse_single-Ends, truncate-Holds,
  Finished, finish_main-Ends,
}
use nist_sp_800_90b_go.Tools.Quiet.{
  Quiet, Quiet-return, Quiet-call, Quiet-push_case, Quiet-bind, Quiet-if,
}
use nist_sp_800_90b_go.Tools.Iid

-- The SHA-256 routine gives a hash of every file.
abbrev pub Hashes : Environment → Type 0
Hashes env = (path : Text) → (h : Text) × (env.sha256 path ≡ some h)

-- fread gives bytes, from every file.
abbrev pub HasBytes : Environment → Type 0
HasBytes env = (path : Text) → GivesBytes (env.files path)

pub get_options-Ends :
    {Case : Type 0} (env : Environment) (p : Tool Case → Type 0) (s : Tool Case)
    → p s
    → Ends (λ _ s'. p s') (Exits env) (get_options s)
unfolding get_options Ends
get_options-Ends env p s h = h

kept-Ends :
    {Case A : Type 0} (env : Environment) (dp : Data) (s : Tool Case)
    (o : Step Ending A × Tool Case)
    → Holds dp s
    → Ends
        (λ (_ : A) (s' : Tool Case). s'.io ≡ s.io)
        (λ (e : Ending) (s' : Tool Case). (e ≡ terminate) × (s'.io ≡ s.io))
        o
    → Ends (λ _ s'. Holds dp s') (Exits env) o
unfolding Ends Exits
kept-Ends env dp s (next a, s') (c, f) e =
    (ap (λ (io : Reading). io.file) e ∙ c, ap (λ (io : Reading). free_data dp io.heap) e ∙ f)
kept-Ends env dp s (stop x, s') (c, f) (t, e) = rw t (ap (λ (io : Reading). io.file) e ∙ c)
kept-Ends env dp s (undefined, s') h e = absurd e

pub begun : (Case : Type 0) (env : Environment) → Released (start_tool {Case = Case} env).io
unfolding start_tool
begun Case env = (refl, refl)

-- Estimators leave the data held.
pub Quiet-Ends :
    {Case A : Type 0} (env : Environment) (m : Main Case A) (dp : Data) (s : Tool Case)
    → Quiet Case m
    → Holds dp s
    → Ends (λ _ s'. Holds dp s') (Exits env) (m s)
unfolding Quiet
Quiet-Ends env m dp s q h = kept-Ends env dp s (m s) h (q s)

module _ (d : Double) (env : Environment) (hashes : Hashes env) (files : HasBytes env) where
  open d use {F}

  iid_front-Ends :
      (s : Tool (Iid.IidTestCase F)) → Released s.io → Ends Holds (Exits env) (Iid.front d env s)
  unfolding Iid.front
  iid_front-Ends s r = Ends-then Idle Holds (Exits env) _ _ s (version-Ends env _ s r) λ _ s1 r1.
      Ends-then Idle Holds (Exits env) _ _ s1 (take_options-Ends env env.flags s1 r1) λ _ s2 r2.
        Ends-step (Named env.arguments) Holds (Exits env) _ _ s2
          (check_arguments-Ends env env.arguments s2 r2)
          λ path s3 (r3, (rest, named)).
            Ends-then Idle Holds (Exits env) _ _ s3 (settle_verbose-Ends env s3 r3) λ _ s4 r4.
              Ends-then Idle Holds (Exits env) _ _ s4 (set_filename-Ends env path s4 r4) λ _ s5 r5.
                Ends-step Asked Holds (Exits env) _ _ s5 (take_bits-Ends env _ _ s5 r5)
                  λ w s6 (r6, small).
                    Ends-then Idle Holds (Exits env) _ _ s6
                      (set_hash-Ends env (env.sha256 path) s6 (hashes path) r6)
                      λ _ s7 r7.
                        Ends-step (IsRead env) Holds (Exits env) _ _ s7
                          (read_input-Ends env path rest w s7 named (files path) r7 small)
                          λ dp s8 r8.
                            Ends-then (λ _ s'. Holds dp s') Holds (Exits env) _ _ s8
                              (refuse_single-Ends env dp s8 r8)
                              λ _ s9 r9.
                                Ends-step (λ _ s'. Holds dp s') Holds (Exits env) _ _ s9
                                  (get_options-Ends env (Holds dp) s9 r9)
                                  λ o s10 r10.
                                    Ends-return Holds (Exits env) _ s10
                                      (truncate-Holds env o.all_bits dp s10 r10)

  assess_data-Quiet :
      (e : Engine d) (below : Iid.NegativeSize d) (verbose : ℕ) (initial : Bool) (dp : Data)
      → Quiet (Iid.IidTestCase F) (Iid.assess_data d e below verbose initial dp)
  unfolding Iid.assess_data
  assess_data-Quiet e below verbose initial dp = bind _ _ (Quiet-return _ _) λ size.
      bind _ _ (Quiet-call _ _) λ stats.
        bind _ _ (Quiet-if _ _ _ _ (Quiet-call _ _) (Quiet-return _ _)) λ a.
          bind _ _ (Quiet-if _ _ _ _ (Quiet-call _ _) (Quiet-return _ _)) λ b.
            bind _ _ (Quiet-call _ _) λ chi.
              bind _ _ (Quiet-call _ _) λ lrs. bind _ _ (Quiet-call _ _) λ perm. Quiet-push_case _ _
    where
      bind :
          {A B : Type 0} (m : Main (Iid.IidTestCase F) A) (k : A → Main (Iid.IidTestCase F) B)
          → Quiet (Iid.IidTestCase F) m
          → ((a : A) → Quiet (Iid.IidTestCase F) (k a))
          → Quiet (Iid.IidTestCase F) (m >>= k)
      bind = Quiet-bind (Iid.IidTestCase F)

  -- When every file's hash can be computed and fread gives bytes, iid_main has no undefined
  -- behaviour of memory or stream, and every way out of it leaves no open stream: returning gives
  -- status 0, error level 0 and no buffer held; exiting leaves no buffer, but possibly the bit string
  -- when the subset that the options give of the file named by the first argument has at least one
  -- byte and only zero bytes; and an exception of an estimator ends the process.
  pub iid_main-Ends :
      (e : Engine d) (below : Iid.NegativeSize d)
      → Ends Finished (Exits env) (Iid.main d env e below (start_tool env))
  unfolding Iid.main
  iid_main-Ends e below =
      Ends-step Holds Finished (Exits env) _ _ (start_tool env)
        (iid_front-Ends (start_tool env) (begun _ env))
        λ dp s1 h1.
          Ends-step (λ _ s'. Holds dp s') Finished (Exits env) _ _ s1
            (get_options-Ends env (Holds dp) s1 h1)
            λ o s2 h2.
              Ends-then (λ _ s'. Holds dp s') Finished (Exits env) _ _ s2
                (Quiet-Ends env _ dp s2 (assess_data-Quiet e below o.verbose o.initial_entropy dp)
                  h2)
                λ _ s3 h3. finish_main-Ends env dp s3 h3
