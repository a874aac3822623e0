-- ===== src/Tools/Ends.antt =====
-- How internal/nist/cpp/iid_main.cpp and internal/nist/cpp/non_iid_main.cpp end: the exit status, the
-- stream and the buffers.
use nist_sp_800_90b_go.Base.{
  ◌≡◌, ◌⊎◌, inl, inr, Bool, true, false, some, List, [], ◌∷◌, if◌then◌else◌, Bool-cases,
}
use nist_sp_800_90b_go.Result.{Text}
use nist_sp_800_90b_go.Symbols.{Data}
use nist_sp_800_90b_go.Symbols.Prepare.{empty, free_data}
use nist_sp_800_90b_go.Files.{Reading}
use nist_sp_800_90b_go.Files.Effects.{next, Ends, Ends-then, after, ◌>>=◌, ◌>>◌}
use nist_sp_800_90b_go.Files.Resources.{bitstring_held, Released, AllZero}
use nist_sp_800_90b_go.Tools.{
  Flag, opt_i, opt_c, opt_a, opt_t, opt_v, opt_q, opt_l, opt_o, opt_other, Environment, Options,
  Ending, exit, terminate, Tool, print_usage, change_options, change_run, report_failure,
  write_json, fail_usage,
}
use nist_sp_800_90b_go.Tools.Flags.{take_subset, take_option, take_options}

-- The file named by the first argument gives, for the subset of the options, at least one byte, and
-- only zero bytes.
abbrev pub ZeroInput : Environment → Options → Type 0
ZeroInput env o =
    (path : Text) × (rest : List Text) × (env.arguments ≡ path ∷ rest)
    × AllZero (env.files path) o.subset_index o.subset_size

-- Nothing is held, or nothing but the bit string, and then `z`.
abbrev pub Gone : (z : Type 0) → Reading → Type 0
Gone z s = (s.file ≡ false) × ((s.heap ≡ empty) ⊎ ((s.heap ≡ bitstring_held) × z))

-- An exit leaves nothing held but perhaps the bit string of an all-zero input; an uncaught exception
-- ends the process as it is.
unfoldable pub Exits : {Case : Type 0} → Environment → Ending → Tool Case → Type 0
Exits env (exit status) s = Gone (ZeroInput env s.options) s.io
Exits env terminate s = s.io.file ≡ false

module _ {Case : Type 0} where
  -- No stream is open and no buffer is allocated.
  abbrev pub Idle : {A : Type 0} → A → Tool Case → Type 0
  Idle _ s = Released s.io

  -- Data with at least two symbols, which free_data frees wholly.
  abbrev pub Holds : Data → Tool Case → Type 0
  Holds dp s = (s.io.file ≡ false) × (free_data dp s.io.heap ≡ some empty)

module _ {Case : Type 0} (env : Environment) where
  pub change_options-Ends :
      (f : _) (s : Tool Case) → Released s.io → Ends Idle (Exits env) (change_options f s)
  unfolding change_options Ends
  change_options-Ends f s r = r

  pub fail_usage-Ends :
      {A : Type 0} (p : A → Tool Case → Type 0) (message : Text) (s : Tool Case)
      → Released s.io
      → Ends p (Exits env) (fail_usage message s)
  unfolding fail_usage report_failure change_run write_json print_usage ◌>>=◌ ◌>>◌ after Ends Exits
  fail_usage-Ends p message s (c, e) = elim (Bool-cases s.options.json_output) [
    | inl j ↦ rw j (c, inl e)
    | inr j ↦ rw j (c, inl e)
  ]

  pub print_usage-Ends :
      {A : Type 0} (p : A → Tool Case → Type 0) (s : Tool Case)
      → Released s.io
      → Ends p (Exits env) (print_usage s)
  unfolding print_usage Ends Exits
  print_usage-Ends p s (c, e) = (c, inl e)

  unless-Ends :
      (b : Bool) (message : Text) (s : Tool Case)
      → Released s.io
      → Ends Idle (Exits env) ((if b then fail_usage message else (λ s'. (next tt, s'))) s)
  unfolding Ends
  unless-Ends true message s r = fail_usage-Ends Idle message s r
  unless-Ends false message s r = r

  take_subset-Ends :
      (optarg : Text) (s : Tool Case)
      → Released s.io
      → Ends Idle (Exits env) (take_subset env optarg s)
  unfolding take_subset
  take_subset-Ends optarg s r =
      Ends-then Idle Idle (Exits env) _ _ _ (unless-Ends _ _ s r) λ _ s1 r1.
        Ends-then Idle Idle (Exits env) _ _ _ (change_options-Ends _ s1 r1) λ _ s2 r2.
          Ends-then Idle Idle (Exits env) _ _ _ (unless-Ends _ _ s2 r2)
            λ _ s3 r3. change_options-Ends _ s3 r3

  take_option-Ends :
      (f : Flag) (s : Tool Case) → Released s.io → Ends Idle (Exits env) (take_option env f s)
  unfolding take_option
  take_option-Ends opt_i s r = change_options-Ends _ s r
  take_option-Ends opt_c s r = change_options-Ends _ s r
  take_option-Ends opt_a s r = change_options-Ends _ s r
  take_option-Ends opt_t s r = change_options-Ends _ s r
  take_option-Ends opt_v s r = change_options-Ends _ s r
  take_option-Ends opt_q s r = change_options-Ends _ s r
  take_option-Ends (opt_l optarg) s r = take_subset-Ends optarg s r
  take_option-Ends (opt_o optarg) s r = change_options-Ends _ s r
  take_option-Ends opt_other s r = print_usage-Ends Idle s r

  pub take_options-Ends :
      (fs : List Flag) (s : Tool Case)
      → Released s.io
      → Ends Idle (Exits env) (take_options env fs s)
  unfolding take_options Ends
  take_options-Ends [] s r = r
  take_options-Ends (f ∷ fs) s r =
      Ends-then Idle Idle (Exits env) _ _ _ (take_option-Ends f s r)
        λ _ s1 r1. take_options-Ends fs s1 r1
