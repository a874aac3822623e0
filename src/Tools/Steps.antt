-- ===== src/Tools/Steps.antt =====
-- The steps of internal/nist/cpp/iid_main.cpp and internal/nist/cpp/non_iid_main.cpp around the
-- estimators: what they leave open and allocated.
use native.Mathlib.Nat.{pow-zero}
use nist_sp_800_90b_go.Base.{
  ℕ, zero, suc, ◌^◌, ◌≤◌, ◌≡◌, refl, ◌∙◌, ap, inl, inr, Bool, true, false, not, ◌&&◌, Option, some,
  List, [], ◌∷◌, arith, leb, ltb, ◌==◌, if◌then◌else◌, ℤ, pos, negsuc, Bool-cases, ◌||◌, ==_iff,
  sym, subst,
}
use nist_sp_800_90b_go.Result.{Text}
use nist_sp_800_90b_go.Symbols.{Data}
use nist_sp_800_90b_go.Symbols.Prepare.{Heap, empty, free_data}
use nist_sp_800_90b_go.Files.{TestRun, Reading}
use nist_sp_800_90b_go.Files.Effects.{
  Step, next, stop, undefined, Ends, Ends-then, Ends-return, after, ◌>>=◌, ◌>>◌, return,
}
use nist_sp_800_90b_go.Files.Resources.{
  bitstring_held, Released, Prepares, Left, AllZero, GivesBytes, read_file_subset-Ends,
}
use nist_sp_800_90b_go.Tools.{
  Environment, Options, Tool, print_usage, exit_with, change_run, report_failure, write_json,
}
use nist_sp_800_90b_go.Tools.Input.{
  set_hash, set_filename, check_arguments, settle_verbose, take_bits, accept_bits, in_one_to_eight,
  when_read, read_input, set_heap, free_input, refuse_single, truncate, finish_main,
}
use nist_sp_800_90b_go.Tools.Ends.{
  ZeroInput, Gone, Exits, Idle, Holds, change_options-Ends, fail_usage-Ends, print_usage-Ends,
}

-- What free_data leaves of the data read.
left : (dp : Data) → Heap
left dp = if dp.word_size == 0 then bitstring_held else empty

left-Gone :
    (z : Type 0) (dp : Data) (io : Reading)
    → (dp.word_size ≡ 0 → z)
    → io.file ≡ false
    → io.heap ≡ left dp
    → Gone z io
unfolding left
left-Gone z dp io no_bits c e = elim (Bool-cases (dp.word_size == 0)) [
  | inl n ↦ (c, inr (e ∙ rw n refl, no_bits ((==_iff dp.word_size 0).0 n)))
  | inr n ↦ (c, inl (e ∙ rw n refl))
]

module _ {Case : Type 0} where
  -- The path is the first argument.
  abbrev pub Named : List Text → Text → Tool Case → Type 0
  Named l path s = Released s.io × ((rest : List Text) × (l ≡ path ∷ rest))

  -- A number of bits that read_file_subset can be asked for.
  abbrev pub Asked : ℕ → Tool Case → Type 0
  Asked w s = Released s.io × (w ≤ 8)

  -- The end of a program: status 0, error level 0, and nothing held.
  abbrev pub Finished : ℤ → Tool Case → Type 0
  Finished status s = (status ≡ pos 0) × (s.io.run.error_level ≡ pos 0) × Released s.io

module _ {Case : Type 0} (env : Environment) where
  pub version-Ends :
      (b : Bool) (s : Tool Case)
      → Released s.io
      → Ends Idle (Exits env) ((if b then exit_with (pos 0) else return tt) s)
  unfolding exit_with Ends Exits
  version-Ends true s (c, e) = (c, inl e)
  version-Ends false s r = r

  pub check_arguments-Ends :
      (l : List Text) (s : Tool Case)
      → Released s.io
      → Ends (Named l) (Exits env) (check_arguments l s)
  unfolding check_arguments Ends
  check_arguments-Ends [] s r = print_usage-Ends env (Named []) s r
  check_arguments-Ends (a ∷ []) s r = (r, ([], refl))
  check_arguments-Ends (a ∷ b ∷ []) s r = (r, (b ∷ [], refl))
  check_arguments-Ends (a ∷ b ∷ c ∷ l) s r = print_usage-Ends env (Named (a ∷ b ∷ c ∷ l)) s r

  pub settle_verbose-Ends :
      (s : Tool Case) → Released s.io → Ends Idle (Exits env) (settle_verbose s)
  unfolding settle_verbose
  settle_verbose-Ends s r = change_options-Ends env _ s r

  pub set_filename-Ends :
      (path : Text) (s : Tool Case) → Released s.io → Ends Idle (Exits env) (set_filename path s)
  unfolding set_filename change_run Ends
  set_filename-Ends path s r = r

  -- When the hash could be computed.
  pub set_hash-Ends :
      (o : Option Text) (s : Tool Case)
      → (h : Text) × (o ≡ some h)
      → Released s.io
      → Ends Idle (Exits env) (set_hash o s)
  unfolding set_hash change_run Ends
  set_hash-Ends o s (h, e) r = rw e r

  accept_bits-Ends :
      (message : Text) (bits : ℤ) (s : Tool Case)
      → Released s.io
      → Ends Asked (Exits env) (accept_bits message (in_one_to_eight bits) s)
  unfolding accept_bits in_one_to_eight Ends
  accept_bits-Ends message (pos n) s r = elim (Bool-cases (ltb n 1 || ltb 8 n)) [
    | inl out ↦ rw out (fail_usage-Ends env Asked message s r)
    | inr inside ↦ rw inside (r, ground (arith, inside))
  ]
  accept_bits-Ends message (negsuc n) s r = fail_usage-Ends env Asked message s r

  pub take_bits-Ends :
      (message : ℤ → Text) (l : List Text) (s : Tool Case)
      → Released s.io
      → Ends Asked (Exits env) (take_bits env message l s)
  unfolding take_bits Ends
  take_bits-Ends message [] s r = (r, omega arith)
  take_bits-Ends message (a ∷ l) s r = accept_bits-Ends (message (env.atoi a)) (env.atoi a) s r

  -- Data has been read; only that of an all-zero input has word size 0.
  abbrev pub IsRead : Data → Tool Case → Type 0
  IsRead dp s = Prepares (ZeroInput env s.options) dp s.io

  when_read-Ends :
      (z : Type 0) (o : Step (Unit {0}) Data × Reading) (s : Tool Case)
      → (z → ZeroInput env s.options)
      → Ends (Prepares z) Left o
      → Ends IsRead (Exits env) (when_read o s)
  unfolding when_read write_json print_usage ◌>>=◌ ◌>>◌ after Ends Exits
  when_read-Ends z (next dp, io) s named (c, few, f, no_bits) = (c, few, f, λ e. named (no_bits e))
  when_read-Ends z (stop e, io) s named (c, h) = elim (Bool-cases s.options.json_output) [
    | inl j ↦ rw j (c, inl h)
    | inr j ↦ rw j (c, inl h)
  ]
  when_read-Ends z (undefined, io) s named p = p

  pub read_input-Ends :
      (path : Text) (rest : List Text) (w : ℕ) (s : Tool Case)
      → env.arguments ≡ path ∷ rest
      → GivesBytes (env.files path)
      → Released s.io
      → w ≤ 8
      → Ends IsRead (Exits env) (read_input env path w s)
  unfolding read_input
  read_input-Ends path rest w s named bytes r small =
      let i = s.options.subset_index in
      let n = s.options.subset_size in
      when_read-Ends (AllZero (env.files path) i n) _ s (λ z. (path, rest, named, z))
        (read_file_subset-Ends (env.files path) env.memory w i n s.io bytes small r)

  -- The stream, the buffers, the fields of the test run and the options.
  abbrev IoIs : {A : Type 0} → Reading → Options → A → Tool Case → Type 0
  IoIs io o _ s = (s.io ≡ io) × (s.options ≡ o)

  write_json-Ends : (s : Tool Case) → Ends (IoIs s.io s.options) (Exits env) (write_json s)
  unfolding write_json Ends
  write_json-Ends s = elim (Bool-cases s.options.json_output) [
    | inl j ↦ rw j (refl, refl)
    | inr j ↦ rw j (refl, refl)
  ]

  change_run-Ends :
      (f : TestRun → TestRun) (s : Tool Case)
      → Ends (IoIs (record s.io { run = f s.io.run }) s.options) (Exits env) (change_run f s)
  unfolding change_run Ends
  change_run-Ends f s = (refl, refl)

  free_input-Ends :
      (dp : Data) (s : Tool Case) (h : Heap)
      → free_data dp s.io.heap ≡ some h
      → Ends (IoIs (record s.io { heap = h }) s.options) (Exits env) (free_input dp s)
  unfolding free_input set_heap Ends
  free_input-Ends dp s h e = rw e (refl, refl)

  exit_with-Ends :
      {A : Type 0} (p : A → Tool Case → Type 0) (status : ℤ) (s : Tool Case)
      → Gone (ZeroInput env s.options) s.io
      → Ends p (Exits env) (exit_with status s)
  unfolding exit_with Ends Exits
  exit_with-Ends p status s g = g

  single-Ends :
      (dp : Data) (message : Text) (s : Tool Case)
      → IsRead dp s
      → Ends
          (λ _ s'. Holds dp s')
          (Exits env)
          ((do
            report_failure message
            write_json
            free_input dp
            exit_with {A = Unit {0}} (negsuc 0))
            s)
  unfolding report_failure left
  single-Ends dp message s (c, few, f, no_bits) =
      let io1 : Reading = record s.io {
        run = record s.io.run { error_level = negsuc 0; error_msg = message };
      } in
      Ends-then (IoIs io1 s.options) (λ _ s'. Holds dp s') (Exits env) _ _ s (change_run-Ends _ s)
        λ _ s1 (e1, o1).
          Ends-then (IoIs s1.io s1.options) (λ _ s'. Holds dp s') (Exits env) _ _ s1
            (write_json-Ends s1)
            λ _ s2 (e2, o2).
              let held : free_data dp s2.io.heap ≡ some (left dp) =
                ap (λ (io : Reading). free_data dp io.heap) (e2 ∙ e1) ∙ f in
              Ends-then (IoIs (record s2.io { heap = left dp }) s2.options) (λ _ s'. Holds dp s')
                (Exits env) _ _ s2 (free_input-Ends dp s2 (left dp) held)
                λ _ s3 (e3, o3).
                  exit_with-Ends (λ _ s'. Holds dp s') (negsuc 0) s3
                    (left-Gone (ZeroInput env s3.options) dp s3.io
                      (λ z. subst (ZeroInput env) (sym (o3 ∙ o2 ∙ o1)) (no_bits z))
                      (ap (λ (io : Reading). io.file) e3
                        ∙ ap (λ (io : Reading). io.file) (e2 ∙ e1)
                        ∙ c)
                      (ap (λ (io : Reading). io.heap) e3))

  -- One symbol ends the program; with more the word size is not 0.
  pub refuse_single-Ends :
      (dp : Data) (s : Tool Case)
      → IsRead dp s
      → Ends (λ _ s'. Holds dp s') (Exits env) (refuse_single dp s)
  unfolding refuse_single
  refuse_single-Ends dp s p = elim (Bool-cases (leb dp.alph_size 1)) [
    | inl one ↦ rw one (single-Ends dp _ s p)
    | inr many ↦
        let n : (dp.word_size == 0) ≡ false = wide dp.word_size dp.alph_size many p.1 in
        rw many (kept n p)
  ]
    where
      wide : (w k : ℕ) → leb k 1 ≡ false → k ≤ 2 ^ w → (w == 0) ≡ false
      wide zero k m h = absurd (ground (arith, pow-zero 2))
      wide (suc w) k m h = ground arith

      kept :
          (dp.word_size == 0) ≡ false
          → IsRead dp s
          → Ends (λ _ s'. Holds dp s') (Exits env) (return {A = Unit {0}} tt s)
      kept n (c, few, f, no_bits) =
          Ends-return (λ _ s'. Holds dp s') (Exits env) tt s (c, f ∙ rw n refl)

  -- The truncation changes the length of the bit string only.
  pub truncate-Holds :
      (all_bits : Bool) (dp : Data) (s : Tool Case) → Holds dp s → Holds (truncate all_bits dp) s
  unfolding truncate free_data
  truncate-Holds all_bits dp s h = elim (Bool-cases (not all_bits && ltb 1000000 dp.blen)) [
    | inl t ↦ rw t h
    | inr k ↦ rw k h
  ]

  pub finish_main-Ends :
      (dp : Data) (s : Tool Case) → Holds dp s → Ends Finished (Exits env) (finish_main dp s)
  unfolding finish_main
  finish_main-Ends dp s (c, f) =
      let io1 : Reading = record s.io { run = record s.io.run { error_level = pos 0 } } in
      Ends-then (IoIs io1 s.options) Finished (Exits env) _ _ s (change_run-Ends _ s)
        λ _ s1 (e1, o1).
          Ends-then (IoIs s1.io s1.options) Finished (Exits env) _ _ s1 (write_json-Ends s1)
            λ _ s2 (e2, o2).
              let held : free_data dp s2.io.heap ≡ some empty =
                ap (λ (io : Reading). free_data dp io.heap) (e2 ∙ e1) ∙ f in
              Ends-then (IoIs (record s2.io { heap = empty }) s2.options) Finished (Exits env) _ _
                s2 (free_input-Ends dp s2 empty held)
                λ _ s3 (e3, o3). Ends-return Finished (Exits env) (pos 0) s3 (
                  let e = e3 ∙ ap (λ (io : Reading). record io { heap = empty }) (e2 ∙ e1) in
                  (
                    refl,
                    ap (λ (io : Reading). io.run.error_level) e,
                    (ap (λ (io : Reading). io.file) e ∙ c, ap (λ (io : Reading). io.heap) e),
                  ))
