-- ===== src/Tools/Quiet.antt =====
-- The estimators' part of internal/nist/cpp/iid_main.cpp and internal/nist/cpp/non_iid_main.cpp, which
-- leaves the stream, the buffers and the test run's fields as they are.
use nist_sp_800_90b_go.Base.{Bool, true, false, if◌then◌else◌, ◌≡◌, refl, ◌∙◌}
use nist_sp_800_90b_go.Files.Effects.{
  Step, next, stop, undefined, Ends, Ends-step, ◌>>=◌, ◌>>◌, return,
}
use nist_sp_800_90b_go.Files.{Reading}
use nist_sp_800_90b_go.Assess.{Outcome, value, thrown, thrown_other}
use nist_sp_800_90b_go.Tools.{Ending, terminate, Tool, Main, call}
use nist_sp_800_90b_go.Tools.Input.{push_case}

-- It goes on, or ends on an exception; the stream and the buffers stay.
unfoldable pub Quiet : (Case : Type 0) {A : Type 0} → Main Case A → Type 0
Quiet Case m =
    (s : Tool Case) → Ends (λ _ s'. s'.io ≡ s.io) (λ e s'. (e ≡ terminate) × (s'.io ≡ s.io)) (m s)

module _ (Case : Type 0) where
  pub Quiet-return : {A : Type 0} (a : A) → Quiet Case (return a)
  unfolding Quiet Ends
  Quiet-return a s = refl

  pub Quiet-call : {A : Type 0} (o : Outcome A) → Quiet Case (call o)
  unfolding Quiet Ends call
  Quiet-call (value a) s = refl
  Quiet-call (thrown m) s = (refl, refl)
  Quiet-call thrown_other s = (refl, refl)

  pub Quiet-push_case : (c : Case) → Quiet Case (push_case c)
  unfolding Quiet Ends push_case
  Quiet-push_case c s = refl

  abbrev From : {A : Type 0} → Reading → Step Ending A × Tool Case → Type 0
  From io = Ends (λ _ s'. s'.io ≡ io) (λ e s'. (e ≡ terminate) × (s'.io ≡ io))

  moved :
      {A : Type 0} (io io' : Reading) (o : Step Ending A × Tool Case)
      → io' ≡ io
      → From io' o
      → From io o
  unfolding Ends
  moved io io' (next b, t) e p = p ∙ e
  moved io io' (stop x, t) e (p, q) = (p, q ∙ e)
  moved io io' (undefined, t) e p = p

  pub Quiet-bind :
      {A B : Type 0} (m : Main Case A) (k : A → Main Case B)
      → Quiet Case m
      → ((a : A) → Quiet Case (k a))
      → Quiet Case (m >>= k)
  unfolding Quiet
  Quiet-bind m k h f s =
      Ends-step (λ _ s'. s'.io ≡ s.io) (λ _ s'. s'.io ≡ s.io)
        (λ e s'. (e ≡ terminate) × (s'.io ≡ s.io)) m k s (h s)
        λ a s' e. moved s.io s'.io (k a s') e (f a s')

  pub Quiet-then :
      {A B : Type 0} (m : Main Case A) (k : Main Case B)
      → Quiet Case m
      → Quiet Case k
      → Quiet Case (m >> k)
  unfolding ◌>>◌
  Quiet-then m k h f = Quiet-bind m (λ _. k) h (λ _. f)

  pub Quiet-if :
      {A : Type 0} (b : Bool) (m k : Main Case A)
      → Quiet Case m
      → Quiet Case k
      → Quiet Case (if b then m else k)
  Quiet-if true m k h f = h
  Quiet-if false m k h f = f
