-- ===== src/Assess/NonIid/Bounded.antt =====
-- The fixed-size arrays of the result, internal/nist/wrapper/wrapper.h, after
-- calculate_non_iid_entropy of internal/nist/wrapper/wrapper.cpp.
use nist_sp_800_90b_go.Base.{ℕ, Bool, true, false, Option, List, ◌≤◌, ℤ}
use nist_sp_800_90b_go.Double.{Double}
use nist_sp_800_90b_go.Result.{Text, add_estimator}
use nist_sp_800_90b_go.Result.Bounds.{add_estimator-IsBounded, set_results-IsBounded}
use nist_sp_800_90b_go.Symbols.{Data}
use nist_sp_800_90b_go.Assess.Memory.{reached_width, calculate_non_iid_entropy-IsClean}
use nist_sp_800_90b_go.Symbols.Prepare.{Allocator}
use nist_sp_800_90b_go.Assess.{
  Outcome, value, thrown, thrown_other, Try, after, ◌>>=◌, ◌>>◌, Engine,
}
use nist_sp_800_90b_go.Assess.Bounded.{
  IsSafe, >>=_IsSafe, ReturnsWithin, IsClean-ReturnsWithin, assess-Within,
}
use nist_sp_800_90b_go.Assess.NonIid.{
  Entropies, Stage, always, checked, both, report, report_pair, non_iid_body,
  calculate_non_iid_entropy,
}

module _ (d : Double) where
  open d use {F}

  always-IsSafe :
      (x : Bool) (a : Outcome F) (y : Bool) (b : Outcome F) (h : Entropies F)
      → IsSafe (always d x a y b h)
  unfolding always ◌>>=◌ after
  always-IsSafe true (thrown m) y b h r s = s
  always-IsSafe true thrown_other y b h r s = s
  always-IsSafe true (value u) false b h r s = s
  always-IsSafe true (value u) true (thrown m) h r s = s
  always-IsSafe true (value u) true thrown_other h r s = s
  always-IsSafe true (value u) true (value v) h r s = s
  always-IsSafe false a false b h r s = s
  always-IsSafe false a true (thrown m) h r s = s
  always-IsSafe false a true thrown_other h r s = s
  always-IsSafe false a true (value v) h r s = s

  checked-IsSafe :
      (x : Bool) (a : Outcome F) (y : Bool) (b : Outcome F) (h : Entropies F)
      → IsSafe (checked d x a y b h)
  unfolding checked ◌>>=◌ after
  checked-IsSafe true (thrown m) y b h r s = s
  checked-IsSafe true thrown_other y b h r s = s
  checked-IsSafe true (value u) false b h r s = s
  checked-IsSafe true (value u) true (thrown m) h r s = s
  checked-IsSafe true (value u) true thrown_other h r s = s
  checked-IsSafe true (value u) true (value v) h r s = s
  checked-IsSafe false a false b h r s = s
  checked-IsSafe false a true (thrown m) h r s = s
  checked-IsSafe false a true thrown_other h r s = s
  checked-IsSafe false a true (value v) h r s = s

  both-IsSafe :
      (x : Bool) (a : Outcome (F × F)) (y : Bool) (b : Outcome (F × F)) (h : Entropies F)
      → IsSafe (both d x a y b h)
  unfolding both ◌>>=◌ after
  both-IsSafe true (thrown m) y b h r s = s
  both-IsSafe true thrown_other y b h r s = s
  both-IsSafe true (value u) false b h r s = s
  both-IsSafe true (value u) true (thrown m) h r s = s
  both-IsSafe true (value u) true thrown_other h r s = s
  both-IsSafe true (value u) true (value v) h r s = s
  both-IsSafe false a false b h r s = s
  both-IsSafe false a true (thrown m) h r s = s
  both-IsSafe false a true thrown_other h r s = s
  both-IsSafe false a true (value v) h r s = s

  report-IsSafe :
      (name : Text) (passed : F → Bool) (m : Try F (Stage d))
      → IsSafe m
      → IsSafe (report d name passed m)
  unfolding report ◌>>◌ ◌>>=◌ after
  report-IsSafe name passed m s =
      >>=_IsSafe m _ s (λ t r b. add_estimator-IsBounded d r name t.1 (passed t.1) b)

  report_pair-IsSafe :
      (name name' : Text) (passed : F → Bool) (m : Try F (Entropies F × F × F))
      → IsSafe m
      → IsSafe (report_pair d name name' passed m)
  unfolding report_pair ◌>>◌ ◌>>=◌ after
  report_pair-IsSafe name name' passed m s = >>=_IsSafe m _ s (λ t r b.
      add_estimator-IsBounded d (add_estimator d r name t.1 (passed t.1)) name' t.2 (passed t.2)
        (add_estimator-IsBounded d r name t.1 (passed t.1) b))

  non_iid_body-IsSafe :
      (e : Engine d) (initial : Bool) (dp : Data) → IsSafe (non_iid_body d e initial dp)
  unfolding non_iid_body
  non_iid_body-IsSafe e initial dp =
      >>=_IsSafe _ _ (report-IsSafe _ _ _ (always-IsSafe _ _ _ _ _)) λ h1.
        >>=_IsSafe _ _ (report-IsSafe _ _ _ (always-IsSafe _ _ _ _ _)) λ h2.
          >>=_IsSafe _ _ (report-IsSafe _ _ _ (always-IsSafe _ _ _ _ _)) λ h3.
            >>=_IsSafe _ _ (report-IsSafe _ _ _ (checked-IsSafe _ _ _ _ _)) λ h4.
              >>=_IsSafe _ _ (report_pair-IsSafe _ _ _ _ (both-IsSafe _ _ _ _ _)) λ h5.
                >>=_IsSafe _ _ (report-IsSafe _ _ _ (checked-IsSafe _ _ _ _ _)) λ h6.
                  >>=_IsSafe _ _ (report-IsSafe _ _ _ (checked-IsSafe _ _ _ _ _)) λ h7.
                    >>=_IsSafe _ _ (report-IsSafe _ _ _ (checked-IsSafe _ _ _ _ _)) λ h8.
                      >>=_IsSafe _ _ (report-IsSafe _ _ _ (checked-IsSafe _ _ _ _ _))
                        λ h9. λ r b. set_results-IsBounded d _ _ _ _ r b

  -- When the result can be allocated and the word size that prepare_data works with is at most 8,
  -- then whatever the input, the data buffers that can be allocated and the estimators:
  -- calculate_non_iid_entropy returns a result whose count is at most MAX_ESTIMATORS and is the number
  -- of entries written, and whose names and message leave a byte of their arrays for the closing
  -- zero.
  pub calculate_non_iid_entropy-Within :
      (al : Allocator) (e : Engine d) (samples : Option (List ℕ)) (bits : ℤ) (initial : Bool)
      → reached_width samples bits ≤ 8
      → ReturnsWithin d (calculate_non_iid_entropy d true al e samples bits initial)
  unfolding calculate_non_iid_entropy
  calculate_non_iid_entropy-Within al e samples bits initial narrow =
      IsClean-ReturnsWithin d _
        (calculate_non_iid_entropy-IsClean d true al e samples bits initial narrow)
        (assess-Within d true al (non_iid_body d e initial) samples bits
          (non_iid_body-IsSafe e initial))
