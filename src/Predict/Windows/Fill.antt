-- ===== src/Predict/Windows/Fill.antt =====
-- The loops of multi_mcw_test (internal/nist/cpp/non_iid/multi_mcw_test.h) over its windows.
use nist_sp_800_90b_go.Base.{
  ℕ, zero, suc, ◌+◌, ◌-◌, ◌≤◌, ◌<◌, ◌≡◌, ◌∙◌, ap, subst, min, false, List, [], ◌∷◌, arith, ltb, leb,
  lt→ltb, get_or, length-replicate, All, All-map_each, dec_lt, dec_le, le→leb,
}
use nist_sp_800_90b_go.Files.Tables.{get_or-replicate}
use nist_sp_800_90b_go.Predict.Windows.{
  Window, Scores, empty_window, empty_windows, count_first, slide, fill_window, fill_windows,
  slide_window, predict_sample, predict_samples,
}
use nist_sp_800_90b_go.Predict.Windows.Counted.{seen, IsWindow}
use nist_sp_800_90b_go.Predict.Windows.Slide.{count_first-IsWindow}
use nist_sp_800_90b_go.Predict.Windows.Mode.{slide-IsWindow}

pub All-each :
    (P Q : Window → Type 0) (vs : List Window) → ((w : Window) → P w → Q w) → All P vs → All Q vs
All-each P Q [] h p = tt
All-each P Q (v ∷ vs) h (p, ps) = (h v p, All-each P Q vs h ps)

-- The window sizes are within these bounds.
abbrev Fits : ℕ → Type 0
Fits n = (63 ≤ n) × (n ≤ 4095)

-- A window before sample `i`, while it is filled.
abbrev IsFilling : (samples : List ℕ) (k i : ℕ) → Window → Type 0
IsFilling samples k i w = Fits w.size × IsWindow samples k (min i w.size) 0 w

-- A full window before sample `i`; it starts at the first sample until it is passed.
abbrev pub IsCurrent : (samples : List ℕ) (k i : ℕ) → Window → Type 0
IsCurrent samples k i w = (0 < w.size) × IsWindow samples k w.size (i - w.size) w

module _ (samples : List ℕ) (k : ℕ) (low : (i : ℕ) → get_or samples i 0 < k) where
  fill_window-IsFilling :
      (i : ℕ) (w : Window)
      → IsFilling samples k i w
      → IsFilling samples k (i + 1) (fill_window samples k i w)
  unfolding fill_window count_first
  fill_window-IsFilling i w (pos, h) = elim (dec_lt i w.size) [
    | yes lt ↦ rw (lt→ltb i w.size lt) (
      pos,
      subst (λ n. IsWindow samples k n 0 (count_first (get_or samples i 0) i w)) {x = i + 1}
          (omega arith)
          (count_first-IsWindow samples k i w (low i)
            (subst (λ n. IsWindow samples k n 0 w) {x = min i w.size} {y = i} (omega arith) h)),
    )
    | no ge ↦
        let e : ltb i w.size ≡ false = ground arith in
        rw e (pos, subst (λ n. IsWindow samples k n 0 w) {x = min i w.size} (omega arith) h)
  ]

  slide_window-IsCurrent :
      (i : ℕ) (w : Window)
      → IsCurrent samples k i w
      → IsCurrent samples k (i + 1) (slide_window samples k i w)
  unfolding slide_window slide
  slide_window-IsCurrent i w (pos, h) = elim (dec_le w.size i) [
    | yes le ↦
        let a = i - w.size in
        let at : a + w.size ≡ i = omega (arith, le) in
        rw (le→leb w.size i le) (
          pos,
          subst
              (λ b.
                IsWindow samples k w.size b (slide k (get_or samples a 0) (get_or samples i 0) i w))
              {x = a + 1} (omega (arith, le))
              (subst
                (λ j.
                  IsWindow samples k w.size (a + 1)
                    (slide k (get_or samples a 0) (get_or samples j 0) j w))
                {x = a + w.size} at
                (slide-IsWindow samples k a w (low a) (low (a + w.size)) pos h)),
        )
    | no gt ↦
        let e : leb w.size i ≡ false = ground arith in
        rw e (pos, subst (λ b. IsWindow samples k w.size b w) {x = i - w.size} (omega arith) h)
  ]

  fill_windows-IsFilling :
      (n i m : ℕ) (vs : List Window)
      → n + i ≡ m
      → All (IsFilling samples k i) vs
      → All (IsFilling samples k m) (fill_windows samples k n i vs)
  unfolding fill_windows
  fill_windows-IsFilling zero i m vs e h =
      subst (λ j. All (IsFilling samples k j) vs) {x = i} (omega arith) h
  fill_windows-IsFilling (suc n) i m vs e h = fill_windows-IsFilling n (i + 1) m _ (omega arith) (
      All-map_each (IsFilling samples k i) (IsFilling samples k (i + 1)) (fill_window samples k i)
        vs (fill_window-IsFilling i) h)

  empty_window-IsFilling : (n : ℕ) → Fits n → IsFilling samples k 0 (empty_window k n)
  unfolding empty_window seen
  empty_window-IsFilling n pos = (
    pos,
    (
      length-replicate k 0,
      λ v lt.
          get_or-replicate k v ∙ ap (λ m. seen samples v m 0) {x = 0} {y = min 0 n} (omega arith),
      (
        length-replicate k 0,
        λ v lt. omega (arith, get_or-replicate k v),
        λ p lt. absurd (omega arith),
      ),
      (
        omega (arith, low 0),
        get_or-replicate k 0,
        λ v lt. (omega (arith, get_or-replicate k v), λ e. omega (arith, get_or-replicate k v)),
      ),
    ),
  )

  -- The windows are full before the predictions.
  pub fill_windows-IsCurrent :
      All (IsCurrent samples k 63) (fill_windows samples k 4095 0 (empty_windows samples k))
  unfolding empty_windows
  fill_windows-IsCurrent =
      let start = λ (n : ℕ) (f : Fits n). empty_window-IsFilling n f in
      All-each (IsFilling samples k 4095) (IsCurrent samples k 63) _ full (
        fill_windows-IsFilling 4095 0 4095 (empty_windows samples k) (omega arith) (
          start 63 (omega arith, omega arith),
          (
            start 255 (omega arith, omega arith),
            (start 1023 (omega arith, omega arith), (start 4095 (omega arith, omega arith), tt)),
          ),
        ))
    where
      full : (w : Window) → IsFilling samples k 4095 w → IsCurrent samples k 63 w
      full w (f, h) = (
        omega (arith, f.0),
        subst (λ a. IsWindow samples k w.size a w) {x = 0} {y = 63 - w.size} (omega (arith, f.0))
            (subst (λ n. IsWindow samples k n 0 w) {x = min 4095 w.size} (omega (arith, f.1)) h),
      )

  -- And after `n` of them.
  pub predict_samples-IsCurrent :
      (n i m : ℕ) (st : List Window × Scores)
      → n + i ≡ m
      → All (IsCurrent samples k i) st.0
      → All (IsCurrent samples k m) (predict_samples samples k n i st).0
  unfolding predict_samples predict_sample
  predict_samples-IsCurrent zero i m (vs, s) e h =
      subst (λ j. All (IsCurrent samples k j) vs) {x = i} (omega arith) h
  predict_samples-IsCurrent (suc n) i m (vs, s) e h =
      predict_samples-IsCurrent n (i + 1) m _ (omega arith) (
        All-map_each (IsCurrent samples k i) (IsCurrent samples k (i + 1))
          (slide_window samples k i) vs (slide_window-IsCurrent i) h)
