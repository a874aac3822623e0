-- ===== src/Permutation/Runs.antt =====
-- num_directional_runs and len_directional_runs of
-- internal/nist/cpp/iid/permutation_tests.h, against sequences written run by run.
use nist_sp_800_90b_go.Base.{
  ℕ, zero, suc, ◌+◌, ◌≡◌, refl, ap, ◌∙◌, true, false, List, [], ◌∷◌, ◌++◌, arith, ltb,
  if◌then◌else◌, length, max, ℤ, pos, negsuc, replicate, ==_iff,
}
use nist_sp_800_90b_go.Permutation.{
  same, count_runs, num_directional_runs, longest_run, len_directional_runs,
}

-- A run is a value and how often it is repeated after its first occurrence.
abbrev pub Run : Type 0
Run = ℤ × ℕ

-- The sequence that the runs make.
unfoldable pub spread : List Run → List ℤ
spread [] = []
spread ((v, k) ∷ rs) = v ∷ replicate k v ++ spread rs

-- Runs beside each other have different values.
abbrev pub IsSeparated : List Run → Type 0
IsSeparated [] = Unit {0}
IsSeparated ((v, k) ∷ []) = Unit {0}
IsSeparated ((v, k) ∷ (w, l) ∷ rs) = (same w v ≡ false) × IsSeparated ((w, l) ∷ rs)

unfoldable pub longest : List Run → ℕ
longest [] = 0
longest ((v, k) ∷ rs) = max (suc k) (longest rs)

same_refl : (v : ℤ) → same v v ≡ true
same_refl (pos a) = (==_iff a a).1 refl
same_refl (negsuc a) = (==_iff a a).1 refl

count_runs-same :
    (x v : ℤ) (xs : List ℤ) (n : ℕ) → same x v ≡ true → count_runs v (x ∷ xs) n ≡ count_runs x xs n
unfolding count_runs
count_runs-same x v xs n e = ap (λ b. count_runs x xs (if b then n else suc n)) e

count_runs-change :
    (x v : ℤ) (xs : List ℤ) (n : ℕ)
    → same x v ≡ false
    → count_runs v (x ∷ xs) n ≡ count_runs x xs (suc n)
unfolding count_runs
count_runs-change x v xs n e = ap (λ b. count_runs x xs (if b then n else suc n)) e

longest_run-same :
    (x v : ℤ) (xs : List ℤ) (run m : ℕ)
    → same x v ≡ true
    → longest_run v (x ∷ xs) run m ≡ longest_run x xs (suc run) m
unfolding longest_run
longest_run-same x v xs run m e =
    ap
      (λ b.
        longest_run x xs (if b then suc run else 1)
          (if b then m else (if ltb m run then run else m)))
      e

longest_run-change :
    (x v : ℤ) (xs : List ℤ) (run m : ℕ)
    → same x v ≡ false
    → longest_run v (x ∷ xs) run m ≡ longest_run x xs 1 (if ltb m run then run else m)
unfolding longest_run
longest_run-change x v xs run m e =
    ap
      (λ b.
        longest_run x xs (if b then suc run else 1)
          (if b then m else (if ltb m run then run else m)))
      e

count_runs-run :
    (v : ℤ) (k : ℕ) (xs : List ℤ) (n : ℕ) → count_runs v (replicate k v ++ xs) n ≡ count_runs v xs n
unfolding count_runs
count_runs-run v zero xs n = refl
count_runs-run v (suc k) xs n =
    count_runs-same v v (replicate k v ++ xs) n (same_refl v) ∙ count_runs-run v k xs n

count_runs-spread :
    (v : ℤ) (k : ℕ) (rs : List Run) (n : ℕ)
    → IsSeparated ((v, k) ∷ rs)
    → count_runs v (spread rs) n ≡ n + length rs
unfolding count_runs spread
count_runs-spread v k [] n s = omega arith
count_runs-spread v k ((w, l) ∷ rs) n (ne, s) =
    count_runs-change w v (replicate l w ++ spread rs) n ne
    ∙ count_runs-run w l (spread rs) (suc n)
    ∙ count_runs-spread w l rs (suc n) s
    ∙ plus n (length rs)
  where
    plus : (a b : ℕ) → suc a + b ≡ a + suc b
    plus a b = omega arith

-- num_directional_runs of a sequence is the number of its runs.
pub num_directional_runs-spread :
    (rs : List Run) → IsSeparated rs → num_directional_runs (spread rs) ≡ length rs
unfolding num_directional_runs spread
num_directional_runs-spread [] s = refl
num_directional_runs-spread ((v, k) ∷ rs) s =
    count_runs-run v k (spread rs) 1 ∙ count_runs-spread v k rs 1 s ∙ omega arith

longest_run-run :
    (v : ℤ) (k : ℕ) (xs : List ℤ) (run m : ℕ)
    → longest_run v (replicate k v ++ xs) run m ≡ longest_run v xs (k + run) m
unfolding longest_run
longest_run-run v zero xs run m = ap (λ t. longest_run v xs t m) (e run)
  where
    e : (n : ℕ) → n ≡ 0 + n
    e n = omega arith
longest_run-run v (suc k) xs run m =
    longest_run-same v v (replicate k v ++ xs) run m (same_refl v)
    ∙ longest_run-run v k xs (suc run) m
    ∙ ap (λ t. longest_run v xs t m) (e k run)
  where
    e : (a b : ℕ) → a + suc b ≡ suc a + b
    e a b = omega arith

longest_run-spread :
    (v : ℤ) (k : ℕ) (rs : List Run) (run m : ℕ)
    → IsSeparated ((v, k) ∷ rs)
    → longest_run v (spread rs) run m ≡ max (max run m) (longest rs)
unfolding longest_run spread longest
longest_run-spread v k [] run m s = ground arith
longest_run-spread v k ((w, l) ∷ rs) run m (ne, s) =
    longest_run-change w v (replicate l w ++ spread rs) run m ne
    ∙ longest_run-run w l (spread rs) 1 _
    ∙ longest_run-spread w l rs (l + 1) _ s
    ∙ ground arith

-- len_directional_runs of a sequence that is not empty is the length of its longest run.
pub len_directional_runs-spread :
    (r : Run) (rs : List Run)
    → IsSeparated (r ∷ rs)
    → len_directional_runs (spread (r ∷ rs)) ≡ longest (r ∷ rs)
unfolding len_directional_runs spread longest
len_directional_runs-spread (v, k) rs s =
    longest_run-run v k (spread rs) 1 0 ∙ longest_run-spread v k rs (k + 1) 0 s ∙ ground arith
