-- ===== src/Tools/Transpose/Written.antt =====
-- What the loops of internal/nist/cpp/transpose_main.cpp write.
use native.Mathlib.Nat.{mul-le-mul}
use nist_sp_800_90b_go.Base.{
  ℕ, zero, suc, ◌+◌, ◌*◌, ◌<◌, ◌≤◌, ◌≡◌, refl, sym, ◌∙◌, ap, true, List, [], ◌∷◌, ◌++◌, arith,
  length, get_elem?, get_or, get_elem?-eq-get_or, get_or,
}
use nist_sp_800_90b_go.Files.Effects.{next, after, ◌>>=◌, ◌>>◌}
use nist_sp_800_90b_go.Tools.Transpose.{
  Output, Copier, Copying, write_byte, write_column, write_columns,
}
use nist_sp_800_90b_go.Tools.Transpose.Matrix.{
  column, columns_from, columns_from-get, transposed, transposed-transposed,
}

pub append_assoc : (xs ys zs : List ℕ) → (xs ++ ys) ++ zs ≡ xs ++ (ys ++ zs)
append_assoc [] ys zs = refl
append_assoc (x ∷ xs) ys zs = ap (λ l. x ∷ l) (append_assoc xs ys zs)

pub append_nil : (xs : List ℕ) → xs ++ [] ≡ xs
append_nil [] = refl
append_nil (x ∷ xs) = ap (λ l. x ∷ l) (append_nil xs)

abbrev with_output : Copier → List ℕ → Copier
with_output s l = record s { output = l }

-- Every one-byte write succeeds.
abbrev pub Writes : Output → Type 0
Writes out = (n : ℕ) → out.writes n ≡ true

step :
    {A B : Type 0} (m : Copying A) (k : Copying B) (s t : Copier) (a : A)
    → m s ≡ (next a, t)
    → (m >> k) s ≡ k t
unfolding ◌>>◌ ◌>>=◌ after
step m k s t a e = ap (after (λ _. k)) e

module _ (out : Output) (ok : Writes out) (raw : List ℕ) where
  write_byte-writes :
      (i : ℕ) (s : Copier)
      → i < length raw
      → write_byte out (get_elem? raw i) s
        ≡ (next tt, with_output s (s.output ++ (get_or raw i 0 ∷ [])))
  unfolding write_byte
  write_byte-writes i s h = rw (get_elem?-eq-get_or raw i 0 h, ok (length s.output)) refl

  write_column-column :
      (c n j i : ℕ) (s : Copier)
      → ((k : ℕ) → k < n → c * (j + k) + i < length raw)
      → write_column out raw c n j i s ≡ (next tt, with_output s (s.output ++ column raw c n j i))
  unfolding write_column column
  write_column-column c zero j i s h =
      ap (λ l. (next tt, with_output s l)) (sym (append_nil s.output))
  write_column-column c (suc n) j i s h =
      step _ _ s _ tt (write_byte-writes (c * j + i) s (first n j h))
      ∙ write_column-column c n (j + 1) i _ (later n j h)
      ∙ ap (λ l. (next tt, with_output s l)) (append_assoc s.output _ _)
    where
      first :
          (n j : ℕ) → ((k : ℕ) → k < suc n → c * (j + k) + i < length raw) → c * j + i < length raw
      first n j h =
          let e : c * (j + 0) ≡ c * j = ap (λ (t : ℕ). c * t) (omega arith) in
          omega (arith, h 0 (omega arith), e)

      later :
          (n j : ℕ)
          → ((k : ℕ) → k < suc n → c * (j + k) + i < length raw)
          → (k : ℕ) → k < n
          → c * (j + 1 + k) + i < length raw
      later n j h k l =
          let e : c * (j + suc k) ≡ c * (j + 1 + k) = ap (λ (t : ℕ). c * t) (omega arith) in
          omega (arith, h (suc k) (omega arith), e)

  write_columns-columns :
      (r c n i : ℕ) (s : Copier)
      → i + n ≤ c
      → length raw ≡ r * c
      → write_columns out raw r c n i s
        ≡ (next tt, with_output s (s.output ++ columns_from raw r c n i))
  unfolding write_columns columns_from
  write_columns-columns r c zero i s h e =
      ap (λ l. (next tt, with_output s l)) (sym (append_nil s.output))
  write_columns-columns r c (suc n) i s h e =
      step _ _ s _ tt (write_column-column c r 0 i s inside)
      ∙ write_columns-columns r c n (i + 1) _ (omega arith) e
      ∙ ap (λ l. (next tt, with_output s l)) (append_assoc s.output _ _)
    where
      inside : (k : ℕ) → k < r → c * (0 + k) + i < length raw
      inside k l =
          let rows : c * suc k ≤ c * r = mul-le-mul {n₁ = c} (omega arith) (omega arith) in
          let next_row : c * suc k ≡ c * k + c = omega arith in
          let same : c * (0 + k) ≡ c * k = ap (λ (t : ℕ). c * t) (omega arith) in omega arith

  -- For a matrix of r rows and c columns, when every write succeeds, the loops end normally and
  -- append exactly the transpose to what has been written; entry j of a row i of the output, which
  -- has c rows and r columns, is entry i of row j of the input, and transposing again gives the
  -- input back.
  pub write_columns-transposed :
      (r c : ℕ) (s : Copier)
      → length raw ≡ r * c
      → (write_columns out raw r c c 0 s
          ≡ (next tt, with_output s (s.output ++ transposed r c raw)))
        × ((i j : ℕ)
            → i < c
            → j < r
            → get_or (transposed r c raw) (i * r + j) 0 ≡ get_or raw (c * j + i) 0)
        × (transposed c r (transposed r c raw) ≡ raw)
  unfolding transposed
  write_columns-transposed r c s e = (
    write_columns-columns r c c 0 s (omega arith) e,
    λ i j h l.
        columns_from-get raw r c c 0 i j h l
        ∙ ap (λ (t : ℕ). get_or raw (c * j + t) 0) (omega arith),
    transposed-transposed r c raw e,
  )
