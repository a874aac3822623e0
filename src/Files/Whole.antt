-- ===== src/Files/Whole.antt =====
-- internal/nist/cpp/shared/utils.h: read_file_subset with a subset size of 0, beside read_file.
use nist_sp_800_90b_go.Base.{
  ℕ, ◌≡◌, refl, Bool, none, some, true, false, List, ◌==◌, ltb, ◌*◌, length, Bool-cases, inl, inr,
}
use nist_sp_800_90b_go.Symbols.{Data, Marked}
use nist_sp_800_90b_go.Symbols.Prepare.{Allocator, free_symbols, free_rawsymbols}
use nist_sp_800_90b_go.Files.Effects.{Step, next, stop, undefined, after, ◌>>=◌, ◌>>◌}
use nist_sp_800_90b_go.Files.{
  TestRun, File, Reading, Reads, report_error, release, return_false, open_file, file_length,
  refuse_empty, load, establish_width, allocate_bitstring, given, block, finish_data, finish_coded,
  translate, read_file_subset, read_file,
}

-- The same outcome, stream and buffers, whatever is recorded in the test run.
unfoldable pub Alike :
    {A : Type 0} → Step (Unit {0}) A × Reading → Step (Unit {0}) A × Reading → Type 0
Alike m n = (m.0 ≡ n.0) × (m.1.file ≡ n.1.file) × (m.1.heap ≡ n.1.heap)

Alike-bind :
    {A B : Type 0} (m : Reads A) (k l : A → Reads B) (s : Reading)
    → ((a : A) (s' : Reading) → Alike (k a s') (l a s'))
    → Alike ((m >>= k) s) ((m >>= l) s)
unfolding ◌>>=◌ after Alike
Alike-bind m k l s h = go (m s)
  where
    go : (o : Step (Unit {0}) _ × Reading) → Alike (after k o) (after l o)
    go (next a, s') = h a s'
    go (stop e, s') = (refl, refl, refl)
    go (undefined, s') = (refl, refl, refl)

give_up : Reads Data
give_up = do release free_symbols; release free_rawsymbols; return_false

give_up-Alike : (s : Reading) (r : TestRun) → Alike (give_up s) (give_up (record s { run = r }))
unfolding give_up Alike release return_false free_symbols free_rawsymbols ◌>>=◌ ◌>>◌ after
give_up-Alike s r = elim (Bool-cases s.heap.symbols) [
  | inl one ↦ elim (Bool-cases s.heap.rawsymbols) [
    | inl two ↦ rw (one, two) (refl, refl, refl)
    | inr two ↦ rw (one, two) (refl, refl, refl)
  ]
  | inr one ↦ rw one (refl, refl, refl)
]

finish_coded-Alike :
    (al : Allocator) (w : ℕ) (xs : List ℕ) (m : Marked) (o : _) (s : Reading)
    → Alike (finish_coded al false w xs m o s) (finish_coded al true w xs m o s)
unfolding finish_coded Alike finish_data give_up allocate_bitstring report_error release
    return_false ◌>>=◌ ◌>>◌ after
finish_coded-Alike al w xs m none s = (refl, refl, refl)
finish_coded-Alike al w xs m (some (table, count)) s = elim (Bool-cases (w == 1)) [
  | inl one ↦ rw one (refl, refl, refl)
  | inr many ↦ elim (Bool-cases (given al.bsymbols (length xs * w))) [
    | inl given_bits ↦ rw (many, given_bits) (refl, refl, refl)
    | inr denied ↦ rw (many, denied) (give_up-Alike s _)
  ]
]

translate-Alike :
    (al : Allocator) (w : ℕ) (xs : List ℕ) (s : Reading)
    → Alike (translate al false w xs s) (translate al true w xs s)
unfolding translate Alike
translate-Alike al w xs s = elim (Bool-cases (ltb w 31)) [
  | inl narrow ↦ rw narrow (finish_coded-Alike al w xs _ _ s)
  | inr wide ↦ rw wide (refl, refl, refl)
]

-- Both functions for the whole file.
whole : File → Allocator → (reports : Bool) → (word_size : ℕ) → Reads Data
whole f al reports w = open_file f >>= λ _. file_length f >>= λ len. refuse_empty len >>= λ _.
    load f al 0 len >>= λ xs. establish_width w xs >>= λ w'. translate al reports w' xs

whole-Alike :
    (f : File) (al : Allocator) (w : ℕ) (s : Reading)
    → Alike (whole f al false w s) (whole f al true w s)
unfolding whole
whole-Alike f al w s = Alike-bind _ _ _ s λ _ s1. Alike-bind _ _ _ s1 λ len s2.
    Alike-bind _ _ _ s2
      λ _ s3. Alike-bind _ _ _ s3 λ xs s4. Alike-bind _ _ _ s4 λ w' s5. translate-Alike al w' xs s5

-- With a subset size of 0, read_file_subset has the same outcome as read_file, with the same data,
-- the same stream state and the same buffers, for every subset index.
pub read_file_subset-read_file :
    (f : File) (al : Allocator) (w index : ℕ) (s : Reading)
    → Alike (read_file_subset f al w index 0 s) (read_file f al w s)
unfolding read_file_subset read_file whole block ◌>>=◌ ◌>>◌ Alike
read_file_subset-read_file f al w index s = whole-Alike f al w s
