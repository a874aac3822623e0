-- ===== src/Files/Effects.antt =====
-- Effects of the C++ programs of internal/nist/cpp: a step of a program on a state goes on with a
-- value, ends the function or the program early, or is undefined behaviour.
pub data Step (E A : Type 0) : Type 0 where
  next : A → Step E A
  stop : E → Step E A
  undefined : Step E A

abbrev pub Io : Type 0 → Type 0 → Type 0 → Type 0
Io S E A = S → Step E A × S

unfoldable pub after : {S E A B : Type 0} → (A → Io S E B) → Step E A × S → Step E B × S
after k (next a, s) = k a s
after k (stop e, s) = (stop e, s)
after k (undefined, s) = (undefined, s)

infixl 5 ◌>>=◌ ◌>>◌
unfoldable pub ◌>>=◌ : {S E A B : Type 0} → Io S E A → (A → Io S E B) → Io S E B
unfolding after
◌>>=◌ m k s = after k (m s)

unfoldable pub ◌>>◌ : {S E A B : Type 0} → Io S E A → Io S E B → Io S E B
unfolding ◌>>=◌
m >> k = m >>= λ _. k

abbrev pub return : {S E A : Type 0} → A → Io S E A
return a s = (next a, s)

-- Whatever way a step ends, what holds then: `p` of a value and the state, `q` where the function
-- has ended.
unfoldable pub Ends : {S E A : Type 0} → (A → S → Type 0) → (E → S → Type 0) → Step E A × S → Type 0
Ends p q (next a, s) = p a s
Ends p q (stop e, s) = q e s
Ends p q (undefined, s) = ⊥

pub Ends-bind :
    {S E A B : Type 0} (p : A → S → Type 0) (p' : B → S → Type 0) (q : E → S → Type 0)
    (m : Step E A × S) (k : A → Io S E B)
    → Ends p q m
    → ((a : A) (s : S) → p a s → Ends p' q (k a s))
    → Ends p' q (after k m)
unfolding Ends after
Ends-bind p p' q (next a, s) k h f = f a s h
Ends-bind p p' q (stop e, s) k h f = h
Ends-bind p p' q (undefined, s) k h f = absurd h

-- The same for the two operators.
pub Ends-step :
    {S E A B : Type 0} (p : A → S → Type 0) (p' : B → S → Type 0) (q : E → S → Type 0)
    (m : Io S E A) (k : A → Io S E B) (s : S)
    → Ends p q (m s)
    → ((a : A) (s' : S) → p a s' → Ends p' q (k a s'))
    → Ends p' q ((m >>= k) s)
unfolding ◌>>=◌
Ends-step p p' q m k s h f = Ends-bind p p' q (m s) k h f

pub Ends-then :
    {S E A B : Type 0} (p : A → S → Type 0) (p' : B → S → Type 0) (q : E → S → Type 0)
    (m : Io S E A) (k : Io S E B) (s : S)
    → Ends p q (m s)
    → ((a : A) (s' : S) → p a s' → Ends p' q (k s'))
    → Ends p' q ((m >> k) s)
unfolding ◌>>◌ ◌>>=◌
Ends-then p p' q m k s h f = Ends-bind p p' q (m s) (λ _. k) h f

pub Ends-return :
    {S E A : Type 0} (p : A → S → Type 0) (q : E → S → Type 0) (a : A) (s : S)
    → p a s
    → Ends p q (return a s)
unfolding Ends
Ends-return p q a s h = h
