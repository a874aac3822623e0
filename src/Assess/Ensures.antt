-- ===== src/Assess/Ensures.antt =====
-- Statements about code of a try block: internal/nist/wrapper/wrapper.cpp.
use nist_sp_800_90b_go.Result.{EntropyResult}
use nist_sp_800_90b_go.Assess.{
  Outcome, value, thrown, thrown_other, Try, after, ◌>>=◌, ◌>>◌, call, write, return,
}
use nist_sp_800_90b_go.Base.{Bool, true, false, if◌then◌else◌}

-- `Q` holds of what code of a try block returns and leaves, unless it throws.
unfoldable pub Ensures :
    {F A : Type 0} → (A → EntropyResult F → Type 0) → Outcome A × EntropyResult F → Type 0
Ensures Q (value a, r) = Q a r
Ensures Q (thrown m, r) = Unit
Ensures Q (thrown_other, r) = Unit

pub Ensures-bind :
    {F A B : Type 0} (P : A → EntropyResult F → Type 0) (Q : B → EntropyResult F → Type 0)
    (m : Try F A) (k : A → Try F B) (r : EntropyResult F)
    → Ensures P (m r)
    → ((a : A) (r' : EntropyResult F) → P a r' → Ensures Q (k a r'))
    → Ensures Q ((m >>= k) r)
unfolding ◌>>=◌ after Ensures
Ensures-bind {F} {A} P Q m k r h next = go (m r) h
  where
    go : (p : Outcome A × EntropyResult F) → Ensures P p → Ensures Q (after k p)
    go (value a, r') h = next a r' h
    go (thrown m, r') h = tt
    go (thrown_other, r') h = tt

-- The same, and it does not throw.
unfoldable pub Gives :
    {F A : Type 0} → (A → EntropyResult F → Type 0) → Outcome A × EntropyResult F → Type 0
Gives Q (value a, r) = Q a r
Gives Q (thrown m, r) = ⊥
Gives Q (thrown_other, r) = ⊥

pub Gives-bind :
    {F A B : Type 0} (P : A → EntropyResult F → Type 0) (Q : B → EntropyResult F → Type 0)
    (m : Try F A) (k : A → Try F B) (r : EntropyResult F)
    → Gives P (m r)
    → ((a : A) (r' : EntropyResult F) → P a r' → Gives Q (k a r'))
    → Gives Q ((m >>= k) r)
unfolding ◌>>=◌ after Gives
Gives-bind {F} {A} P Q m k r h next = go (m r) h
  where
    go : (p : Outcome A × EntropyResult F) → Gives P p → Gives Q (after k p)
    go (value a, r') h = next a r' h
    go (thrown m, r') h = absurd h
    go (thrown_other, r') h = absurd h

pub Ensures-call :
    {F A B : Type 0} (Q : B → EntropyResult F → Type 0) (o : Outcome A) (k : A → Try F B)
    (r : EntropyResult F)
    → ((a : A) → Ensures Q (k a r))
    → Ensures Q ((call o >>= k) r)
unfolding ◌>>=◌ after Ensures
Ensures-call Q (value a) k r next = next a
Ensures-call Q (thrown m) k r next = tt
Ensures-call Q thrown_other k r next = tt

pub Ensures-write :
    {F B : Type 0} (Q : B → EntropyResult F → Type 0) (f : EntropyResult F → EntropyResult F)
    (k : Try F B) (r : EntropyResult F)
    → Ensures Q (k (f r))
    → Ensures Q ((write f >> k) r)
unfolding ◌>>=◌ ◌>>◌ after Ensures
Ensures-write Q f k r h = h

pub Ensures-optional :
    {F A B : Type 0} (Q : B → EntropyResult F → Type 0) (c : Bool) (o : Outcome A) (a : A)
    (k : A → Try F B) (r : EntropyResult F)
    → ((a : A) → Ensures Q (k a r))
    → Ensures Q (((if c then call o else return a) >>= k) r)
unfolding ◌>>=◌ after Ensures
Ensures-optional Q true (value x) a k r next = next x
Ensures-optional Q true (thrown m) a k r next = tt
Ensures-optional Q true thrown_other a k r next = tt
Ensures-optional Q false o a k r next = next a
