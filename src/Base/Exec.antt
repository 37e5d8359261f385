-- ===== src/Base/Exec.antt =====
-- Methods that change an object and may raise: what was written before a raise stays written, so
-- the state comes back with the exception (`none`) too.
use mathlib.Core.Path.{◌≡◌, ap}
use mathlib.Core.Bool.{Bool, true, false}
use mathlib.Core.Option.{Option, none, some}
use mathlib.Core.List.{List, [], ◌∷◌}
use mathlib.Core.Logic.{inl, inr}
use anp_edge_swarm.Base.Tests.{if◌then◌else◌, Option-cases}

abbrev pub Exec : Type 0 → Type 0 → Type 0
Exec S A = S → Option A × S

module _ {S A : Type 0} where
  unfoldable pub pure : A → Exec S A
  pure a s = (some a, s)

  unfoldable pub gets : (S → A) → Exec S A
  gets f s = (some (f s), s)

unfoldable pub modify : {S : Type 0} → (S → S) → Exec S (Unit {0})
modify f s = (some tt, f s)

module _ {S A B : Type 0} where
  abbrev continue : Option A → (A → Exec S B) → Exec S B
  continue none f s = (none, s)
  continue (some a) f s = f a s

  infixl 5 ◌>>=◌ ◌>>◌
  -- opening this opens `pure`, `gets` and `modify` too
  unfoldable pub ◌>>=◌ : Exec S A → (A → Exec S B) → Exec S B
  unfolding pure gets modify
  ◌>>=◌ m f s = continue (m s).0 f (m s).1

  abbrev pub ◌>>◌ : Exec S A → Exec S B → Exec S B
  m >> n = m >>= λ _. n

-- `if x is not None: body(x)`
unfoldable pub if_some : {S A : Type 0} → (A → Exec S (Unit {0})) → Option A → Exec S (Unit {0})
unfolding pure
if_some body none = pure tt
if_some body (some a) = body a

-- `for x in xs: body(x)`
unfoldable pub for_each : {S A : Type 0} → (A → Exec S (Unit {0})) → List A → Exec S (Unit {0})
for_each body [] = pure tt
for_each body (x ∷ xs) = body x >> for_each body xs

-- `P` holds after `m`, raising or not, if it holds before.
pub record Keeps {S A : Type 0} (P : S → Type 0) (m : Exec S A) : Type 0 where
  pub at : (s : S) → P s → P (m s).1

module _ {S : Type 0} {P : S → Type 0} where
  pub Keeps-pure : {A : Type 0} (a : A) → Keeps P (pure a)
  unfolding pure
  Keeps-pure a = record { at = λ s h. h }

  pub Keeps-gets : {A : Type 0} (f : S → A) → Keeps P (gets f)
  unfolding gets
  Keeps-gets f = record { at = λ s h. h }

  pub Keeps-bind :
      {A B : Type 0} {m : Exec S A} {f : A → Exec S B}
      → Keeps P m
      → ((a : A) → Keeps P (f a))
      → Keeps P (m >>= f)
  unfolding ◌>>=◌
  Keeps-bind {m} {f} hm hf = record {
    at = λ s h. elim (Option-cases (m s).0) [
      | inl gone ↦ rw gone (hm.at s h)
      | inr (a, done) ↦ rw done ((hf a).at (m s).1 (hm.at s h))
    ];
  }

  pub Keeps-if_some :
      {A : Type 0} {body : A → Exec S (Unit {0})} (o : Option A)
      → ((a : A) → Keeps P (body a))
      → Keeps P (if_some body o)
  unfolding if_some
  Keeps-if_some none h = record { at = λ s p. p }
  Keeps-if_some (some a) h = h a

  pub Keeps-for_each :
      {A : Type 0} {body : A → Exec S (Unit {0})} (xs : List A)
      → ((x : A) → Keeps P (body x))
      → Keeps P (for_each body xs)
  unfolding for_each
  Keeps-for_each [] h = Keeps-pure tt
  Keeps-for_each (x ∷ xs) h = Keeps-bind (h x) (λ _. Keeps-for_each xs h)

  pub Keeps-if :
      {A : Type 0} {m n : Exec S A} (b : Bool)
      → Keeps P m
      → Keeps P n
      → Keeps P (if b then m else n)
  Keeps-if true h k = h
  Keeps-if false h k = k

pub ruleset keeps_rules =
    (Keeps-pure, Keeps-gets, Keeps-bind, Keeps-if_some, Keeps-for_each, Keeps-if)

-- A bind that returns went through both parts.
pub bind_returns :
    {S A B : Type 0} (m : Exec S A) (f : A → Exec S B) (s : S) {b : B}
    → ((m >>= f) s).0 ≡ some b
    → (a : A) × ((m s).0 ≡ some a) × ((m >>= f) s ≡ f a (m s).1)
unfolding ◌>>=◌
bind_returns m f s h = elim (Option-cases (m s).0) [
  | inl gone ↦ let e : none ≡ some _ = rw gone at h in absurd (cc)
  | inr (a, done) ↦ (a, done, rw done)
]

-- An exception in the first part is the end of the bind.
pub bind_raises :
    {S A B : Type 0} (m : Exec S A) (f : A → Exec S B) (s s' : S)
    → m s ≡ (none, s')
    → (m >>= f) s ≡ (none, s')
unfolding ◌>>=◌
bind_raises {S} {A} {B} m f s s' h = ap (λ (r : Option A × S). continue r.0 f r.1) h
