-- ===== src/Base/Sort.antt =====
-- Python's `sorted`: a stable sort, by an order given as a Boolean test, and `max(..., key=...)`.
use mathlib.Core.Path.{◌≡◌, refl}
use mathlib.Core.Logic.{inl, inr}
use mathlib.Core.Bool.{Bool, true, false}
use mathlib.Core.List.{List, [], ◌∷◌, Perm}
use mathlib.Core.List.Perm
use native.Mathlib.Omega.{arith}
use Prim.Native.Nat.{ℕ, zero, suc, ◌≤◌}
use anp_edge_swarm.Base.Tests.{leb, ltb, if◌then◌else◌, Bool-cases}
use anp_edge_swarm.Base.Lists.{All, All-map, All-take, All-drop, take, drop, length}

module _ {ℓ} {A : Type ℓ} (le : A → A → Bool) where
  -- Before the first element that `x` may stand before: equal elements keep their order.
  abbrev pub insert_sorted : A → List A → List A
  insert_sorted x [] = x ∷ []
  insert_sorted x (y ∷ ys) =
      let rest = insert_sorted x ys in if le x y then x ∷ y ∷ ys else y ∷ rest

  unfoldable pub sort : List A → List A
  sort [] = []
  sort (x ∷ xs) = insert_sorted x (sort xs)

  abbrev pub IsSorted : List A → Type 0
  IsSorted [] = Unit
  IsSorted (x ∷ xs) = All (λ y. le x y ≡ true) xs × IsSorted xs

  pub insert_sorted-perm : (x : A) (xs : List A) → Perm (insert_sorted x xs) (x ∷ xs)
  insert_sorted-perm x [] = Perm.rfl
  insert_sorted-perm x (y ∷ ys) = elim (Bool-cases (le x y)) [
    | inl e ↦ rw e Perm.rfl
    | inr e ↦ rw e (Perm.trans (Perm.cons y (insert_sorted-perm x ys)) (Perm.swap x y ys))
  ]

  pub sort-perm : (xs : List A) → Perm (sort xs) xs
  unfolding sort
  sort-perm [] = Perm.rfl
  sort-perm (x ∷ xs) = Perm.trans (insert_sorted-perm x (sort xs)) (Perm.cons x (sort-perm xs))

  insert_sorted-length : (x : A) (xs : List A) → length (insert_sorted x xs) ≡ suc (length xs)
  insert_sorted-length x [] = refl
  insert_sorted-length x (y ∷ ys) = ground (arith, insert_sorted-length x ys)

  pub sort-length : (xs : List A) → length (sort xs) ≡ length xs
  unfolding sort
  sort-length [] = refl
  sort-length (x ∷ xs) = omega (arith, insert_sorted-length x (sort xs), sort-length xs)

  pub take-IsSorted : (n : ℕ) (xs : List A) → IsSorted xs → IsSorted (take n xs)
  take-IsSorted zero xs h = tt
  take-IsSorted (suc n) [] h = tt
  take-IsSorted (suc n) (x ∷ xs) h =
      (All-take (λ y. le x y ≡ true) n xs h.0, take-IsSorted n xs h.1)

  pub insert_sorted-All {κ} :
      (P : A → Type κ) (x : A) (xs : List A) → P x → All P xs → All P (insert_sorted x xs)
  insert_sorted-All P x [] h k = (h, tt)
  insert_sorted-All P x (y ∷ ys) h k = elim (Bool-cases (le x y)) [
    | inl e ↦ rw e (h, k)
    | inr e ↦ rw e (k.0, insert_sorted-All P x ys h k.1)
  ]

  pub sort-All {κ} : (P : A → Type κ) (xs : List A) → All P xs → All P (sort xs)
  unfolding sort
  sort-All P [] h = tt
  sort-All P (x ∷ xs) h = insert_sorted-All P x (sort xs) h.0 (sort-All P xs h.1)

  pub take-drop-IsSorted :
      (n : ℕ) (xs : List A)
      → IsSorted xs
      → All (λ x. All (λ y. le x y ≡ true) (drop n xs)) (take n xs)
  take-drop-IsSorted zero xs h = tt
  take-drop-IsSorted (suc n) [] h = tt
  take-drop-IsSorted (suc n) (x ∷ xs) h =
      (All-drop (λ y. le x y ≡ true) n xs h.0, take-drop-IsSorted n xs h.1)

-- A Boolean test that is a total preorder.
pub record IsOrder {ℓ} {A : Type ℓ} (le : A → A → Bool) : Type ℓ where
  pub total : (x y : A) → le x y ≡ false → le y x ≡ true
  pub trans : (x y z : A) → le x y ≡ true → le y z ≡ true → le x z ≡ true

module _ {ℓ} {A : Type ℓ} (le : A → A → Bool) (o : IsOrder le) where
  insert_sorted-IsSorted :
      (x : A) (xs : List A) → IsSorted le xs → IsSorted le (insert_sorted le x xs)
  insert_sorted-IsSorted x [] h = (tt, tt)
  insert_sorted-IsSorted x (y ∷ ys) h = elim (Bool-cases (le x y)) [
    | inl e ↦ rw e ((e, All-map _ _ (λ z k. o.trans x y z e k) ys h.0), h)
    | inr e ↦ rw e (
      insert_sorted-All le (λ z. le y z ≡ true) x ys (o.total x y e) h.0,
      insert_sorted-IsSorted x ys h.1,
    )
  ]

  pub sort-IsSorted : (xs : List A) → IsSorted le (sort le xs)
  unfolding sort
  sort-IsSorted [] = tt
  sort-IsSorted (x ∷ xs) = insert_sorted-IsSorted x (sort le xs) (sort-IsSorted xs)

module _ {ℓ} {A : Type ℓ} (key : A → ℕ) where
  -- sorted(xs, key=key), and with reverse=True
  abbrev pub by_key : A → A → Bool
  by_key x y = leb (key x) (key y)

  abbrev pub by_key_reverse : A → A → Bool
  by_key_reverse x y = leb (key y) (key x)

  pub by_key-IsOrder : IsOrder by_key
  by_key-IsOrder = record { total = λ x y h. ground arith; trans = λ x y z h k. ground arith }

  pub by_key_reverse-IsOrder : IsOrder by_key_reverse
  by_key_reverse-IsOrder = record {
    total = λ x y h. ground arith;
    trans = λ x y z h k. ground arith;
  }

  -- max(x, *xs, key=key): the first element of the greatest key
  unfoldable pub max_by : A → List A → A
  max_by x [] = x
  max_by x (y ∷ ys) = max_by (if ltb (key x) (key y) then y else x) ys

  pub max_by-ge : (x : A) (xs : List A) → key x ≤ key (max_by x xs)
  unfolding max_by
  max_by-ge x [] = omega arith
  max_by-ge x (y ∷ ys) = elim (Bool-cases (ltb (key x) (key y))) [
    | inl e ↦ rw e (ground (arith, max_by-ge y ys))
    | inr e ↦ rw e (max_by-ge x ys)
  ]

  pub max_by_bound : (m : ℕ) (x : A) (xs : List A) → key (max_by x xs) ≤ m → All (λ y. key y ≤ m) xs
  unfolding max_by
  max_by_bound m x [] h = tt
  max_by_bound m x (y ∷ ys) h = elim (Bool-cases (ltb (key x) (key y))) [
    | inl e ↦
        let h' : key (max_by y ys) ≤ m = rw e at h in
        (ground (arith, max_by-ge y ys), max_by_bound m y ys h')
    | inr e ↦
        let h' : key (max_by x ys) ≤ m = rw e at h in
        (ground (arith, max_by-ge x ys), max_by_bound m x ys h')
  ]

  pub max_by-All {κ} : (P : A → Type κ) (x : A) (xs : List A) → P x → All P xs → P (max_by x xs)
  unfolding max_by
  max_by-All P x [] h k = h
  max_by-All P x (y ∷ ys) h k = elim (Bool-cases (ltb (key x) (key y))) [
    | inl e ↦ rw e (max_by-All P y ys k.0 k.1)
    | inr e ↦ rw e (max_by-All P x ys h k.1)
  ]
