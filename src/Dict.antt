-- ===== src/Dict.antt =====
-- Python's `dict` with string keys, in insertion order: an assignment to a present key keeps its
-- place, a new key goes to the end. The model of every dict of the program.
use anp_edge_swarm.Base.{
  String, ◌≡◌, ◌∙◌, ap, ◌||◌, refl, Bool, true, false, Option, none, some, List, [], ◌∷◌, arith,
  ◌==◌, eq_iff, eq_refl, if◌then◌else◌, Bool-cases, All, All-if_cons, inl, inr,
}

abbrev pub Dict {ℓ} : Type ℓ → Type ℓ
Dict V = List (String × V)

module _ {ℓ} {V : Type ℓ} where
  -- d.get(k)
  unfoldable pub get : String → Dict V → Option V
  get k [] = none
  get k ((j, v) ∷ d) = if j == k then some v else get k d

  -- d[k] = v
  unfoldable pub put : String → V → Dict V → Dict V
  put k v [] = (k, v) ∷ []
  put k v ((j, w) ∷ d) = if j == k then (j, v) ∷ d else (j, w) ∷ put k v d

  -- d.pop(k, None), del d[k]
  unfoldable pub remove : String → Dict V → Dict V
  remove k [] = []
  remove k ((j, w) ∷ d) = let rest = remove k d in if j == k then rest else (j, w) ∷ rest

  -- {k: v for k, v in d.items() if p(k, v)}
  unfoldable pub keep_items : (String → V → Bool) → Dict V → Dict V
  keep_items p [] = []
  keep_items p ((j, w) ∷ d) = let rest = keep_items p d in if p j w then (j, w) ∷ rest else rest

  unfoldable pub keys : Dict V → List String
  keys [] = []
  keys ((j, w) ∷ d) = j ∷ keys d

  unfoldable pub values : Dict V → List V
  values [] = []
  values ((j, w) ∷ d) = w ∷ values d

  -- k in d
  abbrev pub is_some : Option V → Bool
  is_some none = false
  is_some (some v) = true

  unfoldable pub has : String → Dict V → Bool
  has k d = is_some (get k d)

  -- d.get(k, default)
  abbrev pub or_default : V → Option V → V
  or_default w none = w
  or_default w (some v) = v

  pub get-put :
      (k j : String) (v : V) (d : Dict V) → get j (put k v d) ≡ (if k == j then some v else get j d)
  unfolding get put
  get-put k j v [] = refl
  get-put k j v ((i, w) ∷ d) = ground (arith, eq_iff k j, eq_iff i k, eq_iff i j, get-put k j v d)

  pub get-put_self : (k : String) (v : V) (d : Dict V) → get k (put k v d) ≡ some v
  get-put_self k v d = simp (get-put, eq_refl)

  pub has-put : (k j : String) (v : V) (d : Dict V) → has j (put k v d) ≡ (k == j) || has j d
  unfolding has
  has-put k j v d = elim (Bool-cases (k == j)) [
    | inl e ↦ rw e (ap is_some (get-put k j v d ∙ ap (λ b. if b then some v else get j d) e))
    | inr e ↦ rw e (ap is_some (get-put k j v d ∙ ap (λ b. if b then some v else get j d) e))
  ]

  -- A key stays, and a new one is there.
  pub has-put_kept : (k j : String) (v : V) (d : Dict V) → has j d ≡ true → has j (put k v d) ≡ true
  has-put_kept k j v d h = has-put k j v d ∙ ap (λ b. (k == j) || b) h ∙ or_true (k == j)
    where
      or_true : (b : Bool) → b || true ≡ true
      or_true true = refl
      or_true false = refl

  pub has-put_self : (k : String) (v : V) (d : Dict V) → has k (put k v d) ≡ true
  has-put_self k v d = has-put k k v d ∙ ap (λ b. b || has k d) (eq_refl k)

  pub get-put_new :
      (k j : String) (w v : V) (d : Dict V)
      → has k d ≡ false
      → get j d ≡ some v
      → get j (put k w d) ≡ some v
  unfolding has
  get-put_new k j w v d h g = elim (Bool-cases (k == j)) [
    | inl e ↦
        let same : k ≡ j = (eq_iff k j).0 e in
        let there : is_some (get k d) ≡ true = ap (λ i. is_some (get i d)) same ∙ ap is_some g in
        absurd (cc)
    | inr e ↦ get-put k j w d ∙ rw e g
  ]

  pub get-remove :
      (k j : String) (d : Dict V) → get j (remove k d) ≡ (if k == j then none else get j d)
  unfolding get remove
  get-remove k j [] = ground arith
  get-remove k j ((i, w) ∷ d) = ground (arith, eq_iff k j, eq_iff i k, eq_iff i j, get-remove k j d)

  pub get-keep_items :
      (p : String → V → Bool) (k : String) (v : V) (d : Dict V)
      → get k d ≡ some v
      → p k v ≡ true
      → get k (keep_items p d) ≡ some v
  unfolding get keep_items
  get-keep_items p k v [] h t = absurd (cc)
  get-keep_items p k v ((j, w) ∷ d) h t = elim (Bool-cases (j == k)) [
    | inl e ↦
        let same : j ≡ k = (eq_iff j k).0 e in
        let val : w ≡ v = ground arith in
        let kept : p j w ≡ true = rw (same, val) t in rw kept (rw e (rw val refl))
    | inr e ↦ ground (arith, get-keep_items p k v d (rw e at h) t)
  ]

  pub get-keep_items-none :
      (p : String → V → Bool) (k : String) (d : Dict V)
      → get k d ≡ none
      → get k (keep_items p d) ≡ none
  unfolding get keep_items
  get-keep_items-none p k [] h = refl
  get-keep_items-none p k ((j, w) ∷ d) h = ground (arith, get-keep_items-none p k d)

  pub keep_items_ext :
      (p q : String → V → Bool) (d : Dict V)
      → ((k : String) (v : V) → p k v ≡ q k v)
      → keep_items p d ≡ keep_items q d
  unfolding keep_items
  keep_items_ext p q [] h = refl
  keep_items_ext p q ((j, w) ∷ d) h = rw (h j w, keep_items_ext p q d h) refl

  pub get-empty : (k : String) → get k [] ≡ none
  unfolding get
  get-empty k = refl

  -- `P` holds of every entry.
  abbrev pub AllItems {κ} : (String → V → Type κ) → Dict V → Type κ
  AllItems P d = All (λ (j, v). P j v) d

module _ {ℓ κ} {V : Type ℓ} (P : String → V → Type κ) where
  pub AllItems-put :
      (k : String) (v : V) (d : Dict V) → P k v → AllItems P d → AllItems P (put k v d)
  unfolding put
  AllItems-put k v [] p h = (p, tt)
  AllItems-put k v ((j, w) ∷ d) p h = elim (Bool-cases (j == k)) [
    | inl e ↦ rw e (let same : j ≡ k = (eq_iff j k).0 e in (rw same p, h.1))
    | inr e ↦ rw e (h.0, AllItems-put k v d p h.1)
  ]

  pub AllItems-remove : (k : String) (d : Dict V) → AllItems P d → AllItems P (remove k d)
  unfolding remove
  AllItems-remove k [] h = tt
  AllItems-remove k ((j, w) ∷ d) h = elim (Bool-cases (j == k)) [
    | inl e ↦ rw e (AllItems-remove k d h.1)
    | inr e ↦ rw e (h.0, AllItems-remove k d h.1)
  ]

  pub AllItems-get : (k : String) (v : V) (d : Dict V) → AllItems P d → get k d ≡ some v → P k v
  unfolding get
  AllItems-get k v [] h e = absurd (cc)
  AllItems-get k v ((j, w) ∷ d) h e = elim (Bool-cases (j == k)) [
    | inl t ↦
        let same : j ≡ k = (eq_iff j k).0 t in
        let e' : some w ≡ some v = rw t at e in let val : w ≡ v = cc in rw (← same, ← val) h.0
    | inr t ↦ AllItems-get k v d h.1 (rw t at e)
  ]

pub AllItems-keep_items {ℓ κ} :
    {V : Type ℓ} (P : String → V → Type κ) (p : String → V → Bool) (d : Dict V)
    → AllItems P d
    → AllItems P (keep_items p d)
unfolding keep_items
AllItems-keep_items P p [] h = tt
AllItems-keep_items P p ((j, w) ∷ d) h =
    All-if_cons (λ (i, v). P i v) (p j w) (j, w) (keep_items p d) (λ e. h.0)
      (AllItems-keep_items P p d h.1)

-- What is kept of a dict passes the test.
pub keep_items-test {ℓ} :
    {V : Type ℓ} (p : String → V → Bool) (d : Dict V)
    → AllItems (λ j v. p j v ≡ true) (keep_items p d)
unfolding keep_items
keep_items-test p [] = tt
keep_items-test p ((j, w) ∷ d) =
    All-if_cons (λ (i, v). p i v ≡ true) (p j w) (j, w) (keep_items p d) (λ e. e)
      (keep_items-test p d)

pub AllItems-map {ℓ κ μ} :
    {V : Type ℓ} {P : String → V → Type κ} {Q : String → V → Type μ}
    → ((k : String) (v : V) → P k v → Q k v)
    → (d : Dict V) → AllItems P d
    → AllItems Q d
AllItems-map f [] h = tt
AllItems-map f ((k, v) ∷ d) h = (f k v h.0, AllItems-map f d h.1)
