-- ===== src/Db/Agent/Interface.antt =====
-- db/adapters/base.py: what an adapter promises of `save`, and the JSON files' keeping it.
use anp_edge_swarm.Base.{
  ℕ, suc, String, ◌==◌, eq_iff, eq_refl, ◌≡◌, ◌∙◌, refl, sym, ap, subst, Bool, true, false, not,
  some, List, [], ◌∷◌, ◌++◌, keep, keep-append, take, Bool-cases, inl, inr, arith,
}
use mathlib.Core.List.{append-nil}
use anp_edge_swarm.Base.Sort.{sort}
use anp_edge_swarm.Base.Json.{Json, json_eq}
use anp_edge_swarm.Dict
use anp_edge_swarm.Dict.{Dict, or_default, get-put, get-put_self}
use anp_edge_swarm.Db.JsonAdapter
use anp_edge_swarm.Db.JsonAdapter.{
  Row, Tables, load, field_is, completed, set_default, not_earlier, apply_filters,
}
use anp_edge_swarm.Db.JsonAdapter.RoundTrip.{fetch-save, load-put, completed-record_id}
use anp_edge_swarm.Db.Agent.{Adapter}

abbrev pub by_id : String → Dict Json
by_id id = ("record_id", Json.str id) ∷ []

-- `found` is one row with the fields of `record_in`, as far as the table has a place for them.
abbrev pub IsOne : (stores : String → Bool) → Row → List Row → Type 0
IsOne stores record_in found =
    (r : Row) × (found ≡ r ∷ [])
    × ((key : String) (v : Json)
        → Dict.get key record_in ≡ some v
        → stores key ≡ true
        → Dict.get key r ≡ some v)

-- "Upsert record into table", read by the record's id. `stores` tells which fields a table has a
-- place for.
pub record IsAdapter {T : Type 0} (A : Adapter T) (stores : (table key : String) → Bool)
    : Type 0 where
  pub fetch_save :
      (now fresh table id : String) (record_in : Row) (n : ℕ) (t : T)
      → Dict.get "record_id" record_in ≡ some (Json.str id)
      → IsOne
          (stores table)
          record_in
          (A.fetch table (by_id id) (suc n) (A.save now fresh table record_in t).1)
  pub fetch_save_other :
      (now fresh table id j : String) (record_in : Row) (n : ℕ) (t : T)
      → Dict.get "record_id" record_in ≡ some (Json.str id)
      → (j == id) ≡ false
      → A.fetch table (by_id j) n (A.save now fresh table record_in t).1
        ≡ A.fetch table (by_id j) n t

abbrev pub json_files : Adapter Tables
json_files = record {
  save = JsonAdapter.save;
  fetch = JsonAdapter.fetch;
  update = JsonAdapter.update;
  delete = JsonAdapter.delete;
  count = JsonAdapter.count;
}

completed-get :
    (now fresh key : String) (record_in : Row) (v : Json)
    → Dict.get key record_in ≡ some v
    → Dict.get key (completed now fresh record_in).1 ≡ some v
unfolding completed set_default Dict.has
completed-get now fresh key record_in v h = grind (
  arith,
  get-put "record_id" key (or_default (Json.str fresh) (Dict.get "record_id" record_in)) record_in,
  get-put "timestamp" key (Json.str now) (
      Dict.put "record_id" (or_default (Json.str fresh) (Dict.get "record_id" record_in))
        record_in),
  get-put "record_id" "timestamp" (or_default (Json.str fresh) (Dict.get "record_id" record_in))
      record_in,
  eq_iff "record_id" key,
  eq_iff "timestamp" key,
)

-- A value equal to two texts: they are the same.
json_eq-str :
    (v : Json) (i j : String) → json_eq v (Json.str i) ≡ true → json_eq v (Json.str j) ≡ (i == j)
unfolding json_eq
json_eq-str (Json.str s) i j h = ap (λ x. x == j) ((eq_iff s i).0 h)
json_eq-str Json.null i j h = absurd (cc)
json_eq-str (Json.bool b) i j h = absurd (cc)
json_eq-str (Json.num n) i j h = absurd (cc)
json_eq-str (Json.arr x) i j h = absurd (cc)
json_eq-str (Json.obj x) i j h = absurd (cc)

-- A test that implies an earlier one alone decides.
keep-keep :
    {A : Type 0} (p q : A → Bool) (xs : List A)
    → ((x : A) → p x ≡ true → q x ≡ true)
    → keep p (keep q xs) ≡ keep p xs
keep-keep p q [] h = refl
keep-keep p q (x ∷ xs) h = elim (Bool-cases (p x)) [
  | inl e ↦ rw (h x e, e) (ap (λ ys. x ∷ ys) (keep-keep p q xs h))
  | inr e ↦ elim (Bool-cases (q x)) [
    | inl t ↦ rw (t, e) (keep-keep p q xs h)
    | inr t ↦ rw (t, e) (keep-keep p q xs h)
  ]
]

other_id :
    (j id : String) (r : Row)
    → (j == id) ≡ false
    → field_is "record_id" (Json.str j) r ≡ true
    → not (field_is "record_id" (Json.str id) r) ≡ true
unfolding field_is
other_id j id r differ h =
    ap not (json_eq-str (or_default Json.null (Dict.get "record_id" r)) j id h ∙ differ)

text_differs : (j id : String) → (j == id) ≡ false → json_eq (Json.str id) (Json.str j) ≡ false
unfolding json_eq
text_differs j id differ = grind (arith, eq_iff)

-- The rows of another id are as they were.
save-other :
    (now fresh table id j : String) (record_in : Row) (t : Tables)
    → Dict.get "record_id" record_in ≡ some (Json.str id)
    → (j == id) ≡ false
    → keep
        (field_is "record_id" (Json.str j))
        (load table (JsonAdapter.save now fresh table record_in t).1)
      ≡ keep (field_is "record_id" (Json.str j)) (load table t)
unfolding JsonAdapter.save
save-other now fresh table id j record_in t has_id differ =
    let same = ap (or_default (Json.str fresh)) has_id in
    let p = field_is "record_id" (Json.str j) in
    let row = (completed now fresh record_in).1 in
    let others =
      keep (λ r. not (field_is "record_id" (completed now fresh record_in).0 r)) (load table t) in
    let j_other : (row_id : Json) → row_id ≡ Json.str id → json_eq row_id (Json.str j) ≡ false =
      λ row_id e. subst (λ x. json_eq x (Json.str j) ≡ false) (sym e) (text_differs j id differ) in
    let not_row : p row ≡ false =
      ap (λ v. json_eq (or_default Json.null v) (Json.str j))
        (completed-record_id now fresh record_in)
      ∙ j_other (completed now fresh record_in).0 same in
    ap (keep p) (load-put table (others ++ row ∷ []) t)
    ∙ keep-append p others (row ∷ [])
    ∙ rw not_row (append-nil (keep p others))
    ∙ ap (λ v. keep p (keep (λ r. not (field_is "record_id" v r)) (load table t))) same
    ∙ keep-keep p (λ r. not (field_is "record_id" (Json.str id) r)) (load table t)
        (λ r h. other_id j id r differ h)

-- The JSON files keep the interface's promises, and store every field: after a save the record is
-- found by its id, once and with its fields, and what is found by another id is as before.
pub json_files-IsAdapter : IsAdapter json_files (λ table key. true)
unfolding json_eq JsonAdapter.fetch apply_filters completed
json_files-IsAdapter = record {
  fetch_save = λ now fresh table id record_in n t has_id.
      let same = ap (or_default (Json.str fresh)) has_id in
      (
        (completed now fresh record_in).1,
        subst
            (λ v.
              JsonAdapter.fetch table (("record_id", v) ∷ []) (suc n)
                (JsonAdapter.save now fresh table record_in t).1
              ≡ (completed now fresh record_in).1 ∷ [])
            same
            (fetch-save now fresh table record_in n t
              (subst (λ v. json_eq v v ≡ true) (sym same) (eq_refl id))),
        λ key v h _. completed-get now fresh key record_in v h,
      );
  fetch_save_other = λ now fresh table id j record_in n t has_id differ.
      ap (λ rows. take n (sort not_earlier rows))
        (save-other now fresh table id j record_in t has_id differ);
}
