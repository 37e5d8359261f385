-- ===== src/Db/JsonAdapter/RoundTrip.antt =====
-- db/adapters/json_adapter.py: what is saved is fetched, once; what is deleted is not.
use anp_edge_swarm.Base.{
  ℕ, zero, suc, String, ◌≡◌, ◌∙◌, refl, ap, Bool, true, not, some, List, [], ◌∷◌, ◌++◌, keep, take,
  keep-append, Bool-cases, inl, inr, arith,
}
use anp_edge_swarm.Base.Sort.{sort}
use anp_edge_swarm.Base.Json.{Json, json_eq}
use anp_edge_swarm.Dict
use anp_edge_swarm.Dict.{Dict, or_default, get-put, get-put_self}
use anp_edge_swarm.Db.JsonAdapter.{
  Row, Tables, load, field_is, completed, save, fetch, not_earlier, apply_filters, delete,
  set_default,
}

take-none : {A : Type 0} (n : ℕ) → take {A = A} n [] ≡ []
take-none zero = refl
take-none (suc n) = refl

-- Nothing that a test refuses passes it.
keep-keep-not : {A : Type 0} (p : A → Bool) (xs : List A) → keep p (keep (λ x. not (p x)) xs) ≡ []
keep-keep-not p [] = refl
keep-keep-not p (x ∷ xs) = elim (Bool-cases (p x)) [
  | inl e ↦ rw e (keep-keep-not p xs)
  | inr e ↦ rw (e, e) (keep-keep-not p xs)
]

-- The row that is written has the id that is returned.
pub completed-record_id :
    (now fresh : String) (record_in : Row)
    → Dict.get "record_id" (completed now fresh record_in).1
      ≡ some (completed now fresh record_in).0
unfolding completed set_default
completed-record_id now fresh record_in = grind (arith, get-put, get-put_self)

pub load-put :
    (table : String) (rows : List Row) (t : Tables) → load table (Dict.put table rows t) ≡ rows
unfolding load
load-put table rows t = ap (or_default []) (get-put_self table rows t)

completed-field_is :
    (now fresh : String) (record_in : Row)
    → let id = (completed now fresh record_in).0 in
      json_eq id id ≡ true → field_is "record_id" id (completed now fresh record_in).1 ≡ true
unfolding field_is
completed-field_is now fresh record_in same =
    ap (λ v. json_eq (or_default Json.null v) (completed now fresh record_in).0)
      (completed-record_id now fresh record_in)
    ∙ same

-- The rows of one id after a save.
save-rows :
    (now fresh table : String) (record_in : Row) (t : Tables)
    → let id = (completed now fresh record_in).0 in
      json_eq id id ≡ true
      → keep (field_is "record_id" id) (load table (save now fresh table record_in t).1)
        ≡ (completed now fresh record_in).1 ∷ []
unfolding save
save-rows now fresh table record_in t same =
    let (id, row) = completed now fresh record_in in
    let others = keep (λ r. not (field_is "record_id" id r)) (load table t) in
    ap (keep (field_is "record_id" id)) (load-put table (others ++ row ∷ []) t)
    ∙ keep-append (field_is "record_id" id) others (row ∷ [])
    ∙ ap (λ xs. xs ++ keep (field_is "record_id" id) (row ∷ []))
        (keep-keep-not (field_is "record_id" id) (load table t))
    ∙ rw (completed-field_is now fresh record_in same) refl

-- Fetching by the id that `save` returned gives the record as it was completed, and nothing else:
-- an older version is gone. The id is equal to itself, as every text is.
pub fetch-save :
    (now fresh table : String) (record_in : Row) (n : ℕ) (t : Tables)
    → let id = (completed now fresh record_in).0 in
      json_eq id id ≡ true
      → fetch table (("record_id", id) ∷ []) (suc n) (save now fresh table record_in t).1
        ≡ (completed now fresh record_in).1 ∷ []
unfolding fetch apply_filters sort
fetch-save now fresh table record_in n t same =
    ap (λ rows. take (suc n) (sort not_earlier rows)) (save-rows now fresh table record_in t same)
    ∙ ap (λ rows. (completed now fresh record_in).1 ∷ rows) (take-none n)

-- After a deletion no row of that id is fetched.
pub fetch-delete :
    (table : String) (id : Json) (limit : ℕ) (t : Tables)
    → fetch table (("record_id", id) ∷ []) limit (delete table id t) ≡ []
unfolding fetch delete apply_filters sort
fetch-delete table id limit t =
    ap (λ rows. take limit (sort not_earlier (keep (field_is "record_id" id) rows)))
      (load-put table (keep (λ r. not (field_is "record_id" id r)) (load table t)) t)
    ∙ ap (λ rows. take limit (sort not_earlier rows))
        (keep-keep-not (field_is "record_id" id) (load table t))
    ∙ take-none limit
