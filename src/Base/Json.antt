-- ===== src/Base/Json.antt =====
-- JSON values as the program holds them: what `json.loads` returns and `json.dumps` takes.
-- Numbers are whole, and not negative.
use Prim.Native.Nat.{ℕ, suc}
use Prim.Native.String.{String}
use mathlib.Core.Bool.{Bool, true, false, not, ◌&&◌}
use mathlib.Core.Option.{Option, none, some}
use text.Mathlib.Text.{◌==◌}
use anp_edge_swarm.Base.Tests.{eqb, if◌then◌else◌}

mutual
  pub data Json : Type 0 where
    null : Json
    bool : Bool → Json
    num : ℕ → Json
    str : String → Json
    arr : Items → Json
    obj : Fields → Json

  pub data Items : Type 0 where
    nil : Items
    cons : Json → Items → Items

  pub data Fields : Type 0 where
    end : Fields
    field : String → Json → Fields → Fields

-- `bool(v)`
unfoldable pub truthy : Json → Bool
truthy null = false
truthy (bool b) = b
truthy (num n) = not (eqb n 0)
truthy (str s) = not (s == "")
truthy (arr nil) = false
truthy (arr (cons v vs)) = true
truthy (obj end) = false
truthy (obj (field k v r)) = true

-- An empty text counts as no text in a condition.
abbrev pub truthy_text : Option String → Option String
truthy_text none = none
truthy_text (some s) = if s == "" then none else some s

unfoldable pub lookup_field : String → Fields → Option Json
lookup_field k end = none
lookup_field k (field j v r) = if j == k then some v else lookup_field k r

-- v.get(k) of a dict. Where `v` is no dict the program does not come to ask.
unfoldable pub get_field : String → Json → Option Json
unfolding lookup_field
get_field k (obj r) = lookup_field k r
get_field k _ = none

abbrev pub count_fields : Fields → ℕ
count_fields end = 0
count_fields (field k v r) = suc (count_fields r)

abbrev pub count_items : Items → ℕ
count_items nil = 0
count_items (cons v vs) = suc (count_items vs)

abbrev bool_num : Bool → ℕ
bool_num true = 1
bool_num false = 0

abbrev has_value : Option Json → Bool
has_value none = false
has_value (some v) = true

abbrev value_or_null : Option Json → Json
value_or_null none = null
value_or_null (some v) = v

-- `a == b`: Booleans are numbers, the order of a dict's keys does not count.
unfoldable mutual
  pub json_eq : Json → Json → Bool
  json_eq null null = true
  json_eq (bool a) (bool b) = eqb (bool_num a) (bool_num b)
  json_eq (bool a) (num b) = eqb (bool_num a) b
  json_eq (num a) (bool b) = eqb a (bool_num b)
  json_eq (num a) (num b) = eqb a b
  json_eq (str a) (str b) = a == b
  json_eq (arr a) (arr b) = items_eq a b
  json_eq (obj a) (obj b) = eqb (count_fields a) (count_fields b) && fields_in a b
  json_eq _ _ = false

  pub items_eq : Items → Items → Bool
  items_eq nil nil = true
  items_eq (cons a r) (cons b s) = json_eq a b && items_eq r s
  items_eq _ _ = false

  pub fields_in : Fields → Fields → Bool
  fields_in end b = true
  fields_in (field k v r) b =
      has_value (lookup_field k b) && json_eq v (value_or_null (lookup_field k b)) && fields_in r b
