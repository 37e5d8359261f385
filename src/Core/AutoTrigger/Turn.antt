-- ===== src/Core/AutoTrigger/Turn.antt =====
-- core/auto_trigger.py: after a turn the known peers are the current ones.
use anp_edge_swarm.Base.{
  ℕ, String, ◌==◌, eq_iff, ◌≡◌, ◌∙◌, refl, sym, ap, Bool, true, false, not, ◌&&◌, ◌||◌, none, [],
  ◌∷◌, if◌then◌else◌, Bool-cases, inl, inr, arith,
}
use anp_edge_swarm.Dict
use anp_edge_swarm.Dict.{Dict, has-put, get-remove, is_some}
use anp_edge_swarm.Swarm.Peers.{Known}
use anp_edge_swarm.Core.AutoTrigger.{AutoTrigger, join_if, add_joined, remove_left, watch_turn}

has-cons :
    (id k : String) (v : Known) (d : Dict Known)
    → Dict.has id ((k, v) ∷ d) ≡ (k == id) || Dict.has id d
unfolding Dict.has Dict.get
has-cons id k v d = ground arith

has-nil : (id : String) → Dict.has {V = Known} id [] ≡ false
unfolding Dict.has Dict.get
has-nil id = refl

has-remove :
    (id k : String) (d : Dict Known)
    → Dict.has id (Dict.remove k d) ≡ not (k == id) && Dict.has id d
unfolding Dict.has
has-remove id k d = elim (Bool-cases (k == id)) [
  | inl e ↦ rw e (ap is_some (get-remove k id d ∙ ap (λ b. if b then none else Dict.get id d) e))
  | inr e ↦ rw e (ap is_some (get-remove k id d ∙ ap (λ b. if b then none else Dict.get id d) e))
]

-- A key that is the id has what the id has.
same_has :
    (id k : String) (d : Dict Known) (b : Bool)
    → Dict.has k d ≡ b
    → (k == id) ≡ true
    → Dict.has id d ≡ b
same_has id k d b h e = ap (λ i. Dict.has i d) (sym ((eq_iff k id).0 e)) ∙ h

joined_old :
    (known rest previous same : Bool)
    → (same ≡ true → previous ≡ true)
    → known || (rest && not previous) ≡ known || ((same || rest) && not previous)
joined_old known true previous true h = rw (h refl) refl
joined_old known false previous true h = rw (h refl) refl
joined_old known rest previous false h = refl

joined_new :
    (known rest previous same : Bool)
    → (same ≡ true → previous ≡ false)
    → (same || known) || (rest && not previous) ≡ known || ((same || rest) && not previous)
joined_new true rest previous true h = refl
joined_new false rest previous true h = rw (h refl) refl
joined_new known rest previous false h = refl

left_kept :
    (known rest current same : Bool)
    → (same ≡ true → current ≡ true)
    → known && not (rest && not current) ≡ known && not ((same || rest) && not current)
left_kept known true current true h = refl
left_kept known false current true h = rw (h refl) refl
left_kept known rest current false h = refl

left_gone :
    (known rest current same : Bool)
    → (same ≡ true → current ≡ false)
    → (not same && known) && not (rest && not current)
      ≡ known && not ((same || rest) && not current)
left_gone true rest current true h = rw (h refl) refl
left_gone false rest current true h = refl
left_gone known rest current false h = refl

module _ (new_id : String → ℕ → String) where
  add_joined-has :
      (id : String) (previous current : Dict Known) (s : AutoTrigger)
      → Dict.has id (add_joined new_id previous current s).known_peers
        ≡ Dict.has id s.known_peers || (Dict.has id current && not (Dict.has id previous))
  unfolding add_joined join_if
  add_joined-has id previous [] s = rw (has-nil id) (or_nothing (Dict.has id s.known_peers))
    where
      or_nothing : (b : Bool) → b ≡ b || false
      or_nothing true = refl
      or_nothing false = refl
  add_joined-has id previous ((k, v) ∷ rest) s =
      let p = Dict.has id previous in
      let r = Dict.has id rest in
      let result = λ (was : Bool).
        Dict.has id (add_joined new_id previous rest (join_if new_id was k v s)).known_peers in
      let whole = ap (λ b. Dict.has id s.known_peers || (b && not p)) (has-cons id k v rest) in
      elim (Bool-cases (Dict.has k previous)) [
        | inl e ↦
            ap result e
            ∙ add_joined-has id previous rest s
            ∙ joined_old (Dict.has id s.known_peers) r p (k == id) (same_has id k previous true e)
            ∙ sym whole
        | inr e ↦
            ap result e
            ∙ add_joined-has id previous rest (join_if new_id false k v s)
            ∙ ap (λ b. b || (r && not p)) (has-put k id v s.known_peers)
            ∙ joined_new (Dict.has id s.known_peers) r p (k == id) (same_has id k previous false e)
            ∙ sym whole
      ]

remove_left-has :
    (id : String) (current previous known : Dict Known)
    → Dict.has id (remove_left current previous known)
      ≡ Dict.has id known && not (Dict.has id previous && not (Dict.has id current))
unfolding remove_left
remove_left-has id current [] known = rw (has-nil id) (and_all (Dict.has id known))
  where
    and_all : (b : Bool) → b ≡ b && true
    and_all true = refl
    and_all false = refl
remove_left-has id current ((k, v) ∷ rest) known = elim (Bool-cases (Dict.has k current)) [
  | inl e ↦
      rw (e, has-cons id k v rest)
        (remove_left-has id current rest known
          ∙ left_kept (Dict.has id known) (Dict.has id rest) (Dict.has id current) (k == id)
              (same_has id k current true e))
  | inr e ↦
      rw (e, has-cons id k v rest)
        (remove_left-has id current rest (Dict.remove k known)
          ∙ ap (λ b. b && not (Dict.has id rest && not (Dict.has id current)))
              (has-remove id k known)
          ∙ left_gone (Dict.has id known) (Dict.has id rest) (Dict.has id current) (k == id)
              (same_has id k current false e))
]

turn_bool :
    (previous current : Bool)
    → (previous || (current && not previous)) && not (previous && not current) ≡ current
turn_bool true true = refl
turn_bool true false = refl
turn_bool false true = refl
turn_bool false false = refl

-- After a turn the known peers are the current ones, whoever joined and left.
pub watch_turn-has :
    (new_id : String → ℕ → String) (current : Dict Known) (s : AutoTrigger) (id : String)
    → Dict.has id (watch_turn new_id current s).known_peers ≡ Dict.has id current
unfolding watch_turn
watch_turn-has new_id current s id =
    remove_left-has id current s.known_peers (add_joined new_id s.known_peers current s).known_peers
    ∙ ap (λ b. b && not (Dict.has id s.known_peers && not (Dict.has id current)))
        (add_joined-has new_id id s.known_peers current s)
    ∙ turn_bool (Dict.has id s.known_peers) (Dict.has id current)
