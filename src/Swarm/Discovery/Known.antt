-- ===== src/Swarm/Discovery/Known.antt =====
-- swarm/discovery.py: who is among the known nodes.
use anp_edge_swarm.Base.{
  ℕ, String, ◌≡◌, ◌≢◌, ◌⊎◌, inl, inr, ◌==◌, ◌||◌, Option, none, some, List, [], ◌∷◌, any, refl,
  subst, some-injective, Bool-cases, Option-cases, arith, eq_iff,
}
use anp_edge_swarm.Base.Json.{Json, get_field}
use anp_edge_swarm.Dict
use anp_edge_swarm.Dict.{
  Dict, AllItems, AllItems-put, AllItems-keep_items, AllItems-map, AllItems-get, keep_items-test,
  get-put, get-keep_items, get-put_new, get-put_self, is_some,
}
use anp_edge_swarm.Swarm.Discovery.{
  Node, Heard, no_caps, static_key, add_known_peer, other_id, is_announce, announced_caps,
  announced, put_announced, is_fresh, listen_turn,
}

pub data Event : Type 0 where
  listens : Heard → Event
  adds : (now : ℕ) (ip : String) → Event

unfoldable pub step : (my_id : String) → Event → Dict Node → Dict Node
step my_id (Event.listens h) known = listen_turn my_id h known
step my_id (Event.adds now ip) known = add_known_peer now ip known

unfoldable pub run : (my_id : String) → List Event → Dict Node → Dict Node
run my_id [] known = known
run my_id (e ∷ es) known = run my_id es (step my_id e known)

module _ (my_id : String) where
  -- A peer under the id that it announced, which is not the own, or one that was added by its address
  -- and has no capabilities.
  abbrev pub IsEntry : String → Node → Type 0
  IsEntry k v =
      ((get_field "node_id" v.caps ≡ some (Json.str k)) × (k ≢ my_id))
      ⊎ ((k ≡ static_key v.addr) × (v.caps ≡ no_caps))

  abbrev pub IsKnown : Dict Node → Type 0
  IsKnown = AllItems IsEntry

  other_id-some :
      (o : Option Json) (id : String)
      → other_id my_id o ≡ some id
      → (o ≡ some (Json.str id)) × (id ≢ my_id)
  other_id-some none id e = absurd (cc)
  other_id-some (some Json.null) id e = absurd (cc)
  other_id-some (some (Json.bool b)) id e = absurd (cc)
  other_id-some (some (Json.num n)) id e = absurd (cc)
  other_id-some (some (Json.arr vs)) id e = absurd (cc)
  other_id-some (some (Json.obj r)) id e = absurd (cc)
  other_id-some (some (Json.str s)) id e = elim (Bool-cases ((s == "") || (s == my_id))) [
    | inl t ↦ let e' : none ≡ some id = rw t at e in absurd (cc)
    | inr t ↦
        let same : s ≡ id = some-injective s id (rw t at e) in
        let other : s ≢ my_id = ground (arith, eq_iff s my_id) in rw (← same) (refl, other)
  ]

  announced_caps-some :
      (o : Option Json) (id : String) (caps : Json)
      → announced_caps my_id o ≡ some (id, caps)
      → (get_field "node_id" caps ≡ some (Json.str id)) × (id ≢ my_id)
  announced_caps-some none id caps e = absurd (cc)
  announced_caps-some (some c) id caps e =
      elim (Option-cases (other_id my_id (get_field "node_id" c))) [
        | inl n ↦
            let e' : ◌≡◌ {A = Option (String × Json)} none (some (id, caps)) = rw n at e in
            absurd (cc)
        | inr (i, f) ↦
            subst (λ (j, v). (get_field "node_id" v ≡ some (Json.str j)) × (j ≢ my_id))
              (some-injective (i, c) (id, caps) (rw f at e))
              (other_id-some (get_field "node_id" c) i f)
      ]

  announced-some :
      (m : Option Json) (id : String) (caps : Json)
      → announced my_id m ≡ some (id, caps)
      → (get_field "node_id" caps ≡ some (Json.str id)) × (id ≢ my_id)
  unfolding announced
  announced-some none id caps e = absurd (cc)
  announced-some (some msg) id caps e = elim (Bool-cases (is_announce (get_field "type" msg))) [
    | inl t ↦ announced_caps-some (get_field "caps" msg) id caps (rw t at e)
    | inr t ↦
        let e' : ◌≡◌ {A = Option (String × Json)} none (some (id, caps)) = rw t at e in absurd (cc)
  ]

-- What holds of the entries and of one that is announced holds after it is put.
pub put_announced-AllItems {κ} :
    (P : String → Node → Type κ) (addr : String) (now : ℕ) (o : Option (String × Json))
    → ((id : String) (caps : Json)
        → o ≡ some (id, caps)
        → P id (record { caps = caps; addr = addr; last_seen = now }))
    → (known : Dict Node) → AllItems P known
    → AllItems P (put_announced addr now o known)
put_announced-AllItems P addr now none f known h = h
put_announced-AllItems P addr now (some (id, caps)) f known h =
    AllItems-put P id _ known (f id caps refl) h

module _ (my_id : String) where
  add_known_peer-IsKnown :
      (now : ℕ) (ip : String) (known : Dict Node)
      → IsKnown my_id known
      → IsKnown my_id (add_known_peer now ip known)
  unfolding add_known_peer
  add_known_peer-IsKnown now ip known h =
      elim (Bool-cases
        (any (λ v. v.addr == ip) (Dict.values known) || Dict.has (static_key ip) known)) [
          | inl e ↦ rw e h
          | inr e ↦ rw e (AllItems-put (IsEntry my_id) (static_key ip) _ known (inr (refl, refl)) h)
        ]

  step-IsKnown :
      (e : Event) (known : Dict Node) → IsKnown my_id known → IsKnown my_id (step my_id e known)
  unfolding step listen_turn
  step-IsKnown (Event.adds now ip) known h = add_known_peer-IsKnown now ip known h
  step-IsKnown (Event.listens m) known h =
      AllItems-keep_items (IsEntry my_id) (λ k v. is_fresh m.now v) _
        (put_announced-AllItems (IsEntry my_id) m.addr m.received (announced my_id m.msg)
          (λ id caps e. inl (announced-some my_id m.msg id caps e)) known h)

  -- After any turns and additions, whatever messages were received, each entry is of another peer
  -- under the id that it announced, or was added by its address and has no capabilities.
  pub run-IsKnown :
      (es : List Event) (known : Dict Node)
      → IsKnown my_id known
      → IsKnown my_id (run my_id es known)
  unfolding run
  run-IsKnown [] known h = h
  run-IsKnown (e ∷ es) known h = run-IsKnown es (step my_id e known) (step-IsKnown e known h)
