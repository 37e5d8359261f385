-- ===== src/Swarm/Discovery/Presence.antt =====
-- swarm/discovery.py: for how long a peer is among the known nodes.
use anp_edge_swarm.Base.{
  ℕ, ◌+◌, ◌≤◌, ◌<◌, String, ◌≡◌, ◌≢◌, inl, inr, ◌==◌, true, false, ◌||◌, Option, none, some, List,
  [], ◌∷◌, any, refl, ap, ◌∙◌, All, Bool-cases, Option-cases, arith,
}
use anp_edge_swarm.Base.Json.{Json}
use anp_edge_swarm.Dict
use anp_edge_swarm.Dict.{
  Dict, AllItems, AllItems-put, AllItems-keep_items, AllItems-map, AllItems-get, keep_items-test,
  get-put, get-keep_items, get-put_new, get-put_self, is_some,
}
use anp_edge_swarm.Swarm.Discovery.{
  Node, Heard, static_key, add_known_peer, announced, put_announced, is_fresh, listen_turn,
}
use anp_edge_swarm.Swarm.Discovery.Known.{Event, step, run, put_announced-AllItems}

module _ (my_id : String) where
  module _ (id : String) (t : ℕ) where
    -- The peer is known, and was heard at the time or later.
    abbrev pub SeenSince : Dict Node → Type 0
    SeenSince known = (v : Node) × (Dict.get id known ≡ some v) × (t ≤ v.last_seen)

    -- No turn receives before the time, or evicts more than 15 seconds after it.
    abbrev pub InTime : Event → Type 0
    InTime (Event.listens m) = (t ≤ m.received) × (m.now ≤ t + 15)
    InTime (Event.adds now ip) = Unit

    put_announced-SeenSince :
        (addr : String) (now : ℕ) (o : Option (String × Json)) (known : Dict Node)
        → t ≤ now
        → SeenSince known
        → SeenSince (put_announced addr now o known)
    put_announced-SeenSince addr now none known h s = s
    put_announced-SeenSince addr now (some (j, caps)) known h (v, g, l) =
        let w : Node = record { caps = caps; addr = addr; last_seen = now } in
        elim (Bool-cases (j == id)) [
          | inl e ↦ (w, get-put j id w known ∙ rw e refl, h)
          | inr e ↦ (v, get-put j id w known ∙ rw e g, l)
        ]

    keep_items-SeenSince :
        (now : ℕ) (known : Dict Node)
        → now ≤ t + 15
        → SeenSince known
        → SeenSince (Dict.keep_items (λ k v. is_fresh now v) known)
    keep_items-SeenSince now known h (v, g, l) =
        (v, get-keep_items (λ k w. is_fresh now w) id v known g (ground arith), l)

    step-SeenSince :
        (e : Event) (known : Dict Node)
        → InTime e
        → SeenSince known
        → SeenSince (step my_id e known)
    unfolding step listen_turn add_known_peer
    step-SeenSince (Event.listens m) known h s =
        keep_items-SeenSince m.now _ h.1
          (put_announced-SeenSince m.addr m.received (announced my_id m.msg) known h.0 s)
    step-SeenSince (Event.adds now ip) known h (v, g, l) =
        elim (Bool-cases
          (any (λ w. w.addr == ip) (Dict.values known) || Dict.has (static_key ip) known)) [
            | inl e ↦ rw e (v, g, l)
            | inr e ↦
                let new : Dict.has (static_key ip) known ≡ false = ground arith in
                rw e (v, get-put_new (static_key ip) id _ v known new g, l)
          ]

    run-SeenSince :
        (es : List Event) (known : Dict Node)
        → All InTime es
        → SeenSince known
        → SeenSince (run my_id es known)
    unfolding run
    run-SeenSince [] known h s = s
    run-SeenSince (e ∷ es) known h s = run-SeenSince es _ h.1 (step-SeenSince e known h.0 s)

    -- The peer was heard at the time or before.
    abbrev pub SeenBy : Dict Node → Type 0
    SeenBy known = AllItems (λ k v. k ≡ id → v.last_seen ≤ t) known

    -- Neither does the peer announce itself, nor is it added by its address.
    abbrev pub IsSilent : Event → Type 0
    IsSilent (Event.listens m) = (caps : Json) → announced my_id m.msg ≢ some (id, caps)
    IsSilent (Event.adds now ip) = static_key ip ≢ id

    step-SeenBy :
        (e : Event) (known : Dict Node) → IsSilent e → SeenBy known → SeenBy (step my_id e known)
    unfolding step listen_turn add_known_peer
    step-SeenBy (Event.listens m) known h s =
        AllItems-keep_items (λ k v. k ≡ id → v.last_seen ≤ t) (λ k v. is_fresh m.now v) _
          (put_announced-AllItems (λ k v. k ≡ id → v.last_seen ≤ t) m.addr m.received
            (announced my_id m.msg)
            (λ j caps e same. absurd (h caps (e ∙ ap (λ i. some (i, caps)) same))) known s)
    step-SeenBy (Event.adds now ip) known h s =
        elim (Bool-cases
          (any (λ w. w.addr == ip) (Dict.values known) || Dict.has (static_key ip) known)) [
            | inl e ↦ rw e s
            | inr e ↦ rw e (
                AllItems-put (λ k v. k ≡ id → v.last_seen ≤ t) (static_key ip) _ known
                  (λ same. absurd (h same)) s)
          ]

    run-SeenBy :
        (es : List Event) (known : Dict Node)
        → All IsSilent es
        → SeenBy known
        → SeenBy (run my_id es known)
    unfolding run
    run-SeenBy [] known h s = s
    run-SeenBy (e ∷ es) known h s = run-SeenBy es _ h.1 (step-SeenBy e known h.0 s)

    -- A peer that was last heard at `t`, and neither announces itself nor is added by its address
    -- afterwards, is not among the known nodes after a turn that evicts more than 15 seconds later.
    pub silent-gone :
        (es : List Event) (m : Heard) (known : Dict Node)
        → SeenBy known
        → All IsSilent es
        → IsSilent (Event.listens m)
        → t + 15 < m.now
        → Dict.has id (listen_turn my_id m (run my_id es known)) ≡ false
    unfolding listen_turn Dict.has step
    silent-gone es m known s quiet last late =
        let before = run my_id es known in
        let after = listen_turn my_id m before in
        let seen : SeenBy after =
          step-SeenBy (Event.listens m) before last (run-SeenBy es known quiet s) in
        let fresh : AllItems (λ k v. is_fresh m.now v ≡ true) after =
          keep_items-test (λ k v. is_fresh m.now v) _ in
        elim (Option-cases (Dict.get id after)) [
          | inl e ↦ ap is_some e
          | inr (v, e) ↦
              let old : v.last_seen ≤ t =
                AllItems-get (λ k v. k ≡ id → v.last_seen ≤ t) id v after seen e refl in
              let new : is_fresh m.now v ≡ true =
                AllItems-get (λ k v. is_fresh m.now v ≡ true) id v after fresh e in
              absurd (ground arith)
        ]

  -- A peer that announces itself is known after any further turns that receive no earlier than that
  -- and evict at most 15 seconds after it, whoever else is heard or added.
  pub announced-stays :
      (id : String) (caps : Json) (m : Heard) (es : List Event) (known : Dict Node)
      → announced my_id m.msg ≡ some (id, caps)
      → m.now ≤ m.received + 15
      → All (InTime id m.received) es
      → Dict.has id (run my_id (Event.listens m ∷ es) known) ≡ true
  unfolding Dict.has run step listen_turn
  announced-stays id caps m es known said soon later =
      let w : Node = record { caps = caps; addr = m.addr; last_seen = m.received } in
      let put : SeenSince id m.received
          (put_announced m.addr m.received (announced my_id m.msg) known) =
        rw said (w, get-put_self id w known, omega arith) in
      let first = keep_items-SeenSince id m.received m.now _ soon put in
      ap is_some (run-SeenSince id m.received es _ later first).1
