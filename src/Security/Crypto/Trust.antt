-- ===== src/Security/Crypto/Trust.antt =====
-- security/crypto.py: who is trusted has answered a challenge of this node with a valid proof.
use anp_edge_swarm.Base.{
  ℕ, String, ◌≡◌, refl, subst, sym, some-injective, ap, true, false, some, List, [], ◌∷◌, ◌⊎◌, inl,
  inr, Bool-cases, Option-cases, ◌==◌, eq_iff,
}
use anp_edge_swarm.Dict
use anp_edge_swarm.Dict.{
  Dict, AllItems, AllItems-put, AllItems-remove, AllItems-get, AllItems-map, or_default, is_some,
}
use anp_edge_swarm.Security.Crypto.{
  Security, Challenge, Message, create_challenge, find_challenge, rekey, is_proof, is_trusted,
  add_to_set, verify_challenge_response, check_response,
}

-- What changes a node's security state: it challenges a peer, or checks a response.
pub data Event : Type 0 where
  makes_challenge : (now : ℕ) (fresh peer_id : String) → Event
  gets_response : (response : Message) (peer_secret : String) → Event

-- A challenge with the nonce was made.
abbrev pub Issued : String → List Event → Type 0
Issued nonce [] = ⊥
Issued nonce (makes_challenge now fresh peer_id ∷ before) = (fresh ≡ nonce) ⊎ Issued nonce before
Issued nonce (gets_response response peer_secret ∷ before) = Issued nonce before

find_challenge-Issued :
    (P : String → Type 0) (nonce key : String) (entry : Challenge) (d : Dict Challenge)
    → AllItems (λ k c. P c.nonce) d
    → find_challenge nonce d ≡ some (key, entry)
    → P nonce × (entry.nonce ≡ nonce)
unfolding find_challenge
find_challenge-Issued P nonce key entry [] h e = absurd (cc)
find_challenge-Issued P nonce key entry ((k, c) ∷ d) h e = elim (Bool-cases (c.nonce == nonce)) [
  | inl t ↦
      let same : c.nonce ≡ nonce = (eq_iff c.nonce nonce).0 t in
      let e' : some (k, c) ≡ some (key, entry) = rw t at e in
      let val : c ≡ entry = ap (λ p. p.1) (some-injective _ _ e') in
      (rw (← same) h.0, rw (← val) same)
  | inr t ↦ find_challenge-Issued P nonce key entry d h.1 (rw t at e)
]

rekey-AllItems :
    (P : String → Type 0) (key id : String) (entry : Challenge) (d : Dict Challenge)
    → P entry.nonce
    → AllItems (λ k c. P c.nonce) d
    → AllItems (λ k c. P c.nonce) (rekey key id entry d)
unfolding rekey
rekey-AllItems P key id entry d p h = elim (Bool-cases (key == id)) [
  | inl t ↦ rw t (AllItems-put (λ k c. P c.nonce) key (record entry { answered = true }) d p h)
  | inr t ↦ rw t (
      AllItems-put (λ k c. P c.nonce) id (record entry { answered = true }) (Dict.remove key d) p
        (AllItems-remove (λ k c. P c.nonce) key d h))
]

module _ (hmac : String → String → String) where
  unfoldable pub step : Event → Security → Security
  unfolding create_challenge verify_challenge_response
  step (makes_challenge now fresh peer_id) s = (create_challenge now fresh peer_id s).1
  step (gets_response response peer_secret) s =
      (verify_challenge_response hmac response peer_secret s).1

  -- The latest event stands first.
  unfoldable pub run : List Event → Security → Security
  unfolding step
  run [] s = s
  run (e ∷ before) s = step e (run before s)

  -- A response of the sender `id` was checked with `secret` and found valid, for a nonce of this
  -- node's.
  abbrev pub Proven : (id secret : String) → List Event → Type 0
  Proven id secret [] = ⊥
  Proven id secret (makes_challenge now fresh peer_id ∷ before) = Proven id secret before
  Proven id secret (gets_response response peer_secret ∷ before) =
      ((or_default "" response.sender_id ≡ id)
        × (peer_secret ≡ secret)
        × (is_proof hmac peer_secret response ≡ true)
        × Issued (or_default "" response.nonce) before)
      ⊎ Proven id secret before

  abbrev Earned : List Event → Security → Type 0
  Earned events s =
      AllItems (λ k c. Issued c.nonce events) s.challenges
      × AllItems (λ k secret. Proven k secret events) s.trusted

  step-Earned :
      (e : Event) (before : List Event) (s : Security)
      → Earned before s
      → Earned (e ∷ before) (step e s)
  unfolding step create_challenge verify_challenge_response check_response
  step-Earned (makes_challenge now fresh peer_id) before s h = (
    AllItems-put (λ k c. (fresh ≡ c.nonce) ⊎ Issued c.nonce before) peer_id
        (record { nonce = fresh; created_at = now; answered = false }) s.challenges (inl refl)
        (AllItems-map {P = λ k c. Issued c.nonce before} (λ k c i. inr i) s.challenges h.0),
    h.1,
  )
  step-Earned (gets_response response secret) before s h =
      let nonce = or_default "" response.nonce in
      let id = or_default "" response.sender_id in
      let older =
        AllItems-map {P = λ k v. Proven k v before}
          {Q = λ k v. Proven k v (gets_response response secret ∷ before)} (λ k v p. inr p)
          s.trusted h.1 in
      elim (Option-cases (find_challenge nonce s.challenges)) [
        | inl gone ↦ rw (step, gone) (h.0, older)
        | inr ((key, entry), found) ↦
            let (issued, same) =
              find_challenge-Issued (λ n. Issued n before) nonce key entry s.challenges h.0 found in
            elim (Bool-cases (is_proof hmac secret response)) [
              | inl ok ↦
                  let accepted : step (gets_response response secret) s ≡ record s {
                    challenges = rekey key id entry s.challenges;
                    trusted = Dict.put id secret s.trusted;
                  } =
                    rw (step, found) (rw ok refl) in
                  let proven : Proven id secret (gets_response response secret ∷ before) =
                    inl (refl, refl, ok, issued) in
                  subst (Earned (gets_response response secret ∷ before)) (sym accepted) (
                    rekey-AllItems (λ n. Issued n before) key id entry s.challenges
                        (subst (λ n. Issued n before) (sym same) issued) h.0,
                    AllItems-put (λ k v. Proven k v (gets_response response secret ∷ before)) id
                        secret s.trusted proven older,
                  )
              | inr bad ↦
                  let refused : step (gets_response response secret) s
                      ≡ record s { blacklist = add_to_set id s.blacklist } =
                    rw (step, found) (rw bad refl) in
                  subst (Earned (gets_response response secret ∷ before)) (sym refused) (h.0, older)
            ]
      ]

  run-Earned :
      (events : List Event) (s : Security)
      → s.challenges ≡ []
      → s.trusted ≡ []
      → Earned events (run events s)
  unfolding run
  run-Earned [] s no_challenge no_trust = (rw no_challenge tt, rw no_trust tt)
  run-Earned (e ∷ before) s no_challenge no_trust =
      step-Earned e before (run before s) (run-Earned before s no_challenge no_trust)

  -- Over any sequence of challenges and responses, a peer that is trusted has sent a response with
  -- its id, whose proof is the HMAC of the secret under which it is trusted, for a nonce that this
  -- node had issued before.
  pub run-Proven :
      (events : List Event) (s : Security) (id : String)
      → s.challenges ≡ []
      → s.trusted ≡ []
      → is_trusted id (run events s) ≡ true
      → (secret : String) × (Dict.get id (run events s).trusted ≡ some secret)
        × Proven id secret events
  unfolding is_trusted Dict.has
  run-Proven events s id no_challenge no_trust trusted =
      elim (Option-cases (Dict.get id (run events s).trusted)) [
        | inl gone ↦ let no : false ≡ true = rw gone at trusted in absurd (cc)
        | inr (secret, found) ↦ (
          secret,
          found,
          AllItems-get (λ k v. Proven k v events) id secret (run events s).trusted
              (run-Earned events s no_challenge no_trust).1 found,
        )
      ]
