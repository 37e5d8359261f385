-- ===== src/Security/Crypto/Replay.antt =====
-- security/crypto.py: a response that was accepted is accepted again. `verify_challenge_response`
-- marks the challenge as answered and keeps it, and does not look at the mark.
use anp_edge_swarm.Base.{
  String, ◌≡◌, refl, ap, ◌∙◌, sym, true, false, Option, none, some, some-injective, [], ◌∷◌, inl,
  inr, Bool-cases, ◌==◌,
}
use anp_edge_swarm.Dict
use anp_edge_swarm.Dict.{Dict, or_default}
use anp_edge_swarm.Security.Crypto.{
  Security, Challenge, Message, find_challenge, rekey, is_proof, check_response,
  verify_challenge_response,
}

abbrev pub Found : String → Dict Challenge → Type 0
Found nonce d = (found : String × Challenge) × (find_challenge nonce d ≡ some found)

pub find_challenge-put :
    (nonce k : String) (c : Challenge) (d : Dict Challenge)
    → (c.nonce == nonce) ≡ true
    → Found nonce (Dict.put k c d)
unfolding find_challenge Dict.put
find_challenge-put nonce k c [] same = ((k, c), rw same refl)
find_challenge-put nonce k c ((j, e) ∷ d) same =
    let (found, at) = find_challenge-put nonce k c d same in
    elim (Bool-cases (j == k)) [
      | inl t ↦ ((j, c), rw t (rw same refl))
      | inr t ↦ elim (Bool-cases (e.nonce == nonce)) [
        | inl u ↦ ((j, e), rw t (rw u refl))
        | inr u ↦ (found, rw t (rw u at))
      ]
    ]

find_challenge-rekey :
    (nonce key id : String) (entry : Challenge) (d : Dict Challenge)
    → (entry.nonce == nonce) ≡ true
    → Found nonce (rekey key id entry d)
unfolding rekey
find_challenge-rekey nonce key id entry d same = elim (Bool-cases (key == id)) [
  | inl t ↦ rw t (find_challenge-put nonce key (record entry { answered = true }) d same)
  | inr t ↦
      rw t (find_challenge-put nonce id (record entry { answered = true }) (Dict.remove key d) same)
]

pub find_challenge-nonce :
    (nonce key : String) (entry : Challenge) (d : Dict Challenge)
    → find_challenge nonce d ≡ some (key, entry)
    → (entry.nonce == nonce) ≡ true
unfolding find_challenge
find_challenge-nonce nonce key entry [] e = absurd (cc)
find_challenge-nonce nonce key entry ((j, c) ∷ d) e = elim (Bool-cases (c.nonce == nonce)) [
  | inl t ↦
      let e' : some (j, c) ≡ some (key, entry) = rw t at e in
      ap (λ p. p.1.nonce == nonce) (sym (some-injective _ _ e')) ∙ t
  | inr t ↦ find_challenge-nonce nonce key entry d (rw t at e)
]

module _ (hmac : String → String → String) where
  -- What an accepted response does.
  pub check_response-accepts :
      (key : String) (entry : Challenge) (response : Message) (secret : String) (s : Security)
      → is_proof hmac secret response ≡ true
      → check_response hmac (some (key, entry)) response secret s ≡ (
        true,
        record s {
          challenges = rekey key (or_default "" response.sender_id) entry s.challenges;
          trusted = Dict.put (or_default "" response.sender_id) secret s.trusted;
        },
      )
  unfolding check_response
  check_response-accepts key entry response secret s ok = rw ok refl

  -- Only a valid proof for a pending nonce is accepted.
  pub check_response-true :
      (found : Option (String × Challenge)) (response : Message) (secret : String) (s : Security)
      → (check_response hmac found response secret s).0 ≡ true
      → (c : String × Challenge) × (found ≡ some c) × (is_proof hmac secret response ≡ true)
  unfolding check_response
  check_response-true none response secret s h = absurd (cc)
  check_response-true (some c) response secret s h =
      elim (Bool-cases (is_proof hmac secret response)) [
        | inl ok ↦ (c, refl, ok)
        | inr bad ↦ let no : false ≡ true = rw bad at h in absurd (cc)
      ]

  -- A response that was accepted is accepted when it comes once more.
  pub verify_challenge_response-again :
      (response : Message) (secret : String) (s : Security)
      → (verify_challenge_response hmac response secret s).0 ≡ true
      → (verify_challenge_response hmac response secret
          (verify_challenge_response hmac response secret s).1).0
        ≡ true
  unfolding verify_challenge_response
  verify_challenge_response-again response secret s accepted =
      let nonce = or_default "" response.nonce in
      let id = or_default "" response.sender_id in
      let ((key, entry), found, ok) =
        check_response-true (find_challenge nonce s.challenges) response secret s accepted in
      let same = find_challenge-nonce nonce key entry s.challenges found in
      let ((key', entry'), left) = find_challenge-rekey nonce key id entry s.challenges same in
      let first =
        ap (λ f. check_response hmac f response secret s) found
        ∙ check_response-accepts key entry response secret s ok in
      rw (first, left) (ap (λ r. r.0) (check_response-accepts key' entry' response secret _ ok))
