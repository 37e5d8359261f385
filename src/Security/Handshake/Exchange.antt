-- ===== src/Security/Handshake/Exchange.antt =====
-- security/handshake.py: the two sides together.
use anp_edge_swarm.Base.{
  ℕ, String, ◌==◌, eq_refl, ◌≡◌, ◌∙◌, refl, sym, ap, subst, Bool, true, false, not, ◌||◌, Option,
  none, some, List, if◌then◌else◌, get_elem?, Bool-cases, inl, inr, any,
}
use Prim.Native.String.{◌++◌ as ◌<>◌}
use anp_edge_swarm.Dict
use anp_edge_swarm.Dict.{Dict, or_default, get-put_self}
use anp_edge_swarm.Security.Crypto.{
  Security, Challenge, Message, create_challenge, answer_challenge, is_proof, check_response,
  verify_challenge_response, is_blacklisted, add_to_set,
}
use anp_edge_swarm.Security.Crypto.Replay.{find_challenge-put}
use anp_edge_swarm.Security.Handshake.{
  Received, Received.nothing, Received.no_json, Received.no_object, Received.packet, Outcome,
  has_type, auth_result, read_result, perform_handshake, respond_to_handshake,
}

add_to_set_self : (x : String) (xs : List String) → any (λ y. y == x) (add_to_set x xs) ≡ true
unfolding add_to_set
add_to_set_self x xs = elim (Bool-cases (any (λ y. y == x) xs)) [
  | inl e ↦ rw e e
  | inr e ↦ rw e (rw (eq_refl x) refl)
]

-- How a node's trust in the sender of a response changes, for a nonce that is pending.
abbrev pub Judged : (verified : Bool) (id secret : String) (before after : Security) → Type 0
Judged verified id secret before after =
    (Dict.get id after.trusted ≡ (if verified then some secret else Dict.get id before.trusted))
    × (is_blacklisted id after ≡ not verified || is_blacklisted id before)

-- What the other side sent, as it is received.
abbrev pub deliver : Option Message → Received
deliver none = nothing
deliver (some m) = packet m

module _ (hmac : String → String → String) where
  check_response-Judged :
      (c : String × Challenge) (response : Message) (secret : String) (s : Security)
      → let verified = is_proof hmac secret response in
        let (answer, after) = check_response hmac (some c) response secret s in
        (answer ≡ verified) × Judged verified (or_default "" response.sender_id) secret s after
  unfolding check_response is_blacklisted
  check_response-Judged (key, entry) response secret s =
      elim (Bool-cases (is_proof hmac secret response)) [
        | inl ok ↦
            rw ok (refl, (get-put_self (or_default "" response.sender_id) secret s.trusted, refl))
        | inr bad ↦
            rw bad (refl, (refl, add_to_set_self (or_default "" response.sender_id) s.blacklist))
      ]

  perform_handshake-challenge :
      (now : ℕ) (fresh : String) (received : Received) (sends_result : Bool) (ip : String)
      (s : Security)
      → get_elem? (perform_handshake hmac now fresh true received sends_result ip s).sent 0
        ≡ some (create_challenge now fresh ip s).0
  unfolding perform_handshake
  perform_handshake-challenge now fresh nothing sends_result ip s = refl
  perform_handshake-challenge now fresh no_json sends_result ip s = refl
  perform_handshake-challenge now fresh no_object sends_result ip s = refl
  perform_handshake-challenge now fresh (packet m) true ip s =
      elim (Bool-cases (has_type "AUTH_RESPONSE" m)) [ inl e ↦ rw e refl | inr e ↦ rw e refl ]
  perform_handshake-challenge now fresh (packet m) false ip s =
      elim (Bool-cases (has_type "AUTH_RESPONSE" m)) [ inl e ↦ rw e refl | inr e ↦ rw e refl ]

  -- The answer to a challenge that was just made is judged by the two secrets.
  verify_challenge_response-answer :
      (now now' : ℕ) (fresh ip : String) (a b : Security)
      → let (challenge, waiting) = create_challenge now fresh ip a in
        let response = answer_challenge hmac now' challenge b in
        let same =
          hmac b.secret_key (fresh <> b.node_id) == hmac a.secret_key (fresh <> b.node_id) in
        let (verified, after) = verify_challenge_response hmac response a.secret_key waiting in
        (verified ≡ same) × Judged same b.node_id a.secret_key a after
  unfolding create_challenge answer_challenge verify_challenge_response is_blacklisted
  verify_challenge_response-answer now now' fresh ip a b =
      let (challenge, waiting) = create_challenge now fresh ip a in
      let (c, found) =
        find_challenge-put fresh ip (record { nonce = fresh; created_at = now; answered = false })
          a.challenges (eq_refl fresh) in
      rw found
        (check_response-Judged c (answer_challenge hmac now' challenge b) a.secret_key waiting)

  -- The handshake in which every message arrives: what each side receives is what the other sent.
  -- Both sides return whether their two secrets give the same HMAC of the nonce and the listener's
  -- id. If so the initiator trusts the listener, under its own secret; if not the listener is on its
  -- blacklist. The listener's own state does not change.
  pub perform_handshake-respond_to_handshake :
      (now now' : ℕ) (fresh ip : String) (a b : Security) (initiator listener : Outcome)
      → initiator
        ≡ perform_handshake hmac now fresh true (deliver (get_elem? listener.sent 0)) true ip a
      → listener
        ≡ respond_to_handshake hmac now'
            (deliver (get_elem? initiator.sent 0))
            true
            (deliver (get_elem? initiator.sent 1))
            b
      → let same =
          hmac b.secret_key (fresh <> b.node_id) == hmac a.secret_key (fresh <> b.node_id) in
        (initiator.returned ≡ some same)
        × (listener.returned ≡ some same)
        × Judged same b.node_id a.secret_key a initiator.state
        × (listener.state ≡ b)
  unfolding perform_handshake respond_to_handshake
  perform_handshake-respond_to_handshake now now' fresh ip a b initiator listener plays replies =
      let (challenge, waiting) = create_challenge now fresh ip a in
      let response = answer_challenge hmac now' challenge b in
      let first : get_elem? initiator.sent 0 ≡ some challenge =
        ap (λ o. get_elem? o.sent 0) plays
        ∙ perform_handshake-challenge now fresh (deliver (get_elem? listener.sent 0)) true ip a in
      let heard : listener
          ≡ respond_to_handshake hmac now' (packet challenge) true
              (deliver (get_elem? initiator.sent 1)) b =
        replies
        ∙ ap
            (λ m.
              respond_to_handshake hmac now' (deliver m) true (deliver (get_elem? initiator.sent 1))
                b)
            first in
      let answered : initiator ≡ perform_handshake hmac now fresh true (packet response) true ip a =
        plays
        ∙ ap (λ o. perform_handshake hmac now fresh true (deliver (get_elem? o.sent 0)) true ip a)
            heard in
      let (verified, judged) = verify_challenge_response-answer now now' fresh ip a b in
      let result : get_elem? initiator.sent 1
          ≡ some (auth_result (verify_challenge_response hmac response a.secret_key waiting).0) =
        ap (λ o. get_elem? o.sent 1) answered in
      (
        ap (λ o. o.returned) answered ∙ ap some verified,
        ap (λ o. o.returned) heard ∙ ap (λ m. read_result (deliver m)) result ∙ ap some verified,
        subst
            (Judged
              (hmac b.secret_key (fresh <> b.node_id) == hmac a.secret_key (fresh <> b.node_id))
              b.node_id a.secret_key a)
            (sym (ap (λ o. o.state) answered)) judged,
        ap (λ o. o.state) heard,
      )
