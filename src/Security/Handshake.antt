-- ===== src/Security/Handshake.antt =====
-- security/handshake.py: the two sides of the handshake. What a side receives is an argument, as is
-- whether its sends succeed; the messages that it sent are part of the result. An exception that
-- the code does not catch is `none`.
pub mod Exchange
use anp_edge_swarm.Base.{
  ℕ, String, ◌==◌, Bool, true, false, Option, none, some, List, [], ◌∷◌, if◌then◌else◌,
}
use anp_edge_swarm.Dict.{or_default}
use anp_edge_swarm.Security.Crypto.{
  Security, Message, no_fields, create_challenge, answer_challenge, verify_challenge_response,
}

-- What `_recv_all` and `json.loads` give: no data before the timeout or the end of the connection,
-- bytes that are no JSON, JSON that is no object, or a message.
pub data Received : Type 0 where
  nothing : Received
  no_json : Received
  no_object : Received
  packet : Message → Received

pub record Outcome : Type 0 where
  pub returned : Option Bool
  pub sent : List Message
  pub state : Security

abbrev pub has_type : String → Message → Bool
has_type kind m = or_default "" m.type_of == kind

abbrev pub auth_result : Bool → Message
auth_result verified = record no_fields { type_of = some "AUTH_RESULT"; accepted = some verified }

-- A message of the expected type goes to `next`; anything else ends the handshake.
abbrev pub receive :
    Received → (kind : String) (ended : Option Bool → Outcome) (next : Message → Outcome) → Outcome
receive nothing kind ended next = ended (some false)
receive no_json kind ended next = ended (some false)
receive no_object kind ended next = ended none
receive (packet m) kind ended next = if has_type kind m then next m else ended (some false)

-- The end of the listener's side: the result is read whatever its type.
abbrev pub read_result : Received → Option Bool
read_result nothing = some false
read_result no_json = some false
read_result no_object = none
read_result (packet m) = some (or_default false m.accepted)

module _ (hmac : String → String → String) where
  -- The peer is checked with this node's own secret. If the result cannot be sent the peer stays as
  -- it was judged, though the answer is False.
  unfoldable pub perform_handshake :
      (now : ℕ) (fresh : String)
      → (sends_challenge : Bool) (received : Received) (sends_result : Bool) → (peer_ip : String)
      → Security
      → Outcome
  unfolding create_challenge verify_challenge_response
  perform_handshake now fresh sends_challenge received sends_result peer_ip s =
      let (challenge, waiting) = create_challenge now fresh peer_ip s in
      let ended : Bool → Option Bool → Outcome = λ sends returned. record {
        returned = returned;
        sent = if sends then challenge ∷ [] else [];
        state = waiting;
      } in
      if sends_challenge
      then receive received "AUTH_RESPONSE" (ended true) (λ response.
        let (verified, judged) =
          verify_challenge_response hmac response waiting.secret_key waiting in
        record {
          returned = some (if sends_result then verified else false);
          sent = if sends_result then challenge ∷ auth_result verified ∷ [] else challenge ∷ [];
          state = judged;
        })
      else ended false (some false)

  unfoldable pub respond_to_handshake :
      (now : ℕ) (received : Received) (sends_response : Bool) (result : Received)
      → Security
      → Outcome
  unfolding answer_challenge
  respond_to_handshake now received sends_response result s =
      receive received "AUTH_CHALLENGE"
        (λ returned. record { returned = returned; sent = []; state = s })
        (λ challenge. record {
          returned = if sends_response then read_result result else some false;
          sent = if sends_response then answer_challenge hmac now challenge s ∷ [] else [];
          state = s;
        })
