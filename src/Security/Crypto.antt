-- ===== src/Security/Crypto.antt =====
-- security/crypto.py: `NodeSecurity`. HMAC-SHA256 and `json.dumps(..., sort_keys=True)` are the
-- arguments `hmac` and `dumps`; secrets, proofs and nonces are texts, and `compare_digest` compares
-- two of them, which are ASCII. The key file is not modelled: the secret is a field.
pub mod Signatures
pub mod Trust
pub mod Replay
use Prim.Native.String.{◌++◌ as ◌<>◌}
use anp_edge_swarm.Base.{
  ℕ, String, ◌==◌, Bool, true, false, not, ◌||◌, Option, none, some, List, [], ◌∷◌, any,
  if◌then◌else◌, length,
}
use anp_edge_swarm.Base.Json.{Json, truthy}
use anp_edge_swarm.Dict
use anp_edge_swarm.Dict.{Dict, or_default}

pub record Challenge : Type 0 where
  pub nonce : String
  pub created_at : ℕ
  pub answered : Bool

pub record Security : Type 0 where
  pub node_id : String
  pub secret_key : String
  pub trusted : Dict String
  pub blacklist : List String
  pub challenges : Dict Challenge

-- AUTH_CHALLENGE and AUTH_RESPONSE as they are sent, and as they are read: fields may be missing.
pub record Message : Type 0 where
  pub type_of : Option String
  pub sender_id : Option String
  pub peer_id : Option String
  pub nonce : Option String
  pub proof : Option String
  pub accepted : Option Bool
  pub timestamp : Option ℕ

abbrev pub no_fields : Message
no_fields = record {
  type_of = none;
  sender_id = none;
  peer_id = none;
  nonce = none;
  proof = none;
  accepted = none;
  timestamp = none;
}

-- The nonce that `secrets.token_hex` gives is an argument.
unfoldable pub create_challenge :
    (now : ℕ) (fresh : String) → String → Security → Message × Security
create_challenge now fresh peer_id s = (
  record no_fields {
    type_of = some "AUTH_CHALLENGE";
    sender_id = some s.node_id;
    peer_id = some peer_id;
    nonce = some fresh;
    timestamp = some now;
  },
  record s {
    challenges =
        Dict.put peer_id (record { nonce = fresh; created_at = now; answered = false })
          s.challenges;
  },
)

-- The first pending challenge of the nonce, with its key.
unfoldable pub find_challenge : String → Dict Challenge → Option (String × Challenge)
find_challenge nonce [] = none
find_challenge nonce ((key, entry) ∷ rest) =
    if entry.nonce == nonce then some (key, entry) else find_challenge nonce rest

-- The entry is answered, and stands under the id of the peer.
unfoldable pub rekey : String → String → Challenge → Dict Challenge → Dict Challenge
rekey key peer_id entry challenges =
    if key == peer_id
    then Dict.put key (record entry { answered = true }) challenges
    else Dict.put peer_id (record entry { answered = true }) (Dict.remove key challenges)

unfoldable pub add_to_set : String → List String → List String
add_to_set x xs = if any (λ y. y == x) xs then xs else x ∷ xs

unfoldable pub is_trusted : String → Security → Bool
is_trusted node_id s = Dict.has node_id s.trusted

unfoldable pub is_blacklisted : String → Security → Bool
is_blacklisted node_id s = any (λ y. y == node_id) s.blacklist

abbrev pub unsigned : Dict Json → Dict Json
unsigned msg = Dict.remove "signed_by" (Dict.remove "signature" msg)

abbrev pub truthy_field : Option Json → Option Json
truthy_field none = none
truthy_field (some v) = if truthy v then some v else none

-- A signature that is no text never compares equal.
abbrev pub is_text : String → Json → Bool
is_text t (Json.str s) = s == t
is_text t _ = false

module _ (hmac : String → String → String) where
  unfoldable pub answer_challenge : (now : ℕ) → Message → Security → Message
  answer_challenge now challenge s =
      let nonce = or_default "" challenge.nonce in
      record no_fields {
        type_of = some "AUTH_RESPONSE";
        sender_id = some s.node_id;
        nonce = some nonce;
        proof = some (hmac s.secret_key (nonce <> s.node_id));
        timestamp = some now;
      }

  abbrev pub is_proof : String → Message → Bool
  is_proof secret response =
      or_default "" response.proof
      == hmac secret (or_default "" response.nonce <> or_default "" response.sender_id)

  -- The part of `verify_challenge_response` after the search for the challenge.
  unfoldable pub check_response :
      Option (String × Challenge) → Message → (peer_secret : String) → Security → Bool × Security
  unfolding rekey add_to_set
  check_response none response peer_secret s = (false, s)
  check_response (some (key, entry)) response peer_secret s =
      let peer_id = or_default "" response.sender_id in
      if is_proof peer_secret response
      then (
        true,
        record s {
          challenges = rekey key peer_id entry s.challenges;
          trusted = Dict.put peer_id peer_secret s.trusted;
        },
      )
      else (false, record s { blacklist = add_to_set peer_id s.blacklist })

  unfoldable pub verify_challenge_response :
      Message → (peer_secret : String) → Security → Bool × Security
  unfolding find_challenge check_response
  verify_challenge_response response peer_secret s =
      check_response (find_challenge (or_default "" response.nonce) s.challenges) response
        peer_secret s

  module _ (dumps : Dict Json → String) where
    -- The message is signed in place.
    unfoldable pub sign_message : Dict Json → Security → Dict Json
    sign_message msg s =
        Dict.put "signed_by" (Json.str s.node_id)
          (Dict.put "signature" (Json.str (hmac s.secret_key (dumps (unsigned msg)))) msg)

    abbrev pub check_signature :
        (sig by : Option Json) (rest : Dict Json) (peer_secret : String) → Bool × Dict Json
    check_signature none by rest peer_secret = (false, rest)
    check_signature (some sig) none rest peer_secret = (false, rest)
    check_signature (some sig) (some by) rest peer_secret = (
      is_text (hmac peer_secret (dumps rest)) sig,
      Dict.put "signed_by" by (Dict.put "signature" sig rest),
    )

    -- With the answer comes the caller's message as it is left.
    unfoldable pub verify_signature : Dict Json → (peer_secret : String) → Bool × Dict Json
    verify_signature msg peer_secret =
        check_signature (truthy_field (Dict.get "signature" msg))
          (truthy_field (Dict.get "signed_by" msg)) (unsigned msg) peer_secret

pub record Status : Type 0 where
  pub trusted : ℕ
  pub blacklisted : ℕ
  pub challenges : ℕ

-- The node's id, cut to twelve characters, is left out.
unfoldable pub get_status : Security → Status
get_status s = record {
  trusted = length s.trusted;
  blacklisted = length s.blacklist;
  challenges = length s.challenges;
}
