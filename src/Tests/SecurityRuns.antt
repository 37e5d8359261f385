-- ===== src/Tests/SecurityRuns.antt =====
-- security/ and db/db_agent.py: two nodes with one secret, and a payload of one record.
use anp_edge_swarm.Base.{ℕ, String, ◌==◌, ◌≡◌, refl, Bool, true, some, List, [], ◌∷◌, get_elem?}
use Prim.Native.String.{◌++◌ as ◌<>◌}
use anp_edge_swarm.Base.Json.{Json, Items, Fields}
use anp_edge_swarm.Dict
use anp_edge_swarm.Dict.{Dict}
use anp_edge_swarm.Security.Crypto.{
  Security, Message, create_challenge, answer_challenge, verify_challenge_response, is_trusted,
  sign_message, verify_signature, find_challenge, check_response, rekey,
}
use anp_edge_swarm.Security.Crypto.Trust.{Event, Proven, run, run-Proven}
use anp_edge_swarm.Security.Crypto.Replay.{verify_challenge_response-again}
use anp_edge_swarm.Security.Crypto.Signatures.{verify-sign}
use anp_edge_swarm.Security.Handshake.{
  Received, Outcome, auth_result, perform_handshake, respond_to_handshake,
}
use anp_edge_swarm.Security.Handshake.Exchange.{
  Judged, deliver, perform_handshake-respond_to_handshake,
}
use anp_edge_swarm.Db.Agent.{accepted_items, handle_incoming}
use anp_edge_swarm.Db.Agent.Interface.{json_files, json_files-IsAdapter}
use anp_edge_swarm.Db.Agent.Incoming.{IsFound, last_received, handle_incoming-IsFound}

abbrev mac : String → String → String
mac secret text = secret <> (":" <> text)

abbrev node : String → Security
node id = record { node_id = id; secret_key = "s"; trusted = []; blacklist = []; challenges = [] }

abbrev asked : Message × Security
unfolding create_challenge
asked = create_challenge 1 "n1" "10.0.0.2" (node "a")

abbrev answer : Message
unfolding answer_challenge
answer = answer_challenge mac 2 asked.0 (node "b")

abbrev events : List Event
events = Event.gets_response answer "s" ∷ Event.makes_challenge 1 "n1" "10.0.0.2" ∷ []

b_trusted : is_trusted "b" (run mac events (node "a")) ≡ true
unfolding is_trusted run answer asked create_challenge answer_challenge verify_challenge_response
    find_challenge check_response rekey Dict.has Dict.get Dict.put Dict.remove
b_trusted = refl

run-Proven_example :
    (secret : String) × (Dict.get "b" (run mac events (node "a")).trusted ≡ some secret)
    × Proven mac "b" secret events
run-Proven_example = run-Proven mac events (node "a") "b" refl refl b_trusted

b_accepted : (verify_challenge_response mac answer "s" asked.1).0 ≡ true
unfolding answer asked create_challenge answer_challenge verify_challenge_response find_challenge
    check_response Dict.put
b_accepted = refl

verify_challenge_response-again_example :
    (verify_challenge_response mac answer "s"
      (verify_challenge_response mac answer "s" asked.1).1).0
    ≡ true
verify_challenge_response-again_example =
    verify_challenge_response-again mac answer "s" asked.1 b_accepted

abbrev dumps : Dict Json → String
dumps d = "text"

abbrev message : Dict Json
message = ("type", Json.str "TASK") ∷ ("signature", Json.num 3) ∷ []

verify-sign_example :
    let signed = sign_message mac dumps message (node "a") in
    let checked = verify_signature mac dumps signed "s" in
    (checked.0 ≡ true) × ((k : String) → Dict.get k checked.1 ≡ Dict.get k signed)
verify-sign_example = verify-sign mac dumps message (node "a") refl refl

abbrev initiator : Outcome
unfolding perform_handshake answer
initiator = perform_handshake mac 1 "n1" true (Received.packet answer) true "10.0.0.2" (node "a")

abbrev listener : Outcome
unfolding respond_to_handshake asked
listener =
    respond_to_handshake mac 2 (Received.packet asked.0) true (Received.packet (auth_result true))
      (node "b")

plays :
    initiator
    ≡ perform_handshake mac 1 "n1" true
        (deliver (get_elem? listener.sent 0))
        true
        "10.0.0.2"
        (node "a")
unfolding initiator listener Dict.put
plays = refl

replies :
    listener
    ≡ respond_to_handshake mac 2
        (deliver (get_elem? initiator.sent 0))
        true
        (deliver (get_elem? initiator.sent 1))
        (node "b")
unfolding initiator listener Dict.put
replies = refl

perform_handshake-respond_to_handshake_example :
    let same = mac "s" ("n1" <> "b") == mac "s" ("n1" <> "b") in
    (initiator.returned ≡ some same)
    × (listener.returned ≡ some same)
    × Judged same "b" "s" (node "a") initiator.state
    × (listener.state ≡ node "b")
perform_handshake-respond_to_handshake_example =
    perform_handshake-respond_to_handshake mac 1 2 "n1" "10.0.0.2" (node "a") (node "b") initiator
      listener plays replies

abbrev payload : Json
payload = Json.obj (
    Fields.field "type" (Json.str "DB_SYNC") (
      Fields.field "table" (Json.str "sensor_readings") (
        Fields.field "records"
          (Json.arr (
            Items.cons
              (Json.obj (
                Fields.field "record_id" (Json.str "r1")
                  (Fields.field "value_num" (Json.num 21) Fields.end)))
              Items.nil))
          Fields.end)))

abbrev shown : Json → String
shown v = "?"

abbrev new_id : ℕ → String
new_id n = "fresh"

abbrev stored : (table key : String) → Bool
stored table key = true

handle_incoming-IsFound_example :
    IsFound shown "now" new_id json_files stored json_files-IsAdapter "n"
      (last_received shown "now" new_id "r1" 0
        (accepted_items json_files "n" shown "now" new_id payload))
      "r1"
      9
      []
      (handle_incoming json_files "n" shown "now" new_id 1000 200 (some payload) [])
handle_incoming-IsFound_example =
    handle_incoming-IsFound shown "now" new_id json_files stored json_files-IsAdapter "n" 1000 200
      payload "r1" 9 [] refl
