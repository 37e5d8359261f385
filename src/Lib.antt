-- ===== src/Lib.antt =====
-- Verification of EdgeMind, a swarm of edge nodes that find each other, share tasks, watch each
-- other's health and replicate their data, without a central server.
--
-- The parts, and the files that model them:
--   Base, Dict       helpers: lists, sorting, bits, JSON values, methods that may raise, dicts.
--   Swarm/Kbucket    swarm/kbucket.py: the routing table of the Kademlia DHT. `add_node`,
--                    `find_closest`, `evict_stale` and `size` are the methods; an exception is `none`.
--   Swarm/Kademlia   swarm/kademlia_node.py: the node on that table. `handle` is `_handle` on a parsed
--                    message, `listen` is the listener, Methods has `store`, `find_peer` (`ask_peer`,
--                    `peer_answer`), `announce_self` and the refresh round. It sends packets to a list.
--   Swarm/Mesh       swarm/bluetooth_mesh.py: `broadcast` and `on_receive`, with the duplicate cache.
--   Swarm/Distributor  swarm/task_distributor.py: `distribute_tasks` and `TaskDistributor`.
--   Swarm/Health     swarm/health_monitor.py: `round` is one turn of `_health_loop`; it hands the tasks
--                    of a dead node to the distributor through `on_node_dead`.
--   Bus              bus/event_bus.py and bus/message_bus.py, in which the agents of a node talk.
--   Security/Crypto  security/crypto.py: challenges, responses and signatures (`NodeSecurity`).
--   Security/Handshake  security/handshake.py: the two sides, `perform_handshake` and
--                    `respond_to_handshake`, on what they receive.
--   Swarm/Peers      swarm/peer_server.py, peer_client.py and peer_registry.py: `exchange_round` is a
--                    round of `_exchange_loop`; `get_known_nodes` is what the decomposer plans with.
--   Swarm/Discovery  swarm/discovery.py: `listen_turn` is a turn of `_listen_loop`.
--   Swarm/Results    swarm/result_collector.py: `collect` is a turn of its listener; `wait_for_results`
--                    recurs on the turns of its loop, which pass the deadline.
--   Db/JsonAdapter   db/adapters/json_adapter.py. Db/Sync: db/sync.py on the readings table of
--                    db/store.py and db/query.py.
--   Db/Agent         db/db_agent.py over `Adapter`, the interface of db/adapters/base.py, whose laws
--                    (Interface) the JSON adapter keeps.
--   Agents/Factory   agent_factory/factory.py, lifecycle.py and registry.py: `create_from_intent`, and
--                    timers as a list.
--   Ml/Decomposer    ml/task_decomposer.py: `decompose`.
--   Ml/Hierarchy     ml/model_hierarchy.py: the tier of a node and `route_task`.
--   Ml/Frames        the messages of ml/parallel_executor.py and ml/inference_server.py, byte by byte.
--   Ml/Executor, Ml/Assembler  ml/parallel_executor.py and ml/result_assembler.py: `execute` runs the
--                    decomposer's plan, `assemble` makes the output of its results, on which
--   Agents/Action    agents/action_agent.py acts, and core/action_planner.py plans.
--   Ml/Context       ml/context_manager.py, and the window of ml/stream_buffer.py.
--   Core/Intent      core/intent_parser.py. Core/AutoTrigger: a turn of core/auto_trigger.py.
--   Core/Reflection  core/reflective_decision.py, with what core/pipeline_trigger.py gives it.
--   Core/Pipeline    core/pipeline_trigger.py: `turn` is a turn of `_pipeline_loop`, which plans,
--                    executes, assembles, acts, records a decision and reflects on it.
--   Core/Goals       core/goal_manager.py. Core/Learning: core/self_improvement.py.
--   Tests            the theorems at concrete inputs.
--
-- A method is a function from the state to the state, with the time, generated ids and the outcome of
-- sends and pings as arguments, so that a theorem holds for all of them. Threads under a lock are
-- sequences of calls. Dicts are association lists in insertion order. A method that may raise gives
-- `none` with the state that it leaves (Base/Exec). Numbers are naturals: Python's integers here are
-- not negative and do not wrap around; scores and thresholds with one decimal are in halves or tenths.
-- No definition runs on fuel but `bit_length` and `tcp_send_with_retry`: the first has the number itself
-- as fuel, the second has the three attempts of the source.
--
-- Not modelled: sockets, threads and files; the prompts and answers of language models; floating-point
-- statistics; hardware measurements; the Agent Network Protocol library in anp/, which is a copy of
-- another project.
pub mod Agents
pub mod Base
pub mod Bus
pub mod Core
pub mod Db
pub mod Dict
pub mod Ml
pub mod Security
pub mod Swarm
pub mod Tests
