-- ===== src/Core/AutoTrigger.antt =====
-- core/auto_trigger.py: `AutoTrigger`, one turn of `_watch_loop`. The ids that joined or left are
-- taken in the order of the dicts, where the code takes them in the order of a set.
pub mod Turn
use anp_edge_swarm.Base.{
  ℕ, String, ◌==◌, Bool, true, false, ◌||◌, Option, none, some, List, [], ◌∷◌, if◌then◌else◌, any,
}
use anp_edge_swarm.Dict
use anp_edge_swarm.Dict.{Dict}
use anp_edge_swarm.Agents.Factory.{Factory, create_from_intent}
use anp_edge_swarm.Swarm.Peers.{Known}

pub record AutoTrigger : Type 0 where
  pub known_peers : Dict Known
  pub factory : Factory

-- "sensor" in roles or "worker" in roles
unfoldable pub is_served : List String → Bool
is_served roles = any (λ r. r == "sensor") roles || any (λ r. r == "worker") roles

module _ (new_id : String → ℕ → String) where
  abbrev pub monitor : String → Factory → Factory
  monitor sensor_type f = (create_from_intent new_id (sensor_type ∷ []) (some "normal") f).1

  -- `_on_device_join`: for images and audio the code only prints a line.
  unfoldable pub on_device_join : Known → Factory → Factory
  unfolding is_served
  on_device_join info f =
      if is_served info.roles
      then monitor "materials" (monitor "temperature" (monitor "attendance" f))
      else f

  unfoldable pub join_if : (was_known : Bool) → String → Known → AutoTrigger → AutoTrigger
  unfolding on_device_join
  join_if true peer_id info s = s
  join_if false peer_id info s = record {
    known_peers = Dict.put peer_id info s.known_peers;
    factory = on_device_join info s.factory;
  }

  -- The first loop, over the current peers; `previous` are those known before the turn.
  unfoldable pub add_joined : (previous : Dict Known) → Dict Known → AutoTrigger → AutoTrigger
  unfolding join_if
  add_joined previous [] s = s
  add_joined previous ((peer_id, info) ∷ rest) s =
      add_joined previous rest (join_if (Dict.has peer_id previous) peer_id info s)

-- The second loop, over the previous peers.
unfoldable pub remove_left : (current : Dict Known) → Dict Known → Dict Known → Dict Known
remove_left current [] known = known
remove_left current ((peer_id, info) ∷ rest) known =
    remove_left current rest (if Dict.has peer_id current then known else Dict.remove peer_id known)

unfoldable pub watch_turn :
    (new_id : String → ℕ → String) (current : Dict Known) → AutoTrigger → AutoTrigger
unfolding add_joined remove_left
watch_turn new_id current s =
    let joined = add_joined new_id s.known_peers current s in
    record joined { known_peers = remove_left current s.known_peers joined.known_peers }
