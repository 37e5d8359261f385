-- ===== src/Swarm/Health/Transitions.antt =====
-- swarm/health_monitor.py: a dead node stays out until its handshake is validated.
use anp_edge_swarm.Base.{
  ℕ, ◌+◌, leb, leb, String, ◌==◌, eq_iff, ◌≡◌, ◌≢◌, ◌∙◌, sym, subst, Bool, true, false, not, Option,
  none, some, List, [], ◌∷◌, arith, Option-cases, Bool-cases, inl, inr, ◌||◌, ◌&&◌,
}
use mathlib.Core.Bool.{false≢true}
use anp_edge_swarm.Dict
use anp_edge_swarm.Dict.{Dict, get-put, get-remove, get-put_self, or_default}
use anp_edge_swarm.Swarm.Distributor.{Peer, address_of}
use anp_edge_swarm.Swarm.Health.{
  Monitor, NodeHealth, Ping, is_dead, is_alive, is_reconnecting, on_answer, on_failure,
  on_node_dead, record_state_change, set_health, publish, enter, fresh_health, check_peer,
  check_peers, expire, timed_out, round, get_node_status, is_node_trusted, max_retries,
}

-- The table of the monitor that a node is read from.
abbrev pub health_of : String → Monitor → Option NodeHealth
health_of node m = Dict.get node m.node_health

abbrev barred : Bool → Option NodeHealth → Bool
barred pending none = false
barred pending (some h) =
    (is_dead h.status && leb max_retries h.fail_count) || (pending && not (is_alive h.status))

-- The node is dead after its pings failed, or it waits for the validation of its handshake and is not alive.
abbrev pub IsQuarantined : String → Monitor → Type 0
IsQuarantined node m = barred (Dict.has node m.rejoin_pending) (health_of node m) ≡ true

-- `t` has the same entries for the node as `s`.
record SameNode (node : String) (s t : Monitor) : Type 0 where
  health_eq : health_of node t ≡ health_of node s
  pending_eq : Dict.has node t.rejoin_pending ≡ Dict.has node s.rejoin_pending

SameNode-IsQuarantined :
    (node : String) (s t : Monitor)
    → SameNode node s t
    → IsQuarantined node s
    → IsQuarantined node t
SameNode-IsQuarantined node s t same h = rw (same.health_eq, same.pending_eq) h

module _ (node other : String) (differ : other ≢ node) where
  get-put_ne :
      {V : Type 0} (v : V) (d : Dict V) → Dict.get node (Dict.put other v d) ≡ Dict.get node d
  get-put_ne v d = ground (arith, get-put other node v d, eq_iff other node)

  get-remove_ne : {V : Type 0} (d : Dict V) → Dict.get node (Dict.remove other d) ≡ Dict.get node d
  get-remove_ne d = ground (arith, get-remove other node d, eq_iff other node)

  on_answer-SameNode :
      (now : ℕ) (v : Bool) (ms : ℕ) (h : NodeHealth) (m : Monitor)
      → SameNode node m (on_answer now other v ms h m)
  unfolding on_answer Dict.has
  on_answer-SameNode now v ms h m = grind (arith, get-put_ne, get-remove_ne)

  on_failure-SameNode :
      (now : ℕ) (deliver : ℕ → String → Bool) (peers : Dict Peer) (h : NodeHealth) (m : Monitor)
      → SameNode node m (on_failure now other deliver peers h m)
  unfolding on_failure on_node_dead Dict.has
  on_failure-SameNode now deliver peers h m = grind (arith, get-put_ne)

  enter-SameNode : (now : ℕ) (ip : String) (m : Monitor) → SameNode node m (enter now other ip m)
  unfolding enter
  enter-SameNode now ip m = grind (arith, get-put_ne)

on_answer-own :
    (now : ℕ) (node : String) (ms : ℕ) (h : NodeHealth) (m : Monitor)
    → barred (Dict.has node m.rejoin_pending) (some h) ≡ true
    → IsQuarantined node (on_answer now node false ms h m)
unfolding on_answer set_health record_state_change Dict.has is_dead is_alive
on_answer-own now node ms h m q = grind (arith, get-put_self)

on_failure-own :
    (now : ℕ) (node : String) (deliver : ℕ → String → Bool) (peers : Dict Peer) (h : NodeHealth)
    (m : Monitor)
    → barred (Dict.has node m.rejoin_pending) (some h) ≡ true
    → IsQuarantined node (on_failure now node deliver peers h m)
unfolding on_failure set_health record_state_change publish on_node_dead is_dead is_alive
on_failure-own now node deliver peers h m q = grind (arith, get-put_self)

-- The entry that a ping of the node reads is the one that keeps it out.
entered-barred :
    (now : ℕ) (node ip : String) (m : Monitor) (count : ℕ)
    → IsQuarantined node m
    → let entered = enter now node ip m in
      let old = or_default (fresh_health now) (Dict.get node entered.node_health) in
      barred
        (Dict.has node entered.rejoin_pending)
        (some (record old { ping_count = old.ping_count + 1 }))
      ≡ true
unfolding enter Dict.has
entered-barred now node ip m count q = grind (arith, Option-cases (health_of node m))

check_peer-own :
    (now : ℕ) (deliver : ℕ → String → Bool) (validated : String → Bool) (peers : Dict Peer)
    (ping : Ping) (node ip : String) (m : Monitor)
    → validated node ≡ false
    → IsQuarantined node m
    → IsQuarantined node (check_peer now deliver validated peers ping node ip m)
unfolding check_peer
check_peer-own now deliver validated peers ping node ip m off q =
    let entered = enter now node ip m in
    let old = or_default (fresh_health now) (Dict.get node entered.node_health) in
    let h : NodeHealth = record old { ping_count = old.ping_count + 1 } in
    let out = entered-barred now node ip m 0 q in
    elim (Option-cases ping) [
      | inl lost ↦ rw lost (on_failure-own now node deliver peers h entered out)
      | inr (ms, back) ↦ rw (back, off) (on_answer-own now node ms h entered out)
    ]

check_peer-other :
    (now : ℕ) (deliver : ℕ → String → Bool) (validated : String → Bool) (peers : Dict Peer)
    (ping : Ping) (node other ip : String) (m : Monitor)
    → other ≢ node
    → IsQuarantined node m
    → IsQuarantined node (check_peer now deliver validated peers ping other ip m)
unfolding check_peer
check_peer-other now deliver validated peers ping node other ip m differ q =
    let entered = enter now other ip m in
    let q' = SameNode-IsQuarantined node m entered (enter-SameNode node other differ now ip m) q in
    elim (Option-cases ping) [
      | inl lost ↦ rw lost (
          SameNode-IsQuarantined node entered _
            (on_failure-SameNode node other differ now deliver peers _ entered) q')
      | inr (ms, back) ↦ rw back (
          SameNode-IsQuarantined node entered _
            (on_answer-SameNode node other differ now (validated other) ms _ entered) q')
    ]

check_peer-IsQuarantined :
    (now : ℕ) (deliver : ℕ → String → Bool) (validated : String → Bool) (peers : Dict Peer)
    (ping : Ping) (node other ip : String) (m : Monitor)
    → validated node ≡ false
    → IsQuarantined node m
    → IsQuarantined node (check_peer now deliver validated peers ping other ip m)
check_peer-IsQuarantined now deliver validated peers ping node other ip m off q =
    elim (Bool-cases (other == node)) [
      | inl e ↦
          subst (λ i. IsQuarantined node (check_peer now deliver validated peers ping i ip m))
            (sym ((eq_iff other node).0 e))
            (check_peer-own now deliver validated peers ping node ip m off q)
      | inr e ↦
          check_peer-other now deliver validated peers ping node other ip m
            (λ same. false≢true (sym e ∙ (eq_iff other node).1 same)) q
    ]

check_peers-IsQuarantined :
    (now : ℕ) (deliver : ℕ → String → Bool) (validated : String → Bool) (ping : String → Ping)
    (all rest : Dict Peer) (node : String) (m : Monitor)
    → validated node ≡ false
    → IsQuarantined node m
    → IsQuarantined node (check_peers now deliver validated ping all rest m)
unfolding check_peers
check_peers-IsQuarantined now deliver validated ping all [] node m off q = q
check_peers-IsQuarantined now deliver validated ping all ((other, p) ∷ rest) node m off q =
    check_peers-IsQuarantined now deliver validated ping all rest node _ off
      (elim (Bool-cases (address_of p == "")) [
        | inl e ↦ rw e q
        | inr e ↦ rw e (
            check_peer-IsQuarantined now deliver validated all (ping (address_of p)) node other
              (address_of p) m off q)
      ])

expire-IsQuarantined :
    (now : ℕ) (names : List String) (node : String) (m : Monitor)
    → IsQuarantined node m
    → IsQuarantined node (expire now names m)
unfolding expire set_health record_state_change publish timed_out is_dead is_alive is_reconnecting
expire-IsQuarantined now [] node m q = q
expire-IsQuarantined now (other ∷ rest) node m q =
    expire-IsQuarantined now rest node _ (grind (arith, get-put, eq_iff))

-- A node that is dead after three failed pings, or that waits for the validation of its handshake
-- and is not alive, is still so after any round in which its handshake is not validated: answered pings, of this
-- node and of the others, are not enough.
pub round-IsQuarantined :
    (now : ℕ) (deliver : ℕ → String → Bool) (validated : String → Bool) (ping : String → Ping)
    (peers : Dict Peer) (node : String) (m : Monitor)
    → validated node ≡ false
    → IsQuarantined node m
    → IsQuarantined node (round now deliver validated ping peers m)
unfolding round
round-IsQuarantined now deliver validated ping peers node m off q =
    let checked = check_peers now deliver validated ping peers peers m in
    expire-IsQuarantined now (Dict.keys checked.node_health) node checked
      (check_peers-IsQuarantined now deliver validated ping peers peers node m off q)

-- A node that is dead after three failed pings, or that waits for the validation of its handshake
-- and is not alive, is not trusted, at any time.
pub is_node_trusted-IsQuarantined :
    (now : ℕ) (node : String) (m : Monitor)
    → IsQuarantined node m
    → is_node_trusted now node m ≡ false
unfolding is_node_trusted get_node_status is_dead is_alive
is_node_trusted-IsQuarantined now node m q = grind (arith, Option-cases (health_of node m))
