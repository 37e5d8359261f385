-- ===== src/Swarm/Discovery/Targets.antt =====
-- swarm/discovery.py: whom one turn of `_broadcast_loop` sends to.
use anp_edge_swarm.Base.{
  ℕ, String, ◌≡◌, ◌∙◌, inl, inr, ◌==◌, Bool, true, false, ◌||◌, List, [], ◌∷◌, ◌++◌, if◌then◌else◌,
  any, map, refl, ap, sym, Bool-cases, arith, eq_iff,
}
use anp_edge_swarm.Base.Counts.{times, times-append}
use anp_edge_swarm.Dict
use anp_edge_swarm.Dict.{Dict}
use anp_edge_swarm.Swarm.Discovery.{Node, add_targets, broadcasts, broadcast_targets}

module _ (x : String) where
  abbrev pub among : List String → Bool
  among ts = any (λ t. t == x) ts

  -- The text is in the list once, or it is not there.
  abbrev pub once : List String → ℕ
  once ts = if among ts then 1 else 0

  any-append : (ts us : List String) → among (ts ++ us) ≡ among ts || among us
  any-append [] us = refl
  any-append (t ∷ ts) us = ground (arith, any-append ts us)

  among-same :
      (ip : String) (ts : List String) → any (λ t. t == ip) ts ≡ true → ip ≡ x → among ts ≡ true
  among-same ip ts h e = ap (λ i. any (λ t. t == i) ts) (sym e) ∙ h

  among-other :
      (ip : String) (ts : List String) → any (λ t. t == ip) ts ≡ false → ip ≡ x → among ts ≡ false
  among-other ip ts h e = ap (λ i. any (λ t. t == i) ts) (sym e) ∙ h

  once-append :
      (ip : String) (ts : List String)
      → any (λ t. t == ip) ts ≡ false
      → times x ts ≡ once ts
      → times x (ts ++ ip ∷ []) ≡ once (ts ++ ip ∷ [])
  once-append ip ts e h = elim (Bool-cases (ip == x)) [
    | inl q ↦
        let same : ip ≡ x = (eq_iff ip x).0 q in
        let new : among ts ≡ false = among-other ip ts e same in
        rw (times-append x ts (ip ∷ []), any-append ts (ip ∷ [])) (ground (arith, eq_iff x ip))
    | inr q ↦
        rw (times-append x ts (ip ∷ []), any-append ts (ip ∷ []))
          (ground (arith, eq_iff x ip, eq_iff ip x))
  ]

  among-cons :
      (ip : String) (ips ts : List String)
      → any (λ t. t == ip) ts ≡ true
      → among ts || among ips ≡ among ts || among (ip ∷ ips)
  among-cons ip ips ts e = elim (Bool-cases (ip == x)) [
    | inl q ↦
        let there : among ts ≡ true = among-same ip ts e ((eq_iff ip x).0 q) in rw (there) refl
    | inr q ↦ rw q refl
  ]

  add_targets-times :
      (ips ts : List String)
      → times x ts ≡ once ts
      → times x (add_targets ts ips) ≡ (if among ts || among ips then 1 else 0)
  unfolding add_targets
  add_targets-times [] ts h = ground arith
  add_targets-times (ip ∷ ips) ts h = elim (Bool-cases (any (λ t. t == ip) ts)) [
    | inl e ↦
        rw e (add_targets-times ips ts h ∙ ap (λ b. if b then 1 else 0) (among-cons ip ips ts e))
    | inr e ↦ rw e (
        add_targets-times ips (ts ++ ip ∷ []) (once-append ip ts e h)
        ∙ rw (any-append ts (ip ∷ [])) (ground arith))
  ]

  broadcasts-times : times x broadcasts ≡ once broadcasts
  broadcasts-times =
      once-append "192.168.1.255" ("255.255.255.255" ∷ []) refl
        (once-append "255.255.255.255" [] refl refl)

-- One turn sends once to each of the two broadcast addresses and of the addresses of the known nodes,
-- and to no other.
pub broadcast_targets-times :
    (x : String) (known : Dict Node)
    → times x (broadcast_targets known)
      ≡ once x (broadcasts ++ map (λ v. v.addr) (Dict.values known))
unfolding broadcast_targets
broadcast_targets-times x known =
    add_targets-times x (map (λ v. v.addr) (Dict.values known)) broadcasts (broadcasts-times x)
    ∙ ap (λ b. if b then 1 else 0)
        (sym (any-append x broadcasts (map (λ v. v.addr) (Dict.values known))))
