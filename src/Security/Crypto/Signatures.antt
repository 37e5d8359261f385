-- ===== src/Security/Crypto/Signatures.antt =====
-- security/crypto.py: what is signed is verified with the signer's secret.
use anp_edge_swarm.Base.{
  String, ◌==◌, eq_iff, eq_refl, ◌≡◌, ◌∙◌, refl, ap, true, false, some, [], ◌∷◌, arith,
}
use anp_edge_swarm.Base.Json.{Json, truthy}
use anp_edge_swarm.Dict
use anp_edge_swarm.Dict.{Dict, get-put, get-put_self, get-remove}
use anp_edge_swarm.Security.Crypto.{
  Security, sign_message, verify_signature, unsigned, truthy_field,
}

remove-put_self :
    {V : Type 0} (k : String) (v : V) (d : Dict V)
    → Dict.remove k (Dict.put k v d) ≡ Dict.remove k d
unfolding Dict.remove Dict.put
remove-put_self k v [] = ground (arith, eq_refl k)
remove-put_self k v ((j, w) ∷ d) = ground (arith, remove-put_self k v d, eq_refl k)

remove-put_ne :
    {V : Type 0} (k j : String) (v : V) (d : Dict V)
    → (j == k) ≡ false
    → Dict.remove k (Dict.put j v d) ≡ Dict.put j v (Dict.remove k d)
unfolding Dict.remove Dict.put
remove-put_ne k j v [] h = ground (arith, h)
remove-put_ne k j v ((i, w) ∷ d) h =
    ground (arith, h, remove-put_ne k j v d h, eq_iff i k, eq_iff i j, eq_iff j k)

-- What a signed message has besides the signature is what it had.
unsigned-signed :
    (sig by : Json) (msg : Dict Json)
    → unsigned (Dict.put "signed_by" by (Dict.put "signature" sig msg)) ≡ unsigned msg
unsigned-signed sig by msg =
    ap (Dict.remove "signed_by")
      (remove-put_ne "signature" "signed_by" by (Dict.put "signature" sig msg) refl)
    ∙ remove-put_self "signed_by" by (Dict.remove "signature" (Dict.put "signature" sig msg))
    ∙ ap (Dict.remove "signed_by") (remove-put_self "signature" sig msg)

get-signed :
    (sig by : Json) (msg : Dict Json) (k : String)
    → Dict.get k (Dict.put "signed_by" by (Dict.put "signature" sig (unsigned msg)))
      ≡ Dict.get k (Dict.put "signed_by" by (Dict.put "signature" sig msg))
get-signed sig by msg k = grind (
  arith,
  get-put "signed_by" k by,
  get-put "signature" k sig,
  get-remove "signed_by" k (Dict.remove "signature" msg),
  get-remove "signature" k msg,
)

module _ (hmac : String → String → String) (dumps : Dict Json → String) where
  verify-put :
      (sig by : String) (msg : Dict Json) (secret : String)
      → (sig == "") ≡ false
      → (by == "") ≡ false
      → verify_signature hmac dumps
          (Dict.put "signed_by" (Json.str by) (Dict.put "signature" (Json.str sig) msg))
          secret
        ≡ (
          sig == hmac secret (dumps (unsigned msg)),
          Dict.put "signed_by" (Json.str by) (Dict.put "signature" (Json.str sig) (unsigned msg)),
        )
  unfolding verify_signature truthy
  verify-put sig by msg secret some_sig some_by =
      let found_by =
        get-put_self "signed_by" (Json.str by) (Dict.put "signature" (Json.str sig) msg) in
      let found_sig : Dict.get "signature"
            (Dict.put "signed_by" (Json.str by) (Dict.put "signature" (Json.str sig) msg))
          ≡ some (Json.str sig) =
        get-put "signed_by" "signature" (Json.str by) (Dict.put "signature" (Json.str sig) msg)
        ∙ get-put_self "signature" (Json.str sig) msg in
      let kept : truthy_field (some (Json.str sig)) ≡ some (Json.str sig) =
        ground (arith, some_sig) in
      let kept_by : truthy_field (some (Json.str by)) ≡ some (Json.str by) =
        ground (arith, some_by) in
      rw (found_by, found_sig, unsigned-signed (Json.str sig) (Json.str by) msg)
        (rw (kept, kept_by) refl)

  -- A node's signature is verified with the node's secret, and the message is given back with the
  -- fields that it has. Neither the signature nor the node's id is empty.
  pub verify-sign :
      (msg : Dict Json) (s : Security)
      → (hmac s.secret_key (dumps (unsigned msg)) == "") ≡ false
      → (s.node_id == "") ≡ false
      → let signed = sign_message hmac dumps msg s in
        let checked = verify_signature hmac dumps signed s.secret_key in
        (checked.0 ≡ true) × ((k : String) → Dict.get k checked.1 ≡ Dict.get k signed)
  unfolding sign_message
  verify-sign msg s some_hash some_id =
      let sig = hmac s.secret_key (dumps (unsigned msg)) in
      let read = verify-put sig s.node_id msg s.secret_key some_hash some_id in
      (
        ap (λ c. c.0) read ∙ eq_refl sig,
        λ k. ap (λ c. Dict.get k c.1) read ∙ get-signed (Json.str sig) (Json.str s.node_id) msg k,
      )
