-- ===== src/Registry/Policy/Laws.antt =====
-- What the policy answers after it is changed, and after a round trip through its configuration.
use storetheindex.Prelude.{
  ◌≡◌, refl, ◌↔◌, inl, inr, true, false, not, Option, some, ◌==◌, arith, if◌then◌else◌, Bool-cases,
}
use storetheindex.Prelude.Result.{ok}
use storetheindex.PeerPolicy.{PeerId, eval, any}
use storetheindex.PeerPolicy.Laws.{
  eval-set_peer, set_peer_changed, any_iff, new_policy_strings-except_strings,
}
use storetheindex.Registry.Policy.{
  Policy, new, allowed, publish_allowed, allow_peer, block_peer, to_config, none_allowed,
}

-- After AllowPeer or BlockPeer the peer is allowed or not as asked, every other peer is as before,
-- who may publish is as before, and the result says whether the peer's standing changed.
pub allow_block :
    (p : Policy) (id q r : PeerId)
    → (allowed (allow_peer p id).0 q ≡ (if id == q then true else allowed p q))
      × (allowed (block_peer p id).0 q ≡ (if id == q then false else allowed p q))
      × (publish_allowed (allow_peer p id).0 q r ≡ publish_allowed p q r)
      × (publish_allowed (block_peer p id).0 q r ≡ publish_allowed p q r)
      × ((allow_peer p id).1 ≡ not (allowed p id))
      × ((block_peer p id).1 ≡ allowed p id)
unfolding allowed publish_allowed allow_peer block_peer
allow_block p id q r = (
  eval-set_peer p.allow id true q,
  eval-set_peer p.allow id false q,
  refl,
  refl,
  ground (arith, set_peer_changed p.allow id true),
  ground (arith, set_peer_changed p.allow id false),
)

-- NoneAllowed holds exactly if no peer is allowed.
pub none_allowed_iff :
    (p : Policy) → (none_allowed p ≡ true) ↔ ((id : PeerId) → allowed p id ≡ false)
unfolding none_allowed allowed
none_allowed_iff p = (none, all)
  where
    none : not (any p.allow true) ≡ true → (id : PeerId) → eval p.allow id ≡ false
    none h id = elim (Bool-cases (eval p.allow id)) [
      | inl e ↦ cc (h, (any_iff p.allow true).1 (id, e))
      | inr e ↦ e
    ]

    all : ((id : PeerId) → eval p.allow id ≡ false) → not (any p.allow true) ≡ true
    all h = elim (Bool-cases (any p.allow true)) [
      | inl e ↦ let (id, e') = (any_iff p.allow true).0 e in cc (h id, e')
      | inr e ↦ rw e
    ]

module _ {Text : Type 0} (encode : PeerId → Text) (decode : Text → Option PeerId)
    (decode-encode : (id : PeerId) → decode (encode id) ≡ some id) where
  -- A policy made from the configuration of a policy answers every question as that one does.
  pub new-to_config :
      (p : Policy) (q r : PeerId)
      → (p' : Policy) × (new decode (to_config encode p) ≡ ok p')
        × (allowed p' q ≡ allowed p q)
        × (publish_allowed p' q r ≡ publish_allowed p q r)
  unfolding new to_config allowed publish_allowed
  new-to_config p q r =
      let (a, made_a, same_a) =
        new_policy_strings-except_strings decode encode decode-encode p.allow q in
      let (b, made_b, same_b) =
        new_policy_strings-except_strings decode encode decode-encode p.publish q in
      (record { allow = a; publish = b }, rw (made_a, made_b, new), same_a, ground (arith, same_b))
