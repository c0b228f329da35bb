-- ===== src/Registry/Load/Laws.antt =====
-- A restart: what is loaded from a datastore that mirrors the registry.
use mathlib.Core.Option
use storetheindex.Prelude.{
  ℕ, suc, ◌≡◌, refl, ◌∙◌, Bool, true, false, Option, none, some, [], ◌∷◌, map, ◌==◌, ==_iff, arith,
  if◌then◌else◌, Bool-cases, inl, inr,
}
use storetheindex.Prelude.Dict
use storetheindex.Prelude.Dict.{Dict, IsDict, get-put}
use storetheindex.Prelude.Result.{ok}
use storetheindex.PeerPolicy.{PeerId}
use storetheindex.Registry.Policy.{Policy, allowed}
use storetheindex.Registry.State.{ProviderInfo, Found, found, persistent, Env, Registry}
use storetheindex.Registry.Register.{is_empty}
use storetheindex.Registry.Register.Persistence.{Holds, Mirrors}
use storetheindex.Registry.Update.{fill_publisher_addr}
use storetheindex.Registry.Load.{restore_publisher_addr, load_loop, load_persisted_providers}

module _ (env : Env) where
  restore-fill :
      (info : ProviderInfo)
      → is_empty info.addr_info.addrs ≡ false
      → restore_publisher_addr env info ≡ ok (fill_publisher_addr env info)
  unfolding restore_publisher_addr fill_publisher_addr
  restore-fill info h = ground arith

  -- Every stored value decodes to a provider with an address.
  abbrev IsGood : Dict env.Bytes → Type 0
  IsGood entries =
      (k : PeerId) (b : env.Bytes)
      → Dict.get entries k ≡ some b
      → (info : ProviderInfo) × (env.unmarshal b ≡ some info)
        × (is_empty info.addr_info.addrs ≡ false)

  -- What is loaded for a stored value, and `before` where there is none or the peer is not allowed.
  abbrev loaded : Bool → Option env.Bytes → Option ProviderInfo → Option ProviderInfo
  loaded allows none before = before
  loaded allows (some b) before =
      if allows then Option.map (fill_publisher_addr env) (env.unmarshal b) else before

  abbrev as_found : PeerId × env.Bytes → Found env.Bytes
  as_found (k, b) = found k b

  module _ (policy : Policy) where
    Loaded : Dict env.Bytes → Dict ProviderInfo → ℕ → Type 0
    Loaded entries m n =
        (m' : Dict ProviderInfo) × (n' : ℕ) × (load_loop env policy (map as_found entries) m n
          ≡ ok (m', n'))
        × ((k : PeerId)
            → Dict.get m' k ≡ loaded (allowed policy k) (Dict.get entries k) (Dict.get m k))

    IsGood-tail :
        (id : PeerId) (b : env.Bytes) (rest : Dict env.Bytes)
        → IsDict ((id, b) ∷ rest)
        → IsGood ((id, b) ∷ rest)
        → IsGood rest
    unfolding Dict.get
    IsGood-tail id b rest d g k c e = elim (Bool-cases (id == k)) [
      | inl own ↦ absurd (clash ((==_iff id k).0 own))
      | inr other ↦ g k c (rw other e)
    ]
      where
        clash : id ≡ k → ⊥
        clash p = cc (d.0, e, p)

    module _ (id : PeerId) (b : env.Bytes) (rest : Dict env.Bytes) (d : IsDict ((id, b) ∷ rest))
        (before : Option ProviderInfo) (k : PeerId) where
      absent : (id == k) ≡ true → Dict.get rest k ≡ none
      absent own = rw (← (==_iff id k).0 own) d.0

      past_blocked :
          allowed policy id ≡ false
          → loaded (allowed policy k) (Dict.get rest k) before
            ≡ loaded (allowed policy k) (Dict.get ((id, b) ∷ rest) k) before
      unfolding Dict.get
      past_blocked blocked = elim (Bool-cases (id == k)) [
        | inl own ↦
            let no_k : allowed policy k ≡ false = rw (← (==_iff id k).0 own) blocked in
            rw (own, absent own, no_k)
        | inr other ↦ rw other
      ]

      past_loaded :
          (info : ProviderInfo)
          → allowed policy id ≡ true
          → env.unmarshal b ≡ some info
          → loaded
              (allowed policy k)
              (Dict.get rest k)
              (if id == k then some (fill_publisher_addr env info) else before)
            ≡ loaded (allowed policy k) (Dict.get ((id, b) ∷ rest) k) before
      unfolding Dict.get
      past_loaded info fine decoded = elim (Bool-cases (id == k)) [
        | inl own ↦
            let yes_k : allowed policy k ≡ true = rw (← (==_iff id k).0 own) fine in
            rw (own, absent own, yes_k, decoded)
        | inr other ↦ rw other
      ]

    load_lem :
        (entries : Dict env.Bytes) (m : Dict ProviderInfo) (n : ℕ)
        → IsDict entries
        → IsGood entries
        → Loaded entries m n
    unfolding Loaded load_loop Dict.get
    load_lem [] m n d g = (m, n, refl, λ k. refl)
    load_lem ((id, b) ∷ rest) m n d g = elim (Bool-cases (allowed policy id)) [
      | inr blocked ↦
          let (m', n', run, gets) = load_lem rest m n d.1 (IsGood-tail id b rest d g) in
          (
            m',
            n',
            rw (blocked, load_loop) run,
            λ k. gets k ∙ past_blocked id b rest d (Dict.get m k) k blocked,
          )
      | inl fine ↦
          let (info, decoded, has) = g id b (rw ((==_iff id id).1 refl)) in
          let (m', n', run, gets) =
            load_lem rest (Dict.put m id (fill_publisher_addr env info)) (suc n) d.1
              (IsGood-tail id b rest d g) in
          (
            m',
            n',
            rw (fine, load_loop) (rw (decoded, load_loop) (rw (restore-fill info has) run)),
            λ k. gets k ∙ rw get-put (past_loaded id b rest d (Dict.get m k) k info fine decoded),
          )
    ]

-- What is known of a provider after a restart: what JSON keeps, with the publisher address filled in.
abbrev pub after_restart : Env → Policy → PeerId → Option ProviderInfo → Option ProviderInfo
after_restart env policy k none = none
after_restart env policy k (some info) =
    if allowed policy k then some (fill_publisher_addr env (persistent info)) else none

module _ (env : Env) (contents : env.State → Dict env.Bytes) (r : Registry env) (d : env.State)
    (policy : Policy) where
  good :
      Mirrors env contents r
      → r.dstore ≡ some d
      → ((k : PeerId) (info : ProviderInfo)
          → Dict.get r.providers k ≡ some info
          → is_empty info.addr_info.addrs ≡ false)
      → IsGood env (contents d)
  good mirrors here addrs k b e = go (Dict.get r.providers k) refl (mirrors d here k)
    where
      go :
          (o : Option ProviderInfo)
          → Dict.get r.providers k ≡ o
          → Holds env o (Dict.get (contents d) k)
          → (info : ProviderInfo) × (env.unmarshal b ≡ some info)
            × (is_empty info.addr_info.addrs ≡ false)
      go none p h = absurd (rw e at h)
      go (some info) p h = (persistent info, rw e at h, addrs k info p)

  kept_of :
      (o : Option ProviderInfo) (c : Option env.Bytes) (k : PeerId)
      → Holds env o c
      → loaded env (allowed policy k) c none ≡ after_restart env policy k o
  kept_of none none k h = refl
  kept_of (some info) (some b) k h = rw h
  kept_of none (some b) k h = absurd h
  kept_of (some info) none k h = absurd h

  -- After a restart with a datastore that mirrors the registry, and whose query succeeds, loading
  -- succeeds, and the new registry knows exactly the providers that the policy allows, each with what
  -- JSON keeps of it. It is assumed that every registered provider has an address.
  pub load-Mirrors :
      Mirrors env contents r
      → r.dstore ≡ some d
      → ((k : PeerId) (info : ProviderInfo)
          → Dict.get r.providers k ≡ some info
          → is_empty info.addr_info.addrs ≡ false)
      → IsDict (contents d)
      → env.query d ≡ some (map (as_found env) (contents d))
      → (m : Dict ProviderInfo) × (n : ℕ) × (load_persisted_providers env policy (some d)
          ≡ ok (m, n))
        × ((k : PeerId) → Dict.get m k ≡ after_restart env policy k (Dict.get r.providers k))
  unfolding load_persisted_providers Dict.get Loaded
  load-Mirrors mirrors here addrs distinct answered =
      let (m, n, run, gets) =
        load_lem env policy (contents d) [] 0 distinct (good mirrors here addrs) in
      (
        m,
        n,
        rw (answered, load_persisted_providers) run,
        λ k.
            gets k
            ∙ kept_of (Dict.get r.providers k) (Dict.get (contents d) k) k (mirrors d here k),
      )
