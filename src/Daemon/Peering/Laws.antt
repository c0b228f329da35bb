-- ===== src/Daemon/Peering/Laws.antt =====
-- The peers of the peering service after a reload.
use storetheindex.Prelude.{
  ◌≡◌, refl, ◌∙◌, Bool, true, false, not, ◌&&◌, ◌||◌, Option, none, some, List, [], ◌∷◌, elem, ◌==◌,
  arith, inl, inr, ◌⊎◌, Bool-cases, Option-cases, if◌then◌else◌, ==_iff,
}
use storetheindex.PeerPolicy.{PeerId}
use storetheindex.Registry.State.{Env, Text, Addr, AddrInfo}
use storetheindex.Daemon.Peering.{
  ids, Peerings, IsPeerings, remove_gone, add_all, parse_peers, reload_peering,
}

module _ (g : Peerings) (laws : IsPeerings g) where
  abbrev pub listed : g.Service → PeerId → Bool
  listed s id = elem id (ids (g.list_peers s))

  or_turn : (a b c : Bool) → (b || (a || c)) ≡ ((a || b) || c)
  or_turn a b c = ground arith

  listed-add_all :
      (cur : List AddrInfo) (s : g.Service) (id : PeerId)
      → listed (add_all g cur s) id ≡ (elem id (ids cur) || listed s id)
  unfolding add_all
  listed-add_all [] s id = refl
  listed-add_all (a ∷ more) s id =
      listed-add_all more (g.add_peer s a) id
      ∙ rw (laws.listed-add_peer s a id) (or_turn (a.id == id) (elem id (ids more)) (listed s id))

  kept :
      (here gone wanted : Bool)
      → (here && (not (gone || false) || wanted)) ≡ (here && (not gone || wanted))
  kept here gone wanted = ground arith

  listed-step :
      (cur : List AddrInfo) (p : AddrInfo) (s : g.Service) (id : PeerId) (later : Bool)
      → (listed (if elem p.id (ids cur) then s else g.remove_peer s p.id) id
          && (not later || elem id (ids cur)))
        ≡ (listed s id && (not ((p.id == id) || later) || elem id (ids cur)))
  listed-step cur p s id later = elim (Bool-cases (elem p.id (ids cur))) [
    | inl wanted ↦ rw wanted (elim (Bool-cases (p.id == id)) [
      | inl same ↦ rw same (
          let there : elem id (ids cur) ≡ true = rw ((==_iff p.id id).0 same) at wanted in
          ground arith)
      | inr other ↦ rw other refl
    ])
    | inr unwanted ↦ rw unwanted (rw (laws.listed-remove_peer s p.id id) (ground arith))
  ]

  listed-remove_gone :
      (cur prev : List AddrInfo) (s : g.Service) (id : PeerId)
      → listed (remove_gone g cur prev s) id
        ≡ (listed s id && (not (elem id (ids prev)) || elem id (ids cur)))
  unfolding remove_gone
  listed-remove_gone cur [] s id = ground arith
  listed-remove_gone cur (p ∷ more) s id =
      listed-remove_gone cur more (if elem p.id (ids cur) then s else g.remove_peer s p.id) id
      ∙ listed-step cur p s id (elem id (ids more))

  replaced : (wanted here : Bool) → (wanted || (here && (not here || wanted))) ≡ wanted
  replaced wanted here = ground arith

  fresh : (wanted : Bool) → (wanted || false) ≡ wanted
  fresh wanted = ground arith

  -- The peers of a service that runs already, and of a new one.
  listed_running :
      (cur : List AddrInfo) (s : g.Service) (id : PeerId)
      → listed (add_all g cur (remove_gone g cur (g.list_peers s) s)) id ≡ elem id (ids cur)
  listed_running cur s id =
      listed-add_all cur (remove_gone g cur (g.list_peers s) s) id
      ∙ rw (listed-remove_gone cur (g.list_peers s) s id)
          (replaced (elem id (ids cur)) (listed s id))

  listed_new :
      (cur : List AddrInfo) (id : PeerId)
      → listed (g.start (add_all g cur g.new_service)).0 id ≡ elem id (ids cur)
  listed_new cur id =
      rw (laws.list-start (add_all g cur g.new_service))
        (listed-add_all cur g.new_service id ∙ rw laws.list-new_service (fresh (elem id (ids cur))))

  -- A service that ran has been stopped.
  abbrev pub IsStopped : Option g.Service → Type 0
  IsStopped none = Unit
  IsStopped (some s) = (g.stop s).1 ≡ false

  -- A reload of the peering without an error leaves no service where no peers are configured, and has
  -- stopped the one that ran; else it leaves a service whose peers are exactly the configured ones.
  pub reload_peering_ok :
      (env : Env) (addr_infos : List Addr → Option (List AddrInfo)) (peers : List Text)
      (old : Option g.Service)
      → (reload_peering g env addr_infos peers old).error ≡ none
      → ((peers ≡ [])
          × ((reload_peering g env addr_infos peers old).service ≡ none)
          × IsStopped old)
        ⊎ ((cur : List AddrInfo) × (parse_peers env addr_infos peers ≡ some cur)
            × (s : g.Service) × ((reload_peering g env addr_infos peers old).service ≡ some s)
            × ((id : PeerId) → listed s id ≡ elem id (ids cur)))
  unfolding reload_peering
  reload_peering_ok env addr_infos [] none fine = inl (refl, refl, tt)
  reload_peering_ok env addr_infos [] (some s) fine = elim (Bool-cases (g.stop s).1) [
    | inl bad ↦ absurd (cc (rw bad at fine))
    | inr stopped ↦ inl (refl, refl, stopped)
  ]
  reload_peering_ok env addr_infos (p ∷ ps) none fine =
      elim (Option-cases (parse_peers env addr_infos (p ∷ ps))) [
        | inl bad ↦ absurd (cc (rw (bad, reload_peering) at fine))
        | inr (cur, e) ↦ elim (Bool-cases (g.start (add_all g cur g.new_service)).1) [
          | inl failed ↦ absurd (cc (rw failed at (rw (e, reload_peering) at fine)))
          | inr started ↦ inr (
            cur,
            e,
            (g.start (add_all g cur g.new_service)).0,
            rw (e, reload_peering) (rw started refl),
            listed_new cur,
          )
        ]
      ]
  reload_peering_ok env addr_infos (p ∷ ps) (some s) fine =
      elim (Option-cases (parse_peers env addr_infos (p ∷ ps))) [
        | inl bad ↦ absurd (cc (rw (bad, reload_peering) at fine))
        | inr (cur, e) ↦ inr (
          cur,
          e,
          add_all g cur (remove_gone g cur (g.list_peers s) s),
          rw (e, reload_peering) refl,
          listed_running cur s,
        )
      ]
