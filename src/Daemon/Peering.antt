-- ===== src/Daemon/Peering.antt =====
-- reloadPeering in command/daemon.go, and PeerAddrs with parsePeers in config/peering.go and bootstrap.go.
pub mod Laws
mod Tests
use storetheindex.Prelude.{
  ℕ, ◌≡◌, Bool, true, false, not, ◌&&◌, ◌||◌, Option, none, some, List, [], ◌∷◌, map, elem, ◌==◌,
  if◌then◌else◌, ◌>>=◌,
}
use storetheindex.PeerPolicy.{PeerId}
use storetheindex.Registry.State.{Env, Text, Addr, AddrInfo}
use storetheindex.Registry.Register.{is_empty}
use storetheindex.Registry.Update.{strings_to_multiaddrs}

abbrev pub ids : List AddrInfo → List PeerId
ids infos = map (λ a. a.id) infos

-- The peering service of go-ipfs, which is called: `start` and `stop` tell whether they failed.
pub record Peerings : Type 1 where
  pub Service : Type 0
  pub new_service : Service
  pub add_peer : Service → AddrInfo → Service
  pub remove_peer : Service → PeerId → Service
  pub list_peers : Service → List AddrInfo
  pub start : Service → Service × Bool
  pub stop : Service → Service × Bool

-- What go-ipfs documents of it: a new service has no peers, and a peer is listed from when it is added
-- until it is removed.
pub record IsPeerings (g : Peerings) : Type 0 where
  pub list-new_service : g.list_peers g.new_service ≡ []
  pub list-start : (s : g.Service) → g.list_peers (g.start s).0 ≡ g.list_peers s
  pub listed-add_peer :
      (s : g.Service) (a : AddrInfo) (id : PeerId)
      → elem id (ids (g.list_peers (g.add_peer s a)))
        ≡ ((a.id == id) || elem id (ids (g.list_peers s)))
  pub listed-remove_peer :
      (s : g.Service) (p id : PeerId)
      → elem id (ids (g.list_peers (g.remove_peer s p)))
        ≡ (not (p == id) && elem id (ids (g.list_peers s)))

pub data PeeringError : Type 0 where
  not_stopped bad_peer not_started : PeeringError

-- parsePeers, where the second step is peer.AddrInfosFromP2pAddrs
unfoldable pub parse_peers :
    Env → (List Addr → Option (List AddrInfo)) → List Text → Option (List AddrInfo)
parse_peers env addr_infos addrs =
    if is_empty addrs
    then some []
    else (do maddrs ← strings_to_multiaddrs env addrs; addr_infos maddrs)

module _ (g : Peerings) where
  -- The loop over the peers that the service has, and the one over those that it shall have
  unfoldable pub remove_gone : List AddrInfo → List AddrInfo → g.Service → g.Service
  remove_gone cur [] s = s
  remove_gone cur (prev ∷ more) s =
      remove_gone cur more (if elem prev.id (ids cur) then s else g.remove_peer s prev.id)

  unfoldable pub add_all : List AddrInfo → g.Service → g.Service
  add_all [] s = s
  add_all (a ∷ more) s = add_all more (g.add_peer s a)

  -- What reloadPeering returns, and the service that it was given, as it is then.
  pub record Outcome : Type 0 where
    pub service : Option g.Service
    pub error : Option PeeringError
    pub old : Option g.Service

  -- reloadPeering for the peers of the configuration
  unfoldable pub reload_peering :
      Env → (List Addr → Option (List AddrInfo)) → List Text → Option g.Service → Outcome
  unfolding remove_gone add_all parse_peers
  reload_peering env addr_infos peers old =
      if is_empty peers
      then elim old [
        | none ↦ record { service = none; error = none; old = none }
        | some s ↦
            let (s', bad) = g.stop s in
            record { service = none; error = if bad then some not_stopped else none; old = some s' }
      ]
      else elim (parse_peers env addr_infos peers) [
        | none ↦ record { service = none; error = some bad_peer; old = old }
        | some cur ↦ elim old [
          | none ↦
              let (s', bad) = g.start (add_all cur g.new_service) in
              if bad
              then record { service = none; error = some not_started; old = none }
              else record { service = some s'; error = none; old = none }
          | some s ↦
              let s' : g.Service = add_all cur (remove_gone cur (g.list_peers s) s) in
              record { service = some s'; error = none; old = some s' }
        ]
      ]
