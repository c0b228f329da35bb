-- ===== src/Registry/Lotus.antt =====
-- The discoverer of internal/lotus/discovery.go, which asks a lotus gateway about a miner.
mod Laws
mod Tests
use storetheindex.Prelude.{ℕ, Option, none, some, List, [], ◌∷◌, ◌==◌, if◌then◌else◌}
use storetheindex.Prelude.Result.{Result, ok, err}
use storetheindex.PeerPolicy.{PeerId}
use storetheindex.Registry.State.{AddrInfo, Text, Addr, Cid}

-- The fields of MinerInfo that are read; an address is a name for its bytes.
pub record MinerInfo : Type 0 where
  pub peer_id : Option PeerId
  pub multiaddrs : List ℕ

-- What is called: NewFromString of go-address, the gateway's ChainHead and StateMinerInfo, and
-- NewMultiaddrBytes.
pub record Gateway : Type 0 where
  pub new_from_string : Text → Option ℕ
  pub chain_head : Option (List Cid)
  pub state_miner_info : ℕ → List Cid → Option MinerInfo
  pub new_multiaddr_bytes : ℕ → Option Addr

pub data Failure : Type 0 where
  bad_address bad_gateway no_peer_id mismatch : Failure

module _ (g : Gateway) where
  -- The addresses that can be read, in their order
  unfoldable pub readable : List ℕ → List Addr
  readable [] = []
  readable (b ∷ bs) =
      let rest = readable bs in elim (g.new_multiaddr_bytes b) [ none ↦ rest | some a ↦ a ∷ rest ]

  -- getMinerPeerAddr, for a miner with a peer ID
  unfoldable pub get_miner_peer_addr : PeerId → MinerInfo → AddrInfo
  unfolding readable
  get_miner_peer_addr id info = record { id = id; addrs = readable info.multiaddrs }

  -- Discoverer.Discover
  unfoldable pub discover : PeerId → Text → Result Failure AddrInfo
  unfolding get_miner_peer_addr
  discover peer miner_addr = elim (g.new_from_string miner_addr) [
    | none ↦ err bad_address
    | some miner ↦ elim g.chain_head [
      | none ↦ err bad_gateway
      | some cids ↦ elim (g.state_miner_info miner cids) [
        | none ↦ err bad_gateway
        | some info ↦ elim info.peer_id [
          | none ↦ err no_peer_id
          | some id ↦ if id == peer then ok (get_miner_peer_addr id info) else err mismatch
        ]
      ]
    ]
  ]

-- What the registry gets
abbrev pub found_by : Result Failure AddrInfo → Option AddrInfo
found_by (ok a) = some a
found_by (err e) = none
