-- ===== src/Registry/Lotus/Tests.antt =====
-- A gateway that knows the miner 70, whose peer is 2 and whose second address cannot be read.
use storetheindex.Prelude.{◌≡◌, ◌⊎◌, refl, none, some, [], ◌∷◌, ◌==◌, if◌then◌else◌}
use storetheindex.Prelude.Dict
use storetheindex.PeerPolicy.{PeerId}
use storetheindex.Registry.Tests.{memory, one}
use storetheindex.Registry.Update.{new_info}
use storetheindex.Registry.Discovery.{finish_discover}
use storetheindex.Registry.Lotus.{MinerInfo, Gateway, readable, discover, found_by}
use storetheindex.Registry.Lotus.Laws.{IsMiner, lotus_discovers}

abbrev gateway : Gateway
gateway = record {
  new_from_string = λ t. some t;
  chain_head = some (5 ∷ []);
  state_miner_info = λ miner cids.
      if miner == 70
      then some (record { peer_id = some 2; multiaddrs = 30 ∷ 0 ∷ 31 ∷ [] })
      else none;
  new_multiaddr_bytes = λ b. if b == 0 then none else some b;
}

abbrev asked : PeerId
asked = 2

lotus_discovers_example :
    let r' = (finish_discover memory one 70 90 (found_by (discover gateway 2 70))).0 in
    (Dict.get r'.providers 2 ≡ Dict.get one.providers 2)
    ⊎ ((asked ≡ asked)
        × (info : MinerInfo) × IsMiner gateway 70 2 info
        × (Dict.get r'.providers 2
            ≡ some (record (new_info 2) {
              addr_info = record { id = 2; addrs = readable gateway info.multiaddrs };
              discovery_addr = 70;
            })))
lotus_discovers_example = lotus_discovers gateway memory one 2 70 90 2

found_addresses : found_by (discover gateway 2 70) ≡ some (record { id = 2; addrs = 30 ∷ 31 ∷ [] })
unfolding discover readable
found_addresses = refl
