-- ===== src/Daemon/Peering/Tests.antt =====
-- Instances for the peering: a service that has the peers 1 and 2, and a configuration for 2 and 3.
use storetheindex.Prelude.{
  ℕ, ◌≡◌, refl, inl, inr, Bool, false, not, ◌&&◌, ◌||◌, Option, some, List, [], ◌∷◌, map, elem,
  filter, ◌==◌, arith, Bool-cases, ==_iff,
}
use storetheindex.PeerPolicy.{PeerId}
use storetheindex.Registry.State.{Addr, AddrInfo, Text}
use storetheindex.Daemon.Peering.{ids, Peerings, IsPeerings}

abbrev lacks : PeerId → AddrInfo → Bool
lacks p a = not (p == a.id)

abbrev peerings : Peerings
peerings = record {
  Service = List AddrInfo;
  new_service = [];
  add_peer = λ s a. a ∷ s;
  remove_peer = λ s p. filter (lacks p) s;
  list_peers = λ s. s;
  start = λ s. (s, false);
  stop = λ s. (s, false);
}

elem-filter :
    (s : List AddrInfo) (p id : PeerId)
    → elem id (ids (filter (lacks p) s)) ≡ (not (p == id) && elem id (ids s))
elem-filter [] p id = ground arith
elem-filter (a ∷ s) p id = elim (Bool-cases (p == a.id)) [
  | inl gone ↦ rw gone (rw (elem-filter s p id) (passed ((==_iff p a.id).0 gone)))
  | inr stays ↦ rw stays (rw (elem-filter s p id) (ground arith))
]
  where
    passed :
        p ≡ a.id
        → (not (p == id) && elem id (ids s)) ≡ (not (p == id) && ((a.id == id) || elem id (ids s)))
    passed same = rw same (ground arith)

peerings-IsPeerings : IsPeerings peerings
peerings-IsPeerings = record {
  list-new_service = refl;
  list-start = λ s. refl;
  listed-add_peer = λ s a id. refl;
  listed-remove_peer = λ s p id. elem-filter s p id;
}

abbrev peer : ℕ → AddrInfo
peer n = record { id = n; addrs = n ∷ [] }

abbrev addr_infos : List Addr → Option (List AddrInfo)
addr_infos addrs = some (map peer addrs)

abbrev texts : List Text
texts = 2 ∷ 3 ∷ []

abbrev after : List AddrInfo
after = peer 3 ∷ peer 2 ∷ peer 2 ∷ []

abbrev running : List AddrInfo
running = peer 1 ∷ peer 2 ∷ []
