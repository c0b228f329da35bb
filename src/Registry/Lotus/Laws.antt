-- ===== src/Registry/Lotus/Laws.antt =====
-- What a discovery by lotus may register.
use storetheindex.Prelude.{
  ℕ, ◌≡◌, refl, sym, ◌∙◌, ap, none, some, List, ◌⊎◌, ◌==◌, ==_iff, if◌then◌else◌, inl, inr,
  Bool-cases, Option-cases,
}
use storetheindex.Prelude.Dict
use storetheindex.Prelude.Result.{Result, ok, err, Result-cases}
use storetheindex.PeerPolicy.{PeerId}
use storetheindex.Registry.State.{AddrInfo, Cid, Text, Time, Env, Registry}
use storetheindex.Registry.Update.{new_info}
use storetheindex.Registry.Register.Laws.{get-sync_register}
use storetheindex.Registry.Discovery.{finish_discover}
use storetheindex.Registry.Lotus.{
  MinerInfo, Gateway, Failure, bad_gateway, no_peer_id, mismatch, readable, get_miner_peer_addr,
  discover, found_by,
}

module _ (g : Gateway) where
  -- What the gateway has of a miner
  abbrev pub IsMiner : Text → PeerId → MinerInfo → Type 0
  IsMiner miner_addr peer info =
      (miner : ℕ) × (cids : _) × (g.new_from_string miner_addr ≡ some miner)
      × (g.chain_head ≡ some cids)
      × (g.state_miner_info miner cids ≡ some info)
      × (info.peer_id ≡ some peer)

  the_found : AddrInfo → Result Failure AddrInfo → AddrInfo
  the_found a (ok b) = b
  the_found a (err e) = a

  discover_ok :
      (peer : PeerId) (miner_addr : Text) (a : AddrInfo)
      → discover g peer miner_addr ≡ ok a
      → (info : MinerInfo) × IsMiner miner_addr peer info
        × (a ≡ record { id = peer; addrs = readable g info.multiaddrs })
  unfolding discover get_miner_peer_addr the_found
  discover_ok peer miner_addr a h = elim (Option-cases (g.new_from_string miner_addr)) [
    | inl e ↦ absurd (cc (rw (e, discover) at h))
    | inr (miner, e) ↦ elim (Option-cases g.chain_head) [
      | inl f ↦ absurd (cc (rw (f, discover) at (rw (e, discover) at h)))
      | inr (cids, f) ↦ asked miner cids e f (rw (f, discover) at (rw (e, discover) at h))
    ]
  ]
    where
      told :
          (miner : ℕ) (cids : List Cid) (info : MinerInfo) (id : PeerId)
          → IsMiner miner_addr id info
          → (if id == peer then ok (get_miner_peer_addr g id info) else err mismatch) ≡ ok a
          → (info : MinerInfo) × IsMiner miner_addr peer info
            × (a ≡ record { id = peer; addrs = readable g info.multiaddrs })
      told miner cids info id is h = elim (Bool-cases (id == peer)) [
        | inr e ↦ absurd (cc (rw e at h))
        | inl e ↦
            let same : id ≡ peer = (==_iff id peer).0 e in
            (info, rw same at is, rw same at (sym (ap (the_found a) (rw e at h))))
      ]

      asked :
          (miner : ℕ) (cids : List Cid)
          → g.new_from_string miner_addr ≡ some miner
          → g.chain_head ≡ some cids
          → elim (g.state_miner_info miner cids) [
            | none ↦ err bad_gateway
            | some info ↦ elim info.peer_id [
              | none ↦ err no_peer_id
              | some id ↦ if id == peer then ok (get_miner_peer_addr g id info) else err mismatch
            ]
          ]
            ≡ ok a
          → (info : MinerInfo) × IsMiner miner_addr peer info
            × (a ≡ record { id = peer; addrs = readable g info.multiaddrs })
      asked miner cids e f h = elim (Option-cases (g.state_miner_info miner cids)) [
        | inl i ↦ absurd (cc (rw i at h))
        | inr (info, i) ↦ elim (Option-cases info.peer_id) [
          | inl j ↦ absurd (cc (rw j at (rw i at h)))
          | inr (id, j) ↦ told miner cids info id (miner, cids, e, f, i, j) (rw j at (rw i at h))
        ]
      ]

  -- A discovery by lotus that ends changes the entry of no provider but the one that was asked for, and that
  -- one only if the gateway has it as the peer of the miner: it then has the addresses of the miner that
  -- can be read, in their order.
  pub lotus_discovers :
      (env : Env) (r : Registry env) (peer : PeerId) (miner_addr : Text) (now : Time) (k : PeerId)
      → let r' = (finish_discover env r miner_addr now (found_by (discover g peer miner_addr))).0 in
        (Dict.get r'.providers k ≡ Dict.get r.providers k)
        ⊎ ((k ≡ peer)
            × (info : MinerInfo) × IsMiner miner_addr peer info
            × (Dict.get r'.providers k
                ≡ some (record (new_info peer) {
                  addr_info = record { id = peer; addrs = readable g info.multiaddrs };
                  discovery_addr = miner_addr;
                })))
  unfolding finish_discover
  lotus_discovers env r peer miner_addr now k = elim (Result-cases (discover g peer miner_addr)) [
    | inl (e, h) ↦ inl (rw (h, finish_discover) refl)
    | inr (a, h) ↦
        let (info, is, same) = discover_ok peer miner_addr a h in
        let r' : Registry env = record r {
          discover_times = Dict.put r.discover_times miner_addr now;
        } in
        let entry = record (new_info a.id) { addr_info = a; discovery_addr = miner_addr } in
        let there : Dict.get
              (finish_discover env r miner_addr now
                (found_by (discover g peer miner_addr))).0.providers
              k
            ≡ (if a.id == k then some entry else Dict.get r.providers k) =
          rw (h, finish_discover) (get-sync_register env r' entry k) in
        elim (Bool-cases (a.id == k)) [
          | inr other ↦ inl (there ∙ rw other refl)
          | inl own ↦ inr (
            sym ((==_iff a.id k).0 own) ∙ ap (λ x. x.id) same,
            info,
            is,
            there
                ∙ rw own (
                    ap
                      (λ x.
                        some
                          (record (new_info x.id) { addr_info = x; discovery_addr = miner_addr }))
                      same),
          )
        ]
  ]
