-- ===== src/Server/Handler/Announce.antt =====
-- What a direct announcement does.
use storetheindex.Prelude.{
  ◌≡◌, ◌≢◌, sym, ◌⊎◌, inl, inr, refl, ap, ◌∙◌, true, false, none, some, List, [], ◌∷◌, ◌==◌, elem,
  ==_refl, ==_iff, arith, Bool-cases, Option-cases, if◌then◌else◌, ℕ,
}
use storetheindex.Prelude.Dict
use storetheindex.Prelude.Result.{Result, ok, err, Result-cases}
use storetheindex.Registry.State.{AddrInfo, Cid, Addr, panics}
use storetheindex.Registry.Policy.{allowed}
use storetheindex.Registry.Register.{is_empty}
use storetheindex.Ingest.Store.{StoreError, get_latest_sync}
use storetheindex.Ingest.Staging.{PendingAnnounce, announce, release}
use storetheindex.Server.Handler.{
  Services, Handler, Message, Refusal, registry_error, bad_message, no_location, bad_addrs,
  bad_infos, two_peers, from_forbidden, not_announced, announce_content, the_peer, from_peer,
  hand_over,
}

abbrev pub pending_of : Cid → AddrInfo → PendingAnnounce
pending_of c info = record { addr_info = info; next_cid = c }

module _ (s : Services) (h : Handler s) where
  -- The ways a peer's announcement ends without an error, of which one applies: it is the latest one; or it
  -- is not, and waits, or the subscriber has it.
  abbrev pub Announced : Cid → AddrInfo → Handler s → Type 0
  Announced c info h' =
      ((get_latest_sync s.outside h.marks info.id ≡ ok c) × (h' ≡ h))
      ⊎ ((get_latest_sync s.outside h.marks info.id ≢ ok c)
          × (elem info.id h.staging.processing ≡ true)
          × (h' ≡ record h {
            staging = record h.staging {
              pending = Dict.put h.staging.pending info.id (pending_of c info);
            };
          }))
      ⊎ ((get_latest_sync s.outside h.marks info.id ≢ ok c)
          × (elem info.id h.staging.processing ≡ false)
          × (s.subscriber_announce (pending_of c info) ≡ false)
          × (h' ≡ h))

  announce_busy :
      (c : Cid) (info : AddrInfo)
      → elem info.id h.staging.processing ≡ true
      → announce h.staging c info ≡ (
        record h.staging { pending = Dict.put h.staging.pending info.id (pending_of c info) },
        none,
      )
  unfolding announce
  announce_busy c info busy = rw (busy, announce) refl

  announce_free :
      (c : Cid) (info : AddrInfo)
      → elem info.id h.staging.processing ≡ false
      → announce h.staging c info ≡ (
        record h.staging { processing = info.id ∷ h.staging.processing },
        some (pending_of c info),
      )
  unfolding announce
  announce_free c info free = rw (free, announce) refl

  hand_over_busy :
      (c : Cid) (info : AddrInfo)
      → elem info.id h.staging.processing ≡ true
      → hand_over s h c info ≡ (
        record h {
          staging = record h.staging {
            pending = Dict.put h.staging.pending info.id (pending_of c info);
          };
        },
        none,
      )
  unfolding hand_over
  hand_over_busy c info busy =
      rw (announce_busy c info busy, hand_over) (rw (announce_busy c info busy) refl)

  hand_over_free :
      (c : Cid) (info : AddrInfo)
      → elem info.id h.staging.processing ≡ false
      → hand_over s h c info
        ≡ (h, if s.subscriber_announce (pending_of c info) then some not_announced else none)
  unfolding hand_over release
  hand_over_free c info free =
      rw (announce_free c info free, hand_over)
        (rw (announce_free c info free) (rw (==_refl info.id, release) refl))

  hand_over_ok :
      (c : Cid) (info : AddrInfo)
      → (get_latest_sync s.outside h.marks info.id ≢ ok c)
      → (hand_over s h c info).1 ≡ none
      → Announced c info (hand_over s h c info).0
  hand_over_ok c info is_new fine = elim (Bool-cases (elem info.id h.staging.processing)) [
    | inl busy ↦ rw (hand_over_busy c info busy) (inr (inl (is_new, busy, refl)))
    | inr free ↦
        rw (hand_over_free c info free)
          (inr (inr (is_new, free, accepted (rw (hand_over_free c info free) at fine), refl)))
  ]
    where
      accepted :
          (if s.subscriber_announce (pending_of c info) then some not_announced else none) ≡ none
          → s.subscriber_announce (pending_of c info) ≡ false
      accepted e = ground arith

  -- Where Announce goes on from an allowed peer.
  from_peer_cases :
      (c : Cid) (info : AddrInfo)
      → (from_peer s h c info ≡ (h, some from_forbidden))
        ⊎ ((allowed h.registry.policy info.id ≡ true)
            × (((get_latest_sync s.outside h.marks info.id ≡ ok c)
                  × (from_peer s h c info ≡ (h, none)))
                ⊎ ((get_latest_sync s.outside h.marks info.id ≢ ok c)
                    × (from_peer s h c info ≡ hand_over s h c info))))
  unfolding from_peer
  from_peer_cases c info = elim (Bool-cases (allowed h.registry.policy info.id)) [
    | inl may ↦ inr (
      may,
      elim (Result-cases (get_latest_sync s.outside h.marks info.id)) [
        | inl (e, unknown) ↦
            inr ((λ e. absurd (cc (e, unknown))), rw (may, unknown, from_peer) refl)
        | inr (cur, known) ↦ elim (Bool-cases (cur == c)) [
          | inl same ↦
              inl (known ∙ ap ok ((==_iff cur c).0 same), rw (may, known, from_peer) (rw same refl))
          | inr other ↦ inr (not_latest cur known other, rw (may, known, from_peer) (rw other refl))
        ]
      ],
    )
    | inr not ↦ inl (rw (not, from_peer) refl)
  ]
    where
      latest_or : Cid → Result StoreError Cid → Cid
      latest_or c (ok x) = x
      latest_or c (err y) = c

      not_latest :
          (cur : Cid)
          → get_latest_sync s.outside h.marks info.id ≡ ok cur
          → (cur == c) ≡ false
          → get_latest_sync s.outside h.marks info.id ≢ ok c
      not_latest cur known other e =
          let same : cur ≡ c = ap (latest_or c) (sym known ∙ e) in absurd (ground arith)

  from_peer_ok :
      (c : Cid) (info : AddrInfo)
      → (from_peer s h c info).1 ≡ none
      → (allowed h.registry.policy info.id ≡ true) × Announced c info (from_peer s h c info).0
  from_peer_ok c info fine = elim (from_peer_cases c info) [
    | inl stops ↦ absurd (cc (rw stops at fine))
    | inr (may, inl (same, e)) ↦ (may, rw e (inl (same, refl)))
    | inr (may, inr (is_new, e)) ↦ (may, rw e (hand_over_ok c info is_new (rw e at fine)))
  ]

  -- The path to the single peer.
  abbrev IsRead : List ℕ → Message → List Addr → AddrInfo → Type 0
  IsRead body an addrs info =
      (s.unmarshal_cbor body ≡ some an)
      × (is_empty an.addrs ≡ false)
      × (s.get_addrs an ≡ some addrs)
      × (s.addr_infos_from_p2p_addrs addrs ≡ some (info ∷ []))

  abbrev ContentCases : List ℕ → Type 0
  ContentCases body =
      ((x : Refusal) × (announce_content s h body ≡ (h, some x)))
      ⊎ ((an : Message) × (addrs : List Addr) × (info : AddrInfo) × IsRead body an addrs info
          × (announce_content s h body ≡ from_peer s h an.cid info))

  announce_by_cases : (body : List ℕ) → ContentCases body
  unfolding announce_content the_peer
  announce_by_cases body = elim (Option-cases (s.unmarshal_cbor body)) [
    | inl bad ↦ inl (bad_message, rw (bad, announce_content) refl)
    | inr (an, read) ↦ elim (Bool-cases (is_empty an.addrs)) [
      | inl bare ↦ inl (no_location, rw (read, announce_content) (rw bare refl))
      | inr placed ↦ elim (Option-cases (s.get_addrs an)) [
        | inl bad ↦ inl (bad_addrs, rw (read, announce_content) (rw (placed, bad) refl))
        | inr (addrs, e) ↦ elim (Option-cases (s.addr_infos_from_p2p_addrs addrs)) [
          | inl bad ↦ inl (bad_infos, rw (read, announce_content) (rw (placed, e) (rw bad refl)))
          | inr (ais, found) ↦ by_peers an addrs read placed e ais found
        ]
      ]
    ]
  ]
    where
      by_peers :
          (an : Message) (addrs : List Addr)
          → s.unmarshal_cbor body ≡ some an
          → is_empty an.addrs ≡ false
          → s.get_addrs an ≡ some addrs
          → (ais : List AddrInfo) → s.addr_infos_from_p2p_addrs addrs ≡ some ais
          → ContentCases body
      by_peers an addrs read placed e [] found =
          inl (registry_error panics, rw (read, announce_content) (rw (placed, e) (rw found refl)))
      by_peers an addrs read placed e (info ∷ []) found = inr (
        an,
        addrs,
        info,
        (read, placed, e, found),
        rw (read, announce_content) (rw (placed, e) (rw found refl)),
      )
      by_peers an addrs read placed e (info ∷ more ∷ rest) found =
          inl (two_peers, rw (read, announce_content) (rw (placed, e) (rw found refl)))

  -- An announcement that is answered without an error is readable, with the addresses of one peer that
  -- the policy allows. Nothing changes where its CID is the peer's latest one; else it waits while
  -- the peer's channel is full, and the subscriber accepts it where the channel is free.
  pub announce_content_ok :
      (body : List ℕ)
      → (announce_content s h body).1 ≡ none
      → (an : Message) × (addrs : List Addr) × (info : AddrInfo) × (s.unmarshal_cbor body ≡ some an)
        × (is_empty an.addrs ≡ false)
        × (s.get_addrs an ≡ some addrs)
        × (s.addr_infos_from_p2p_addrs addrs ≡ some (info ∷ []))
        × (allowed h.registry.policy info.id ≡ true)
        × Announced an.cid info (announce_content s h body).0
  announce_content_ok body fine = elim (announce_by_cases body) [
    | inl (x, stops) ↦ absurd (cc (rw stops at fine))
    | inr (an, addrs, info, (read, placed, e, found), goes) ↦
        let (may, done) = from_peer_ok an.cid info (rw goes at fine) in
        (an, addrs, info, read, placed, e, found, may, rw goes done)
  ]
