-- ===== src/Server/Handler.antt =====
-- server/ingest/handler/ingest_handler.go: the handler of the requests, over the registry, its sequence
-- numbers, the indexer and the ingester. It makes its calls one after another; what other requests
-- change between them is not part of the model.
pub mod Laws
pub mod Announce
mod Barred
pub mod Replay
pub mod Tests
use storetheindex.Prelude.{
  ℕ, Bool, not, Option, none, some, List, [], ◌∷◌, ltb, ◌==◌, if◌then◌else◌,
}
use storetheindex.Prelude.Result.{ok, err}
use storetheindex.PeerPolicy.{PeerId}
use storetheindex.Registry.Policy.{allowed}
use storetheindex.Registry.Sequences
use storetheindex.Registry.Sequences.{Sequences, check}
use storetheindex.Registry.State
use storetheindex.Registry.State.{Addr, AddrInfo, Cid, Text, Time, Env, Registry}
use storetheindex.Registry.Register.{is_empty, register}
use storetheindex.Registry.Update.{new_info, register_or_update}
use storetheindex.Registry.Discovery.{discover}
use storetheindex.Ingest.Batches.{Core}
use storetheindex.Ingest.Store.{Outside, get_latest_sync}
use storetheindex.Ingest.Staging.{Staging, PendingAnnounce, announce, release}
use storetheindex.Server.Requests.{
  DiscoverRequest, IngestRequest, PeerRecord, Envelopes, read_discover_request,
  read_register_request, read_ingest_request,
}

-- dtsync.Message: its CID and the bytes of its addresses
pub record Message : Type 0 where
  pub cid : Cid
  pub addrs : List ℕ

-- The packages that the handler works with, and what it calls besides: `len` of a byte string,
-- UnmarshalCBOR and GetAddrs of dtsync, peer.AddrInfosFromP2pAddrs, and the subscriber, of whose
-- Announce the result says whether it failed.
pub record Services : Type 1 where
  pub env : Env
  pub core : Core
  pub outside : Outside
  pub envelopes : Envelopes
  pub len : ℕ → ℕ
  pub unmarshal_cbor : List ℕ → Option Message
  pub get_addrs : Message → Option (List Addr)
  pub addr_infos_from_p2p_addrs : List Addr → Option (List AddrInfo)
  pub subscriber_announce : PendingAnnounce → Bool

pub data Refusal : Type 0 where
  unreadable missing_peer_id long_context long_metadata not_indexed : Refusal
  bad_message no_location bad_addrs bad_infos two_peers from_forbidden not_announced : Refusal
  sequence : Sequences.Error → Refusal
  registry_error : State.Error → Refusal

-- peer.AddrInfo{}
abbrev pub no_addr_info : AddrInfo
no_addr_info = record { id = 0; addrs = [] }

module _ (s : Services) where
  -- What the handler's fields refer to; the sequence numbers are the registry's.
  pub record Handler : Type 0 where
    pub registry : Registry s.env
    pub sequences : Sequences
    pub index : s.core.State
    pub marks : s.outside.State
    pub staging : Staging

  -- The time of a call: time.Now().UnixNano(), and the registry's time.
  pub record Now : Type 0 where
    pub unix : ℕ
    pub time : Time

  -- Registry.CheckSequence, and what follows where it finds no error
  unfoldable pub check_sequence :
      Handler → Now → PeerId → ℕ → (Handler → Handler × Option Refusal) → Handler × Option Refusal
  check_sequence h now id seq then_do =
      let (sequences', e) = check h.sequences now.unix id seq in
      let h' = record h { sequences = sequences' } in
      elim e [ some x ↦ (h', some (sequence x)) | none ↦ then_do h' ]

  -- Registry.Discover with sync = false, where the error of starting a discovery goes to a channel that
  -- nobody reads.
  unfoldable pub start_discovery : Now → DiscoverRequest → Handler → Handler × Option Refusal
  start_discovery now req h =
      let (r, e) = discover s.env h.registry req.provider_id req.discovery_addr now.time in
      if not (allowed h.registry.policy req.provider_id)
      then (h, some (registry_error State.not_allowed))
      else (record h { registry = r }, none)

  -- IngestHandler.DiscoverProvider
  unfoldable pub discover_provider : Handler → Now → s.envelopes.Bytes → Handler × Option Refusal
  unfolding start_discovery check_sequence
  discover_provider h now bytes = elim (read_discover_request s.envelopes bytes) [
    | none ↦ (h, some unreadable)
    | some req ↦ check_sequence h now req.provider_id req.seq (start_discovery now req)
  ]

  unfoldable pub do_register : PeerRecord → Handler → Handler × Option Refusal
  do_register rec h =
      let info = record (new_info rec.peer_id) {
        addr_info = record { id = rec.peer_id; addrs = rec.addrs };
      } in
      let (r, e) = register s.env h.registry info in
      (record h { registry = r }, elim e [ none ↦ none | some x ↦ some (registry_error x) ])

  -- IngestHandler.RegisterProvider
  unfoldable pub register_provider : Handler → Now → s.envelopes.Bytes → Handler × Option Refusal
  unfolding do_register check_sequence
  register_provider h now bytes = elim (read_register_request s.envelopes bytes) [
    | none ↦ (h, some unreadable)
    | some rec ↦
        if rec.peer_id == 0
        then (h, some missing_peer_id)
        else check_sequence h now rec.peer_id rec.seq (do_register rec)
  ]

  unfoldable pub do_index : Now → IngestRequest → Handler → Handler × Option Refusal
  do_index now req h =
      let (r, e) =
        register_or_update s.env h.registry now.time req.provider_id req.addrs 0 no_addr_info in
      let h' = record h { registry = r } in
      elim e [
        | some x ↦ (h', some (registry_error x))
        | none ↦
            let (index', failed) =
              s.core.put h.index
                (record {
                  provider_id = req.provider_id;
                  context_id = req.context_id;
                  metadata_bytes = req.metadata;
                })
                (req.multihash ∷ []) in
            (record h' { index = index' }, if failed then some not_indexed else none)
      ]

  -- IngestHandler.IndexContent, with MaxContextIDLen and MaxMetadataLen
  unfoldable pub index_content : Handler → Now → s.envelopes.Bytes → Handler × Option Refusal
  unfolding do_index check_sequence
  index_content h now bytes = elim (read_ingest_request s.envelopes bytes) [
    | none ↦ (h, some unreadable)
    | some req ↦
        if ltb 64 (s.len req.context_id)
        then (h, some long_context)
        else if ltb 1024 (s.len req.metadata)
        then (h, some long_metadata)
        else check_sequence h now req.provider_id req.seq (do_index now req)
  ]

  -- The end of Announce: Ingester.Announce, with the release of the provider's channel.
  hand_over : Handler → Cid → AddrInfo → Handler × Option Refusal
  hand_over h c info =
      let (staging', handed) = announce h.staging c info in
      elim handed [
        | none ↦ (record h { staging = staging' }, none)
        | some a ↦ (
          record h { staging = release staging' info.id },
          if s.subscriber_announce a then some not_announced else none,
        )
      ]

  -- The single peer, by `ais[0]`.
  the_peer :
      List AddrInfo → Handler → (AddrInfo → Handler × Option Refusal) → Handler × Option Refusal
  the_peer [] h then_do = (h, some (registry_error State.panics))
  the_peer (info ∷ []) h then_do = then_do info
  the_peer (info ∷ more ∷ rest) h then_do = (h, some two_peers)

  from_peer : Handler → Cid → AddrInfo → Handler × Option Refusal
  unfolding hand_over
  from_peer h c info =
      if not (allowed h.registry.policy info.id)
      then (h, some from_forbidden)
      else elim (get_latest_sync s.outside h.marks info.id) [
        | err e ↦ hand_over h c info
        | ok cur ↦ if cur == c then (h, none) else hand_over h c info
      ]

  -- IngestHandler.Announce
  unfoldable pub announce_content : Handler → List ℕ → Handler × Option Refusal
  unfolding the_peer from_peer
  announce_content h body = elim (s.unmarshal_cbor body) [
    | none ↦ (h, some bad_message)
    | some an ↦ if is_empty an.addrs then (h, some no_location) else elim (s.get_addrs an) [
      | none ↦ (h, some bad_addrs)
      | some addrs ↦ elim (s.addr_infos_from_p2p_addrs addrs) [
        | none ↦ (h, some bad_infos)
        | some ais ↦ the_peer ais h (from_peer h an.cid)
      ]
    ]
  ]
