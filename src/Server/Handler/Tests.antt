-- ===== src/Server/Handler/Tests.antt =====
-- Instances for the handler: requests to a registry that has the provider 1.
use storetheindex.Prelude.{ℕ, ◌≡◌, refl, true, false, none, some, List, [], ◌∷◌, arith}
use storetheindex.Prelude.Dict
use storetheindex.Registry.Policy.{allowed}
use storetheindex.PeerPolicy
use storetheindex.Ingest.Store.{get_latest_sync}
use storetheindex.Ingest.Staging.{announce}
use storetheindex.Registry.Update.{register_or_update}
use storetheindex.Registry.Register.{is_empty, provider_info, sync_register}
use storetheindex.Registry.Sequences.{oldest_allowed, check, Error}
use storetheindex.Registry.Tests.{memory, one}
use storetheindex.Registry.State.{Addr, AddrInfo}
use storetheindex.Ingest.Ad.Tests.{notes}
use storetheindex.Ingest.Tests.{datastore}
use storetheindex.Ingest.Staging.Laws.{new_staging}
use storetheindex.Server.Requests.{
  IngestRequest, ingest, discover_domain, ingest_domain, read_ingest_request,
}
use storetheindex.Server.Requests.Tests.{envelopes, request}
use storetheindex.Server.Handler.{
  Services, Handler, Now, Message, sequence, announce_content, index_content, check_sequence,
  do_index, the_peer, from_peer, hand_over,
}
use storetheindex.Server.Handler.Laws.{IsIndexed, index_content_ok}
use storetheindex.Server.Handler.Replay.{
  discovers, indexes, requests, retires, handle, run, resent_refused,
}
use storetheindex.Server.Handler.Announce.{Announced, announce_content_ok}

-- A byte string has its own number as its length; a message is its CID and its addresses, and an address
-- is its peer.
abbrev pub services : Services
services = record {
  env = memory;
  core = notes;
  outside = datastore;
  envelopes = envelopes;
  len = λ b. b;
  unmarshal_cbor =
      λ body. elim body [ [] ↦ none | c ∷ addrs ↦ some (record { cid = c; addrs = addrs }) ];
  get_addrs = λ an. some an.addrs;
  addr_infos_from_p2p_addrs = λ addrs. elim addrs [
    | [] ↦ none
    | a ∷ more ↦ some (record { id = a; addrs = a ∷ more } ∷ [])
  ];
  subscriber_announce = λ a. false;
}

abbrev pub handler : Handler services
handler = record {
  registry = one;
  sequences = record { max_age = 100; seqs = [] };
  index = [];
  marks = λ k. none;
  staging = new_staging;
}

abbrev pub at : ℕ → Now services
at t = record { unix = t; time = t }

abbrev ingest_request : ℕ → IngestRequest
ingest_request address = record {
  multihash = 21;
  provider_id = 1;
  context_id = 64;
  metadata = 5;
  addrs = address ∷ [];
  seq = 950;
}

abbrev sealed : ℕ → services.envelopes.Bytes
sealed address = (ingest_domain, 5, ingest (ingest_request address))

index_content_ok_example :
    (req : IngestRequest) × (read_ingest_request envelopes (sealed 9) ≡ some req)
    × IsIndexed services handler
        (at 1000)
        req
        (index_content services handler (at 1000) (sealed 9)).0
unfolding index_content check_sequence do_index read_ingest_request check oldest_allowed
    register_or_update provider_info sync_register Dict.get Dict.put
index_content_ok_example = index_content_ok services handler (at 1000) (sealed 9) refl

resent_refused_example :
    let h' =
      run services
        (handle services handler (at 1000) (indexes (sealed 9))).0
        (requests (at 1001) (discovers (discover_domain, 5, request)) ∷ retires 1090 ∷ []) in
    (e : Error) × (handle services h' (at 1100) (indexes (sealed 9)) ≡ (h', some (sequence e)))
unfolding handle index_content check_sequence do_index read_ingest_request check oldest_allowed
    register_or_update provider_info sync_register Dict.get Dict.put
resent_refused_example =
    resent_refused services handler (at 1000) (at 1100) (indexes (sealed 9))
      (requests (at 1001) (discovers (discover_domain, 5, request)) ∷ retires 1090 ∷ []) tt
      (omega arith) refl

announce_content_ok_example :
    (an : Message) × (addrs : List Addr) × (info : AddrInfo) × (services.unmarshal_cbor
        (77 ∷ 1 ∷ [])
      ≡ some an)
    × (is_empty an.addrs ≡ false)
    × (services.get_addrs an ≡ some addrs)
    × (services.addr_infos_from_p2p_addrs addrs ≡ some (info ∷ []))
    × (allowed one.policy info.id ≡ true)
    × Announced services handler an.cid info (announce_content services handler (77 ∷ 1 ∷ [])).0
unfolding announce_content the_peer from_peer hand_over get_latest_sync announce allowed
    PeerPolicy.eval
announce_content_ok_example = announce_content_ok services handler (77 ∷ 1 ∷ []) refl
