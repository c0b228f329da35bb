-- ===== src/Server/Requests.antt =====
-- The signed requests of api/v0/ingest/model, as a client makes them and the server reads them. Byte
-- strings that the code passes on are opaque names.
pub mod Tests
use storetheindex.Prelude.{
  ℕ, ◌≡◌, Bool, true, false, Option, none, some, List, ◌==◌, if◌then◌else◌, ◌>>=◌,
}
use storetheindex.PeerPolicy.{PeerId}
use storetheindex.Registry.State.{Addr, Text, Env}
use storetheindex.Registry.Register.{is_empty}
use storetheindex.Registry.Update.{strings_to_multiaddrs}
use storetheindex.Ingest.Batches.{Multihash}

pub record DiscoverRequest : Type 0 where
  pub provider_id : PeerId
  pub discovery_addr : Text
  pub seq : ℕ

pub record IngestRequest : Type 0 where
  pub multihash : Multihash
  pub provider_id : PeerId
  pub context_id : ℕ
  pub metadata : ℕ
  pub addrs : List Text
  pub seq : ℕ

-- peer.PeerRecord of go-libp2p-core
pub record PeerRecord : Type 0 where
  pub peer_id : PeerId
  pub addrs : List Addr
  pub seq : ℕ

-- The record types that are registered for envelopes: by `init` of the two request files, by go-libp2p,
-- and by whatever else is linked in.
pub data Request : Type 0 where
  discover : DiscoverRequest → Request
  ingest : IngestRequest → Request
  peer_record : PeerRecord → Request
  other : ℕ → Request

-- DiscoverRequestEnvelopeDomain, IngestRequestEnvelopeDomain and peer.PeerRecordEnvelopeDomain, which
-- differ; other_domain has the names of the domains of further types.
pub data Domain : Type 0 where
  discover_domain ingest_domain peer_record_domain : Domain
  other_domain : ℕ → Domain

abbrev pub same_domain : Domain → Domain → Bool
same_domain discover_domain discover_domain = true
same_domain ingest_domain ingest_domain = true
same_domain peer_record_domain peer_record_domain = true
same_domain (other_domain a) (other_domain b) = a == b
same_domain _ _ = false

-- record.Seal and Envelope.Marshal of go-libp2p, where `seal` calls the record's Domain, Codec and
-- MarshalRecord; record.ConsumeEnvelope, which looks the record's type up; and peer.TimestampSeq.
pub record Envelopes : Type 1 where
  pub PrivKey : Type 0
  pub PubKey : Type 0
  pub Envelope : Type 0
  pub Bytes : Type 0
  pub seal : Domain → Request → PrivKey → Option Envelope
  pub marshal : Envelope → Option Bytes
  pub consume : Bytes → Domain → Option (PubKey × Request)

-- DiscoverRequest.Domain, IngestRequest.Domain, and those of other packages
unfoldable pub domain : Request → Domain
domain (discover r) = discover_domain
domain (ingest r) = ingest_domain
domain (peer_record r) = peer_record_domain
domain (other n) = other_domain n

module _ (e : Envelopes) where
  -- makeRequestEnvelop
  unfoldable pub make_request_envelop : Request → e.PrivKey → Option e.Bytes
  make_request_envelop rec key = do envelope ← e.seal (domain rec) rec key; e.marshal envelope

  -- MakeDiscoverRequest, at the time `seq`
  unfoldable pub make_discover_request : ℕ → PeerId → e.PrivKey → Text → Option e.Bytes
  make_discover_request seq provider_id key discovery_addr =
      make_request_envelop
        (discover
          (record { provider_id = provider_id; discovery_addr = discovery_addr; seq = seq }))
        key

  -- MakeIngestRequest, at the time `seq`
  unfoldable pub make_ingest_request :
      ℕ → PeerId → e.PrivKey → Multihash → ℕ → ℕ → List Text → Option e.Bytes
  make_ingest_request seq provider_id key m context_id metadata addrs =
      make_request_envelop
        (ingest (record {
          multihash = m;
          provider_id = provider_id;
          context_id = context_id;
          metadata = metadata;
          addrs = addrs;
          seq = seq;
        }))
        key

  -- MakeRegisterRequest, at the time `seq`: its loop over the addresses is that of the registry.
  unfoldable pub make_register_request : Env → ℕ → PeerId → e.PrivKey → List Text → Option e.Bytes
  make_register_request env seq provider_id key addrs = if is_empty addrs then none else (do
    maddrs ← strings_to_multiaddrs env addrs
    make_request_envelop (peer_record (record { peer_id = provider_id; addrs = maddrs; seq = seq }))
        key)

  -- ReadDiscoverRequest
  unfoldable pub read_discover_request : e.Bytes → Option DiscoverRequest
  read_discover_request bytes = elim (e.consume bytes discover_domain) [
    | some (key, discover rec) ↦ some rec
    | _ ↦ none
  ]

  -- ReadIngestRequest
  unfoldable pub read_ingest_request : e.Bytes → Option IngestRequest
  read_ingest_request bytes = elim (e.consume bytes ingest_domain) [
    | some (key, ingest rec) ↦ some rec
    | _ ↦ none
  ]

  -- ReadRegisterRequest
  unfoldable pub read_register_request : e.Bytes → Option PeerRecord
  read_register_request bytes = elim (e.consume bytes peer_record_domain) [
    | some (key, peer_record rec) ↦ some rec
    | _ ↦ none
  ]
