-- ===== src/Finder/Clients/Encodings.antt =====
-- What the servers and the clients of the finder rely on in what they call, go-multihash, peer.Decode and
-- encoding/json.
use storetheindex.Prelude.{◌≡◌, Bool, if◌then◌else◌, All, none, some}
use storetheindex.PeerPolicy.{PeerId}
use storetheindex.Ingest.Batches.{Multihash}
use storetheindex.Finder.Servers.{Services}
use storetheindex.Finder.Clients.Named.{IsNamedResult, IsNamed}
use storetheindex.Server.Errors.{Formats}
use storetheindex.Web.{IsCodec, Codec}

-- Values of the type for which the condition holds are read as they were written.
pub record IsCodecOf {A B : Type 0} (P : A → Type 0) (c : Codec A B) : Type 0 where
  pub written : (a : A) → (b : B) × (c.encode a ≡ some b)
  pub decode-encode : (a : A) (b : B) → P a → c.encode a ≡ some b → c.decode b ≡ some a

-- The encodings are read as they were written, where they hold no peer IDs but those that peer.Decode
-- takes. The texts of multihashes and of peer IDs, and the encoding of a peer ID, are read by go-multihash
-- and by peer.Decode, which refuse what is no multihash and no such peer ID.
pub record IsServices (f : Formats) (s : Services f) : Type 0 where
  pub is_multihash : Multihash → Bool
  pub is_peer : PeerId → Bool
  pub find_request : IsCodec s.find_request
  pub find_response : IsCodecOf (All (IsNamedResult is_peer)) s.find_response
  pub provider : IsCodecOf (IsNamed is_peer) s.provider
  pub providers : IsCodecOf (All (IsNamed is_peer)) s.providers
  pub peer_id-written : (id : PeerId) → (b : f.Bytes) × (s.peer_id.encode id ≡ some b)
  pub peer_id-decode :
      (id : PeerId) (b : f.Bytes)
      → s.peer_id.encode id ≡ some b
      → s.peer_id.decode b ≡ (if is_peer id then some id else none)
  pub from_b58-b58_string :
      (m : Multihash) → s.from_b58 (s.b58_string m) ≡ (if is_multihash m then some m else none)
  pub decode_peer-peer_string :
      (id : PeerId) → s.decode_peer (s.peer_string id) ≡ (if is_peer id then some id else none)
