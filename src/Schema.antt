-- ===== src/Schema.antt =====
-- The signature and the limits of an advertisement, from api/v0/ingest/schema/envelope.go and types.go.
pub mod Laws
pub mod Tests
use storetheindex.Prelude.{
  ℕ, zero, suc, Bool, true, false, not, Option, none, some, List, [], ◌∷◌, ◌++◌, ◌&&◌, ◌==◌, ltb,
  length, if◌then◌else◌, ◌>>=◌,
}
use storetheindex.PeerPolicy.{PeerId}
use storetheindex.Registry.State.{Cid}

abbrev pub Bytes : Type 0
Bytes = List ℕ

pub record Advertisement : Type 0 where
  pub previous_id : Option Cid
  pub provider : Bytes
  pub addresses : List Bytes
  pub signature : Bytes
  pub entries : Cid
  pub context_id : Bytes
  pub metadata : Bytes
  pub is_rm : Bool

-- What is called: go-cid, go-multihash, the envelopes of go-libp2p, whose record is the advID and whose
-- domain and codec are fixed, and its keys. An envelope is sealed and marshalled, or read and checked.
pub record Crypto : Type 1 where
  pub PrivKey : Type 0
  pub PubKey : Type 0
  pub Envelope : Type 0
  pub cid_bytes : Cid → Bytes
  pub encode_sha256 : Bytes → Option Bytes
  pub sum_sha256 : Bytes → Option Bytes
  pub seal : Bytes → PrivKey → Option Envelope
  pub marshal : Envelope → Option Bytes
  pub consume : Bytes → Option (Bytes × PubKey)
  pub id_from_public_key : PubKey → Option PeerId

-- bytes.Equal
abbrev pub equal : Bytes → Bytes → Bool
equal [] [] = true
equal (a ∷ x) (b ∷ y) = (a == b) && equal x y
equal _ _ = false

-- The texts of the addresses, one after another.
abbrev pub write_all : List Bytes → Bytes
write_all [] = []
write_all (a ∷ rest) = a ++ write_all rest

module _ (crypto : Crypto) where
  abbrev pub previous_bytes : Option Cid → Bytes
  previous_bytes none = crypto.cid_bytes 0
  previous_bytes (some c) = crypto.cid_bytes c

  -- The buffer that is hashed; cid.Undef is 0.
  unfoldable pub signature_data : Advertisement → Bytes
  signature_data ad =
      previous_bytes ad.previous_id
      ++ crypto.cid_bytes ad.entries
      ++ ad.provider
      ++ write_all ad.addresses
      ++ ad.metadata
      ++ ((if ad.is_rm then 1 else 0) ∷ [])

  unfoldable pub signature_payload : Advertisement → Bool → Option Bytes
  signature_payload ad old_format =
      if old_format
      then crypto.encode_sha256 (signature_data ad)
      else crypto.sum_sha256 (signature_data ad)

  unfoldable pub sign : Advertisement → crypto.PrivKey → Option Advertisement
  sign ad key = do
    adv_id ← signature_payload ad false
    envelope ← crypto.seal adv_id key
    bytes ← crypto.marshal envelope
    some (record ad { signature = bytes })

  -- The signer, where the signature is good; 34 is sigSize.
  unfoldable pub verify_signature : Advertisement → Option PeerId
  verify_signature ad = do
    (adv_id, public_key) ← crypto.consume ad.signature
    gen_id ← signature_payload ad (not (length adv_id == 34))
    if equal gen_id adv_id then crypto.id_from_public_key public_key else none

-- Whether Validate finds no error, with MaxContextIDLen and MaxMetadataLen.
unfoldable pub validate : Advertisement → Bool
validate ad =
    if ltb 64 (length ad.context_id)
    then false
    else if ltb 1024 (length ad.metadata)
    then false
    else true
