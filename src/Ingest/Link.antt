-- ===== src/Ingest/Link.antt =====
-- The link system of internal/ingest/linksystem.go, which checks an advertisement before it stores it.
pub mod Laws
mod Tests
use storetheindex.Prelude.{
  ℕ, Bool, true, false, not, Option, none, some, List, ◌&&◌, ◌==◌, if◌then◌else◌,
}
use storetheindex.Prelude.Result.{Result, ok, err}
use storetheindex.PeerPolicy.{PeerId}
use storetheindex.Registry.Policy.{Policy, publish_allowed}
use storetheindex.Registry.State.{Cid}
use storetheindex.Schema.{Bytes, Advertisement, Crypto, verify_signature}

pub data LinkError : Type 0 where
  bad_advert invalid_advert_signature bad_ipld_data not_stored : LinkError

-- What is called: the decoding of a block by its CID's codec, the node's field "Signature",
-- UnwrapAdvertisement's binding, peer.Decode, and the datastore's Put, whose flag says that it failed.
pub record Blocks : Type 1 where
  pub State : Type 0
  pub Node : Type 0
  pub decode_node : Cid → Bytes → Option Node
  pub lookup_signature : Node → Bool
  pub unwrap_advertisement : Node → Option Advertisement
  pub decode_peer : Bytes → Option PeerId
  pub put : State → Cid → Bytes → State × Bool

module _ (crypto : Crypto) (blocks : Blocks) where
  abbrev pub is_advertisement : blocks.Node → Bool
  is_advertisement n = blocks.lookup_signature n

  unfoldable pub verify_advertisement : Policy → blocks.Node → Result LinkError PeerId
  verify_advertisement policy n = elim (blocks.unwrap_advertisement n) [
    | none ↦ err bad_advert
    | some ad ↦ elim (verify_signature crypto ad) [
      | none ↦ err invalid_advert_signature
      | some signer ↦ elim (blocks.decode_peer ad.provider) [
        | none ↦ err bad_advert
        | some provider ↦
            if not (signer == provider) && not (publish_allowed policy signer provider)
            then err invalid_advert_signature
            else ok provider
      ]
    ]
  ]

  unfoldable pub store : blocks.State → Cid → Bytes → blocks.State × Option LinkError
  store s c bytes =
      let (s', failed) = blocks.put s c bytes in (s', if failed then some not_stored else none)

  -- What StorageWriteOpener commits.
  unfoldable pub write_block : Policy → blocks.State → Cid → Bytes → blocks.State × Option LinkError
  unfolding verify_advertisement
  write_block policy s c bytes = elim (blocks.decode_node c bytes) [
    | none ↦ (s, some bad_ipld_data)
    | some n ↦ elim (is_advertisement n) [
      | false ↦ store s c bytes
      | true ↦ elim (verify_advertisement policy n) [
        | err e ↦ (s, some e)
        | ok provider ↦ store s c bytes
      ]
    ]
  ]
