-- ===== src/Ingest/Link/Laws.antt =====
-- What the link system stores.
use storetheindex.Prelude.{
  ◌≡◌, ◌⊎◌, ◌≢◌, true, none, some, ◌==◌, ==_iff, arith, Bool-cases, Option-cases, inl, inr,
}
use storetheindex.Prelude.Result.{ok, Result-cases}
use storetheindex.PeerPolicy.{PeerId}
use storetheindex.Registry.Policy.{Policy, publish_allowed}
use storetheindex.Registry.State.{Cid}
use storetheindex.Schema.{Bytes, Advertisement, Crypto, verify_signature}
use storetheindex.Ingest.Link.{
  LinkError, not_stored, Blocks, verify_advertisement, store, write_block,
}

module _ (crypto : Crypto) (blocks : Blocks) (policy : Policy) where
  -- An advertisement whose signature is good, by its provider or by a peer that may publish for it.
  pub record IsTrusted (ad : Advertisement) : Type 0 where
    pub signer : PeerId
    pub provider : PeerId
    pub is_signed : verify_signature crypto ad ≡ some signer
    pub is_provider : blocks.decode_peer ad.provider ≡ some provider
    pub may_publish : (signer ≡ provider) ⊎ (publish_allowed policy signer provider ≡ true)

  verified-IsTrusted :
      (n : blocks.Node) (p : PeerId)
      → verify_advertisement crypto blocks policy n ≡ ok p
      → (ad : Advertisement) × (blocks.unwrap_advertisement n ≡ some ad) × IsTrusted ad
  unfolding verify_advertisement
  verified-IsTrusted n p h = elim (Option-cases (blocks.unwrap_advertisement n)) [
    | inl e ↦ absurd (cc)
    | inr (ad, e) ↦ elim (Option-cases (verify_signature crypto ad)) [
      | inl f ↦ absurd (cc)
      | inr (signer, f) ↦ elim (Option-cases (blocks.decode_peer ad.provider)) [
        | inl g ↦ absurd (cc)
        | inr (provider, g) ↦ (
          ad,
          e,
          record {
            signer = signer;
            provider = provider;
            is_signed = f;
            is_provider = g;
            may_publish = elim (Bool-cases (signer == provider)) [
              | inl same ↦ inl ((==_iff signer provider).0 same)
              | inr differ ↦ elim (Bool-cases (publish_allowed policy signer provider)) [
                | inl allowed ↦ inr allowed
                | inr blocked ↦ absurd (cc)
              ]
            ];
          },
        )
      ]
    ]
  ]

  -- A block with a signature is stored only if it is an advertisement that is signed by its provider,
  -- or by a peer that the policy allows to publish for it.
  pub write-IsTrusted :
      (s : blocks.State) (c : Cid) (bytes : Bytes) (n : blocks.Node)
      → blocks.decode_node c bytes ≡ some n
      → blocks.lookup_signature n ≡ true
      → (write_block crypto blocks policy s c bytes).1 ≡ none
      → (ad : Advertisement) × (blocks.unwrap_advertisement n ≡ some ad) × IsTrusted ad
  unfolding write_block store
  write-IsTrusted s c bytes n d a h =
      elim (Result-cases (verify_advertisement crypto blocks policy n)) [
        | inl (e, f) ↦ absurd (cc)
        | inr (provider, f) ↦ verified-IsTrusted n provider f
      ]

  -- A block that is refused for what it holds leaves the datastore as it was.
  pub write_refused :
      (s : blocks.State) (c : Cid) (bytes : Bytes) (e : LinkError)
      → (write_block crypto blocks policy s c bytes).1 ≡ some e
      → e ≢ not_stored
      → (write_block crypto blocks policy s c bytes).0 ≡ s
  unfolding write_block store
  write_refused s c bytes e h k = ground arith
