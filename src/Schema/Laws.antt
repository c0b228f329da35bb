-- ===== src/Schema/Laws.antt =====
-- What the signature of an advertisement covers.
use storetheindex.Prelude.{
  ◌≡◌, refl, ap, true, not, none, some, List, [], ◌∷◌, ◌++◌, ◌==◌, ==_refl, length, if◌then◌else◌,
  bind_some, ◌>>=◌,
}
use mathlib.Core.List.{append_assoc, append-nil}
use mathlib.Core.Option.{some-injective}
use storetheindex.Schema.{
  Bytes, Advertisement, Crypto, equal, signature_data, signature_payload, sign, verify_signature,
}

-- The documented effect of the calls: an envelope that was sealed and marshalled is read back with the
-- key's public half, and a SHA2-256 multihash has 34 bytes.
pub record IsCrypto (crypto : Crypto) (public_key : crypto.PrivKey → crypto.PubKey) : Type 0 where
  pub consume-seal :
      (id : Bytes) (key : crypto.PrivKey) (e : crypto.Envelope) (b : Bytes)
      → crypto.seal id key ≡ some e
      → crypto.marshal e ≡ some b
      → crypto.consume b ≡ some (id, public_key key)
  pub length-sum : (b id : Bytes) → crypto.sum_sha256 b ≡ some id → length id ≡ 34

equal_refl : (b : Bytes) → equal b b ≡ true
equal_refl [] = refl
equal_refl (x ∷ b) = rw (==_refl x) (equal_refl b)

module _ (crypto : Crypto) (public_key : crypto.PrivKey → crypto.PubKey)
    (laws : IsCrypto crypto public_key) where
  -- A signed advertisement is verified, as signed by the peer of the key, and only its signature
  -- changed.
  pub verify-sign :
      (ad signed : Advertisement) (key : crypto.PrivKey)
      → sign crypto ad key ≡ some signed
      → (verify_signature crypto signed ≡ crypto.id_from_public_key (public_key key))
        × (signed ≡ record ad { signature = signed.signature })
  unfolding sign verify_signature signature_payload signature_data
  verify-sign ad signed key h =
      let (id, summed, h1) = bind_some _ _ signed h in
      let (envelope, sealed, h2) = bind_some _ _ signed h1 in
      let (bytes, marshalled, h3) = bind_some _ _ signed h2 in
      let read = laws.consume-seal id key envelope bytes sealed marshalled in
      let is_34 = laws.length-sum _ id summed in
      rw (← some-injective _ _ h3)
        (rw (verify_signature, read) (rw is_34 (rw (summed) (rw (equal_refl id) refl))), refl)

module _ (crypto : Crypto) where
  -- The context ID is not signed: an advertisement with another context ID has the same signer.
  pub verify-any_context :
      (ad : Advertisement) (context : Bytes)
      → verify_signature crypto (record ad { context_id = context }) ≡ verify_signature crypto ad
  unfolding verify_signature signature_payload signature_data
  verify-any_context ad context = refl

  -- Nor are the borders of the texts that are written one after another: bytes may move from the end
  -- of the last address to the start of the metadata.
  pub verify-moved :
      (ad : Advertisement) (before moved metadata : Bytes)
      → let with_texts : (List Bytes → Bytes → Advertisement) =
          λ addresses metadata. record ad { addresses = addresses; metadata = metadata } in
        verify_signature crypto (with_texts ((before ++ moved) ∷ []) metadata)
        ≡ verify_signature crypto (with_texts (before ∷ []) (moved ++ metadata))
  unfolding verify_signature signature_payload signature_data
  verify-moved ad before moved metadata =
      ap
        (λ d. crypto.consume ad.signature >>= λ (adv_id, public_key).
          (if not (length adv_id == 34) then crypto.encode_sha256 d else crypto.sum_sha256 d)
          >>= λ gen_id. if equal gen_id adv_id then crypto.id_from_public_key public_key else none)
        same
    where
      with_texts : List Bytes → Bytes → Advertisement
      with_texts addresses metadata = record ad { addresses = addresses; metadata = metadata }

      same :
          signature_data crypto (with_texts ((before ++ moved) ∷ []) metadata)
          ≡ signature_data crypto (with_texts (before ∷ []) (moved ++ metadata))
      same = simp (append_assoc, append-nil)
