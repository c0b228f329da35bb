-- ===== src/Schema/Tests.antt =====
-- Instances for the signatures: hashes that keep the first bytes, and envelopes that carry the key.
use storetheindex.Prelude.{ℕ, ◌≡◌, refl, false, Option, none, some, [], ◌∷◌}
use storetheindex.Schema.{
  Bytes, Advertisement, Crypto, signature_data, signature_payload, sign, verify_signature,
}
use storetheindex.Schema.Laws.{IsCrypto, verify-sign, verify-any_context}

-- 34 bytes that name the data by its first one
abbrev digest : Bytes → Bytes
digest b =
    let first : ℕ = elim b [ [] ↦ 0 | x ∷ more ↦ x ] in
    first ∷ 0 ∷ 0 ∷ 0 ∷ 0 ∷ 0 ∷ 0 ∷ 0 ∷ 0 ∷ 0 ∷ 0 ∷ 0 ∷ 0 ∷ 0 ∷ 0 ∷ 0 ∷ 0 ∷ 0 ∷ 0 ∷ 0 ∷ 0 ∷ 0 ∷ 0
    ∷ 0 ∷ 0 ∷ 0 ∷ 0 ∷ 0 ∷ 0 ∷ 0 ∷ 0 ∷ 0 ∷ 0 ∷ 0 ∷ []

abbrev open_envelope : Bytes → Option (Bytes × ℕ)
open_envelope [] = none
open_envelope (key ∷ id) = some (id, key)

-- A key is its own public half and its peer's ID.
abbrev pub crypto : Crypto
crypto = record {
  PrivKey = ℕ;
  PubKey = ℕ;
  Envelope = Bytes;
  cid_bytes = λ c. c ∷ [];
  encode_sha256 = λ b. some b;
  sum_sha256 = λ b. some (digest b);
  seal = λ id key. some (key ∷ id);
  marshal = λ e. some e;
  consume = open_envelope;
  id_from_public_key = λ key. some key;
}

crypto-IsCrypto : IsCrypto crypto (λ key. key)
crypto-IsCrypto = record { consume-seal = λ id key e b h k. cc; length-sum = λ b id h. cc }

abbrev pub unsigned : Advertisement
unsigned = record {
  previous_id = none;
  provider = 7 ∷ [];
  addresses = (1 ∷ 2 ∷ []) ∷ [];
  signature = [];
  entries = 3;
  context_id = 4 ∷ [];
  metadata = 5 ∷ [];
  is_rm = false;
}

abbrev pub signed : Advertisement
signed = record unsigned { signature = 7 ∷ digest (0 ∷ []) }

verify-sign_example :
    (verify_signature crypto signed ≡ some 7)
    × (signed ≡ record unsigned { signature = signed.signature })
unfolding sign signature_payload signature_data
verify-sign_example = verify-sign crypto (λ key. key) crypto-IsCrypto unsigned signed 7 refl

verify-any_context_example :
    verify_signature crypto (record signed { context_id = 6 ∷ [] }) ≡ verify_signature crypto signed
verify-any_context_example = verify-any_context crypto signed (6 ∷ [])
