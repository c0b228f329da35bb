-- ===== src/Ingest/Link/Tests.antt =====
-- Instances for the link system: one signed advertisement.
use storetheindex.Prelude.{◌≡◌, refl, true, false, none, some, List, [], ◌∷◌}
use storetheindex.Registry.State.{Cid}
use storetheindex.Schema.{Advertisement, signature_data, signature_payload, verify_signature}
use storetheindex.Schema.Tests.{crypto, signed}
use storetheindex.Registry.Tests.{policy}
use storetheindex.Ingest.Link.{Blocks, verify_advertisement, store, write_block}
use storetheindex.Ingest.Link.Laws.{IsTrusted, write-IsTrusted}

-- Every block is the signed advertisement; the datastore lists the CIDs that it has.
abbrev blocks : Blocks
blocks = record {
  State = List Cid;
  Node = Advertisement;
  decode_node = λ c b. some (record signed { provider = b });
  lookup_signature = λ n. true;
  unwrap_advertisement = λ n. some n;
  decode_peer = λ b. elim b [ [] ↦ none | x ∷ more ↦ some x ];
  put = λ s c b. (c ∷ s, false);
}

write-IsTrusted_example :
    (ad : Advertisement) × (blocks.unwrap_advertisement signed ≡ some ad)
    × IsTrusted crypto blocks policy ad
unfolding write_block verify_advertisement store verify_signature signature_payload signature_data
write-IsTrusted_example = write-IsTrusted crypto blocks policy [] 50 (7 ∷ []) signed refl refl refl
