-- ===== src/Ingest/Batches.antt =====
-- indexAdMultihashes, storeBatch and getAdData in internal/ingest/linksystem.go. The goroutine that
-- stores a batch while the next one is filled stops at its first error, which the next send or the end
-- of the loop returns; so the batches are stored in order up to the first error.
pub mod Laws
use storetheindex.Prelude.{
  ℕ, Bool, true, false, Option, none, some, List, [], ◌∷◌, ◌++◌, ◌==◌, length, if◌then◌else◌,
}
use storetheindex.PeerPolicy.{PeerId}
use storetheindex.Registry.State.{Text}
use storetheindex.Ingest.State.{Advertisement}

abbrev pub Multihash : Type 0
Multihash = ℕ

-- indexer.Value
pub record Value : Type 0 where
  pub provider_id : PeerId
  pub context_id : ℕ
  pub metadata_bytes : ℕ

-- What is called: go-indexer-core, whose flag says that the call failed, multihash.Decode and
-- peer.Decode.
pub record Core : Type 1 where
  pub State : Type 0
  pub put : State → Value → List Multihash → State × Bool
  pub remove : State → Value → List Multihash → State × Bool
  pub remove_provider_context : State → PeerId → ℕ → State × Bool
  pub is_multihash : Multihash → Bool
  pub decode_peer : Text → Option PeerId

module _ (core : Core) where
  unfoldable pub get_ad_data : Advertisement → Option (Value × Bool)
  get_ad_data ad = elim (core.decode_peer ad.provider) [
    | none ↦ none
    | some provider ↦ some (
      record { provider_id = provider; context_id = ad.context_id; metadata_bytes = ad.metadata },
      ad.is_rm,
    )
  ]

  unfoldable pub store_batch : core.State → Value → List Multihash → Bool → core.State × Bool
  store_batch s value batch is_rm =
      if is_rm then core.remove s value batch else core.put s value batch

  -- The capacity of a batch is the batch size, which is not 0: the capacity of a slice that outgrows 0
  -- is Go's choice.
  module _ (size : ℕ) (value : Value) (is_rm : Bool) where
    unfoldable pub index_loop : core.State → List Multihash → List Multihash → core.State × Bool
    unfolding store_batch
    index_loop s [] batch =
        if length batch == 0 then (s, false) else store_batch s value batch is_rm
    index_loop s (entry ∷ mhs) batch = elim (core.is_multihash entry) [
      | false ↦ index_loop s mhs batch
      | true ↦
          let batch' = batch ++ (entry ∷ []) in
          elim (length batch' == size) [
            | false ↦ index_loop s mhs batch'
            | true ↦
                let (s', failed) = store_batch s value batch' is_rm in
                elim failed [ true ↦ (s', true) | false ↦ index_loop s' mhs [] ]
          ]
    ]

  unfoldable pub index_ad_multihashes :
      ℕ → core.State → Advertisement → List Multihash → core.State × Bool
  index_ad_multihashes size s ad mhs = elim (get_ad_data ad) [
    | none ↦ (s, true)
    | some (value, is_rm) ↦ index_loop size value is_rm s mhs []
  ]
