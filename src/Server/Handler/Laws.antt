-- ===== src/Server/Handler/Laws.antt =====
-- What the requests do to the registry, the indexer and the ingester.
use mathlib.Core.Option.{some-injective}
use storetheindex.Prelude.{
  ℕ, ◌≤◌, ◌<◌, ◌≡◌, ◌≢◌, ◌⊎◌, inl, inr, refl, sym, true, false, Option, none, some, [], ◌∷◌, ltb,
  ==_refl, arith, Bool-cases, Option-cases,
}
use storetheindex.Prelude.Dict
use storetheindex.Prelude.Dict.{get-put}
use storetheindex.Registry.State
use storetheindex.Registry.State.{panics}
use storetheindex.Registry.Sequences.{Error, oldest_allowed, check}
use storetheindex.Registry.Sequences.Replay.{check_cases}
use storetheindex.Registry.Register.{is_registered}
use storetheindex.Registry.Update.{strings_to_multiaddrs, register_or_update}
use storetheindex.Registry.Update.Laws.{register_or_update_bad_addrs, register_or_update_ok}
use storetheindex.Ingest.Batches.{Value}
use storetheindex.Server.Requests.{IngestRequest, read_ingest_request}
use storetheindex.Server.Handler.{
  Services, Handler, Now, Refusal, long_context, long_metadata, not_indexed, unreadable, sequence,
  registry_error, no_addr_info, check_sequence, index_content, do_index,
}

abbrev pub value_of : IngestRequest → Value
value_of req = record {
  provider_id = req.provider_id;
  context_id = req.context_id;
  metadata_bytes = req.metadata;
}

module _ (s : Services) (h : Handler s) (now : Now s) where
  -- The sequence number of a request that gets on: new enough, above the last one seen, and seen now.
  pub record IsFresh (id seq : ℕ) (h' : Handler s) : Type 0 where
    pub young : oldest_allowed h.sequences now.unix ≤ seq
    pub above : (y : ℕ) → Dict.get h.sequences.seqs id ≡ some y → y < seq
    pub seen : Dict.get h'.sequences.seqs id ≡ some seq

  -- What an index request asks of the indexer and the registry.
  pub record IsIndexed (req : IngestRequest) (h' : Handler s) : Type 0 where
    pub fits : (s.len req.context_id ≤ 64) × (s.len req.metadata ≤ 1024)
    pub fresh : IsFresh req.provider_id req.seq h'
    pub registered : is_registered s.env h'.registry req.provider_id ≡ true
    pub put :
        (h'.index ≡ (s.core.put h.index (value_of req) (req.multihash ∷ [])).0)
        × ((s.core.put h.index (value_of req) (req.multihash ∷ [])).1 ≡ false)

  updated-is_registered :
      (req : IngestRequest)
      → (register_or_update s.env h.registry now.time req.provider_id req.addrs 0 no_addr_info).1
        ≡ none
      → is_registered s.env
          (register_or_update s.env h.registry now.time req.provider_id req.addrs 0 no_addr_info).0
          req.provider_id
        ≡ true
  unfolding is_registered
  updated-is_registered req ok =
      let (info, updated, admitted, found) =
        register_or_update_ok s.env h.registry now.time req.provider_id req.addrs 0 no_addr_info
          ok in
      rw (found req.provider_id, ==_refl req.provider_id, is_registered) refl

  do_index_ok :
      (req : IngestRequest)
      → (do_index s now req h).1 ≡ none
      → ((do_index s now req h).0.sequences ≡ h.sequences)
        × (is_registered s.env (do_index s now req h).0.registry req.provider_id ≡ true)
        × ((do_index s now req h).0.index
            ≡ (s.core.put h.index (value_of req) (req.multihash ∷ [])).0)
        × ((s.core.put h.index (value_of req) (req.multihash ∷ [])).1 ≡ false)
  unfolding do_index
  do_index_ok req ok = ground (arith, updated-is_registered req)

abbrev pub seen : (s : Services) → Handler s → ℕ → ℕ → Handler s
seen s h id seq = record h {
  sequences = record h.sequences { seqs = Dict.put h.sequences.seqs id seq };
}

module _ (s : Services) (h : Handler s) (now : Now s) (req : IngestRequest) (x : Refusal) where
  do_index_refused :
      (do_index s now req h).1 ≡ some x
      → x ≢ not_indexed
      → ((do_index s now req h).0.index ≡ h.index)
        × (((e : State.Error) → x ≢ registry_error e)
            → (do_index s now req h).0.registry ≡ h.registry)
  unfolding do_index
  do_index_refused stops n = (
    ground arith,
    λ k. elim (Option-cases update.1) [
      | inl fine ↦ ground arith
      | inr (y, e) ↦ absurd (k y (sym (some-injective _ _ (rw (e, do_index) at stops))))
    ],
  )
    where
      update : State.Registry s.env × Option State.Error
      update = register_or_update s.env h.registry now.time req.provider_id req.addrs 0 no_addr_info

-- What a sequence check that finds no error does, and what one that finds an error does.
module _ (s : Services) (h : Handler s) (now : Now s) (id seq : ℕ)
    (f : Handler s → Handler s × Option Refusal) where
  pub check_sequence_cases :
      ((e : Error) × (check_sequence s h now id seq f ≡ (h, some (sequence e))))
      ⊎ ((oldest_allowed h.sequences now.unix ≤ seq)
          × ((y : ℕ) → Dict.get h.sequences.seqs id ≡ some y → y < seq)
          × (check_sequence s h now id seq f ≡ f (seen s h id seq)))
  unfolding check_sequence
  check_sequence_cases = elim (check_cases h.sequences now.unix id seq) [
    | inl (e, same, refused) ↦ inl (e, rw (refused, check_sequence) (rw same refl))
    | inr (stored, fine, fits, above) ↦
        inr (fits, above, rw (fine, check_sequence) (rw stored refl))
  ]

module _ (s : Services) (h : Handler s) (now : Now s) (bytes : s.envelopes.Bytes) where
  -- A request that is not readable or too long ends at once; another one has its number checked.
  abbrev pub IndexCases : Type 0
  IndexCases =
      ((x : Refusal) × (index_content s h now bytes ≡ (h, some x)))
      ⊎ ((req : IngestRequest) × (read_ingest_request s.envelopes bytes ≡ some req)
          × (s.len req.context_id ≤ 64)
          × (s.len req.metadata ≤ 1024)
          × (index_content s h now bytes
              ≡ check_sequence s h now req.provider_id req.seq (do_index s now req)))

  pub index_content_cases : IndexCases
  unfolding index_content
  index_content_cases = elim (Option-cases (read_ingest_request s.envelopes bytes)) [
    | inl bad ↦ inl (unreadable, rw (bad, index_content) refl)
    | inr (req, e) ↦ elim (Bool-cases (ltb 64 (s.len req.context_id))) [
      | inl long ↦ inl (long_context, rw (e, index_content) (rw long refl))
      | inr short ↦ elim (Bool-cases (ltb 1024 (s.len req.metadata))) [
        | inl large ↦ inl (long_metadata, rw (e, index_content) (rw (short, large) refl))
        | inr small ↦
            inr (req, e, ground arith, ground arith, rw (e, index_content) (rw (short, small) refl))
      ]
    ]
  ]

  indexed :
      (req : IngestRequest)
      → s.len req.context_id ≤ 64
      → s.len req.metadata ≤ 1024
      → oldest_allowed h.sequences now.unix ≤ req.seq
      → ((y : ℕ) → Dict.get h.sequences.seqs req.provider_id ≡ some y → y < req.seq)
      → (do_index s now req (seen s h req.provider_id req.seq)).1 ≡ none
      → IsIndexed s h now req (do_index s now req (seen s h req.provider_id req.seq)).0
  indexed req short small fits above fine =
      let (kept, registered, put, works) =
        do_index_ok s (seen s h req.provider_id req.seq) now req fine in
      record {
        fits = (short, small);
        fresh = record {
          young = fits;
          above = above;
          seen = rw kept (
              rw
                (
                  get-put h.sequences.seqs req.provider_id req.provider_id req.seq,
                  ==_refl req.provider_id,
                )
                refl);
        };
        registered = registered;
        put = (put, works);
      }

  -- An index request that is answered without an error was within the limits and fresh; it leaves its
  -- sequence number remembered, its provider registered, and its multihash put for its value.
  pub index_content_ok :
      (index_content s h now bytes).1 ≡ none
      → (req : IngestRequest) × (read_ingest_request s.envelopes bytes ≡ some req)
        × IsIndexed s h now req (index_content s h now bytes).0
  index_content_ok fine = elim index_content_cases [
    | inl (x, e) ↦ absurd (cc (rw e at fine))
    | inr (req, e, short, small, checks) ↦
        elim (check_sequence_cases s h now req.provider_id req.seq (do_index s now req)) [
          | inl (x, stops) ↦ absurd (cc (rw (checks, stops) at fine))
          | inr (fits, above, goes) ↦ (
            req,
            e,
            rw (checks, goes) (indexed req short small fits above (rw (checks, goes) at fine)),
          )
        ]
  ]

module _ (s : Services) (h : Handler s) (now : Now s) (bytes : s.envelopes.Bytes) where
  -- An index request that is refused, for another reason than the indexer's, leaves the indexer as it
  -- was; and where it is not the registry that refuses it, the registry too.
  pub index_content_refused :
      (x : Refusal)
      → (index_content s h now bytes).1 ≡ some x
      → x ≢ not_indexed
      → ((index_content s h now bytes).0.index ≡ h.index)
        × (((e : State.Error) → x ≢ registry_error e)
            → (index_content s h now bytes).0.registry ≡ h.registry)
  index_content_refused x stops n = elim (index_content_cases s h now bytes) [
    | inl (y, e) ↦ rw e (refl, λ k. refl)
    | inr (req, e, short, small, checks) ↦
        elim (check_sequence_cases s h now req.provider_id req.seq (do_index s now req)) [
          | inl (y, e) ↦ rw (checks, e) (refl, λ k. refl)
          | inr (fits, above, goes) ↦
              rw (checks, goes)
                (do_index_refused s (seen s h req.provider_id req.seq) now req x
                  (rw (checks, goes) at stops) n)
        ]
  ]

  -- A fresh index request with an address that cannot be read ends in a panic.
  pub index_content_panics :
      (req : IngestRequest)
      → read_ingest_request s.envelopes bytes ≡ some req
      → s.len req.context_id ≤ 64
      → s.len req.metadata ≤ 1024
      → (check h.sequences now.unix req.provider_id req.seq).1 ≡ none
      → strings_to_multiaddrs s.env req.addrs ≡ none
      → (index_content s h now bytes).1 ≡ some (registry_error panics)
  unfolding check_sequence
  index_content_panics req e short small fresh bad =
      rw (after_limits, fresh, check_sequence) (do_index_panics _)
    where
      after_limits :
          index_content s h now bytes
          ≡ check_sequence s h now req.provider_id req.seq (do_index s now req)
      after_limits = unfold index_content in ground arith

      do_index_panics : (h' : Handler s) → (do_index s now req h').1 ≡ some (registry_error panics)
      do_index_panics h' =
          unfold do_index in
          rw
            (
              register_or_update_bad_addrs s.env h'.registry now.time req.provider_id req.addrs 0
                  no_addr_info bad,
              do_index,
            )
            refl
