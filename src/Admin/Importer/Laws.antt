-- ===== src/Admin/Importer/Laws.antt =====
-- What an import stores.
use mathlib.Core.List.{flatten}
use storetheindex.Prelude.{
  ℕ, ◌+◌, ◌≡◌, ◌≢◌, refl, sym, ap, ◌∙◌, Bool, true, false, none, some, List, [], ◌∷◌, ◌++◌, filter,
  length, ◌==◌, arith, inl, inr, Bool-cases, Option-cases, if◌then◌else◌,
}
use storetheindex.PeerPolicy.{PeerId}
use storetheindex.Registry.State.{Text}
use storetheindex.Ingest.Batches.{Multihash, Value, Core, index_loop, store_batch}
use storetheindex.Ingest.Batches.Laws.{IsBatches, store_all, loop-Splits}
use storetheindex.Admin.Importer.{
  Formats, File, ReadError, line_cid, read_cids, entry_cid, read_manifest, batch_loop,
  batch_indexer_entries, Params, import_file, import_manifest, import_cid_list,
}
use storetheindex.Admin.Importer.Reading.{hashes, read_lines_ok, scan_lines_ok}

-- A core that takes every multihash as valid.
abbrev all_valid : Core → Core
all_valid core = record core { is_multihash = λ m. true }

filter_all : (mhs : List Multihash) → filter (λ m. true) mhs ≡ mhs
filter_all [] = refl
filter_all (m ∷ mhs) = ap (λ l. m ∷ l) (filter_all mhs)

-- The loop is that of indexAdMultihashes, without its test.
batch_loop-index_loop :
    (core : Core) (size : ℕ) (value : Value) (mhs puts : List Multihash) (s : core.State)
    → batch_loop core size value s mhs puts
      ≡ index_loop (all_valid core) size value false s mhs puts
unfolding batch_loop index_loop store_batch
batch_loop-index_loop core size value [] puts s = refl
batch_loop-index_loop core size value (m ∷ mhs) puts s =
    elim (Bool-cases (length (puts ++ (m ∷ [])) == size)) [
      | inr more ↦
          rw (more, batch_loop, index_loop)
            (batch_loop-index_loop core size value mhs (puts ++ (m ∷ [])) s)
      | inl full ↦
          rw (full, batch_loop, index_loop)
            (ap
              (λ t. elim (core.put s value (puts ++ (m ∷ []))).1 [
                | true ↦ ((core.put s value (puts ++ (m ∷ []))).0, true)
                | false ↦ t
              ])
              (batch_loop-index_loop core size value mhs []
                (core.put s value (puts ++ (m ∷ []))).0))
    ]

-- Batches put one after another, up to the first error.
module _ (core : Core) (value : Value) where
  abbrev pub put_all : core.State → List (List Multihash) → core.State × Bool
  put_all s [] = (s, false)
  put_all s (b ∷ bs) =
      let (s', failed) = core.put s value b in
      elim failed [ true ↦ (s', true) | false ↦ put_all s' bs ]

  put_all-store_all :
      (bs : List (List Multihash)) (s : core.State)
      → store_all (all_valid core) value false s bs ≡ put_all s bs
  unfolding store_batch
  put_all-store_all [] s = refl
  put_all-store_all (b ∷ bs) s =
      ap (λ t. elim (core.put s value b).1 [ true ↦ ((core.put s value b).0, true) | false ↦ t ])
        (put_all-store_all bs (core.put s value b).0)

  -- The multihashes are put, in order and without an error, in batches that are full but for the last.
  abbrev pub IsStored : core.State → core.State → List Multihash → Type 0
  IsStored s s' mhs =
      (mhs ≢ [])
      × (bs : List (List Multihash)) × (flatten bs ≡ mhs)
      × IsBatches 256 bs
      × (put_all s bs ≡ (s', false))

  batch_lem :
      (s : core.State) (mhs : List Multihash)
      → (bs : List (List Multihash)) × (flatten bs ≡ mhs)
        × IsBatches 256 bs
        × (batch_indexer_entries core 256 s mhs value ≡ put_all s bs)
  unfolding batch_indexer_entries
  batch_lem s mhs =
      let (bs, all, sizes, same) =
        loop-Splits (all_valid core) 256 value false mhs s [] (omega arith) in
      (
        bs,
        all ∙ filter_all mhs,
        sizes,
        batch_loop-index_loop core 256 value mhs [] s ∙ same ∙ put_all-store_all bs s,
      )

abbrev pub import_value : Params → PeerId → Value
import_value p id = record {
  provider_id = id;
  context_id = p.context_id;
  metadata_bytes = p.metadata;
}

module _ (core : Core) (f : Formats) (s : core.State) (provider : Text) (p : Params)
    (file : File) where
  abbrev answer : core.State × Bool → List ReadError → core.State × ℕ
  answer (s', true) errors = (s', 500)
  answer (s', false) [] = (s', 200)
  answer (s', false) (e ∷ more) = (s', 400)

  answered :
      (t : core.State × Bool) (errors : List ReadError)
      → (answer t errors).1 ≡ 200
      → (errors ≡ []) × (t ≡ ((answer t errors).0, false))
  answered (s', true) errors ok = absurd (omega arith)
  answered (s', false) [] ok = (refl, refl)
  answered (s', false) (e ∷ more) ok = absurd (omega arith)

  answer_lem :
      (t : core.State × Bool) (errors : List ReadError)
      → (if t.1 then (t.0, 500) else (t.0, elim errors [ [] ↦ 200 | e ∷ more ↦ 400 ]))
        ≡ answer t errors
  answer_lem (s', true) errors = refl
  answer_lem (s', false) [] = refl
  answer_lem (s', false) (e ∷ more) = refl

  import_known :
      (read : File → List Multihash × List ReadError) (id : PeerId)
      → p.file ≡ some file
      → f.decode_peer provider ≡ some id
      → import_file core f read s provider (some p)
        ≡ answer (batch_indexer_entries core 256 s (read file).0 (import_value p id)) (read file).1
  unfolding import_file
  import_known read id e known =
      rw (known, import_file)
        (rw e (
          answer_lem (batch_indexer_entries core 256 s (read file).0 (import_value p id))
            (read file).1))

  -- An import that is answered by 200 has a provider, its batches were put, and its reader has no error.
  import_lem :
      (read : File → List Multihash × List ReadError)
      → p.file ≡ some file
      → (import_file core f read s provider (some p)).1 ≡ 200
      → (id : PeerId) × (f.decode_peer provider ≡ some id)
        × ((read file).1 ≡ [])
        × (batch_indexer_entries core 256 s (read file).0 (import_value p id)
            ≡ ((import_file core f read s provider (some p)).0, false))
  unfolding import_file
  import_lem read e ok = elim (Option-cases (f.decode_peer provider)) [
    | inl bad ↦ absurd (omega (arith, rw (bad, import_file) at ok))
    | inr (id, known) ↦
        let (fine, puts) =
          answered (batch_indexer_entries core 256 s (read file).0 (import_value p id))
            (read file).1 (rw (import_known read id e known) at ok) in
        (id, known, fine, rw (import_known read id e known) puts)
  ]

  stored :
      (read : File → List Multihash × List ReadError) (mhs : List Multihash)
      → p.file ≡ some file
      → ((read file).1 ≡ [] → ((read file).0 ≡ mhs) × (0 + length mhs ≢ 0))
      → (import_file core f read s provider (some p)).1 ≡ 200
      → (id : PeerId) × (f.decode_peer provider ≡ some id)
        × IsStored core (import_value p id) s (import_file core f read s provider (some p)).0 mhs
  stored read mhs e reads ok =
      let (id, known, fine, puts) = import_lem read e ok in
      let (same, nonempty) = reads fine in
      let (bs, all, sizes, e') = batch_lem core (import_value p id) s (read file).0 in
      (
        id,
        known,
        (λ none_there. nonempty (rw none_there refl), bs, all ∙ same, sizes, sym e' ∙ puts),
      )

  -- The import of a list of CIDs that is answered by 200 has put, for the provider, the context and the
  -- metadata of the request, the multihashes of all the lines that have a CID, up to the last newline,
  -- in order and in batches of 256; there is at least one.
  pub import_cid_list_ok :
      (stops : ℕ → Bool)
      → p.file ≡ some file
      → (import_cid_list core f stops s provider (some p)).1 ≡ 200
      → (id : PeerId) × (f.decode_peer provider ≡ some id)
        × IsStored core
            (import_value p id)
            s
            (import_cid_list core f stops s provider (some p)).0
            (hashes f (line_cid f stops) file.lines)
  unfolding read_cids import_cid_list
  import_cid_list_ok stops e =
      stored (read_cids f stops) (hashes f (line_cid f stops) file.lines) e
        (read_lines_ok f stops file.failed file.lines 0)

  -- The import of a manifest that is answered by 200 has put the multihashes of all the entries that
  -- have a CID, that of the text behind the last newline too, in order and in batches of 256; there is at
  -- least one.
  pub import_manifest_ok :
      (stops checks : ℕ → Bool)
      → p.file ≡ some file
      → (import_manifest core f stops checks s provider (some p)).1 ≡ 200
      → (id : PeerId) × (f.decode_peer provider ≡ some id)
        × IsStored core
            (import_value p id)
            s
            (import_manifest core f stops checks s provider (some p)).0
            (hashes f
              (entry_cid f stops)
              (file.lines ++ elim file.rest [ none ↦ [] | some line ↦ line ∷ [] ]))
  unfolding read_manifest import_manifest
  import_manifest_ok stops checks e = stored (read_manifest f stops checks) _ e (
      scan_lines_ok f stops checks file.failed
        (file.lines ++ elim file.rest [ none ↦ [] | some line ↦ line ∷ [] ]) 0)
