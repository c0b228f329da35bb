-- ===== src/Admin/Importer.antt =====
-- The import of content from files: internal/importer/cidlist.go and manifest.go, which read multihashes
-- into a channel, and batchIndexerEntries and the two import handlers in server/admin/http/handler.go,
-- which store what comes out of it. The channel hands all that is sent over in order, so the reader's
-- output is a list.
pub mod Reading
pub mod Laws
mod Tests
use storetheindex.Prelude.{
  ℕ, suc, Bool, true, false, not, ◌&&◌, ◌||◌, Option, none, some, List, [], ◌∷◌, ◌++◌, length, ◌==◌,
  if◌then◌else◌,
}
use storetheindex.PeerPolicy.{PeerId}
use storetheindex.Registry.State.{Cid, Text}
use storetheindex.Ingest.Batches.{Multihash, Value, Core}

-- The result of an agg.ManifestDagEntry: whether its record type is DagAggregateEntry, and its CIDs.
pub record ManifestEntry : Type 0 where
  pub is_dag : Bool
  pub dag_cid_v1 : Text
  pub dag_cid_v0 : Text

-- What is called: cid.Decode and the hash of a CID, where the CID 0 is cid.Undef, json.Unmarshal of a
-- manifest's line, and peer.Decode.
pub record Formats : Type 0 where
  pub decode : Text → Option Cid
  pub hash : Cid → Multihash
  pub unmarshal_entry : Text → Option ManifestEntry
  pub decode_peer : Text → Option PeerId

-- A file as its reader gives it: the lines that end in a newline, the text behind them, if there is any,
-- and whether reading ends by an error and not by EOF.
pub record File : Type 0 where
  pub lines : List Text
  pub rest : Option Text
  pub failed : Bool

pub data ReadError : Type 0 where
  cannot_read cancelled no_entries : ReadError

-- The end of both readers, without an error or with the errors that are sent.
abbrev pub at_end : Bool → ℕ → List ReadError
at_end failed count =
    let empty = if count == 0 then no_entries ∷ [] else [] in
    if failed then cannot_read ∷ empty else empty

-- `stops` is whether the context is done at the n-th send.
module _ (f : Formats) (stops : ℕ → Bool) where
  -- The CID of a line, unless it is to be ignored.
  abbrev pub line_cid : Text → Option Cid
  line_cid line = elim (f.decode line) [ none ↦ none | some c ↦ if c == 0 then none else some c ]

  unfoldable pub read_lines : Bool → ℕ → List Text → List Multihash × List ReadError
  read_lines failed count [] = ([], if failed then cannot_read ∷ [] else at_end false count)
  read_lines failed count (line ∷ lines) = elim (line_cid line) [
    | none ↦ read_lines failed count lines
    | some c ↦ elim (stops count) [
      | true ↦ ([], cancelled ∷ [])
      | false ↦ let (mhs, errors) = read_lines failed (suc count) lines in (f.hash c ∷ mhs, errors)
    ]
  ]

  -- ReadCids: `ReadString` gives a last line without a newline together with EOF, which ends the loop.
  unfoldable pub read_cids : File → List Multihash × List ReadError
  read_cids file = read_lines file.failed 0 file.lines

  -- The CID of a manifest's line
  abbrev pub entry_cid : Text → Option Cid
  entry_cid line = elim (f.unmarshal_entry line) [
    | none ↦ none
    | some e ↦ elim e.is_dag [
      | false ↦ none
      | true ↦ elim (f.decode e.dag_cid_v1) [
        | some c ↦ if c == 0 then none else some c
        | none ↦ elim (f.decode e.dag_cid_v0) [
          | none ↦ none
          | some c ↦ if c == 0 then none else some c
        ]
      ]
    ]
  ]

  -- `checks` is whether the context is done at the test behind an entry, after n sends; a line that is
  -- skipped by `continue` does not come to that test.
  module _ (checks : ℕ → Bool) where
    abbrev pub is_other : Text → Bool
    is_other line = elim (f.unmarshal_entry line) [ none ↦ false | some e ↦ not e.is_dag ]

    unfoldable pub scan_lines : Bool → ℕ → List Text → List Multihash × List ReadError
    scan_lines failed count [] = ([], at_end failed count)
    scan_lines failed count (line ∷ lines) = elim (entry_cid line) [
      | none ↦
          if is_other line && checks count
          then ([], cancelled ∷ [])
          else scan_lines failed count lines
      | some c ↦ elim (stops count) [
        | true ↦ ([], cancelled ∷ [])
        | false ↦ elim (checks (suc count)) [
          | true ↦ (f.hash c ∷ [], cancelled ∷ [])
          | false ↦
              let (mhs, errors) = scan_lines failed (suc count) lines in (f.hash c ∷ mhs, errors)
        ]
      ]
    ]

    -- ReadManifest: the scanner gives a last line without a newline as any other.
    unfoldable pub read_manifest : File → List Multihash × List ReadError
    read_manifest file =
        scan_lines file.failed 0
          (file.lines ++ elim file.rest [ none ↦ [] | some line ↦ line ∷ [] ])

-- The parameters of an import that getParams finds, and the file behind the name.
pub record Params : Type 0 where
  pub file : Option File
  pub context_id : ℕ
  pub metadata : ℕ

module _ (core : Core) where
  -- The loop of batchIndexerEntries, and its end
  unfoldable pub batch_loop :
      ℕ → Value → core.State → List Multihash → List Multihash → core.State × Bool
  batch_loop size value s [] puts = if length puts == 0 then (s, false) else core.put s value puts
  batch_loop size value s (m ∷ mhs) puts =
      let puts' = puts ++ (m ∷ []) in
      elim (length puts' == size) [
        | false ↦ batch_loop size value s mhs puts'
        | true ↦
            let (s', failed) = core.put s value puts' in
            elim failed [ true ↦ (s', true) | false ↦ batch_loop size value s' mhs [] ]
      ]

  -- batchIndexerEntries
  unfoldable pub batch_indexer_entries : ℕ → core.State → List Multihash → Value → core.State × Bool
  unfolding batch_loop
  batch_indexer_entries size s mhs value = batch_loop size value s mhs []

  -- What importManifest and importCidList share, with the reader of each: the indexer, and the status of
  -- the answer.
  -- A nil file, where it cannot be opened, fails at the first read, behind the first answer.
  unfoldable pub import_file :
      Formats
      → (File → List Multihash × List ReadError)
      → core.State
      → Text
      → Option Params
      → core.State × ℕ
  unfolding batch_indexer_entries
  import_file f read s provider params = elim (f.decode_peer provider) [
    | none ↦ (s, 400)
    | some id ↦ elim params [
      | none ↦ (s, 400)
      | some p ↦
          let value : Value = record {
            provider_id = id;
            context_id = p.context_id;
            metadata_bytes = p.metadata;
          } in
          elim p.file [
            | none ↦ (s, 400)
            | some file ↦
                let (mhs, errors) = read file in
                let (s', failed) = batch_indexer_entries 256 s mhs value in
                if failed then (s', 500) else (s', elim errors [ [] ↦ 200 | e ∷ more ↦ 400 ])
          ]
    ]
  ]

  -- importManifest
  unfoldable pub import_manifest :
      Formats → (ℕ → Bool) → (ℕ → Bool) → core.State → Text → Option Params → core.State × ℕ
  unfolding import_file
  import_manifest f stops checks s provider params =
      import_file f (read_manifest f stops checks) s provider params

  -- importCidList
  unfoldable pub import_cid_list :
      Formats → (ℕ → Bool) → core.State → Text → Option Params → core.State × ℕ
  unfolding import_file
  import_cid_list f stops s provider params = import_file f (read_cids f stops) s provider params
