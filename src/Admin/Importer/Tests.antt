-- ===== src/Admin/Importer/Tests.antt =====
-- Instances for the imports: a file of five lines, of which one has no CID, and one more text.
use storetheindex.Prelude.{
  ℕ, suc, ◌≡◌, refl, Bool, true, false, none, some, [], ◌∷◌, ◌==◌, if◌then◌else◌,
}
use storetheindex.PeerPolicy.{PeerId}
use storetheindex.Ingest.Ad.Tests.{notes}
use storetheindex.Admin.Importer.{
  Formats, File, line_cid, read_lines, read_cids, scan_lines, read_manifest, batch_loop,
  batch_indexer_entries, Params, import_file, import_cid_list,
}
use storetheindex.Admin.Importer.Reading.{hashes}
use storetheindex.Admin.Importer.Laws.{IsStored, import_value, import_cid_list_ok}

-- A text is its own CID, but 9 is none; every text is a manifest's entry for its CID.
abbrev formats : Formats
formats = record {
  decode = λ t. if t == 9 then none else some t;
  hash = λ c. suc c;
  unmarshal_entry = λ t. some (record { is_dag = true; dag_cid_v1 = 9; dag_cid_v0 = t });
  decode_peer = λ t. some t;
}

abbrev file : File
file = record { lines = 3 ∷ 9 ∷ 0 ∷ 4 ∷ []; rest = some 5; failed = false }

abbrev params : Params
params = record { file = some file; context_id = 6; metadata = 7 }

abbrev never : ℕ → Bool
never n = false

import_cid_list_ok_example :
    (id : PeerId) × (some 1 ≡ some id)
    × IsStored notes
        (import_value params id)
        []
        ((4 ∷ 5 ∷ []) ∷ [])
        (hashes formats (line_cid formats never) file.lines)
unfolding import_cid_list import_file read_cids read_lines batch_indexer_entries batch_loop
import_cid_list_ok_example = import_cid_list_ok notes formats [] 1 params file never refl refl

-- The text behind the last newline is not read from a list of CIDs.
rest_dropped :
    (read_cids formats never file ≡ (4 ∷ 5 ∷ [], []))
    × (read_manifest formats never never file ≡ (4 ∷ 5 ∷ 6 ∷ [], []))
unfolding read_cids read_lines read_manifest scan_lines
rest_dropped = (refl, refl)
