-- ===== src/Ingest/Events.antt =====
-- The events of processed advertisements, in internal/ingest/ingest.go: onAdProcessed, its cancel
-- function, and distributeEvents. A channel is an opaque number.
pub mod Laws
pub mod Delivery
mod Tests
use storetheindex.Prelude.{
  ℕ, Bool, true, false, not, Option, none, some, List, [], ◌∷◌, ◌++◌, ◌==◌, elem, length,
  if◌then◌else◌,
}
use storetheindex.Prelude.Dict
use storetheindex.Prelude.Dict.{Dict}
use storetheindex.PeerPolicy.{PeerId}

-- outEventsChans, where none is the nil map
abbrev pub Chans : Type 0
Chans = Option (Dict (List ℕ))

-- ing.outEventsChans[publisher], as distributeEvents reads it
unfoldable pub receivers : Chans → PeerId → List ℕ
receivers none p = []
receivers (some m) p = elim (Dict.get m p) [ none ↦ [] | some chans ↦ chans ]

-- onAdProcessed, which makes the channel `ch`
unfoldable pub on_ad_processed : Chans → PeerId → ℕ → Chans
on_ad_processed none p ch = some (Dict.put [] p (ch ∷ []))
on_ad_processed (some m) p ch = some (Dict.put m p (receivers (some m) p ++ (ch ∷ [])))

-- The last element behind a first one, and all but the last.
abbrev pub last_from : ℕ → List ℕ → ℕ
last_from x [] = x
last_from x (y ∷ ys) = last_from y ys

abbrev pub but_last : ℕ → List ℕ → List ℕ
but_last x [] = []
but_last x (y ∷ ys) = x ∷ but_last y ys

-- The last channel takes the place of the given one.
unfoldable pub swap_out : ℕ → List ℕ → List ℕ
swap_out ch [] = []
swap_out ch (x ∷ xs) =
    let rest = swap_out ch xs in
    if x == ch then elim xs [ [] ↦ [] | y ∷ ys ↦ last_from y ys ∷ but_last y ys ] else x ∷ rest

-- The cancel function of onAdProcessed, and whether it closes the channel
unfoldable pub cancel : Chans → PeerId → ℕ → Chans × Bool
cancel none p ch = (none, false)
cancel (some m) p ch = elim (Dict.get m p) [
  | none ↦ (some m, false)
  | some chans ↦
      if not (elem ch chans)
      then (some m, false)
      else if length chans == 1
      then if length m == 1 then (none, false) else (some (Dict.remove m p), false)
      else (some (Dict.put m p (swap_out ch chans)), true)
]
