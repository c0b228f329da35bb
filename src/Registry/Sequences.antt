-- ===== src/Registry/Sequences.antt =====
-- internal/registry/sequences.go: the last sequence number of each peer, against replays. A time is
-- `UnixNano`, the nanoseconds since 1970, and is an argument of each call. `check` and `retire` hold
-- the mutex over all that they do with the map, so each is one step.
pub mod Replay
mod Tests
use storetheindex.Prelude.{
  ℕ, ◌+◌, ◌-◌, ◌*◌, ◌%◌, ◌^◌, Bool, true, false, Option, none, some, [], ltb, leb, ◌==◌,
  if◌then◌else◌,
}
use storetheindex.Prelude.Dict
use storetheindex.Prelude.Dict.{Dict}
use storetheindex.PeerPolicy.{PeerId}

-- 48 * time.Hour
abbrev pub default_max_age : ℕ
default_max_age = 172800000000000

pub record Sequences : Type 0 where
  pub max_age : ℕ
  pub seqs : Dict ℕ

pub data Error : Type 0 where
  too_small not_newer : Error

-- newSequences
unfoldable pub new_sequences : ℕ → Sequences
new_sequences max_age = record {
  max_age = if max_age == 0 then default_max_age else max_age;
  seqs = [];
}

-- uint64(time.Now().Add(-s.maxAge).UnixNano()), with its wrap-around
unfoldable pub oldest_allowed : Sequences → ℕ → ℕ
oldest_allowed s now = (now + 2 ^ 64 - s.max_age) % 2 ^ 64

-- sequences.check: the new state, and the error if there is one.
unfoldable pub check : Sequences → ℕ → PeerId → ℕ → Sequences × Option Error
check s now id sequence =
    if ltb sequence (oldest_allowed s now) then (s, some too_small) else elim (Dict.get s.seqs id) [
      | none ↦ (record s { seqs = Dict.put s.seqs id sequence }, none)
      | some prev ↦
          if leb sequence prev
          then (s, some not_newer)
          else (record s { seqs = Dict.put s.seqs id sequence }, none)
    ]

-- sequences.retire
unfoldable pub retire : Sequences → ℕ → Sequences
retire s now = record s { seqs = Dict.retain (λ id seq. ltb (oldest_allowed s now) seq) s.seqs }
