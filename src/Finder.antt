-- ===== src/Finder.antt =====
-- FinderHandler in server/finder/handler/finder_handler.go, over a registry that does not change during
-- a request.
pub mod Values
pub mod Laws
pub mod Servers
pub mod Clients
mod Tests
use storetheindex.Prelude.{
  ℕ, suc, ◌%◌, Bool, true, false, Option, none, some, List, [], ◌∷◌, ◌++◌, ◌==◌, length, ◌/◌, ◌&&◌,
  not, if◌then◌else◌,
}
use storetheindex.Prelude.Dict
use storetheindex.Prelude.Dict.{Dict}
use storetheindex.PeerPolicy.{PeerId}
use storetheindex.Registry.State.{Addr, Cid, Time, AddrInfo, ProviderInfo, Env, Registry}
use storetheindex.Registry.Register.{provider_info}
use storetheindex.Prelude.Ints.{ℤ, pos, negsuc}
use storetheindex.Server.Errors.{Chars}
use storetheindex.Ingest.Batches.{Multihash, Value}

-- model.ProviderResult
pub record ProviderResult : Type 0 where
  pub context_id : ℕ
  pub metadata : ℕ
  pub provider : AddrInfo

-- model.MultihashResult
pub record MultihashResult : Type 0 where
  pub multihash : Multihash
  pub provider_results : List ProviderResult

-- model.ProviderInfo; the text of the time is empty where it is left out.
pub record ProviderModel : Type 0 where
  pub addr_info : AddrInfo
  pub last_advertisement : Cid
  pub last_advertisement_time : Chars
  pub publisher : Option AddrInfo

-- What is asked of a time.Time: Format of its date and time to the second, and the offset of Zone, in
-- seconds; and a number that is not negative as %02d of fmt has it.
pub record Clock : Type 0 where
  pub format : Time → Chars
  pub zone_offset : Time → ℤ
  pub two_digits : ℕ → Chars

-- iso8601, with the characters Z, + and -
unfoldable pub iso8601 : Clock → Time → Chars
iso8601 c t = elim (c.zone_offset t) [
  | pos n ↦
      if n == 0
      then c.format t ++ (90 ∷ [])
      else c.format t ++ (43 ∷ c.two_digits (n / 3600) ++ c.two_digits (n % 3600 / 60))
  | negsuc n ↦ c.format t ++ (45 ∷ c.two_digits (suc n / 3600) ++ c.two_digits (suc n % 3600 / 60))
]

unfoldable pub provider_result_from_value : Value → List Addr → ProviderResult
provider_result_from_value v addrs = record {
  context_id = v.context_id;
  metadata = v.metadata_bytes;
  provider = record { id = v.provider_id; addrs = addrs };
}

module _ (env : Env) (r : Registry env) where
  -- provAddrs, the results, and the values whose context the indexer is told to remove
  abbrev pub Progress : Type 0
  Progress = Dict (List Addr) × List ProviderResult × List Value

  -- The loop over the values of one multihash.
  unfoldable pub find_values :
      Dict (List Addr) → List ProviderResult → List Value → List Value → Progress
  find_values prov_addrs results removed [] = (prov_addrs, results, removed)
  find_values prov_addrs results removed (v ∷ values) = elim (Dict.get prov_addrs v.provider_id) [
    | some addrs ↦
        find_values prov_addrs (results ++ (provider_result_from_value v addrs ∷ [])) removed values
    | none ↦ elim (provider_info env r v.provider_id) [
      | none ↦ find_values prov_addrs results (removed ++ (v ∷ [])) values
      | some info ↦ elim info.inactive [
        | true ↦ find_values prov_addrs results removed values
        | false ↦
            let addrs = info.addr_info.addrs in
            find_values (Dict.put prov_addrs v.provider_id addrs)
              (results ++ (provider_result_from_value v addrs ∷ [])) removed values
      ]
    ]
  ]

  -- indexer.Get, of go-indexer-core: none is an error, and a multihash may not be found.
  module _ (get : Multihash → Option (Option (List Value))) where
    -- The loop over the multihashes: the results, none for an error, and the values to remove.
    unfoldable pub find_loop :
        Dict (List Addr)
        → List MultihashResult
        → List Value
        → List Multihash
        → Option (List MultihashResult) × List Value
    unfolding find_values
    find_loop prov_addrs results removed [] = (some results, removed)
    find_loop prov_addrs results removed (m ∷ mhashes) = elim (get m) [
      | none ↦ (none, removed)
      | some none ↦ find_loop prov_addrs results removed mhashes
      | some (some values) ↦
          let (prov_addrs', prov_results, removed') = find_values prov_addrs [] removed values in
          elim prov_results [
            | [] ↦ find_loop prov_addrs' results removed' mhashes
            | result ∷ more ↦
                find_loop prov_addrs'
                  (results ++ (record { multihash = m; provider_results = result ∷ more } ∷ []))
                  removed' mhashes
          ]
    ]

    unfoldable pub find : List Multihash → Option (List MultihashResult) × List Value
    find mhashes = find_loop [] [] [] mhashes

  unfoldable pub make_provider_info : Clock → ProviderInfo → ProviderModel
  unfolding iso8601
  make_provider_info clock info = record {
    addr_info = info.addr_info;
    last_advertisement = info.last_advertisement;
    last_advertisement_time =
        if not (info.last_advertisement == 0) && not (info.last_advertisement_time == 0)
        then iso8601 clock info.last_advertisement_time
        else [];
    publisher =
        if env.valid info.publisher
        then elim info.publisher_addr [
          | none ↦ none
          | some addr ↦ some (record { id = info.publisher; addrs = addr ∷ [] })
        ]
        else none;
  }

  unfoldable pub get_provider : Clock → PeerId → Option ProviderModel
  get_provider clock id = elim (provider_info env r id) [
    | none ↦ none
    | some info ↦ some (make_provider_info clock info)
  ]

  unfoldable pub all_provider_info : Dict ProviderInfo → List ProviderInfo
  all_provider_info [] = []
  all_provider_info ((id, info) ∷ d) =
      let rest = all_provider_info d in if info.inactive then rest else info ∷ rest

  unfoldable pub make_all : Clock → List ProviderInfo → List ProviderModel
  make_all clock [] = []
  make_all clock (info ∷ infos) = make_provider_info clock info ∷ make_all clock infos

  unfoldable pub list_providers : Clock → List ProviderModel
  list_providers clock = make_all clock (all_provider_info r.providers)
