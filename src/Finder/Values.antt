-- ===== src/Finder/Values.antt =====
-- The loop over the values of one multihash, against an account without the local map of addresses.
use mathlib.Core.List.{append_assoc, append-nil}
use storetheindex.Prelude.{
  ℕ, ◌≡◌, refl, sym, ap, ◌∙◌, false, none, some, List, [], ◌∷◌, ◌++◌, ◌==◌, ==_iff, arith,
  Bool-cases, Option-cases, inl, inr,
}
use mathlib.Core.Option.{some-injective}
use storetheindex.Prelude.Dict
use storetheindex.Prelude.Dict.{Dict, get-put}
use storetheindex.Registry.State.{Addr, ProviderInfo, Env, Registry}
use storetheindex.Registry.Register.{provider_info}
use storetheindex.Ingest.Batches.{Value}
use storetheindex.Finder.{ProviderResult, provider_result_from_value, find_values}

module _ (env : Env) (r : Registry env) where
  -- The results of the values whose provider is registered and active, in order.
  abbrev pub active_results : List Value → List ProviderResult
  active_results [] = []
  active_results (v ∷ values) =
      let rest = active_results values in
      elim (provider_info env r v.provider_id) [
        | none ↦ rest
        | some info ↦ provider_result_from_value v info.addr_info.addrs ∷ rest
      ]

  -- The values of other providers.
  abbrev pub others : List Value → List Value
  others [] = []
  others (v ∷ values) =
      let rest = others values in
      elim (provider_info env r v.provider_id) [ none ↦ v ∷ rest | some info ↦ rest ]

  -- The local map has the addresses that the registry has.
  unfoldable pub IsCache : Dict (List Addr) → Type 0
  IsCache d =
      (k : ℕ) (addrs : List Addr)
      → Dict.get d k ≡ some addrs
      → (info : ProviderInfo) × (provider_info env r k ≡ some info) × (info.addr_info.addrs ≡ addrs)

  active_lem :
      (k : ℕ) (info : ProviderInfo) → provider_info env r k ≡ some info → info.inactive ≡ false
  unfolding provider_info
  active_lem k info h = ground arith

  put-IsCache :
      (d : Dict (List Addr)) (k : ℕ) (info : ProviderInfo)
      → provider_info env r k ≡ some info
      → IsCache d
      → IsCache (Dict.put d k info.addr_info.addrs)
  unfolding IsCache
  put-IsCache d k info f h j addrs e = elim (Bool-cases (k == j)) [
    | inl same ↦
        let e' : some info.addr_info.addrs ≡ some addrs =
          ground (arith, get-put d k j info.addr_info.addrs) in
        (info, rw (← (==_iff k j).0 same) f, some-injective _ _ e')
    | inr differ ↦ h j addrs (ground (arith, get-put d k j info.addr_info.addrs))
  ]

  pub find_values_lem :
      (values : List Value) (d : Dict (List Addr)) (results : List ProviderResult)
      (removed : List Value)
      → IsCache d
      → (d' : Dict (List Addr)) × IsCache d'
        × (find_values env r d results removed values
            ≡ (d', results ++ active_results values, removed ++ others values))
  unfolding find_values IsCache
  find_values_lem [] d results removed h = (d, h, rw (append-nil results, append-nil removed) refl)
  find_values_lem (v ∷ values) d results removed h =
      elim (Option-cases (Dict.get d v.provider_id)) [
        | inr (addrs, e) ↦
            let (info, known, same) = h v.provider_id addrs e in
            rw (e, known, find_values, others, active_results)
              (rw same (
                rw
                  (sym (
                    append_assoc results (provider_result_from_value v addrs ∷ [])
                      (active_results values)))
                  (find_values_lem values d _ removed h)))
        | inl e ↦ elim (Option-cases (provider_info env r v.provider_id)) [
          | inl f ↦
              let (d', cached, same) = find_values_lem values d results (removed ++ (v ∷ [])) h in
              (
                d',
                cached,
                rw (e, f, find_values, others, active_results)
                    (same
                      ∙ ap (λ t. (d', results ++ active_results values, t))
                          (append_assoc removed (v ∷ []) (others values))),
              )
          | inr (info, f) ↦
              let addrs = info.addr_info.addrs in
              rw (e, f, find_values, others, active_results)
                (rw (active_lem v.provider_id info f) (
                  rw
                    (sym (
                      append_assoc results (provider_result_from_value v addrs ∷ [])
                        (active_results values)))
                    (find_values_lem values _ _ removed (put-IsCache d v.provider_id info f h))))
        ]
      ]
