-- ===== src/Finder/Laws.antt =====
-- Find against an account without its local map of addresses.
use mathlib.Core.List.{append_assoc, append-nil}
use storetheindex.Prelude.{
  ◌≡◌, refl, sym, ap, ◌∙◌, true, Option, none, some, List, [], ◌∷◌, ◌++◌, All, Option-cases, ◌>>=◌,
  inl, inr,
}
use storetheindex.Prelude.Dict
use storetheindex.Prelude.Dict.{Dict, get-put}
use storetheindex.Registry.State.{Addr, ProviderInfo, Env, Registry}
use storetheindex.Registry.Register.{provider_info}
use storetheindex.Ingest.Batches.{Multihash, Value}
use storetheindex.Finder.Values.{active_results, others, IsCache, find_values_lem}
use storetheindex.Finder.{ProviderResult, MultihashResult, Progress, find_loop, find}

module _ (env : Env) (r : Registry env) where
  -- A value of a provider that is registered but inactive.
  abbrev pub IsInactive : Value → Type 0
  IsInactive v =
      (info : ProviderInfo) × (Dict.get r.providers v.provider_id ≡ some info)
      × (info.inactive ≡ true)

  inactive-provider_info : (v : Value) → IsInactive v → provider_info env r v.provider_id ≡ none
  unfolding provider_info
  inactive-provider_info v (info, e, f) = rw (e, provider_info) (rw f refl)

  inactive_results :
      (values : List Value) → All IsInactive values → active_results env r values ≡ []
  inactive_results [] h = refl
  inactive_results (v ∷ values) h =
      rw (inactive-provider_info v h.0, active_results) (inactive_results values h.1)

  inactive_others : (values : List Value) → All IsInactive values → others env r values ≡ values
  inactive_others [] h = refl
  inactive_others (v ∷ values) h =
      rw (inactive-provider_info v h.0, others) (ap (λ t. v ∷ t) (inactive_others values h.1))

  -- The values of each multihash that is found, in order; none if one cannot be looked up.
  module _ (get : Multihash → Option (Option (List Value))) where
    abbrev pub result_of : Multihash → List Value → List MultihashResult
    result_of m values = elim (active_results env r values) [
      | [] ↦ []
      | result ∷ more ↦ record { multihash = m; provider_results = result ∷ more } ∷ []
    ]

    abbrev pub answer : List Multihash → Option (List MultihashResult) × List Value
    answer [] = (some [], [])
    answer (m ∷ mhashes) =
        let (rest, removed) = answer mhashes in
        elim (get m) [
          | none ↦ (none, [])
          | some none ↦ (rest, removed)
          | some (some values) ↦
              (rest >>= (λ l. some (result_of m values ++ l)), others env r values ++ removed)
        ]

    add :
        List MultihashResult
        → List Value
        → Option (List MultihashResult) × List Value
        → Option (List MultihashResult) × List Value
    add results removed (rest, more) = (rest >>= (λ l. some (results ++ l)), removed ++ more)

    add-add :
        (results found : List MultihashResult) (removed more : List Value)
        (t : Option (List MultihashResult) × List Value)
        → add (results ++ found) (removed ++ more) t ≡ add results removed (add found more t)
    unfolding add
    add-add results found removed more (none, l) = rw (append_assoc removed more l) refl
    add-add results found removed more (some rest, l) =
        rw (append_assoc removed more l, append_assoc results found rest) refl

    -- What follows the values of one multihash in the loop.
    module _ (m : Multihash) (mhashes : List Multihash) (results : List MultihashResult) where
      go_on : Progress env r → Option (List MultihashResult) × List Value
      go_on (d, found, removed) = elim found [
        | [] ↦ find_loop env r get d results removed mhashes
        | result ∷ more ↦
            find_loop env r get d
              (results ++ (record { multihash = m; provider_results = result ∷ more } ∷ [])) removed
              mhashes
      ]

      abbrev one : List ProviderResult → List MultihashResult
      one found = elim found [
        | [] ↦ []
        | result ∷ more ↦ record { multihash = m; provider_results = result ∷ more } ∷ []
      ]

      go_on_lem :
          (d : Dict (List Addr)) (found : List ProviderResult) (removed more : List Value)
          → ((results' : List MultihashResult) (removed' : List Value)
              → find_loop env r get d results' removed' mhashes
                ≡ add results' removed' (answer mhashes))
          → go_on (d, found, removed ++ more)
            ≡ add results removed (add (one found) more (answer mhashes))
      unfolding go_on
      go_on_lem d [] removed more h =
          h results (removed ++ more)
          ∙ ap (λ t. add t (removed ++ more) (answer mhashes)) (sym (append-nil results))
          ∙ add-add results [] removed more (answer mhashes)
      go_on_lem d (result ∷ rest) removed more h =
          h _ (removed ++ more)
          ∙ add-add results (one (result ∷ rest)) removed more (answer mhashes)

    find_loop_lem :
        (mhashes : List Multihash) (d : Dict (List Addr)) (results : List MultihashResult)
        (removed : List Value)
        → IsCache env r d
        → find_loop env r get d results removed mhashes ≡ add results removed (answer mhashes)
    unfolding find_loop add go_on
    find_loop_lem [] d results removed h = rw (append-nil results, append-nil removed) refl
    find_loop_lem (m ∷ mhashes) d results removed h = elim (Option-cases (get m)) [
      | inl e ↦ rw (e, find_loop, answer) (rw (append-nil removed) refl)
      | inr (found, e) ↦ elim (Option-cases found) [
        | inl f ↦ rw (e, f, find_loop, answer) (find_loop_lem mhashes d results removed h)
        | inr (values, f) ↦
            let (d', cached, same) = find_values_lem env r values d [] removed h in
            rw (e, f, find_loop, answer)
              (ap (go_on m mhashes results) same
                ∙ go_on_lem m mhashes results d' (active_results env r values) removed
                    (others env r values)
                    (λ results' removed'. find_loop_lem mhashes d' results' removed' cached))
      ]
    ]

    -- Find answers as if it looked up every value's provider in the registry: the local map of addresses
    -- changes nothing.
    pub find_lem : (mhashes : List Multihash) → find env r get mhashes ≡ answer mhashes
    unfolding find add IsCache Dict.get
    find_lem mhashes =
        find_loop_lem mhashes [] [] [] (λ k addrs e. absurd (cc)) ∙ same (answer mhashes)
      where
        same : (t : Option (List MultihashResult) × List Value) → add [] [] t ≡ t
        same (none, l) = refl
        same (some rest, l) = refl

    -- Where the values of a multihash all have providers that are registered but inactive, Find answers
    -- nothing for it and has every one of the values' contexts removed from the indexer.
    pub find_inactive :
        (m : Multihash) (values : List Value)
        → get m ≡ some (some values)
        → All IsInactive values
        → find env r get (m ∷ []) ≡ (some [], values)
    find_inactive m values e h =
        find_lem (m ∷ [])
        ∙ rw (e, answer)
            (rw (inactive_results values h, ◌++◌)
              (ap (λ l. (some [], l))
                (append-nil (others env r values) ∙ inactive_others values h)))
