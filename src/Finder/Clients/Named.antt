-- ===== src/Finder/Clients/Named.antt =====
-- The peer IDs of what the finder answers: those that the registry has.
use mathlib.Core.Option.{some-injective}
use storetheindex.Prelude.{
  ◌≡◌, refl, sym, if◌then◌else◌, Bool, true, false, Option, none, some, List, [], ◌∷◌, ◌++◌, ◌==◌,
  ==_iff, All, Bool-cases, Option-cases, bind_some, inl, inr,
}
use storetheindex.Prelude.Dict
use storetheindex.Prelude.Dict.{Dict}
use storetheindex.PeerPolicy.{PeerId}
use storetheindex.Registry.State.{ProviderInfo, AddrInfo, Env, Registry}
use storetheindex.Registry.Register.{provider_info}
use storetheindex.Ingest.Batches.{Multihash, Value}
use storetheindex.Finder
use storetheindex.Finder.{
  Clock, ProviderResult, MultihashResult, ProviderModel, make_provider_info, all_provider_info,
  make_all,
}
use storetheindex.Finder.Values.{active_results}
use storetheindex.Finder.Laws.{result_of, answer, find_lem}

All-append : {A : Type 0} (P : A → Type 0) (xs ys : List A) → All P xs → All P ys → All P (xs ++ ys)
All-append P [] ys h k = k
All-append P (x ∷ xs) ys h k = (h.0, All-append P xs ys h.1 k)

if_active : (off : Bool) (x y : ProviderInfo) → (if off then none else some x) ≡ some y → x ≡ y
if_active true x y h = absurd cc
if_active false x y h = some-injective _ _ h

-- What is said with the peer IDs that peer.Decode takes.
module _ (is_peer : PeerId → Bool) where
  abbrev pub IsNamedResult : MultihashResult → Type 0
  IsNamedResult m = All (λ (p : ProviderResult). is_peer p.provider.id ≡ true) m.provider_results

  abbrev pub IsNamedPublisher : Option AddrInfo → Type 0
  IsNamedPublisher none = Unit
  IsNamedPublisher (some info) = is_peer info.id ≡ true

  abbrev pub IsNamed : ProviderModel → Type 0
  IsNamed p = (is_peer p.addr_info.id ≡ true) × IsNamedPublisher p.publisher

  module _ (env : Env) where
    -- The peer IDs of an entry of the registry: its key, its provider's, and its publisher's where that
    -- is valid.
    abbrev pub IsNamedEntry : PeerId × ProviderInfo → Type 0
    IsNamedEntry (k, info) =
        (is_peer k ≡ true)
        × (is_peer info.addr_info.id ≡ true)
        × (env.valid info.publisher ≡ true → is_peer info.publisher ≡ true)

    get-IsNamedEntry :
        (entries : Dict ProviderInfo) (k : PeerId) (info : ProviderInfo)
        → All IsNamedEntry entries
        → Dict.get entries k ≡ some info
        → IsNamedEntry (k, info)
    unfolding Dict.get
    get-IsNamedEntry [] k info named h = absurd cc
    get-IsNamedEntry ((k', info') ∷ entries) k info named h = elim (Bool-cases (k' == k)) [
      | inl own ↦
          let same : info' ≡ info = some-injective _ _ (rw own at h) in
          rw (sym same, sym ((==_iff k' k).0 own)) named.0
      | inr other ↦ get-IsNamedEntry entries k info named.1 (rw other at h)
    ]

    make-IsNamed :
        (clock : Clock) (r : Registry env) (k : PeerId) (info : ProviderInfo)
        → IsNamedEntry (k, info)
        → IsNamed (make_provider_info env r clock info)
    unfolding make_provider_info
    make-IsNamed clock r k info (key, own, publisher) =
        elim (Bool-cases (env.valid info.publisher)) [
          | inr v ↦ (own, rw v tt)
          | inl v ↦ elim (Option-cases info.publisher_addr) [
            | inl e ↦ (own, rw v (rw e tt))
            | inr (addr, e) ↦ (own, rw v (rw e (publisher v)))
          ]
        ]

    make_all-IsNamed :
        (clock : Clock) (r : Registry env) (entries : Dict ProviderInfo)
        → All IsNamedEntry entries
        → All IsNamed (make_all env r clock (all_provider_info env r entries))
    unfolding make_all all_provider_info make_provider_info
    make_all-IsNamed clock r [] named = tt
    make_all-IsNamed clock r ((k, info) ∷ entries) named =
        let rest = make_all-IsNamed clock r entries named.1 in
        elim (Bool-cases info.inactive) [
          | inl off ↦ rw off rest
          | inr on ↦ rw on (make-IsNamed clock r k info named.0, rest)
        ]

    module _ (r : Registry env) (named : All IsNamedEntry r.providers) where
      info-IsNamedEntry :
          (k : PeerId) (info : ProviderInfo)
          → provider_info env r k ≡ some info
          → IsNamedEntry (k, info)
      unfolding provider_info
      info-IsNamedEntry k info h = elim (Option-cases (Dict.get r.providers k)) [
        | inl e ↦ absurd (cc (rw (e, provider_info) at h))
        | inr (found, e) ↦
            let same = if_active found.inactive found info (rw (e, provider_info) at h) in
            get-IsNamedEntry r.providers k info named (rw (sym same) e)
      ]

      pub get_provider-IsNamed :
          (clock : Clock) (k : PeerId) (p : ProviderModel)
          → Finder.get_provider env r clock k ≡ some p
          → IsNamed p
      unfolding Finder.get_provider
      get_provider-IsNamed clock k p h = elim (Option-cases (provider_info env r k)) [
        | inl e ↦ absurd (cc (rw (e, Finder.get_provider) at h))
        | inr (info, e) ↦
            let same : make_provider_info env r clock info ≡ p =
              some-injective _ _ (rw (e, Finder.get_provider) at h) in
            rw (sym same) (make-IsNamed clock r k info (info-IsNamedEntry k info e))
      ]

      pub list_providers-IsNamed : (clock : Clock) → All IsNamed (Finder.list_providers env r clock)
      unfolding Finder.list_providers
      list_providers-IsNamed clock = make_all-IsNamed clock r r.providers named

      active-IsNamed :
          (m : Multihash) (values : List Value)
          → IsNamedResult (record { multihash = m; provider_results = active_results env r values })
      unfolding Finder.provider_result_from_value
      active-IsNamed m [] = tt
      active-IsNamed m (v ∷ values) =
          let rest = active-IsNamed m values in
          elim (Option-cases (provider_info env r v.provider_id)) [
            | inl e ↦ rw (e, active_results) rest
            | inr (info, e) ↦
                rw (e, active_results) ((info-IsNamedEntry v.provider_id info e).0, rest)
          ]

      result_of-IsNamed :
          (get : Multihash → Option (Option (List Value))) (m : Multihash) (values : List Value)
          → All IsNamedResult (result_of env r get m values)
      result_of-IsNamed get m values = by_results (active_results env r values) refl
        where
          by_results :
              (l : List ProviderResult)
              → active_results env r values ≡ l
              → All IsNamedResult (result_of env r get m values)
          by_results [] e = rw (e, All, result_of) tt
          by_results (x ∷ l) e = rw (e, All, result_of) (rw e at (active-IsNamed m values), tt)

      answer-IsNamed :
          (get : Multihash → Option (Option (List Value))) (mhs : List Multihash)
          (rs : List MultihashResult)
          → (answer env r get mhs).0 ≡ some rs
          → All IsNamedResult rs
      answer-IsNamed get [] rs h = rw (sym (some-injective _ _ h)) tt
      answer-IsNamed get (m ∷ mhs) rs h = elim (Option-cases (get m)) [
        | inl e ↦ absurd (cc (rw (e, answer) at h))
        | inr (found, e) ↦ elim (Option-cases found) [
          | inl f ↦ answer-IsNamed get mhs rs (rw (e, f, answer) at h)
          | inr (values, f) ↦
              let (l, rest, same) =
                bind_some (answer env r get mhs).0 (λ l. some (result_of env r get m values ++ l))
                  rs (rw (e, f, answer) at h) in
              rw (sym (some-injective _ _ same)) (
                All-append IsNamedResult (result_of env r get m values) l
                  (result_of-IsNamed get m values) (answer-IsNamed get mhs l rest))
        ]
      ]

      pub find-IsNamed :
          (get : Multihash → Option (Option (List Value))) (mhs : List Multihash)
          (rs : List MultihashResult)
          → (Finder.find env r get mhs).0 ≡ some rs
          → All IsNamedResult rs
      find-IsNamed get mhs rs h = answer-IsNamed get mhs rs (rw (find_lem env r get mhs) at h)
