-- ===== src/Registry/Import/Laws.antt =====
-- What an import changes.
use storetheindex.Prelude.{
  ◌≡◌, ◌⊎◌, refl, sym, ◌∙◌, ap, false, Option, none, some, List, [], ◌∷◌, ◌==◌, ==_iff, ==_refl,
  arith, All, Bool-cases, Option-cases, inl, inr,
}
use mathlib.Core.List.{Memᴰ}
use mathlib.Core.List.Memᴰ.{head, tail}
use storetheindex.Prelude.Dict
use storetheindex.Prelude.Result.{Result, ok, err, Result-cases, ◌>>=◌}
use storetheindex.PeerPolicy.{PeerId}
use storetheindex.Registry.State.{ProviderInfo, Error, Env, Registry}
use storetheindex.Registry.Register.{register, is_registered, register_refusal, sync_register}
use storetheindex.Registry.Register.Laws.{
  IsAdmitted, refusal_lem, register_ok, get-sync_register, policy-sync_persist_provider,
}
use storetheindex.Finder.{ProviderModel}
use storetheindex.Registry.Import.{imported_info, import_loop, import_providers, own_publisher}

module _ (env : Env) where
  -- The entry of a provider is as it was; or there was none, and it is one that the list has and that the
  -- policy admits.
  abbrev pub IsImported : Registry env → Registry env → List ProviderModel → PeerId → Type 0
  IsImported r r' provs k =
      (Dict.get r'.providers k ≡ Dict.get r.providers k)
      ⊎ ((Dict.get r.providers k ≡ none)
          × (p : ProviderModel) × Memᴰ p provs
          × (info : ProviderInfo) × (imported_info env p ≡ ok info)
          × (info.addr_info.id ≡ k)
          × (Dict.get r'.providers k ≡ some info)
          × IsAdmitted env r info)

  id-imported_info :
      (p : ProviderModel) (info : ProviderInfo)
      → imported_info env p ≡ ok info
      → info.addr_info.id ≡ p.addr_info.id
  unfolding imported_info own_publisher
  id-imported_info p info e = ground arith

  IsAdmitted-by_policy :
      (r r' : Registry env) (info : ProviderInfo)
      → r'.policy ≡ r.policy
      → IsAdmitted env r' info
      → IsAdmitted env r info
  IsAdmitted-by_policy r r' info same a = record {
    has_address = a.has_address;
    has_id = a.has_id;
    provider = rw (sym same) a.provider;
    publisher = λ v n. rw (sym same) (a.publisher v n);
  }

  policy-register :
      (r : Registry env) (info : ProviderInfo) → (register env r info).0.policy ≡ r.policy
  unfolding register sync_register
  policy-register r info = elim (Option-cases (register_refusal env r info)) [
    | inl fine ↦ rw (fine, register) (policy-sync_persist_provider env _ info)
    | inr (x, e) ↦ rw (e, register) refl
  ]

  unregistered :
      (r : Registry env) (id : PeerId)
      → is_registered env r id ≡ false
      → Dict.get r.providers id ≡ none
  unfolding is_registered
  unregistered r id h = elim (Option-cases (Dict.get r.providers id)) [
    | inl e ↦ e
    | inr (info, e) ↦ absurd (cc (rw (e, is_registered) at h))
  ]

  -- A registration of the import leaves an entry, or sets the provider's.
  register-IsImported :
      (r : Registry env) (p : ProviderModel) (ps : List ProviderModel) (info : ProviderInfo)
      (k : PeerId)
      → is_registered env r p.addr_info.id ≡ false
      → imported_info env p ≡ ok info
      → IsImported r (register env r info).0 (p ∷ ps) k
  unfolding register
  register-IsImported r p ps info k unknown e = elim (Option-cases (register_refusal env r info)) [
    | inr (x, refused) ↦ rw (refused, register) (inl refl)
    | inl fine ↦ elim (Bool-cases (info.addr_info.id == k)) [
      | inr other ↦ rw (fine, register) (inl (rw (get-sync_register env r info k) (rw other refl)))
      | inl own ↦
          let same : info.addr_info.id ≡ k = (==_iff info.addr_info.id k).0 own in
          inr (
            ap (Dict.get r.providers) (sym same ∙ id-imported_info p info e)
                ∙ unregistered r p.addr_info.id unknown,
            p,
            head refl,
            info,
            e,
            same,
            rw (fine, register) (rw (get-sync_register env r info k) (rw own refl)),
            refusal_lem env r info fine,
          )
    ]
  ]

  later :
      (r r' : Registry env) (p : ProviderModel) (ps : List ProviderModel) (k : PeerId)
      → IsImported r r' ps k
      → IsImported r r' (p ∷ ps) k
  later r r' p ps k (inl same) = inl same
  later r r' p ps k (inr (fresh, q, m, info, e, own, got, a)) =
      inr (fresh, q, tail m, info, e, own, got, a)

  both :
      (r r' r'' : Registry env) (p : ProviderModel) (ps : List ProviderModel) (k : PeerId)
      → r'.policy ≡ r.policy
      → IsImported r r' (p ∷ ps) k
      → IsImported r' r'' ps k
      → IsImported r r'' (p ∷ ps) k
  both r r' r'' p ps k policy (inl same) (inl same') = inl (same' ∙ same)
  both r r' r'' p ps k policy (inr (fresh, q, m, info, e, own, got, a)) (inl same') =
      inr (fresh, q, m, info, e, own, same' ∙ got, a)
  both r r' r'' p ps k policy (inl same) (inr (fresh, q, m, info, e, own, got, a)) =
      inr (sym same ∙ fresh, q, tail m, info, e, own, got, IsAdmitted-by_policy r r' info policy a)
  both r r' r'' p ps k policy (inr (_, _, _, info, _, _, got, _))
        (inr (fresh, _, _, _, _, _, _, _)) =
      absurd (cc (got, fresh))

  loop-IsImported :
      (provs : List ProviderModel) (r : Registry env) (k : PeerId)
      → IsImported r (import_loop env r provs).0 provs k
  unfolding import_loop
  loop-IsImported [] r k = inl refl
  loop-IsImported (p ∷ ps) r k = elim (Bool-cases (is_registered env r p.addr_info.id)) [
    | inl known ↦
        rw (known, import_loop) (later r (import_loop env r ps).0 p ps k (loop-IsImported ps r k))
    | inr unknown ↦ elim (Result-cases (imported_info env p)) [
      | inl (x, e) ↦ rw (unknown, import_loop) (rw e (inl refl))
      | inr (info, e) ↦
          rw (unknown, import_loop)
            (rw e (
              both r (register env r info).0 (import_loop env (register env r info).0 ps).0 p ps k
                (policy-register r info) (register-IsImported r p ps info k unknown e)
                (loop-IsImported ps (register env r info).0 k)))
    ]
  ]

  -- The entries that an import reports are in the registry.
  abbrev pub AreNew : Registry env → Result Error (List ProviderInfo) → Type 0
  AreNew r (err e) = Unit
  AreNew r (ok infos) = All (λ info. Dict.get r.providers info.addr_info.id ≡ some info) infos

  cons-AreNew :
      (r : Registry env) (info : ProviderInfo) (infos : Result Error (List ProviderInfo))
      → Dict.get r.providers info.addr_info.id ≡ some info
      → AreNew r infos
      → AreNew r (do more ← infos; ok (info ∷ more))
  cons-AreNew r info (err e) got new = tt
  cons-AreNew r info (ok infos) got new = (got, new)

  -- An entry that is registered by the import is still there at its end.
  kept :
      (provs : List ProviderModel) (r : Registry env) (info : ProviderInfo)
      → Dict.get r.providers info.addr_info.id ≡ some info
      → Dict.get (import_loop env r provs).0.providers info.addr_info.id ≡ some info
  kept provs r info got = elim (loop-IsImported provs r info.addr_info.id) [
    | inl same ↦ same ∙ got
    | inr (fresh, _, _, _, _, _, _, _) ↦ absurd (cc (got, fresh))
  ]

  registered :
      (r : Registry env) (info : ProviderInfo)
      → (register env r info).1 ≡ none
      → Dict.get (register env r info).0.providers info.addr_info.id ≡ some info
  registered r info fine =
      (register_ok env r info fine).1 info.addr_info.id ∙ rw (==_refl info.addr_info.id) refl

  loop-AreNew :
      (provs : List ProviderModel) (r : Registry env)
      → AreNew (import_loop env r provs).0 (import_loop env r provs).1
  unfolding import_loop
  loop-AreNew [] r = tt
  loop-AreNew (p ∷ ps) r = elim (Bool-cases (is_registered env r p.addr_info.id)) [
    | inl known ↦ rw (known, import_loop) (loop-AreNew ps r)
    | inr unknown ↦ elim (Result-cases (imported_info env p)) [
      | inl (x, e) ↦ rw (unknown, import_loop) (rw e tt)
      | inr (info, e) ↦ elim (Option-cases (register env r info).1) [
        | inr (x, refused) ↦
            rw (unknown, import_loop) (rw e (rw refused (loop-AreNew ps (register env r info).0)))
        | inl fine ↦
            rw (unknown, import_loop)
              (rw e (
                rw fine (
                  cons-AreNew (import_loop env (register env r info).0 ps).0 info
                    (import_loop env (register env r info).0 ps).1
                    (kept ps (register env r info).0 info (registered r info fine))
                    (loop-AreNew ps (register env r info).0))))
      ]
    ]
  ]

  abbrev pub AreReported : Registry env → Option (Result Error (List ProviderInfo)) → Type 0
  AreReported r none = Unit
  AreReported r (some infos) = AreNew r infos

  -- However an import ends, the entry of a provider is as it was before, or there was none, and it is one
  -- that the other indexer lists and the policy admits; the entries that it reports as new, and sends to
  -- the ingester, are registered.
  pub import_providers_lem :
      (r : Registry env) (provs : List ProviderModel) (k : PeerId)
      → IsImported r (import_providers env r (some provs)).0 provs k
        × AreReported
            (import_providers env r (some provs)).0
            (import_providers env r (some provs)).1
  unfolding import_providers
  import_providers_lem r provs k = (loop-IsImported provs r k, loop-AreNew provs r)
