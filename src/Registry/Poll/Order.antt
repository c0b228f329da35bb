-- ===== src/Registry/Poll/Order.antt =====
-- Two faults of pollProviders: an override reaches the providers that come after its own, and a
-- removal is not told to the ingester where the channel is full.
use storetheindex.Prelude.{
  ◌+◌, ◌≡◌, ◌⊎◌, ◌++◌, ==_refl, refl, Bool, true, false, none, some, [], ◌∷◌, ◌==◌, Bool-cases, inl,
  inr,
}
use storetheindex.Prelude.Dict
use storetheindex.Prelude.Dict.{Dict, IsDict}
use storetheindex.PeerPolicy.{PeerId}
use storetheindex.Registry.State.{Time, ProviderInfo, Env, Registry}
use storetheindex.Registry.Poll.{
  Polling, Verdict, leave, override, verdict, act, round, poll_loop, poll_providers,
}
use storetheindex.Registry.Poll.Laws.{after, poll_at, loop_all, IsSilent, poll_providers_lem}

-- No entry whose publisher is valid has an override.
abbrev pub IsPlain : Env → Dict Polling → Dict ProviderInfo → Type 0
IsPlain env overrides [] = Unit
IsPlain env overrides ((peer, info) ∷ rest) =
    ((env.valid info.publisher ≡ false) ⊎ (Dict.get overrides peer ≡ none))
    × IsPlain env overrides rest

-- No entry is that of the provider.
abbrev pub IsAbsent : PeerId → Dict ProviderInfo → Type 0
IsAbsent k entries = Dict.get entries k ≡ none

module _ (env : Env) (overrides : Dict Polling) (b : PeerId) (ib : ProviderInfo)
    (other : Dict.get overrides b ≡ none) (vb : env.valid ib.publisher ≡ true)
    (rest : Dict ProviderInfo) where
  at_plain :
      (poll : Polling) (before : Dict ProviderInfo)
      → IsPlain env overrides before
      → IsAbsent b before
      → poll_at env poll overrides (before ++ (b, ib) ∷ rest) b ≡ poll
  unfolding poll_at override Dict.get
  at_plain poll [] plain absent = rw (==_refl b, vb) (rw (other, override) refl)
  at_plain poll ((k, info) ∷ before) plain absent = elim (Bool-cases (k == b)) [
    | inl own ↦ absurd (cc (rw own at absent))
    | inr e ↦
        let later = at_plain poll before plain.1 (rw e at absent) in
        rw e (elim plain.0 [
          | inl bad ↦ rw bad later
          | inr none_there ↦ elim (Bool-cases (env.valid info.publisher)) [
            | inl v ↦ rw (v, poll_at) (rw (none_there, override) later)
            | inr v ↦ rw v later
          ]
        ])
  ]

  at_leak :
      (before : Dict ProviderInfo) (poll o : Polling) (a : PeerId) (ia : ProviderInfo)
      (between : Dict ProviderInfo)
      → Dict.get overrides a ≡ some o
      → env.valid ia.publisher ≡ true
      → IsAbsent b (before ++ (a, ia) ∷ between)
      → IsPlain env overrides between
      → poll_at env poll overrides (before ++ (a, ia) ∷ between ++ (b, ib) ∷ rest) b ≡ o
  unfolding poll_at override Dict.get
  at_leak [] poll o a ia between own va absent plain = elim (Bool-cases (a == b)) [
    | inl e ↦ absurd (cc (rw e at absent))
    | inr e ↦ rw (e, va) (rw (own, override) (at_plain o between plain (rw e at absent)))
  ]
  at_leak ((k, info) ∷ before) poll o a ia between own va absent plain =
      elim (Bool-cases (k == b)) [
        | inl e ↦ absurd (cc (rw e at absent))
        | inr e ↦ rw e (at_leak before _ o a ia between own va (rw e at absent) plain)
      ]

get-append :
    (b : PeerId) (ib : ProviderInfo) (before rest : Dict ProviderInfo)
    → IsAbsent b before
    → Dict.get (before ++ (b, ib) ∷ rest) b ≡ some ib
unfolding Dict.get
get-append b ib [] rest absent = rw (==_refl b) refl
get-append b ib ((k, info) ∷ before) rest absent = elim (Bool-cases (k == b)) [
  | inl e ↦ absurd (cc (rw e at absent))
  | inr e ↦ rw e (get-append b ib before rest (rw e at absent))
]

module _ (env : Env) (poll o : Polling) (overrides : Dict Polling) (now : Time)
    (room : PeerId → Bool) (a b : PeerId) (ia ib : ProviderInfo)
    (own : Dict.get overrides a ≡ some o) (other : Dict.get overrides b ≡ none)
    (va : env.valid ia.publisher ≡ true) (vb : env.valid ib.publisher ≡ true) where
  -- The publisher of `b` is valid, and `b` has no override of its own. Where the iteration comes to it
  -- before any provider with an override, it is polled by the default; where `a` is the last one with an
  -- override that the iteration comes to before `b`, it is polled by the override of `a`. Providers whose
  -- publisher is not valid are passed over, and do not count.
  pub override_leaks :
      (r r' : Registry env) (before between rest before' rest' : Dict ProviderInfo)
      → r.providers ≡ before ++ (a, ia) ∷ between ++ (b, ib) ∷ rest
      → r'.providers ≡ before' ++ (b, ib) ∷ rest'
      → IsDict r.providers
      → IsDict r'.providers
      → IsAbsent b (before ++ (a, ia) ∷ between)
      → IsAbsent b before'
      → IsPlain env overrides between
      → IsPlain env overrides before'
      → (Dict.get (poll_providers env r poll overrides now room).0.providers b
          ≡ after o now ib (verdict o now ib))
        × (Dict.get (poll_providers env r' poll overrides now room).0.providers b
            ≡ after poll now ib (verdict poll now ib))
  override_leaks r r' before between rest before' rest' e e' d d' absent absent' plain plain' =
      let there : Dict.get (before ++ (a, ia) ∷ between ++ (b, ib) ∷ rest) b ≡ some ib =
        get-append b ib (before ++ (a, ia) ∷ between) rest absent in
      (
        rw (loop_all env overrides now room r poll b d) (
            rw e (
              rw
                (
                  at_leak env overrides b ib other vb rest before poll o a ia between own va absent
                      plain,
                  there,
                )
                (rw vb))),
        rw (loop_all env overrides now room r' poll b d') (
            rw e' (
              rw
                (
                  at_plain env overrides b ib other vb rest' poll before' plain' absent',
                  get-append b ib before' rest' absent',
                )
                (rw vb))),
      )

module _ (env : Env) (overrides : Dict Polling) (now : Time) where
  silent_act :
      (r : Registry env) (poll : Polling) (peer : PeerId) (info : ProviderInfo) (v : Verdict)
      → (act env r poll now false peer info v).1 ≡ []
  unfolding act
  silent_act r poll peer info leave = refl
  silent_act r poll peer info _ = refl

  silent_round :
      (r : Registry env) (poll : Polling) (peer : PeerId) (info : ProviderInfo)
      → (round env r poll overrides now (λ _. false) peer info).2 ≡ []
  unfolding round
  silent_round r poll peer info = elim (Bool-cases (env.valid info.publisher)) [
    | inl v ↦ rw v (silent_act r (override overrides peer poll) peer info _)
    | inr v ↦ rw v
  ]

  silent_loop :
      (entries : Dict ProviderInfo) (r : Registry env) (poll : Polling)
      → (poll_loop env r poll overrides now (λ _. false) entries).1 ≡ []
  unfolding poll_loop
  silent_loop [] r poll = refl
  silent_loop ((peer, info) ∷ rest) r poll =
      rw (silent_round r poll peer info)
        (silent_loop rest (round env r poll overrides now (λ _. false) peer info).0 _)

  -- While the sync channel is full, a poll removes each provider whose time is up and tells the
  -- ingester nothing, so that the provider's data stays.
  pub removal_untold :
      (r : Registry env) (poll : Polling) (k : PeerId) (info : ProviderInfo)
      → IsDict r.providers
      → Dict.get r.providers k ≡ some info
      → (let p = poll_at env poll overrides r.providers k in
          IsSilent env now info (p.interval + p.stop_after))
      → (Dict.get (poll_providers env r poll overrides now (λ _. false)).0.providers k ≡ none)
        × ((poll_providers env r poll overrides now (λ _. false)).1 ≡ [])
  removal_untold r poll k info d e s = (
    (poll_providers_lem env r poll overrides now (λ _. false) k info d e).0.1 s,
    unfold poll_providers in silent_loop r.providers r poll,
  )
