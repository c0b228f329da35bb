-- ===== src/Registry/Poll/Laws.antt =====
-- What a poll does to each provider.
use storetheindex.Prelude.{
  ℕ, ◌+◌, ◌-◌, ◌*◌, ◌≤◌, ◌≡◌, ◌≢◌, ◌↔◌, ◌⊎◌, refl, ◌∙◌, Bool, true, not, Option, none, some, [],
  ◌∷◌, ◌==◌, ==_iff, arith, if◌then◌else◌, Bool-cases, inl, inr,
}
use storetheindex.Prelude.Dict
use storetheindex.Prelude.Dict.{Dict, IsDict, get-put}
use storetheindex.PeerPolicy.{PeerId}
use storetheindex.Registry.State.{Time, ProviderInfo, Env, Registry}
use storetheindex.Registry.Register.Persistence.{get-sync_remove_provider}
use storetheindex.Registry.Poll.{
  Polling, Verdict, leave, starts_now, polls, deactivates, removes, override, verdict, act, round,
  poll_loop, poll_providers,
}

abbrev pub after : Polling → Time → ProviderInfo → Verdict → Option ProviderInfo
after poll now info leave = some info
after poll now info starts_now = some (record info { last_contact_time = now - poll.interval })
after poll now info polls = some info
after poll now info deactivates = some (record info { inactive = true })
after poll now info removes = none

module _ (env : Env) where
  -- What becomes of an entry under a given polling.
  abbrev pub settled : Polling → Time → ProviderInfo → Option ProviderInfo
  settled poll now info =
      if not (env.valid info.publisher)
      then some info
      else after poll now info (verdict poll now info)

  abbrev pub settled_entry : Polling → Time → Option ProviderInfo → Option ProviderInfo
  settled_entry poll now none = none
  settled_entry poll now (some info) = settled poll now info

  -- The value of the variable `poll` when the loop comes to the provider `k`.
  unfoldable pub poll_at : Polling → Dict Polling → Dict ProviderInfo → PeerId → Polling
  poll_at poll overrides [] k = poll
  poll_at poll overrides ((peer, info) ∷ rest) k =
      let poll' = if not (env.valid info.publisher) then poll else override overrides peer poll in
      let later = poll_at poll' overrides rest k in if peer == k then poll' else later

module _ (env : Env) (r : Registry env) (poll : Polling) (now : Time) (room : Bool) (peer : PeerId)
    (info : ProviderInfo) where
  get-act :
      (v : Verdict) (k : PeerId)
      → Dict.get r.providers peer ≡ some info
      → Dict.get (act env r poll now room peer info v).0.providers k
        ≡ (if peer == k then after poll now info v else Dict.get r.providers k)
  unfolding act
  get-act leave k e = ground arith
  get-act starts_now k e = get-put r.providers peer k _
  get-act polls k e = ground arith
  get-act deactivates k e = get-put r.providers peer k _
  get-act removes k e = get-sync_remove_provider env r peer k

module _ (env : Env) (poll : Polling) (overrides : Dict Polling) (now : Time)
    (room : PeerId → Bool) where
  abbrev next_poll : PeerId → ProviderInfo → Polling
  next_poll peer info =
      if not (env.valid info.publisher) then poll else override overrides peer poll

  round_lem :
      (r : Registry env) (peer : PeerId) (info : ProviderInfo)
      → Dict.get r.providers peer ≡ some info
      → ((k : PeerId)
          → Dict.get (round env r poll overrides now room peer info).0.providers k ≡ (
              if peer == k
              then settled env (next_poll peer info) now info
              else Dict.get r.providers k))
        × ((round env r poll overrides now room peer info).1 ≡ next_poll peer info)
  unfolding round
  round_lem r peer info e = elim (Bool-cases (env.valid info.publisher)) [
    | inl v ↦ rw v (
      (λ k.
          get-act env r (override overrides peer poll) now (room peer) peer info
            (verdict (override overrides peer poll) now info) k e),
      refl,
    )
    | inr v ↦ rw v (λ k. ground arith, refl)
  ]

module _ (env : Env) (overrides : Dict Polling) (now : Time) (room : PeerId → Bool) where
  abbrev outcome : Polling → Option ProviderInfo → Option ProviderInfo → Option ProviderInfo
  outcome poll none elsewhere = elsewhere
  outcome poll (some info) elsewhere = settled env poll now info

  abbrev Within : Dict ProviderInfo → Registry env → Type 0
  Within entries r =
      (j : PeerId) (info : ProviderInfo)
      → Dict.get entries j ≡ some info
      → Dict.get r.providers j ≡ some info

  module _ (r : Registry env) (poll : Polling) (peer : PeerId) (old : ProviderInfo)
      (rest : Dict ProviderInfo) (d : IsDict ((peer, old) ∷ rest))
      (h : Within ((peer, old) ∷ rest) r) where
    at_peer : Dict.get r.providers peer ≡ some old
    unfolding Dict.get
    at_peer = h peer old (rw ((==_iff peer peer).1 refl))

    step :
        (j : PeerId)
        → Dict.get (round env r poll overrides now room peer old).0.providers j ≡ (
            if peer == j
            then settled env (next_poll env poll overrides now room peer old) now old
            else Dict.get r.providers j)
    step = (round_lem env poll overrides now room r peer old at_peer).0

    Within-round : Within rest (round env r poll overrides now room peer old).0
    unfolding Dict.get
    Within-round j info e = rw step (elim (Bool-cases (peer == j)) [
      | inl own ↦ absurd (none_some j info e ((==_iff peer j).0 own))
      | inr other ↦ rw other (h j info (rw other e))
    ])
      where
        none_some : (j : PeerId) (info : ProviderInfo) → Dict.get rest j ≡ some info → peer ≡ j → ⊥
        none_some j info e p = cc (d.0, e, p)

  loop_lem :
      (entries : Dict ProviderInfo) (r : Registry env) (poll : Polling) (k : PeerId)
      → IsDict entries
      → Within entries r
      → Dict.get (poll_loop env r poll overrides now room entries).0.providers k
        ≡ outcome
            (poll_at env poll overrides entries k)
            (Dict.get entries k)
            (Dict.get r.providers k)
  unfolding poll_loop poll_at Dict.get
  loop_lem [] r poll k d h = refl
  loop_lem ((peer, old) ∷ rest) r poll k d h =
      rw
        (
          loop_lem rest (round env r poll overrides now room peer old).0
              (round env r poll overrides now room peer old).1 k d.1
              (Within-round r poll peer old rest d h),
          step r poll peer old rest d h k,
          (round_lem env poll overrides now room r peer old (at_peer r poll peer old rest d h)).1,
        )
        (elim (Bool-cases (peer == k)) [
          | inl own ↦
              let gone : Dict.get rest k ≡ none = rw (← (==_iff peer k).0 own) d.0 in rw (own, gone)
          | inr other ↦ rw other
        ])

  pub loop_all :
      (r : Registry env) (poll : Polling) (k : PeerId)
      → IsDict r.providers
      → Dict.get (poll_providers env r poll overrides now room).0.providers k
        ≡ settled_entry env (poll_at env poll overrides r.providers k) now (Dict.get r.providers k)
  unfolding poll_providers
  loop_all r poll k d =
      loop_lem r.providers r poll k d (λ j info e. e) ∙ join (Dict.get r.providers k)
    where
      join :
          (o : Option ProviderInfo)
          → outcome (poll_at env poll overrides r.providers k) o o
            ≡ settled_entry env (poll_at env poll overrides r.providers k) now o
      join none = refl
      join (some info) = refl

-- A provider whose publisher is known is silent for a time if that time has passed since the last
-- contact, which is not the zero time of a start of the indexer.
abbrev pub IsSilent : Env → Time → ProviderInfo → ℕ → Type 0
IsSilent env now info time =
    (env.valid info.publisher ≡ true)
    × (info.last_contact_time ≢ 0)
    × (info.last_contact_time + time ≤ now)

module _ (env : Env) (poll : Polling) (now : Time) (info : ProviderInfo) where
  settled_removed :
      (settled env poll now info ≡ none) ↔ IsSilent env now info (poll.interval + poll.stop_after)
  unfolding verdict
  settled_removed = (λ h. ground arith, λ h. ground arith)

  settled_inactive :
      (info' : ProviderInfo)
      → settled env poll now info ≡ some info'
      → (info'.inactive ≡ true)
        ↔ ((info.inactive ≡ true) ⊎ IsSilent env now info (poll.interval + 2 * poll.retry_after))
  unfolding verdict
  settled_inactive info' h = (λ i. ground arith, λ i. ground arith)

module _ (env : Env) (r : Registry env) (poll : Polling) (overrides : Dict Polling) (now : Time)
    (room : PeerId → Bool) (k : PeerId) (info : ProviderInfo) where
  -- A poll removes a registered provider exactly if it was silent for the interval and the stop time
  -- of the polling that is in effect for it. One that stays is inactive exactly if it was so already or
  -- was silent for the interval and two retry times, and keeps its addresses and its publisher.
  pub poll_providers_lem :
      IsDict r.providers
      → Dict.get r.providers k ≡ some info
      → let p = poll_at env poll overrides r.providers k in
        ((Dict.get (poll_providers env r poll overrides now room).0.providers k ≡ none)
          ↔ IsSilent env now info (p.interval + p.stop_after))
        × ((info' : ProviderInfo)
            → Dict.get (poll_providers env r poll overrides now room).0.providers k ≡ some info'
            → ((info'.inactive ≡ true)
                ↔ ((info.inactive ≡ true) ⊎ IsSilent env now info (p.interval + 2 * p.retry_after)))
              × (info'.addr_info ≡ info.addr_info)
              × (info'.publisher ≡ info.publisher))
  poll_providers_lem d e =
      rw (loop_all env overrides now room r poll k d, e)
        (
          settled_removed env (poll_at env poll overrides r.providers k) now info,
          (λ info' h. (
            settled_inactive env (poll_at env poll overrides r.providers k) now info info' h,
            (ground arith),
            (ground arith),
          )),
        )
