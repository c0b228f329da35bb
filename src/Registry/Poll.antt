-- ===== src/Registry/Poll.antt =====
-- pollProviders in internal/registry/registry.go, which is one action of the registry's goroutine.
-- `room` says whether the sync channel takes an entry at the time that the loop offers it: the
-- ingester reads the channel meanwhile. A duration is a number of nanoseconds.
pub mod Laws
pub mod Order
use storetheindex.Prelude.{
  ℕ, ◌+◌, ◌-◌, ◌*◌, Bool, true, false, not, Option, none, some, List, [], ◌∷◌, ltb, leb, ◌==◌,
  if◌then◌else◌, ◌++◌,
}
use storetheindex.Prelude.Dict
use storetheindex.Prelude.Dict.{Dict}
use storetheindex.PeerPolicy.{PeerId}
use storetheindex.Registry.State.{Time, ProviderInfo, Env, Registry}
use storetheindex.Registry.Register.{sync_remove_provider}

pub record Polling : Type 0 where
  pub interval : ℕ
  pub retry_after : ℕ
  pub stop_after : ℕ

-- What one round of the loop finds for a provider: leave it, note the first contact time, or poll it,
-- and then whether its time is up or it has become inactive.
pub data Verdict : Type 0 where
  leave : Verdict
  starts_now : Verdict
  polls : Verdict
  deactivates : Verdict
  removes : Verdict

-- if override, ok := pollOverrides[peerID]; ok { poll = override }
unfoldable pub override : Dict Polling → PeerId → Polling → Polling
override overrides peer poll = elim (Dict.get overrides peer) [ none ↦ poll | some o ↦ o ]

-- The tests of the loop body after the override, on the time since the last contact.
unfoldable pub verdict : Polling → Time → ProviderInfo → Verdict
verdict poll now info =
    if info.last_contact_time == 0
    then starts_now
    else if ltb now (info.last_contact_time + poll.interval)
    then leave
    else let since = now - info.last_contact_time - poll.interval in
      if leb poll.stop_after since
      then removes
      else if leb (2 * poll.retry_after) since
      then deactivates
      else polls

module _ (env : Env) where
  -- if the channel has room, it gets the entry; else the entry is dropped
  abbrev offer : Bool → ProviderInfo → List ProviderInfo
  offer true info = info ∷ []
  offer false info = []

  -- What the loop body does for a verdict: the registry, and what was sent.
  unfoldable pub act :
      Registry env
      → Polling
      → Time
      → Bool
      → PeerId
      → ProviderInfo
      → Verdict
      → Registry env × List ProviderInfo
  act r poll now room peer info leave = (r, [])
  act r poll now room peer info starts_now = (
    record r {
      providers =
          Dict.put r.providers peer (record info { last_contact_time = now - poll.interval });
    },
    [],
  )
  act r poll now room peer info polls = (r, offer room info)
  act r poll now room peer info deactivates =
      let info' = record info { inactive = true } in
      (record r { providers = Dict.put r.providers peer info' }, offer room info')
  act r poll now room peer info removes =
      ((sync_remove_provider env r peer).0, offer room (record info { deleted = true }))

  -- One round of the loop. As in the source, an override replaces the variable `poll`, for the rounds
  -- that follow too.
  unfoldable pub round :
      Registry env
      → Polling
      → Dict Polling
      → Time
      → (PeerId → Bool)
      → PeerId
      → ProviderInfo
      → Registry env × Polling × List ProviderInfo
  round r poll overrides now room peer info =
      let poll' = override overrides peer poll in
      let (r', sent) = act r poll' now (room peer) peer info (verdict poll' now info) in
      if not (env.valid info.publisher) then (r, poll, []) else (r', poll', sent)

  -- The loop over the entries, in the order of the iteration.
  unfoldable pub poll_loop :
      Registry env
      → Polling
      → Dict Polling
      → Time
      → (PeerId → Bool)
      → Dict ProviderInfo
      → Registry env × List ProviderInfo
  poll_loop r poll overrides now room [] = (r, [])
  poll_loop r poll overrides now room ((peer, info) ∷ rest) =
      let (r', poll', sent) = round r poll overrides now room peer info in
      let (r'', more) = poll_loop r' poll' overrides now room rest in (r'', sent ++ more)

  -- pollProviders
  unfoldable pub poll_providers :
      Registry env
      → Polling
      → Dict Polling
      → Time
      → (PeerId → Bool)
      → Registry env × List ProviderInfo
  poll_providers r poll overrides now room = poll_loop r poll overrides now room r.providers
