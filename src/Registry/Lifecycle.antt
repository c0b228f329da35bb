-- ===== src/Registry/Lifecycle.antt =====
-- How a registry runs and ends: run, runPollCheck and Close in internal/registry/registry.go with the
-- goroutines of Discover, as moves that may come in any order. The channel of actions has no buffer, so
-- that an action is handed over when `run` is free. The actions of Register and of the other calls are not
-- among the moves, nor are the sends of RemoveProvider and ImportProviders on the sync channel.
mod Phases
mod Moves
mod Laws
mod Close
mod Ends
mod Tests
use storetheindex.Prelude.{
  ℕ, zero, suc, ◌-◌, Bool, true, false, not, ◌&&◌, ◌||◌, Option, none, some, List, [], ◌∷◌, ◌==◌,
  if◌then◌else◌,
}
use storetheindex.Prelude.Dict.{Dict}
use storetheindex.PeerPolicy.{PeerId}
use storetheindex.Registry.Policy.{allowed}
use storetheindex.Registry.State.{Env, Registry, AddrInfo, Text, Time}
use storetheindex.Registry.Register.{is_empty}
use storetheindex.Registry.Discovery.{sync_start_discover, finish_discover, cleanup}
use storetheindex.Registry.Poll.{Polling, poll_providers}

-- The actions that are handed to `run`: of Discover, of its goroutine when the discoverer has answered,
-- of cleanup and pollProviders, and the one that closes `done`.
pub data Action : Type 0 where
  starting : Text → Action
  ending : Text → Option AddrInfo → Action
  cleaning_up polling_all signalling : Action

-- Where runPollCheck is: it waits for the timer, is to hand over the action of cleanup, of pollProviders
-- or the one that signals; waits for `done`; has closed the sync channel; or has closed the actions.
pub data Check : Type 0 where
  waiting cleaning polling draining awaiting sync_closed ended : Check

pub data Move : Type 0 where
  starts : PeerId → Text → Move
  answers : Text → Option AddrInfo → Move
  acts : Time → Move
  fires checks stops closes returns : Move

-- A goroutine of a discovery ends.
abbrev pub take_out : Text → List Text → Option (List Text)
take_out a [] = none
take_out a (x ∷ xs) =
    let rest = take_out a xs in
    if x == a then some xs else elim rest [ none ↦ none | some ys ↦ some (x ∷ ys) ]

module _ (env : Env) where
  -- `wait` is the counter of discoverWait, `discoverers` are the goroutines that have no answer yet, and
  -- `acting` is the action that `run` has taken; `done`, `closing` and `closed` tell which channels are
  -- closed, and `returned` that Close has closed the datastore.
  pub record Life : Type 0 where
    pub registry : Registry env
    pub wait : ℕ
    pub discoverers : List Text
    pub acting : Option Action
    pub check : Check
    pub done : Bool
    pub closing : Bool
    pub closed : Bool
    pub returned : Bool

  -- What a move comes to: it waits, or it sends on a closed channel, which panics.
  pub data Outcome : Type 0 where
    blocked panics : Outcome
    moves : Life → Outcome

  -- A registry as NewRegistry leaves it
  abbrev pub started : Registry env → Life
  started r = record {
    registry = r;
    wait = 0;
    discoverers = [];
    acting = none;
    check = waiting;
    done = false;
    closing = false;
    closed = false;
    returned = false;
  }

  abbrev is_ended : Check → Bool
  is_ended ended = true
  is_ended c = false

  -- r.actions <- action, and what the sender does then
  unfoldable pub hand_over : Life → Action → Outcome
  hand_over l a =
      if is_ended l.check
      then panics
      else elim l.acting [ none ↦ moves (record l { acting = some a }) | some b ↦ blocked ]

  abbrev is_closed : Check → Bool
  is_closed sync_closed = true
  is_closed ended = true
  is_closed c = false

  module _ (poll : Polling) (overrides : Dict Polling) (room : PeerId → Bool) where
    -- The action that `run` has taken
    unfoldable pub act : Life → Time → Action → Outcome
    act l now (starting addr) =
        let (r', e) = sync_start_discover env l.registry addr now in
        moves (elim e [
          | some x ↦ record l { registry = r'; acting = none }
          | none ↦ record l {
            registry = r';
            acting = none;
            wait = suc l.wait;
            discoverers = addr ∷ l.discoverers;
          }
        ])
    act l now (ending addr result) = moves (record l {
      registry = (finish_discover env l.registry addr now result).0;
      acting = none;
      wait = l.wait - 1;
    })
    act l now cleaning_up =
        moves (record l { registry = cleanup env l.registry now; acting = none })
    act l now polling_all =
        let (r', sent) = poll_providers env l.registry poll overrides now room in
        let (_, offered) = poll_providers env l.registry poll overrides now (λ p. true) in
        if is_closed l.check && not (is_empty offered)
        then panics
        else moves (record l { registry = r'; acting = none })
    act l now signalling = moves (record l { acting = none; done = true })

    -- The next step of runPollCheck
    unfoldable pub check_step : Life → Check → Outcome
    unfolding hand_over
    check_step l waiting = if l.closing then moves (record l { check = draining }) else blocked
    check_step l cleaning = hand_over (record l { check = polling }) cleaning_up
    check_step l polling = hand_over (record l { check = waiting }) polling_all
    check_step l draining = hand_over (record l { check = awaiting }) signalling
    check_step l awaiting = if l.done then moves (record l { check = sync_closed }) else blocked
    check_step l sync_closed = if l.wait == 0 then moves (record l { check = ended }) else blocked
    check_step l ended = blocked

    unfoldable pub move : Life → Move → Outcome
    unfolding hand_over act check_step
    move l (starts peer addr) =
        if allowed l.registry.policy peer then hand_over l (starting addr) else moves l
    move l (answers addr result) = elim (take_out addr l.discoverers) [
      | none ↦ blocked
      | some rest ↦ hand_over (record l { discoverers = rest }) (ending addr result)
    ]
    move l (acts now) = elim l.acting [ none ↦ blocked | some a ↦ act l now a ]
    move l fires = elim l.check [ waiting ↦ moves (record l { check = cleaning }) | _ ↦ blocked ]
    move l checks = check_step l l.check
    move l stops = elim l.check [
      | ended ↦ elim l.acting [
        | none ↦ if l.closed then blocked else moves (record l { closed = true })
        | some a ↦ blocked
      ]
      | _ ↦ blocked
    ]
    move l closes = if l.closing then blocked else moves (record l { closing = true })
    move l returns =
        if l.closed && not l.returned then moves (record l { returned = true }) else blocked

    unfoldable pub run : Life → List Move → Outcome
    unfolding move
    run l [] = moves l
    run l (m ∷ ms) = elim (move l m) [ blocked ↦ blocked | panics ↦ panics | moves l' ↦ run l' ms ]
