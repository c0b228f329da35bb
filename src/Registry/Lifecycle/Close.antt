-- ===== src/Registry/Lifecycle/Close.antt =====
-- How many moves a registry has left, if no discovery is begun any more: each move takes one off.
use storetheindex.Prelude.{
  ℕ, ◌+◌, ◌*◌, ◌≤◌, ◌≡◌, refl, Bool, true, false, not, ◌&&◌, Option, none, some, ◌==◌, length,
  arith, inl, inr, Bool-cases, Option-cases,
}
use storetheindex.Prelude.Dict.{Dict}
use storetheindex.PeerPolicy.{PeerId}
use storetheindex.Registry.State.{Env, Time}
use storetheindex.Registry.Poll.{Polling, poll_providers}
use storetheindex.Registry.Register.{is_empty}
use storetheindex.Registry.Discovery.{sync_start_discover}
use storetheindex.Registry.Lifecycle.{
  Action, starting, ending, cleaning_up, polling_all, signalling, Check, waiting, cleaning, polling,
  draining, awaiting, sync_closed, ended, Move, starts, answers, acts, fires, checks, stops, closes,
  returns, take_out, Life, Outcome, blocked, panics, moves, hand_over, act, check_step, move,
  is_closed, is_ended,
}
use storetheindex.Registry.Lifecycle.Phases.{length-take_out}

-- How many moves are left, where no timer fires: those of runPollCheck, those of an action, which may
-- begin a discovery, and two for each discovery.
abbrev pub left_of_check : Check → ℕ
left_of_check waiting = 5
left_of_check cleaning = 9
left_of_check polling = 7
left_of_check draining = 4
left_of_check awaiting = 2
left_of_check sync_closed = 1
left_of_check ended = 0

abbrev pub left_of_action : Option Action → ℕ
left_of_action none = 0
left_of_action (some (starting addr)) = 3
left_of_action (some a) = 1

abbrev pub to_do : Bool → ℕ
to_do true = 0
to_do false = 1

-- A timer that fires is one move, and asks for four more.
abbrev pub adds : Move → ℕ
adds fires = 5
adds m = 0

abbrev pub begins : Move → Bool
begins (starts peer addr) = true
begins m = false

module _ (env : Env) where
  abbrev pub left : Life env → ℕ
  left l =
      left_of_check l.check
      + left_of_action l.acting
      + 2 * length l.discoverers
      + to_do l.closing
      + to_do l.closed
      + to_do l.returned

  -- What a move leaves
  abbrev pub Leaves : ℕ → Outcome env → Type 0
  Leaves n blocked = Unit
  Leaves n panics = Unit
  Leaves n (moves l) = left l + 1 ≤ n

  hand_over-Leaves :
      (n : ℕ) (l : Life env) (a : Action)
      → left l + left_of_action (some a) + 1 ≤ n
      → Leaves n (hand_over env l a)
  unfolding hand_over
  hand_over-Leaves n l a h = elim (Bool-cases (is_ended env l.check)) [
    | inl e ↦ rw e tt
    | inr e ↦ rw e (elim (Option-cases l.acting) [
      | inl free ↦ rw (free, hand_over) (ground (arith, free))
      | inr (b, busy) ↦ rw (busy, hand_over) tt
    ])
  ]

  module _ (poll : Polling) (overrides : Dict Polling) (room : PeerId → Bool) where
    module _ (l : Life env) where
      act-Leaves :
          (a : Action) (now : Time)
          → l.acting ≡ some a
          → Leaves (left l + 0) (act env poll overrides room l now a)
      unfolding act
      act-Leaves (starting addr) now e =
          elim (Option-cases (sync_start_discover env l.registry addr now).1) [
            | inr (x, f) ↦ rw f (ground (arith, e))
            | inl f ↦ rw f (ground (arith, e))
          ]
      act-Leaves (ending addr result) now e = ground (arith, e)
      act-Leaves cleaning_up now e = ground (arith, e)
      act-Leaves polling_all now e =
          elim (Bool-cases (
            is_closed env l.check
            && not (is_empty (poll_providers env l.registry poll overrides now (λ p. true)).1))) [
              | inl f ↦ rw f tt
              | inr f ↦ rw f (ground (arith, e))
            ]
      act-Leaves signalling now e = ground (arith, e)

      checks-Leaves :
          (k : Check) → l.check ≡ k → Leaves (left l + 0) (check_step env poll overrides room l k)
      unfolding check_step
      checks-Leaves waiting e = elim (Bool-cases l.closing) [
        | inl f ↦ rw f (ground (arith, e))
        | inr f ↦ rw f tt
      ]
      checks-Leaves cleaning e =
          hand_over-Leaves (left l + 0) (record l { check = polling }) cleaning_up
            (ground (arith, e))
      checks-Leaves polling e =
          hand_over-Leaves (left l + 0) (record l { check = waiting }) polling_all
            (ground (arith, e))
      checks-Leaves draining e =
          hand_over-Leaves (left l + 0) (record l { check = awaiting }) signalling
            (ground (arith, e))
      checks-Leaves awaiting e = elim (Bool-cases l.done) [
        | inl f ↦ rw f (ground (arith, e))
        | inr f ↦ rw f tt
      ]
      checks-Leaves sync_closed e = elim (Bool-cases (l.wait == 0)) [
        | inl f ↦ rw f (ground (arith, e))
        | inr f ↦ rw f tt
      ]
      checks-Leaves ended e = tt

      fires-Leaves :
          (k : Check) → l.check ≡ k → Leaves (left l + 5) (move env poll overrides room l fires)
      unfolding move
      fires-Leaves waiting e = rw (e, move) (ground (arith, e))
      fires-Leaves cleaning e = rw (e, move) tt
      fires-Leaves polling e = rw (e, move) tt
      fires-Leaves draining e = rw (e, move) tt
      fires-Leaves awaiting e = rw (e, move) tt
      fires-Leaves sync_closed e = rw (e, move) tt
      fires-Leaves ended e = rw (e, move) tt

      stops-Leaves :
          (k : Check) → l.check ≡ k → Leaves (left l + 0) (move env poll overrides room l stops)
      unfolding move
      stops-Leaves waiting e = rw (e, move) tt
      stops-Leaves cleaning e = rw (e, move) tt
      stops-Leaves polling e = rw (e, move) tt
      stops-Leaves draining e = rw (e, move) tt
      stops-Leaves awaiting e = rw (e, move) tt
      stops-Leaves sync_closed e = rw (e, move) tt
      stops-Leaves ended e = elim (Option-cases l.acting) [
        | inr (a, busy) ↦ rw (e, busy, move) tt
        | inl free ↦ elim (Bool-cases l.closed) [
          | inl f ↦ rw (e, free, f, move) tt
          | inr f ↦ rw (e, free, f, move) (ground (arith, e, free, f))
        ]
      ]

      pub move-Leaves :
          (m : Move)
          → begins m ≡ false
          → Leaves (left l + adds m) (move env poll overrides room l m)
      unfolding move
      move-Leaves (starts peer addr) h = absurd cc
      move-Leaves (answers addr result) h = elim (Option-cases (take_out addr l.discoverers)) [
        | inl e ↦ rw (e, move) tt
        | inr (rest, e) ↦
            rw (e, move)
              (hand_over-Leaves (left l + 0) (record l { discoverers = rest }) (ending addr result)
                (ground (arith, length-take_out addr l.discoverers rest e)))
      ]
      move-Leaves (acts now) h = elim (Option-cases l.acting) [
        | inl e ↦ rw (e, move) tt
        | inr (a, e) ↦ rw (e, move) (rw e at (act-Leaves a now e))
      ]
      move-Leaves fires h = fires-Leaves l.check refl
      move-Leaves checks h = checks-Leaves l.check refl
      move-Leaves stops h = stops-Leaves l.check refl
      move-Leaves closes h = elim (Bool-cases l.closing) [
        | inl e ↦ rw e tt
        | inr e ↦ rw e (ground (arith, e))
      ]
      move-Leaves returns h = elim (Bool-cases (l.closed && not l.returned)) [
        | inl e ↦ rw e (ground (arith, e))
        | inr e ↦ rw e tt
      ]
