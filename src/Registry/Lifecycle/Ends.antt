-- ===== src/Registry/Lifecycle/Ends.antt =====
-- The end of a registry: once it is being closed and no discovery is begun any more, Close returns.
use storetheindex.Prelude.{
  ℕ, ◌+◌, ◌≡◌, ◌≤◌, ◌⊎◌, ==_refl, refl, ap, ◌∙◌, inl, inr, Bool-cases, Bool, true, false, not, ◌&&◌,
  Option, none, some, List, [], ◌∷◌, length, arith,
}
use storetheindex.Prelude.Dict.{Dict}
use storetheindex.PeerPolicy.{PeerId}
use storetheindex.Registry.State.{Env, Registry, Text, Time}
use storetheindex.Registry.Poll.{Polling, poll_providers}
use storetheindex.Registry.Register.{is_empty}
use storetheindex.Registry.Lifecycle.{
  Action, starting, ending, cleaning_up, polling_all, signalling, Check, waiting, cleaning, polling,
  draining, awaiting, sync_closed, ended, Move, answers, acts, checks, stops, returns, Life,
  Outcome, blocked, panics, moves, started, hand_over, act, check_step, move, run, is_closed,
}
use storetheindex.Registry.Lifecycle.Phases.{Inv, Safe}
use storetheindex.Registry.Lifecycle.Close.{left, adds, begins, move-Leaves}
use storetheindex.Registry.Lifecycle.Moves.{move-Safe}
use storetheindex.Registry.Lifecycle.Laws

by_negation : (b : Bool) → not b ≡ true → b ≡ false
by_negation true h = absurd cc
by_negation false h = refl

abbrev pub begin_none : List Move → Bool
begin_none [] = true
begin_none (m ∷ ms) = not (begins m) && begin_none ms

abbrev pub added : List Move → ℕ
added [] = 0
added (m ∷ ms) = adds m + added ms

module _ (env : Env) (poll : Polling) (overrides : Dict Polling) (room : PeerId → Bool) where
  moves-injective : {l l' : Life env} → moves l ≡ moves l' → l ≡ l'
  moves-injective {l} e = ap (λ o. elim o [ moves x ↦ x | _ ↦ l ]) e

  run-moves :
      (ms : List Move) (o : Outcome env) (l' : Life env)
      → elim o [ blocked ↦ blocked | panics ↦ panics | moves x ↦ run env poll overrides room x ms ]
        ≡ moves l'
      → (x : Life env) × (o ≡ moves x) × (run env poll overrides room x ms ≡ moves l')
  run-moves ms blocked l' e = absurd cc
  run-moves ms panics l' e = absurd cc
  run-moves ms (moves x) l' e = (x, refl, e)

  -- Without new discoveries a run has only so many moves.
  run-left :
      (ms : List Move) (l l' : Life env)
      → begin_none ms ≡ true
      → run env poll overrides room l ms ≡ moves l'
      → length ms + left env l' ≤ left env l + added ms
  unfolding run
  run-left [] l l' calm e = rw (moves-injective e) (omega arith)
  run-left (m ∷ ms) l l' calm e =
      let (x, first, rest) = run-moves ms (move env poll overrides room l m) l' e in
      let (begins_none, calm') : (not (begins m) ≡ true) × (begin_none ms ≡ true) =
        (Laws.&&_iff (not (begins m)) (begin_none ms)).0 calm in
      omega (
        arith,
        run-left ms x l' calm' rest,
        rw first at (move-Leaves env poll overrides room l m (by_negation (begins m) begins_none)),
      )

  -- A move that is neither the beginning of a discovery nor the timer's
  abbrev pub GoesOn : Life env → Type 0
  GoesOn l =
      (m : Move) × (l' : Life env) × (begins m ≡ false)
      × (adds m ≡ 0)
      × (move env poll overrides room l m ≡ moves l')

  act-moves :
      (l : Life env) (now : Time) (a : Action)
      → Safe env (act env poll overrides room l now a)
      → (l' : Life env) × (act env poll overrides room l now a ≡ moves l')
  unfolding act
  act-moves l now (starting addr) safe = (_, refl)
  act-moves l now (ending addr result) safe = (_, refl)
  act-moves l now cleaning_up safe = (_, refl)
  act-moves l now polling_all safe =
      elim (Bool-cases (
        is_closed env l.check
        && not (is_empty (poll_providers env l.registry poll overrides now (λ p. true)).1))) [
          | inl e ↦ absurd (cc (rw e at safe))
          | inr e ↦ (
            record l {
              registry = (poll_providers env l.registry poll overrides now room).0;
              acting = none;
            },
            rw e refl,
          )
        ]
  act-moves l now signalling safe = (_, refl)

  goes_on : (l : Life env) → l.closing ≡ true → l.returned ≡ false → Inv env l → GoesOn l
  unfolding move hand_over check_step
  goes_on l closing before v = by_check l.acting l.check l.discoverers refl refl refl
    where
      by_check :
          (a : Option Action) (k : Check) (ds : List Text)
          → l.acting ≡ a
          → l.check ≡ k
          → l.discoverers ≡ ds
          → GoesOn l
      by_check (some a) k ds ea ek ed =
          let taken : move env poll overrides room l (acts 0) ≡ act env poll overrides room l 0 a =
            rw (ea, move) refl in
          let safe = rw taken at (move-Safe env poll overrides room l (acts 0) refl v) in
          let (l', e) = act-moves l 0 a safe in (acts 0, l', refl, refl, taken ∙ e)
      by_check none waiting ds ea ek ed = (
        checks,
        record l { check = draining },
        refl,
        refl,
        rw (ek, move, check_step) (rw closing refl),
      )
      by_check none cleaning ds ea ek ed = (
        checks,
        record l { check = polling; acting = some cleaning_up },
        refl,
        refl,
        rw (ek, move, check_step, hand_over) (rw (ea, hand_over) refl),
      )
      by_check none polling ds ea ek ed = (
        checks,
        record l { check = waiting; acting = some polling_all },
        refl,
        refl,
        rw (ek, move, check_step, hand_over) (rw (ea, hand_over) refl),
      )
      by_check none draining ds ea ek ed = (
        checks,
        record l { check = awaiting; acting = some signalling },
        refl,
        refl,
        rw (ek, move, check_step, hand_over) (rw (ea, hand_over) refl),
      )
      by_check none awaiting ds ea ek ed =
          let is_done : l.done ≡ true = ground (arith, rw (ek, ea) at v.in_phase) in
          (
            checks,
            record l { check = sync_closed },
            refl,
            refl,
            rw (ek, move, check_step) (rw is_done refl),
          )
      by_check none sync_closed [] ea ek ed =
          let waits : l.wait ≡ 0 = rw (ea, ed) at v.counted in
          (
            checks,
            record l { check = ended },
            refl,
            refl,
            rw (ek, move, check_step) (rw waits refl),
          )
      by_check none sync_closed (x ∷ ds) ea ek ed = (
        answers x none,
        record l { discoverers = ds; acting = some (ending x none) },
        refl,
        refl,
        rw (ed, move) (rw (==_refl x) (rw (ek, hand_over) (rw (ea, hand_over) (rw ek refl)))),
      )
      by_check none ended ds ea ek ed = elim (Bool-cases l.closed) [
        | inl e ↦ (returns, record l { returned = true }, refl, refl, rw (e, before, move) refl)
        | inr e ↦ (
          stops,
          record l { closed = true },
          refl,
          refl,
          rw (ek, ea, move) (rw e (rw (ek, ea) refl)),
        )
      ]

  -- A registry that is being closed, and where no discovery is begun any more, makes only as many moves as
  -- it has left, and five for each time that the timer fires, while it always can make one of them until
  -- Close returns.
  pub close_ends :
      (r : Registry env) (ms : List Move) (l : Life env)
      → Laws.is_polite env poll overrides room (started env r) ms ≡ true
      → run env poll overrides room (started env r) ms ≡ moves l
      → l.closing ≡ true
      → ((ms' : List Move) (l' : Life env)
          → begin_none ms' ≡ true
          → run env poll overrides room l ms' ≡ moves l'
          → length ms' ≤ left env l + added ms')
        × ((l.returned ≡ true) ⊎ GoesOn l)
  close_ends r ms l polite ran closing = (
    (λ ms' l' calm e. omega (arith, run-left ms' l l' calm e)),
    elim (Bool-cases l.returned) [
      | inl e ↦ inl e
      | inr e ↦ inr (
          goes_on l closing e (
            rw ran at (
              Laws.run-Safe env poll overrides room ms (started env r) polite
                (Laws.started-Inv env poll overrides room r))))
    ],
  )
