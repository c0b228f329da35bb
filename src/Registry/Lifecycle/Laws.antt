-- ===== src/Registry/Lifecycle/Laws.antt =====
-- A registry that is closed: its goroutines and the closed channels.
use storetheindex.Prelude.{
  ℕ, ◌+◌, ◌≡◌, ◌≢◌, ◌↔◌, refl, sym, ◌∙◌, Bool, true, false, ◌&&◌, Option, none, some, List, [], ◌∷◌,
  length, arith,
}
use storetheindex.Prelude.Dict.{Dict}
use storetheindex.PeerPolicy.{PeerId}
use storetheindex.Registry.State.{Env, Registry, Text}
use storetheindex.Registry.Policy.{allowed}
use storetheindex.Registry.Poll.{Polling}
use storetheindex.Registry.Lifecycle.{
  Action, Check, waiting, cleaning, polling, draining, awaiting, sync_closed, ended, Move, Life,
  Outcome, blocked, panics, moves, started, move, run,
}
use storetheindex.Registry.Lifecycle.Phases.{pending, fits, free, Inv, Safe}
use storetheindex.Registry.Lifecycle.Moves.{allows, move-Safe}

pub &&_iff : (b c : Bool) → (b && c ≡ true) ↔ ((b ≡ true) × (c ≡ true))
&&_iff true c = ((λ h. (refl, h)), λ h. h.1)
&&_iff false c = ((λ h. absurd cc), λ h. h.0)

module _ (env : Env) (poll : Polling) (overrides : Dict Polling) (room : PeerId → Bool) where
  -- No discovery is begun in a run once the registry is being closed.
  abbrev pub is_polite : Life env → List Move → Bool
  is_polite l [] = true
  is_polite l (m ∷ ms) =
      allows l.closing m
      && elim (move env poll overrides room l m) [ moves l' ↦ is_polite l' ms | _ ↦ true ]

  pub run-Safe :
      (ms : List Move) (l : Life env)
      → is_polite l ms ≡ true
      → Inv env l
      → Safe env (run env poll overrides room l ms)
  unfolding run
  run-Safe [] l h v = v
  run-Safe (m ∷ ms) l h v =
      let (allowed, rest) = (&&_iff _ _).0 h in
      after (move env poll overrides room l m) rest
        (move-Safe env poll overrides room l m allowed v) (λ l' h v. run-Safe ms l' h v)
    where
      after :
          (o : Outcome env)
          → elim o [ moves l' ↦ is_polite l' ms | _ ↦ true ] ≡ true
          → Safe env o
          → ((l' : Life env)
              → is_polite l' ms ≡ true
              → Inv env l'
              → Safe env (run env poll overrides room l' ms))
          → Safe env (elim o [
            | blocked ↦ blocked
            | panics ↦ panics
            | moves l' ↦ run env poll overrides room l' ms
          ])
      after blocked h v then_safe = tt
      after panics h v then_safe = v
      after (moves l') h v then_safe = then_safe l' h v

  pub started-Inv : (r : Registry env) → Inv env (started env r)
  started-Inv r = record { counted = refl; in_phase = refl }

  -- What holds of a registry whose Close has returned: nothing runs and nothing is handed over.
  abbrev pub IsStill : Life env → Type 0
  IsStill l = (l.acting ≡ none) × (l.discoverers ≡ []) × (l.wait ≡ 0)

  returned-IsStill : (l : Life env) → l.returned ≡ true → Inv env l → IsStill l
  returned-IsStill l h v = by_check l.check l.acting l.discoverers v.in_phase v.counted
    where
      none_left : (a : Option Action) → free a ≡ true → a ≡ none
      none_left none h = refl
      none_left (some a) h = absurd cc

      no_length : (ds : List Text) (n : ℕ) → 0 ≡ length ds + n → ds ≡ []
      no_length [] n e = refl
      no_length (x ∷ ds) n e = absurd (omega (arith, e))

      by_check :
          (k : Check) (a : Option Action) (ds : List Text)
          → fits k a l.wait l.done l.closing l.closed l.returned ≡ true
          → l.wait ≡ length ds + pending a
          → (a ≡ none) × (ds ≡ []) × (l.wait ≡ 0)
      by_check waiting a ds f e = absurd (ground arith)
      by_check cleaning a ds f e = absurd (ground arith)
      by_check polling a ds f e = absurd (ground arith)
      by_check draining a ds f e = absurd (ground arith)
      by_check awaiting a ds f e = absurd (ground arith)
      by_check sync_closed a ds f e = absurd (ground arith)
      by_check ended a ds f e =
          let none_waits : l.wait ≡ 0 = ground arith in
          (none_left a (ground arith), no_length ds (pending a) (sym none_waits ∙ e), none_waits)

  -- However a registry runs, if no discovery is begun once it is being closed: neither Discover, nor a
  -- goroutine of a discovery, runPollCheck or run ever sends on a closed channel, and when Close has
  -- returned, no action is left and no discovery runs.
  pub close_safe :
      (r : Registry env) (ms : List Move)
      → is_polite (started env r) ms ≡ true
      → (run env poll overrides room (started env r) ms ≢ panics)
        × ((l : Life env)
            → run env poll overrides room (started env r) ms ≡ moves l
            → l.returned ≡ true
            → IsStill l)
  close_safe r ms polite =
      let safe = run-Safe ms (started env r) polite (started-Inv r) in
      (
        (λ e. absurd (cc (rw e at safe))),
        λ l e returned. returned-IsStill l returned (rw e at safe),
      )
