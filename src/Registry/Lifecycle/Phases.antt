-- ===== src/Registry/Lifecycle/Phases.antt =====
-- An invariant of a registry that runs: which channels are closed where runPollCheck is, and what `run` may
-- be at. The steps of both keep it.
use mathlib.Core.Option.{some-injective}
use storetheindex.Prelude.{
  ℕ, suc, ◌+◌, ◌-◌, ◌≡◌, refl, sym, ap, ◌∙◌, ==_iff, inl, inr, Bool-cases, Option-cases, Bool, true,
  false, not, ◌&&◌, Option, none, some, List, [], ◌∷◌, ◌==◌, length, arith,
}
use storetheindex.Prelude.Dict.{Dict}
use storetheindex.PeerPolicy.{PeerId}
use storetheindex.Registry.State.{Env, Registry, Text, Time}
use storetheindex.Registry.Poll.{Polling}
use storetheindex.Registry.Discovery.{sync_start_discover}
use storetheindex.Registry.Lifecycle.{
  Action, starting, ending, cleaning_up, polling_all, signalling, Check, waiting, cleaning, polling,
  draining, awaiting, sync_closed, ended, take_out, Life, Outcome, blocked, panics, moves,
  hand_over, act, check_step,
}

-- A discovery whose answer is handed over still counts.
abbrev pub pending : Option Action → ℕ
pending (some (ending addr result)) = 1
pending a = 0

abbrev unsignalled : Option Action → Bool
unsignalled (some signalling) = false
unsignalled a = true

abbrev quiet : Option Action → Bool
quiet none = true
quiet (some (ending addr result)) = true
quiet a = false

abbrev passing : Option Action → Bool → Bool
passing (some signalling) done = not done
passing a done = quiet a && done

abbrev pub free : Option Action → Bool
free none = true
free a = false

passed : (a : Option Action) → passing a true ≡ true → quiet a ≡ true
passed none h = refl
passed (some (starting addr)) h = h
passed (some (ending addr result)) h = refl
passed (some cleaning_up) h = h
passed (some polling_all) h = h
passed (some signalling) h = absurd cc

freed : (a : Option Action) (n : ℕ) → 0 ≡ n + pending a → quiet a ≡ true → free a ≡ true
freed none n e h = refl
freed (some (starting addr)) n e h = h
freed (some (ending addr result)) n e h = absurd (omega (arith, e))
freed (some cleaning_up) n e h = h
freed (some polling_all) n e h = h
freed (some signalling) n e h = h

passing-done :
    (a : Action) (d : Bool) → unsignalled (some a) ≡ true → passing (some a) d ≡ true → d ≡ true
passing-done (starting addr) d u h = absurd cc
passing-done (ending addr result) d u h = h
passing-done cleaning_up d u h = absurd cc
passing-done polling_all d u h = absurd cc
passing-done signalling d u h = absurd cc

pub length-take_out :
    (a : Text) (xs ys : List Text) → take_out a xs ≡ some ys → length xs ≡ suc (length ys)
length-take_out a [] ys h = absurd cc
length-take_out a (x ∷ xs) ys h = elim (Bool-cases (x == a)) [
  | inl e ↦ ap (λ l. suc (length l)) (some-injective _ _ (rw e at h))
  | inr e ↦ elim (Option-cases (take_out a xs)) [
    | inl none_left ↦ absurd (cc (rw (e, none_left) at h))
    | inr (zs, out) ↦
        rw (sym (some-injective _ _ (rw (e, out) at h))) (ap suc (length-take_out a xs zs out))
  ]
]

-- Which channels are closed and what `run` may be at, by where runPollCheck is
abbrev pub fits : Check → Option Action → ℕ → Bool → Bool → Bool → Bool → Bool
fits draining a wait done closing closed returned =
    unsignalled a && closing && not done && not closed && not returned
fits awaiting a wait done closing closed returned =
    passing a done && closing && not closed && not returned
fits sync_closed a wait done closing closed returned =
    quiet a && done && closing && not closed && not returned
fits ended a wait done closing closed returned =
    free a && done && closing && (wait == 0) && not (returned && not closed)
fits k a wait done closing closed returned = unsignalled a && not done && not closed && not returned

module _ (a : Action) (w w' : ℕ) (d c cl ret : Bool) where
  acted :
      (k : Check)
      → unsignalled (some a) ≡ true
      → fits k (some a) w d c cl ret ≡ true
      → fits k none w' d c cl ret ≡ true
  acted waiting u h = ground arith
  acted cleaning u h = ground arith
  acted polling u h = ground arith
  acted draining u h = ground arith
  acted awaiting u h = ground (arith, passing-done a d u)
  acted sync_closed u h = ground arith
  acted ended u h = absurd cc

module _ (env : Env) where
  pub record Inv (l : Life env) : Type 0 where
    pub counted : l.wait ≡ length l.discoverers + pending l.acting
    pub in_phase : fits l.check l.acting l.wait l.done l.closing l.closed l.returned ≡ true

  abbrev pub Safe : Outcome env → Type 0
  Safe blocked = Unit
  Safe panics = true ≡ false
  Safe (moves l) = Inv l

  module _ (poll : Polling) (overrides : Dict Polling) (room : PeerId → Bool) where
    module _ (r : Registry env) (w : ℕ) (ds : List Text) (d c cl ret : Bool) where
      abbrev pub life : Option Action → Check → Life env
      life a k = record {
        registry = r;
        wait = w;
        discoverers = ds;
        acting = a;
        check = k;
        done = d;
        closing = c;
        closed = cl;
        returned = ret;
      }

      pub checks-Safe :
          (a : Option Action) (k : Check)
          → Inv (life a k)
          → Safe (check_step env poll overrides room (life a k) k)
      unfolding check_step hand_over
      checks-Safe a waiting v = elim (Bool-cases c) [
        | inl e ↦ rw e (record { counted = v.counted; in_phase = ground (arith, v.in_phase) })
        | inr e ↦ rw e tt
      ]
      checks-Safe none cleaning v = record {
        counted = v.counted;
        in_phase = ground (arith, v.in_phase);
      }
      checks-Safe (some x) cleaning v = tt
      checks-Safe none polling v = record {
        counted = v.counted;
        in_phase = ground (arith, v.in_phase);
      }
      checks-Safe (some x) polling v = tt
      checks-Safe none draining v = record {
        counted = v.counted;
        in_phase = ground (arith, v.in_phase);
      }
      checks-Safe (some x) draining v = tt
      checks-Safe a awaiting v = elim (Bool-cases d) [
        | inl e ↦ rw e (record {
          counted = v.counted;
          in_phase = ground (arith, passed a, rw e at v.in_phase);
        })
        | inr e ↦ rw e tt
      ]
      checks-Safe a sync_closed v = elim (Bool-cases (w == 0)) [
        | inl e ↦
            let none_left : w ≡ 0 = (==_iff w 0).0 e in
            rw e (record {
              counted = v.counted;
              in_phase =
                  ground (arith, e, v.in_phase, freed a (length ds) (sym none_left ∙ v.counted));
            })
        | inr e ↦ rw e tt
      ]
      checks-Safe a ended v = tt

      starting-Safe :
          (k : Check) (addr : Text) (now : Time)
          → Inv (life (some (starting addr)) k)
          → Safe (act env poll overrides room (life (some (starting addr)) k) now (starting addr))
      unfolding act
      starting-Safe k addr now v = elim (Option-cases (sync_start_discover env r addr now).1) [
        | inr (x, e) ↦ rw e (record {
          counted = v.counted;
          in_phase = acted (starting addr) w w d c cl ret k refl v.in_phase;
        })
        | inl e ↦ rw e (record {
          counted = omega (arith, v.counted);
          in_phase = acted (starting addr) w (suc w) d c cl ret k refl v.in_phase;
        })
      ]

      polling-Safe :
          (k : Check) (now : Time)
          → Inv (life (some polling_all) k)
          → Safe (act env poll overrides room (life (some polling_all) k) now polling_all)
      unfolding act
      polling-Safe sync_closed now v = absurd cc
      polling-Safe ended now v = absurd cc
      polling-Safe k now v = record {
        counted = v.counted;
        in_phase = acted polling_all w w d c cl ret k refl v.in_phase;
      }

      signalled :
          (k : Check)
          → fits k (some signalling) w d c cl ret ≡ true
          → fits k none w true c cl ret ≡ true
      signalled awaiting h = ground arith
      signalled waiting h = absurd cc
      signalled cleaning h = absurd cc
      signalled polling h = absurd cc
      signalled draining h = absurd cc
      signalled sync_closed h = absurd cc
      signalled ended h = absurd cc

      pub act-Safe :
          (a : Action) (k : Check) (now : Time)
          → Inv (life (some a) k)
          → Safe (act env poll overrides room (life (some a) k) now a)
      unfolding act
      act-Safe (starting addr) k now v = starting-Safe k addr now v
      act-Safe (ending addr result) k now v = record {
        counted = omega (arith, v.counted);
        in_phase = acted (ending addr result) w (w - 1) d c cl ret k refl v.in_phase;
      }
      act-Safe cleaning_up k now v = record {
        counted = v.counted;
        in_phase = acted cleaning_up w w d c cl ret k refl v.in_phase;
      }
      act-Safe polling_all k now v = polling-Safe k now v
      act-Safe signalling k now v = record {
        counted = v.counted;
        in_phase = signalled k v.in_phase;
      }
