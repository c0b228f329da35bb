-- ===== src/Registry/Lifecycle/Moves.antt =====
-- No move of a registry that runs sends on a closed channel, unless a discovery is begun while it is being closed.
use storetheindex.Prelude.{
  ℕ, suc, ◌≡◌, inl, inr, Bool-cases, Option-cases, Bool, true, false, not, ◌&&◌, Option, none, some,
  List, length, arith,
}
use storetheindex.Prelude.Dict.{Dict}
use storetheindex.PeerPolicy.{PeerId}
use storetheindex.Registry.State.{AddrInfo, Env, Registry, Text, Time}
use storetheindex.Registry.Policy.{allowed}
use storetheindex.Registry.Poll.{Polling}
use storetheindex.Registry.Lifecycle.{
  Action, starting, ending, Check, waiting, cleaning, polling, draining, awaiting, sync_closed,
  ended, Move, starts, answers, acts, fires, checks, stops, closes, returns, take_out, Life,
  hand_over, move,
}
use storetheindex.Registry.Lifecycle.Phases
use storetheindex.Registry.Lifecycle.Phases.{
  fits, Inv, Safe, checks-Safe, act-Safe, length-take_out,
}

-- The moves that do not begin a discovery while the registry is being closed
abbrev pub allows : Bool → Move → Bool
allows closing (starts peer addr) = not closing
allows closing m = true

module _ (env : Env) (poll : Polling) (overrides : Dict Polling) (room : PeerId → Bool) where
  module _ (r : Registry env) (w : ℕ) (ds : List Text) (d c cl ret : Bool) where
    abbrev life : Option Action → Check → Life env
    life = Phases.life env poll overrides room r w ds d c cl ret

    acts-Safe :
        (a : Option Action) (k : Check) (now : Time)
        → Inv env (life a k)
        → Safe env (move env poll overrides room (life a k) (acts now))
    unfolding move
    acts-Safe none k now v = tt
    acts-Safe (some a) k now v = act-Safe env poll overrides room r w ds d c cl ret a k now v

    begin-Safe :
        (a : Option Action) (k : Check) (addr : Text)
        → c ≡ false
        → Inv env (life a k)
        → Safe env (hand_over env (life a k) (starting addr))
    unfolding hand_over
    begin-Safe (some x) waiting addr h v = tt
    begin-Safe (some x) cleaning addr h v = tt
    begin-Safe (some x) polling addr h v = tt
    begin-Safe none waiting addr h v = record { counted = v.counted; in_phase = v.in_phase }
    begin-Safe none cleaning addr h v = record { counted = v.counted; in_phase = v.in_phase }
    begin-Safe none polling addr h v = record { counted = v.counted; in_phase = v.in_phase }
    begin-Safe a draining addr h v = absurd (ground (arith, v.in_phase))
    begin-Safe a awaiting addr h v = absurd (ground (arith, v.in_phase))
    begin-Safe a sync_closed addr h v = absurd (ground (arith, v.in_phase))
    begin-Safe a ended addr h v = absurd (ground (arith, v.in_phase))

    answer-Safe :
        (a : Option Action) (k : Check) (addr : Text) (result : Option AddrInfo) (rest : List Text)
        → length ds ≡ suc (length rest)
        → Inv env (life a k)
        → Safe env (hand_over env (record (life a k) { discoverers = rest }) (ending addr result))
    unfolding hand_over
    answer-Safe none waiting addr result rest h v = record {
      counted = omega (arith, v.counted, h);
      in_phase = v.in_phase;
    }
    answer-Safe none cleaning addr result rest h v = record {
      counted = omega (arith, v.counted, h);
      in_phase = v.in_phase;
    }
    answer-Safe none polling addr result rest h v = record {
      counted = omega (arith, v.counted, h);
      in_phase = v.in_phase;
    }
    answer-Safe none draining addr result rest h v = record {
      counted = omega (arith, v.counted, h);
      in_phase = v.in_phase;
    }
    answer-Safe none awaiting addr result rest h v = record {
      counted = omega (arith, v.counted, h);
      in_phase = v.in_phase;
    }
    answer-Safe none sync_closed addr result rest h v = record {
      counted = omega (arith, v.counted, h);
      in_phase = v.in_phase;
    }
    answer-Safe (some x) waiting addr result rest h v = tt
    answer-Safe (some x) cleaning addr result rest h v = tt
    answer-Safe (some x) polling addr result rest h v = tt
    answer-Safe (some x) draining addr result rest h v = tt
    answer-Safe (some x) awaiting addr result rest h v = tt
    answer-Safe (some x) sync_closed addr result rest h v = tt
    answer-Safe a ended addr result rest h v = ground (arith, v.in_phase, v.counted, h)

    fires-Safe :
        (a : Option Action) (k : Check)
        → Inv env (life a k)
        → Safe env (move env poll overrides room (life a k) fires)
    unfolding move
    fires-Safe a waiting v = record { counted = v.counted; in_phase = v.in_phase }
    fires-Safe a cleaning v = tt
    fires-Safe a polling v = tt
    fires-Safe a draining v = tt
    fires-Safe a awaiting v = tt
    fires-Safe a sync_closed v = tt
    fires-Safe a ended v = tt

    stops-Safe :
        (a : Option Action) (k : Check)
        → Inv env (life a k)
        → Safe env (move env poll overrides room (life a k) stops)
    unfolding move
    stops-Safe a waiting v = tt
    stops-Safe a cleaning v = tt
    stops-Safe a polling v = tt
    stops-Safe a draining v = tt
    stops-Safe a awaiting v = tt
    stops-Safe a sync_closed v = tt
    stops-Safe (some x) ended v = tt
    stops-Safe none ended v = elim (Bool-cases cl) [
      | inl e ↦ rw e tt
      | inr e ↦ rw e (record { counted = v.counted; in_phase = ground (arith, v.in_phase) })
    ]

    closes-Safe :
        (a : Option Action) (k : Check)
        → Inv env (life a k)
        → Safe env (move env poll overrides room (life a k) closes)
    unfolding move
    closes-Safe a k v = elim (Bool-cases c) [
      | inl e ↦ rw e tt
      | inr e ↦ rw e (record { counted = v.counted; in_phase = closing_fits k v.in_phase })
    ]
      where
        closing_fits : (k : Check) → fits k a w d c cl ret ≡ true → fits k a w d true cl ret ≡ true
        closing_fits waiting h = h
        closing_fits cleaning h = h
        closing_fits polling h = h
        closing_fits draining h = ground arith
        closing_fits awaiting h = ground arith
        closing_fits sync_closed h = ground arith
        closing_fits ended h = ground arith

    returns-Safe :
        (a : Option Action) (k : Check)
        → Inv env (life a k)
        → Safe env (move env poll overrides room (life a k) returns)
    unfolding move
    returns-Safe a k v = elim (Bool-cases (cl && not ret)) [
      | inr e ↦ rw e tt
      | inl e ↦ rw e (record { counted = v.counted; in_phase = returned_fits k e v.in_phase })
    ]
      where
        returned_fits :
            (k : Check)
            → cl && not ret ≡ true
            → fits k a w d c cl ret ≡ true
            → fits k a w d c cl true ≡ true
        returned_fits waiting e h = absurd (ground arith)
        returned_fits cleaning e h = absurd (ground arith)
        returned_fits polling e h = absurd (ground arith)
        returned_fits draining e h = absurd (ground arith)
        returned_fits awaiting e h = absurd (ground arith)
        returned_fits sync_closed e h = absurd (ground arith)
        returned_fits ended e h = ground arith

  pub move-Safe :
      (l : Life env) (m : Move)
      → allows l.closing m ≡ true
      → Inv env l
      → Safe env (move env poll overrides room l m)
  unfolding move
  move-Safe l (starts peer addr) h v = elim (Bool-cases (allowed l.registry.policy peer)) [
    | inr e ↦ rw e v
    | inl e ↦ rw e (
        begin-Safe l.registry l.wait l.discoverers l.done l.closing l.closed l.returned l.acting
          l.check addr (ground arith) v)
  ]
  move-Safe l (answers addr result) h v = elim (Option-cases (take_out addr l.discoverers)) [
    | inl e ↦ rw (e, move) tt
    | inr (rest, e) ↦
        rw (e, move)
          (answer-Safe l.registry l.wait l.discoverers l.done l.closing l.closed l.returned l.acting
            l.check addr result rest (length-take_out addr l.discoverers rest e) v)
  ]
  move-Safe l (acts now) h v =
      acts-Safe l.registry l.wait l.discoverers l.done l.closing l.closed l.returned l.acting
        l.check now v
  move-Safe l fires h v =
      fires-Safe l.registry l.wait l.discoverers l.done l.closing l.closed l.returned l.acting
        l.check v
  move-Safe l checks h v =
      checks-Safe env poll overrides room l.registry l.wait l.discoverers l.done l.closing l.closed
        l.returned l.acting l.check v
  move-Safe l stops h v =
      stops-Safe l.registry l.wait l.discoverers l.done l.closing l.closed l.returned l.acting
        l.check v
  move-Safe l closes h v =
      closes-Safe l.registry l.wait l.discoverers l.done l.closing l.closed l.returned l.acting
        l.check v
  move-Safe l returns h v =
      returns-Safe l.registry l.wait l.discoverers l.done l.closing l.closed l.returned l.acting
        l.check v
