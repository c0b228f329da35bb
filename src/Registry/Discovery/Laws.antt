-- ===== src/Registry/Discovery/Laws.antt =====
-- One discovery at a time for an address, and a cleanup that nobody notices.
use storetheindex.Prelude.{
  ℕ, suc, ◌+◌, ◌≤◌, ◌<◌, ◌≡◌, refl, sym, ap, ◌∙◌, Option, none, some, List, [], ◌∷◌, ◌++◌, ◌==◌,
  arith, if◌then◌else◌, Option-cases, inl, inr,
}
use storetheindex.Prelude.Dict
use storetheindex.Prelude.Dict.{IsDict, get-put, get-retain, put-IsDict, retain-IsDict}
use storetheindex.PeerPolicy.{PeerId}
use storetheindex.Registry.State.{AddrInfo, Text, Time, Env, Registry, in_progress}
use storetheindex.Registry.Register.{sync_register, sync_persist_provider}
use storetheindex.Registry.Discovery.{
  sync_need_discover, sync_start_discover, discover, finish_discover, stays, cleanup,
}

module _ (env : Env) (r : Registry env) (distinct : IsDict r.discover_times) where
  -- A cleanup changes no later answer on whether a discovery may start.
  pub need_discover-cleanup :
      (addr : Text) (now later : Time)
      → now ≤ later
      → sync_need_discover env (cleanup env r now) addr later ≡ sync_need_discover env r addr later
  unfolding sync_need_discover cleanup
  need_discover-cleanup addr now later h =
      rw
        (
          get-retain (stays r.rediscover_wait now) r.discover_times addr distinct,
          sync_need_discover,
        )
        (elim (Option-cases (Dict.get r.discover_times addr)) [
          | inl e ↦ rw (e, sync_need_discover)
          | inr (completed, e) ↦ rw (e, sync_need_discover) (ground arith)
        ])

-- The registry, and the addresses of the discoveries that run.
pub record World (env : Env) : Type 0 where
  pub registry : Registry env
  pub running : List Text

-- What can happen: a discovery starts, one of those that run ends, or the cleanup comes.
pub data Step (env : Env) (w : World env) (w' : World env) : Type 0 where
  starts :
      (peer : PeerId) (addr : Text) (now : Time)
      → (discover env w.registry peer addr now).1 ≡ none
      → w' ≡ record {
        registry = (discover env w.registry peer addr now).0;
        running = addr ∷ w.running;
      }
      → Step env w w'
  ends :
      (before : List Text) (addr : Text) (after : List Text) (now : Time) (result : Option AddrInfo)
      → w.running ≡ before ++ addr ∷ after
      → 0 < now
      → w' ≡ record {
        registry = (finish_discover env w.registry addr now result).0;
        running = before ++ after;
      }
      → Step env w w'
  cleans :
      (now : Time)
      → w' ≡ record { registry = cleanup env w.registry now; running = w.running }
      → Step env w w'

pub data Reach (env : Env) (w : World env) : World env → Type 0 where
  here : Reach env w w
  next : {u v : World env} → Reach env w u → Step env u v → Reach env w v

abbrev pub count : Text → List Text → ℕ
count a [] = 0
count a (x ∷ xs) = let n = count a xs in if x == a then suc n else n

pub count-append : (a : Text) (xs ys : List Text) → count a (xs ++ ys) ≡ count a xs + count a ys
count-append a [] ys = omega arith
count-append a (x ∷ xs) ys = ground (arith, count-append a xs ys)

abbrev marks : Option Time → ℕ
marks none = 0
marks (some t) = if t == 0 then 1 else 0

-- An address is marked as in progress exactly while one discovery of it runs.
record Inv (env : Env) (w : World env) : Type 0 where
  distinct : IsDict w.registry.discover_times
  marked : (a : Text) → count a w.running ≡ marks (Dict.get w.registry.discover_times a)

module _ (env : Env) (r : Registry env) (addr : Text) (now : Time) where
  times-finish_discover :
      (result : Option AddrInfo)
      → (finish_discover env r addr now result).0.discover_times
        ≡ Dict.put r.discover_times addr now
  unfolding finish_discover sync_register sync_persist_provider
  times-finish_discover result = ground arith

  started :
      (peer : PeerId)
      → (discover env r peer addr now).1 ≡ none
      → ((discover env r peer addr now).0.discover_times ≡ Dict.put r.discover_times addr 0)
        × (marks (Dict.get r.discover_times addr) ≡ 0)
  unfolding discover sync_start_discover sync_need_discover
  started peer h = (ground arith, ground arith)

-- The counts after an address is taken out of those that run.
count_out :
    (a addr : Text) (before after : List Text)
    → count a (before ++ addr ∷ after) ≡ count a (before ++ after) + (if addr == a then 1 else 0)
count_out a addr before after =
    ground (arith, count-append a before (addr ∷ after), count-append a before after)

marks-stays :
    (wait now : ℕ) (a : Text) (o : Option Time) → marks (Dict.kept (stays wait now) a o) ≡ marks o
marks-stays wait now a none = refl
marks-stays wait now a (some t) = ground arith

ended :
    (a addr : Text) (now : Time) (n : ℕ) (o : Option Time)
    → 0 < now
    → n + (if addr == a then 1 else 0) ≡ marks o
    → n ≡ marks (if addr == a then some now else o)
ended a addr now n none h e = ground arith
ended a addr now n (some t) h e = ground arith

Step-Inv : (env : Env) {w w' : World env} → Step env w w' → Inv env w → Inv env w'
Step-Inv env {w} {w'} (starts peer addr now h e) v = rw e (record {
  distinct = rw (started env w.registry addr now peer h).0 (put-IsDict _ addr 0 v.distinct);
  marked = λ a.
      rw ((started env w.registry addr now peer h).0, get-put w.registry.discover_times addr a 0)
        (ground (arith, v.marked a, v.marked addr, (started env w.registry addr now peer h).1));
})
Step-Inv env {w} {w'} (ends before addr after now result runs later e) v = rw e (record {
  distinct =
      rw (times-finish_discover env w.registry addr now result) (put-IsDict _ addr now v.distinct);
  marked = λ a.
      rw
        (
          times-finish_discover env w.registry addr now result,
          get-put w.registry.discover_times addr a now,
        )
        (ended a addr now (count a (before ++ after)) (Dict.get w.registry.discover_times a) later
          (sym (count_out a addr before after) ∙ sym (ap (count a) runs) ∙ v.marked a));
})
Step-Inv env {w} {w'} (cleans now e) v = rw e (
    unfold cleanup in
    record {
      distinct = retain-IsDict _ w.registry.discover_times v.distinct;
      marked = λ a.
          rw
            (
              get-retain (stays w.registry.rediscover_wait now) w.registry.discover_times a
                  v.distinct,
              marks-stays,
            )
            (v.marked a);
    })

Reach-Inv : (env : Env) {w w' : World env} → Inv env w → Reach env w w' → Inv env w'
Reach-Inv env v here = v
Reach-Inv env v (next r s) = Step-Inv env s (Reach-Inv env v r)

marks-le : (o : Option Time) → marks o ≤ 1
marks-le none = omega arith
marks-le (some t) = ground arith

-- From a new registry, however discoveries start and end and cleanups come, at most one discovery runs
-- for an address, and while one runs a further request is answered by `in_progress`.
pub one_discovery :
    (env : Env) (r : Registry env) (w : World env) (a : Text) (now : Time)
    → r.discover_times ≡ []
    → Reach env (record { registry = r; running = [] }) w
    → (count a w.running ≤ 1)
      × (0 < count a w.running → sync_need_discover env w.registry a now ≡ some in_progress)
unfolding sync_need_discover Dict.get
one_discovery env r w a now fresh path =
    let v = Reach-Inv env (record { distinct = rw fresh tt; marked = λ b. rw fresh refl }) path in
    (
      omega (arith, v.marked a, marks-le (Dict.get w.registry.discover_times a)),
      λ runs. busy (Dict.get w.registry.discover_times a) refl (omega (arith, v.marked a)),
    )
  where
    busy :
        (o : Option Time)
        → Dict.get w.registry.discover_times a ≡ o
        → 0 < marks o
        → sync_need_discover env w.registry a now ≡ some in_progress
    busy none e h = absurd (omega arith)
    busy (some t) e h = rw (e, sync_need_discover) (ground arith)
