-- ===== src/Ingest/Staging/Laws.antt =====
-- The workers and the staged assignments, over any order of the steps.
use storetheindex.Prelude.{
  ℕ, ◌+◌, ◌≤◌, ◌≡◌, refl, sym, ap, ◌∙◌, Bool, true, false, Option, none, some, List, [], ◌∷◌, ◌==◌,
  ==_iff, ==_refl, elem, if◌then◌else◌, arith, Bool-cases, inl, inr,
}
use mathlib.Core.Path.{subst}
use mathlib.Core.Option.{some-injective}
use storetheindex.Prelude.Dict
use storetheindex.Prelude.Dict.{Dict, get-put}
use storetheindex.PeerPolicy.{PeerId}
use storetheindex.Registry.State.{Cid, Text, AddrInfo}
use storetheindex.Registry.Discovery.Laws.{count, count-append}
use storetheindex.Ingest.State.{Advertisement, AdInfo, Assignment}
use storetheindex.Ingest.Staging.{
  Staging, without, stage, stage_all, group, run_ingest_step, receive, begin,
  handle_pending_announce, release, announce,
}

-- What the ingester loop, the workers and the callers of Announce do, in any order.
pub data Step : Staging → Staging → Type 0 where
  stages :
      {s : Staging} (already : Cid → Bool) (load_ad : Cid → Option Advertisement)
      (decode : Text → Option PeerId) (order : Dict (List AdInfo) → Dict (List AdInfo))
      (publisher : PeerId) (cids : List Cid)
      → Step s (run_ingest_step already load_ad decode order s publisher cids)
  receives : {s : Staging} → Step s (receive s)
  begins : {s t : Staging} (p : PeerId) (a : Option Assignment) → begin s p ≡ some (t, a) → Step s t
  handles : {s : Staging} (p : PeerId) → Step s (handle_pending_announce s p).0
  releases : {s : Staging} (p : PeerId) → Step s (release s p)
  announces : {s : Staging} (c : Cid) (addr_info : AddrInfo) → Step s (announce s c addr_info).0

pub data Reach (s : Staging) : Staging → Type 0 where
  here : Reach s s
  next : {t u : Staging} → Reach s t → Step t u → Reach s u

abbrev pub new_staging : Staging
new_staging = record { staged = []; to_workers = []; received = []; processing = []; pending = [] }

-- 1 where an assignment is staged
abbrev pub staged_count : Option (Option Assignment) → ℕ
staged_count (some (some a)) = 1
staged_count _ = 0

-- A provider has as many workers scheduled as assignments staged, and is processed once at most.
abbrev pub Scheduled : Staging → Type 0
Scheduled s =
    (p : PeerId)
    → (count p s.to_workers + count p s.received ≡ staged_count (Dict.get s.staged p))
      × (count p s.processing ≤ 1)

count-without :
    (p q : PeerId) (l : List PeerId)
    → elem p l ≡ true
    → count q l ≡ count q (without p l) + (if p == q then 1 else 0)
count-without p q [] h = cc
count-without p q (x ∷ l) h = ground (arith, count-without p q l)

count-elem : (p : PeerId) (l : List PeerId) → elem p l ≡ false → count p l ≡ 0
count-elem p [] h = refl
count-elem p (x ∷ l) h = ground (arith, count-elem p l)

without-count : (p q : PeerId) (l : List PeerId) → count q (without p l) ≤ count q l
without-count p q [] = omega arith
without-count p q (x ∷ l) = ground (arith, without-count p q l)

stage-Scheduled :
    (s : Staging) (publisher p : PeerId) (infos : List AdInfo)
    → Scheduled s
    → Scheduled (stage s publisher p infos)
unfolding stage
stage-Scheduled s publisher p infos h q = ground (
  arith,
  h p,
  h q,
  get-put s.staged p q (some (record { ad_infos = infos; publisher = publisher })),
  count-append q s.to_workers (p ∷ []),
)

stage_all-Scheduled :
    (groups : Dict (List AdInfo)) (s : Staging) (publisher : PeerId)
    → Scheduled s
    → Scheduled (stage_all s publisher groups)
unfolding stage_all
stage_all-Scheduled [] s publisher h = h
stage_all-Scheduled ((p, infos) ∷ groups) s publisher h =
    stage_all-Scheduled groups _ publisher (stage-Scheduled s publisher p infos h)

receive-Scheduled : (s : Staging) → Scheduled s → Scheduled (receive s)
unfolding receive
receive-Scheduled s h q = ground (arith, h q)

staged_count_le : (o : Option (Option Assignment)) → staged_count o ≤ 1
staged_count_le none = omega arith
staged_count_le (some none) = omega arith
staged_count_le (some (some a)) = omega arith

taken : Staging → PeerId → Staging
taken s p = record s {
  staged = Dict.put s.staged p none;
  received = without p s.received;
  processing = p ∷ s.processing;
}

taken-own :
    (s : Staging) (p : PeerId)
    → elem p s.received ≡ true
    → elem p s.processing ≡ false
    → Scheduled s
    → (count p (taken s p).to_workers + count p (taken s p).received
        ≡ staged_count (Dict.get (taken s p).staged p))
      × (count p (taken s p).processing ≤ 1)
unfolding taken
taken-own s p waits idle h =
    let unseen = count-elem p s.processing idle in
    let fewer = count-without p p s.received waits in
    ground (arith, h p, get-put s.staged p p none, staged_count_le (Dict.get s.staged p))

taken-Scheduled :
    (s : Staging) (p : PeerId)
    → elem p s.received ≡ true
    → elem p s.processing ≡ false
    → Scheduled s
    → Scheduled (taken s p)
unfolding taken
taken-Scheduled s p waits idle h q =
    let fewer = count-without p q s.received waits in
    elim (Bool-cases (p == q)) [
      | inl same ↦
          subst
            (λ x.
              (count x (taken s p).to_workers + count x (taken s p).received
                ≡ staged_count (Dict.get (taken s p).staged x))
              × (count x (taken s p).processing ≤ 1))
            ((==_iff p q).0 same) (taken-own s p waits idle h)
      | inr differ ↦ ground (arith, h q, get-put s.staged p q none)
    ]

begin-Scheduled :
    (s t : Staging) (p : PeerId) (a : Option Assignment)
    → begin s p ≡ some (t, a)
    → Scheduled s
    → Scheduled t
unfolding begin taken
begin-Scheduled s t p a e h q = elim (Bool-cases (elem p s.received)) [
  | inr absent ↦ absurd (cc)
  | inl waits ↦ elim (Bool-cases (elem p s.processing)) [
    | inl busy ↦ absurd (cc)
    | inr idle ↦
        let x : Option Assignment = elim (Dict.get s.staged p) [ none ↦ none | some a ↦ a ] in
        let e' : begin s p ≡ some (taken s p, x) = rw (begin, waits, idle) refl in
        subst Scheduled
          (ap (λ (y : Staging × Option Assignment). y.0) (some-injective _ _ (sym e' ∙ e)))
          (taken-Scheduled s p waits idle h) q
  ]
]

locked : (p q : PeerId) (l : List PeerId) → elem p l ≡ false → count q l ≤ 1 → count q (p ∷ l) ≤ 1
locked p q l idle h = elim (Bool-cases (p == q)) [
  | inl same ↦
      let absent = count-elem p l idle in
      subst (λ x. count x (p ∷ l) ≤ 1) ((==_iff p q).0 same) (ground arith)
  | inr differ ↦ ground arith
]

announce-Scheduled :
    (s : Staging) (c : Cid) (addr_info : AddrInfo)
    → Scheduled s
    → Scheduled (announce s c addr_info).0
unfolding announce
announce-Scheduled s c addr_info h q = elim (Bool-cases (elem addr_info.id s.processing)) [
  | inl busy ↦ rw (busy, announce) (h q)
  | inr idle ↦ rw (idle, announce) ((h q).0, locked addr_info.id q s.processing idle (h q).1)
]

Step-Scheduled : {s t : Staging} → Step s t → Scheduled s → Scheduled t
unfolding run_ingest_step handle_pending_announce release
Step-Scheduled (stages already load_ad decode order publisher cids) h =
    stage_all-Scheduled (order (group already load_ad decode [] cids)) _ publisher h
Step-Scheduled receives h = receive-Scheduled _ h
Step-Scheduled (begins p a e) h = begin-Scheduled _ _ p a e h
Step-Scheduled (handles p) h = h
Step-Scheduled {s = s} (releases p) h =
    λ q. ((h q).0, ground (arith, (h q).1, without-count p q s.processing))
Step-Scheduled (announces c addr_info) h = announce-Scheduled _ c addr_info h

reached : (s : Staging) → Reach new_staging s → Scheduled s
unfolding Dict.get
reached s here = λ p. (refl, omega arith)
reached s (next before step) = Step-Scheduled step (reached _ before)

-- However the ingester loop, the workers and announcements take turns, from the start on, a provider
-- with a staged assignment has exactly one worker scheduled that will take it, a provider without has
-- none, and a provider is processed once at a time.
pub Reach-Scheduled :
    (s : Staging) (p : PeerId)
    → Reach new_staging s
    → (count p s.to_workers + count p s.received ≡ staged_count (Dict.get s.staged p))
      × (count p s.processing ≤ 1)
Reach-Scheduled s p h = reached s h p

-- An announcement that comes while its provider's channel is full, after the pending ones were
-- handled, is still pending when the channel is free again, and no worker is scheduled for it.
pub announce_waits :
    (s : Staging) (c : Cid) (addr_info : AddrInfo)
    → elem addr_info.id s.processing ≡ true
    → let t = (announce (handle_pending_announce s addr_info.id).0 c addr_info).0 in
      let u = release t addr_info.id in
      (Dict.get u.pending addr_info.id ≡ some (record { addr_info = addr_info; next_cid = c }))
      × (u.to_workers ≡ s.to_workers)
      × (u.received ≡ s.received)
      × (u.staged ≡ s.staged)
unfolding announce handle_pending_announce release
announce_waits s c addr_info h =
    rw (h, announce)
      (get-put _ addr_info.id addr_info.id _ ∙ rw (==_refl addr_info.id) refl, refl, refl, refl)
