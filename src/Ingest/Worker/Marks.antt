-- ===== src/Ingest/Worker/Marks.antt =====
-- Which advertisements are marked as processed after a run of the worker.
use mathlib.Core.List.{reverse, reverse_aux, reverse-reverse, reverse-append}
use storetheindex.Prelude.{
  ◌≡◌, refl, sym, ap, ◌∙◌, Bool, true, false, ◌||◌, List, [], ◌∷◌, ◌++◌, map, elem, ◌==◌,
}
use storetheindex.PeerPolicy.{PeerId}
use storetheindex.Registry.State.{Cid}
use storetheindex.Ingest.State.{Advertisement, AdInfo, AdProcessedEvent}
use storetheindex.Ingest.Worker.{
  Calls, Status, finished, bailed, panicked, Next, goes_on, bails, dies, next_after, event,
  complete, ingest_worker_logic,
}
use storetheindex.Ingest.Worker.Skips.{with_skips, unprocessed, work, worker_lem}

-- The marks of a datastore without errors: marking adds the advertisement, and the other operations
-- change no mark.
pub record Marking {S : Type 0} (calls : Calls S) : Type 0 where
  pub mark_adds :
      (s : S) (publisher : PeerId) (ad c : Cid)
      → calls.already_processed (calls.mark_processed s publisher ad) c
        ≡ (ad == c) || calls.already_processed s c
  pub notify_keeps :
      (s : S) (e : AdProcessedEvent) (c : Cid)
      → calls.already_processed (calls.notify s e) c ≡ calls.already_processed s c
  pub ingest_keeps :
      (s : S) (publisher : PeerId) (c : Cid) (ad : Advertisement) (c' : Cid)
      → calls.already_processed (calls.ingest_ad s publisher c ad).0 c'
        ≡ calls.already_processed s c'

abbrev pub cids : List AdInfo → List Cid
cids = map (λ ai. ai.cid)

or_swap : (a b c : Bool) → a || (b || c) ≡ (b || a) || c
or_swap false false c = refl
or_swap false true c = refl
or_swap true false c = refl
or_swap true true c = refl

module _ {S : Type 0} (calls : Calls S) (marking : Marking calls) (publisher : PeerId)
    (head : Cid) where
  marks-complete :
      (s : S) (ad c : Cid)
      → calls.already_processed (complete calls publisher head s ad) c
        ≡ (ad == c) || calls.already_processed s c
  unfolding complete
  marks-complete s ad c = marking.notify_keeps _ _ c ∙ marking.mark_adds s publisher ad c

  -- `all` was completed up to `left`, and this took `s` to `t`.
  abbrev pub Completed : List AdInfo → S → S → List AdInfo → List AdInfo → Type 0
  Completed all s t completed left =
      (all ≡ completed ++ left)
      × ((c : Cid)
          → calls.already_processed t c ≡ elem c (cids completed) || calls.already_processed s c)

  abbrev pub Progress : List AdInfo → S → S × Status → Type 0
  Progress all s t =
      (completed : List AdInfo) × (left : List AdInfo) × Completed all s t.0 completed left
      × (t.1 ≡ finished → left ≡ [])

  Progress-cons :
      (ai : AdInfo) (all : List AdInfo) (s s' : S) (t : S × Status)
      → ((c : Cid) → calls.already_processed s' c ≡ calls.already_processed s c)
      → Progress all (complete calls publisher head s' ai.cid) t
      → Progress (ai ∷ all) s t
  Progress-cons ai all s s' t keeps (completed, left, so_far, all_done) = (
    ai ∷ completed,
    left,
    (
      ap (λ l. ai ∷ l) so_far.0,
      λ c.
          rw (so_far.1 c, marks-complete s' ai.cid c, keeps c)
            (or_swap (elem c (cids completed)) (ai.cid == c) _),
    ),
    all_done,
  )

  Progress-none :
      (all : List AdInfo) (s s' : S) (status : Status)
      → ((c : Cid) → calls.already_processed s' c ≡ calls.already_processed s c)
      → (status ≡ finished → all ≡ [])
      → Progress all s (s', status)
  Progress-none all s s' status keeps unfinished = ([], all, (refl, keeps), unfinished)

  work-Progress :
      (r : List (AdInfo × Bool)) (s : S)
      → Progress (map (λ a. a.0) r) s (work calls publisher head s r)
  work-Progress [] s = ([], [], (refl, λ c. refl), λ h. refl)
  work-Progress ((ai, true) ∷ r) s =
      Progress-cons ai (map (λ a. a.0) r) s s _ (λ c. refl)
        (work-Progress r (complete calls publisher head s ai.cid))
  work-Progress ((ai, false) ∷ r) s =
      after (next_after (calls.ingest_ad s publisher ai.cid ai.ad).1) (work-Progress r _)
    where
      s' : S
      s' = (calls.ingest_ad s publisher ai.cid ai.ad).0

      kept : (c : Cid) → calls.already_processed s' c ≡ calls.already_processed s c
      kept = marking.ingest_keeps s publisher ai.cid ai.ad

      after :
          (n : Next)
          → Progress
              (map (λ a. a.0) r)
              (complete calls publisher head s' ai.cid)
              (work calls publisher head (complete calls publisher head s' ai.cid) r)
          → Progress (ai ∷ map (λ a. a.0) r) s (elim n [
            | goes_on ↦ work calls publisher head (complete calls publisher head s' ai.cid) r
            | bails ↦ (calls.notify s' (event calls publisher head ai.cid true), bailed)
            | dies ↦ (s', panicked)
          ])
      after goes_on rest = Progress-cons ai _ s s' _ kept rest
      after bails rest =
          Progress-none _ s _ bailed (λ c. marking.notify_keeps s' _ c ∙ kept c) (λ h. cc)
      after dies rest = Progress-none _ s s' panicked kept (λ h. cc)

abbrev firsts : List (AdInfo × Bool) → List AdInfo
firsts = map (λ a. a.0)

firsts-reverse_aux :
    (l r : List (AdInfo × Bool)) → firsts (reverse_aux l r) ≡ reverse_aux (firsts l) (firsts r)
firsts-reverse_aux [] r = refl
firsts-reverse_aux (a ∷ l) r = firsts-reverse_aux l (a ∷ r)

firsts-with_skips : (newer l : List AdInfo) → firsts (with_skips newer l) ≡ l
firsts-with_skips newer [] = refl
firsts-with_skips newer (ai ∷ l) = ap (λ t. ai ∷ t) (firsts-with_skips (ai ∷ newer) l)

module _ {S : Type 0} (calls : Calls S) (marking : Marking calls) where
  -- Where marking works, a run of the worker marks exactly an oldest part of the unprocessed
  -- advertisements of its assignment, whatever fails, and all of them if it finishes; `completed` lists
  -- them in the order they are marked, and `left` those that stay. The assignment has an advertisement.
  pub worker-marks :
      (s : S) (publisher : PeerId) (head : AdInfo) (older : List AdInfo)
      → let infos = head ∷ older in
        let t = ingest_worker_logic calls s (record { ad_infos = infos; publisher = publisher }) in
        (left : List AdInfo) × (completed : List AdInfo) × (unprocessed calls s infos
          ≡ left ++ reverse completed)
        × ((c : Cid)
            → calls.already_processed t.0 c
              ≡ elem c (cids completed) || calls.already_processed s c)
        × (t.1 ≡ finished → left ≡ [])
  worker-marks s publisher head older =
      let all = with_skips [] (unprocessed calls s (head ∷ older)) in
      let (completed, left, so_far, all_done) =
        work-Progress calls marking publisher head.cid (reverse all) s in
      rw (worker_lem calls s publisher head older) (
        reverse left,
        completed,
        parts (unprocessed calls s (head ∷ older)) completed left so_far.0,
        so_far.1,
        λ h. ap reverse (all_done h),
      )
    where
      parts :
          (l completed left : List AdInfo)
          → map (λ a. a.0) (reverse (with_skips [] l)) ≡ completed ++ left
          → l ≡ reverse left ++ reverse completed
      parts l completed left e =
          sym (reverse-reverse l)
          ∙ ap reverse (
              sym (firsts-reverse_aux (with_skips [] l) [] ∙ ap reverse (firsts-with_skips [] l))
              ∙ e)
          ∙ reverse-append completed left
