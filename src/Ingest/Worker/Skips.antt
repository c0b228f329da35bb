-- ===== src/Ingest/Worker/Skips.antt =====
-- The worker's stack of skips, against a plain account of what is skipped: an advertisement that a
-- newer one of the chain removes.
use mathlib.Core.List.{reverse, reverse_aux}
use storetheindex.Prelude.{
  ℕ, suc, ◌+◌, ◌≤◌, ◌≡◌, refl, ap, ◌∙◌, Bool, true, false, ◌&&◌, ◌||◌, Option, none, some, List, [],
  ◌∷◌, length, elem, ◌==◌, ==_iff, if◌then◌else◌, arith, Bool-cases, inl, inr,
}
use storetheindex.PeerPolicy.{PeerId}
use storetheindex.Registry.State.{Cid}
use storetheindex.Ingest.State.{AdInfo, Outcome}
use storetheindex.Ingest.Worker.{
  Calls, Status, finished, bailed, panicked, Next, goes_on, bails, dies, next_after, get_ad,
  is_skip, Scan, scan_ad, scan, event, complete, process, ingest_worker_logic,
}

-- Whether one of these advertisements, the newer ones of a chain, removes the context.
abbrev pub removes : List AdInfo → ℕ → Bool
removes [] context = false
removes (ai ∷ newer) context = (ai.ad.is_rm && ai.ad.context_id == context) || removes newer context

-- Each advertisement, the newest first, with whether one of those before it removes its context.
abbrev pub with_skips : List AdInfo → List AdInfo → List (AdInfo × Bool)
with_skips newer [] = []
with_skips newer (ai ∷ older) = (ai, removes newer ai.ad.context_id) ∷ with_skips (ai ∷ newer) older

module _ {S : Type 0} (calls : Calls S) where
  -- The advertisements before the first processed one.
  abbrev pub unprocessed : S → List AdInfo → List AdInfo
  unprocessed s [] = []
  unprocessed s (ai ∷ older) =
      let rest = unprocessed s older in if calls.already_processed s ai.cid then [] else ai ∷ rest

  module _ (publisher : PeerId) (head : Cid) where
    -- What is to be done, the oldest first: complete what is skipped without a look at it, ingest and
    -- complete the rest, and stop where an advertisement cannot be ingested.
    abbrev pub work : S → List (AdInfo × Bool) → S × Status
    work s [] = (s, finished)
    work s ((ai, true) ∷ rest) = work (complete calls publisher head s ai.cid) rest
    work s ((ai, false) ∷ rest) =
        let (s', outcome) = calls.ingest_ad s publisher ai.cid ai.ad in
        elim (next_after outcome) [
          | goes_on ↦ work (complete calls publisher head s' ai.cid) rest
          | bails ↦ (calls.notify s' (event calls publisher head ai.cid true), bailed)
          | dies ↦ (s', panicked)
        ]

-- The stack and its top entry that belong to some scanned advertisements, the oldest first.
abbrev stack : List (AdInfo × Bool) → List (Option ℕ) × Option ℕ
stack [] = ([], none)
stack ((ai, true) ∷ rest) = ((stack rest).1 ∷ (stack rest).0, some (length rest))
stack ((ai, false) ∷ rest) = stack rest

-- The scanned advertisements stand at their places in the assignment.
abbrev Indexed : List AdInfo → List (AdInfo × Bool) → Type 0
Indexed infos [] = Unit {0}
Indexed infos ((ai, b) ∷ rest) = (get_ad infos (length rest) ≡ some ai) × Indexed infos rest

skip_below : (i : ℕ) (r : List (AdInfo × Bool)) → length r ≤ i → is_skip i (stack r).1 ≡ false
skip_below i [] h = refl
skip_below i ((ai, true) ∷ r) h = ground arith
skip_below i ((ai, false) ∷ r) h = skip_below i r (omega arith)

module _ {S : Type 0} (calls : Calls S) (publisher : PeerId) (head : Cid)
    (infos : List AdInfo) where
  process-work :
      (r : List (AdInfo × Bool)) (s : S)
      → Indexed infos r
      → process calls publisher head infos (length r) s (stack r).0 (stack r).1
        ≡ work calls publisher head s r
  unfolding process
  process-work [] s h = refl
  process-work ((ai, true) ∷ r) s h =
      rw (h.0, process)
        (rw ((==_iff (length r) (length r)).1 refl)
          (process-work r (complete calls publisher head s ai.cid) h.1))
  process-work ((ai, false) ∷ r) s h =
      rw (h.0, process)
        (rw (skip_below (length r) r (omega arith)) (
          ap (next (next_after (result.1)))
            (process-work r (complete calls publisher head (result.0) ai.cid) h.1)))
    where
      result : S × Outcome
      result = calls.ingest_ad s publisher ai.cid ai.ad

      next : Next → S × Status → S × Status
      next n t = elim n [
        | goes_on ↦ t
        | bails ↦ (calls.notify (result.0) (event calls publisher head ai.cid true), bailed)
        | dies ↦ (result.0, panicked)
      ]

-- A scan has noted which contexts the newer advertisements remove, and the stack of those scanned.
abbrev Notes : List AdInfo → List (AdInfo × Bool) → Scan → Type 0
Notes newer r c =
    ((x : ℕ) → elem x c.rm_ctx_id ≡ removes newer x)
    × (c.skips ≡ (stack r).0)
    × (c.skip ≡ (stack r).1)

scan_ad-stack :
    (b : Bool) (c : Scan) (ai : AdInfo) (r : List (AdInfo × Bool))
    → elem ai.ad.context_id c.rm_ctx_id ≡ b
    → c.skips ≡ (stack r).0
    → c.skip ≡ (stack r).1
    → ((scan_ad c (length r) ai.ad).skips ≡ (stack ((ai, b) ∷ r)).0)
      × ((scan_ad c (length r) ai.ad).skip ≡ (stack ((ai, b) ∷ r)).1)
unfolding scan_ad
scan_ad-stack true c ai r e h k = rw e (cc, cc)
scan_ad-stack false c ai r e h k = elim (Bool-cases (ai.ad.is_rm)) [
  | inl e' ↦ rw (e, e') (h, k)
  | inr e' ↦ rw (e, e') (h, k)
]

scan_ad-Notes :
    (c : Scan) (ai : AdInfo) (newer : List AdInfo) (r : List (AdInfo × Bool))
    → Notes newer r c
    → Notes (ai ∷ newer) ((ai, removes newer ai.ad.context_id) ∷ r) (scan_ad c (length r) ai.ad)
unfolding scan_ad
scan_ad-Notes c ai newer r h =
    let (skips, skip) =
      scan_ad-stack (removes newer ai.ad.context_id) c ai r (h.0 ai.ad.context_id) h.1 h.2 in
    ((λ x. let at_x = h.0 x in let at_ai = h.0 ai.ad.context_id in grind arith), skips, skip)

module _ {S : Type 0} (calls : Calls S) (s : S) where
  scan-stack :
      (rest newer : List AdInfo) (r : List (AdInfo × Bool)) (c : Scan)
      → Notes newer r c
      → let r' = reverse_aux (with_skips newer (unprocessed calls s rest)) r in
        let found = scan calls s rest (length r) c in
        (found.0 ≡ length r') × (found.1.skips ≡ (stack r').0) × (found.1.skip ≡ (stack r').1)
  unfolding scan
  scan-stack [] newer r c h = (refl, h.1, h.2)
  scan-stack (ai ∷ rest) newer r c h = elim (Bool-cases (calls.already_processed s ai.cid)) [
    | inl e ↦ rw (e, scan) (refl, h.1, h.2)
    | inr e ↦ rw (e, scan) (scan-stack rest (ai ∷ newer) _ _ (scan_ad-Notes c ai newer r h))
  ]

  unprocessed-Indexed :
      (infos rest newer : List AdInfo) (r : List (AdInfo × Bool))
      → ((j : ℕ) → get_ad infos (length r + j) ≡ get_ad rest j)
      → Indexed infos r
      → Indexed infos (reverse_aux (with_skips newer (unprocessed calls s rest)) r)
  unprocessed-Indexed infos [] newer r h k = k
  unprocessed-Indexed infos (ai ∷ rest) newer r h k =
      elim (Bool-cases (calls.already_processed s ai.cid)) [
        | inl e ↦ rw e k
        | inr e ↦ rw e (
            unprocessed-Indexed infos rest (ai ∷ newer) _
              (λ j.
                let e : suc (length r) + j ≡ length r + suc j = omega arith in
                ap (get_ad infos) e ∙ h (suc j))
              (let e : length r ≡ length r + 0 = omega arith in ap (get_ad infos) e ∙ h 0, k))
      ]

module _ {S : Type 0} (calls : Calls S) where
  -- The worker does what is to be done for the unprocessed advertisements of its assignment, the
  -- oldest first: it completes those that a newer one of them removes, and ingests the others. The
  -- assignment has an advertisement.
  pub worker_lem :
      (s : S) (publisher : PeerId) (head : AdInfo) (older : List AdInfo)
      → let infos = head ∷ older in
        ingest_worker_logic calls s (record { ad_infos = infos; publisher = publisher })
        ≡ work calls publisher head.cid s (reverse (with_skips [] (unprocessed calls s infos)))
  unfolding ingest_worker_logic
  worker_lem s publisher head older =
      let infos = head ∷ older in
      let (n, skips, skip) =
        scan-stack calls s infos [] [] (record { rm_ctx_id = []; skips = []; skip = none })
          ((λ x. refl), refl, refl) in
      rw (n, skips, skip)
        (process-work calls publisher head.cid infos _ s (
          unprocessed-Indexed calls s infos infos [] []
            (λ j. let e : 0 + j ≡ j = omega arith in ap (get_ad infos) e) tt))
