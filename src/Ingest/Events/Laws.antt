-- ===== src/Ingest/Events/Laws.antt =====
-- Who is told of the events: registering adds one channel, and cancelling removes it.
use storetheindex.Prelude.{
  ℕ, ◌+◌, ◌≡◌, refl, sym, true, false, ◌&&◌, none, some, List, [], ◌∷◌, ◌++◌, ◌==◌, ==_iff, elem,
  length, arith, inl, inr, Bool-cases, Option-cases, if◌then◌else◌,
}
use storetheindex.Prelude.Dict
use storetheindex.Prelude.Dict.{Dict, IsDict, get-put, get-remove}
use storetheindex.PeerPolicy.{PeerId}
use storetheindex.Registry.Discovery.Laws.{count, count-append}
use storetheindex.Ingest.Events.{
  Chans, receivers, on_ad_processed, last_from, but_last, swap_out, cancel,
}

count-but_last :
    (c x : ℕ) (xs : List ℕ) → count c (last_from x xs ∷ but_last x xs) ≡ count c (x ∷ xs)
count-but_last c x [] = refl
count-but_last c x (y ∷ ys) = ground (arith, count-but_last c y ys)

count-swap_out :
    (c ch : ℕ) (l : List ℕ)
    → elem ch l ≡ true
    → count c (swap_out ch l) + (if ch == c then 1 else 0) ≡ count c l
unfolding swap_out
count-swap_out c ch [] h = ground arith
count-swap_out c ch (x ∷ []) h = ground arith
count-swap_out c ch (x ∷ y ∷ ys) h = elim (Bool-cases (x == ch)) [
  | inl own ↦
      let same = (==_iff x ch).0 own in
      rw (own, swap_out) (rw (count-but_last c y ys, same) (ground arith))
  | inr other ↦
      let later = count-swap_out c ch (y ∷ ys) (rw other at h) in
      rw (other, swap_out) (ground (arith, later))
]

one_entry :
    (m : Dict (List ℕ)) (p q : PeerId) (chans : List ℕ)
    → length m ≡ 1
    → Dict.get m p ≡ some chans
    → (p == q) ≡ false
    → Dict.get m q ≡ none
unfolding Dict.get
one_entry [] p q chans one e ne = ground arith
one_entry ((k, v) ∷ []) p q chans one e ne = ground arith
one_entry ((k, v) ∷ x ∷ rest) p q chans one e ne = absurd (omega arith)

one_channel :
    (c ch : ℕ) (chans : List ℕ)
    → elem ch chans ≡ true
    → length chans ≡ 1
    → 0 + (if ch == c then 1 else 0) ≡ count c chans
one_channel c ch [] has one = absurd (cc)
one_channel c ch (x ∷ []) has one = ground arith
one_channel c ch (x ∷ y ∷ rest) has one = absurd (omega arith)

module _ (m : Dict (List ℕ)) (p q : PeerId) where
  receivers-put :
      (l : List ℕ)
      → receivers (some (Dict.put m p l)) q ≡ (if p == q then l else receivers (some m) q)
  unfolding receivers
  receivers-put l = elim (Bool-cases (p == q)) [
    | inl own ↦ rw (get-put m p q l, own, receivers) refl
    | inr other ↦ rw (get-put m p q l, other, receivers) refl
  ]

  receivers-remove :
      receivers (some (Dict.remove m p)) q ≡ (if p == q then [] else receivers (some m) q)
  unfolding receivers
  receivers-remove = elim (Bool-cases (p == q)) [
    | inl own ↦ rw (get-remove m p q, own, receivers) refl
    | inr other ↦ rw (get-remove m p q, other, receivers) refl
  ]

  receivers-get : (l : List ℕ) → Dict.get m p ≡ some l → receivers (some m) p ≡ l
  unfolding receivers
  receivers-get l e = rw (e, receivers) refl

  receivers_of_equal :
      (l : List ℕ) → Dict.get m p ≡ some l → (p == q) ≡ true → receivers (some m) q ≡ l
  receivers_of_equal l e own = rw (sym ((==_iff p q).0 own)) (receivers-get l e)

  -- Without its only entry, the map is nil.
  receivers_alone :
      (l : List ℕ)
      → Dict.get m p ≡ some l
      → (length m == 1) ≡ true
      → receivers none q ≡ (if p == q then [] else receivers (some m) q)
  unfolding receivers
  receivers_alone l e alone = elim (Bool-cases (p == q)) [
    | inl own ↦ rw own refl
    | inr other ↦ rw (other, one_entry m p q l ((==_iff _ _).0 alone) e other, receivers) refl
  ]

  receivers-none : Dict.get m p ≡ none → receivers (some m) p ≡ []
  unfolding receivers
  receivers-none e = rw (e, receivers) refl

-- The count after a publisher's channels become `rest`, which is short of one channel.
settle :
    (p q c ch : ℕ) (old rest chans : List ℕ)
    → ((p == q) ≡ true → old ≡ chans)
    → elem ch chans ≡ true
    → count c rest + (if ch == c then 1 else 0) ≡ count c chans
    → count c (if p == q then rest else old)
        + (if (p == q) && (ch == c) && elem ch chans then 1 else 0)
      ≡ count c old
settle p q c ch old rest chans same has short = elim (Bool-cases (p == q)) [
  | inl own ↦ rw (own, has, same own) (ground (arith, short))
  | inr other ↦ rw other (omega arith)
]

-- A registration adds its channel to the receivers of its publisher, and nothing else.
pub count-on_ad_processed :
    (s : Chans) (p q : PeerId) (ch c : ℕ)
    → count c (receivers (on_ad_processed s p ch) q)
      ≡ count c (receivers s q) + (if (p == q) && (ch == c) then 1 else 0)
unfolding on_ad_processed
count-on_ad_processed none p q ch c = unfold receivers Dict.put Dict.get in ground arith
count-on_ad_processed (some m) p q ch c =
    rw (receivers-put m p q (receivers (some m) p ++ (ch ∷ [])), on_ad_processed)
      (elim (Bool-cases (p == q)) [
        | inl own ↦ rw own (
            rw ((==_iff p q).0 own)
              (ground (arith, count-append c (receivers (some m) q) (ch ∷ []))))
        | inr other ↦ rw other (omega arith)
      ])

-- Cancelling a registration takes its channel from the receivers of its publisher, once, where it is
-- among them; every other receiver of every publisher stays.
pub count-cancel :
    (s : Chans) (p q : PeerId) (ch c : ℕ)
    → count c (receivers (cancel s p ch).0 q)
        + (if (p == q) && (ch == c) && elem ch (receivers s p) then 1 else 0)
      ≡ count c (receivers s q)
unfolding cancel
count-cancel none p q ch c = unfold receivers in ground arith
count-cancel (some m) p q ch c = elim (Option-cases (Dict.get m p)) [
  | inl e ↦ rw (e, cancel) (rw (receivers-none m p q e) (ground arith))
  | inr (chans, e) ↦ elim (Bool-cases (elem ch chans)) [
    | inr absent ↦ rw (e, cancel) (rw (absent, receivers-get m p q chans e) (ground arith))
    | inl has ↦ elim (Bool-cases (length chans == 1)) [
      | inl one ↦ elim (Bool-cases (length m == 1)) [
        | inl alone ↦
            rw (e, cancel)
              (rw
                (has, one, alone, receivers-get m p q chans e, receivers_alone m p q chans e alone)
                ((settle p q c ch (receivers (some m) q) [] chans (receivers_of_equal m p q chans e)
                  has (one_channel c ch chans has ((==_iff _ _).0 one)))))
        | inr more ↦
            rw (e, cancel)
              (rw (has, one, more, receivers-get m p q chans e, receivers-remove m p q)
                ((settle p q c ch (receivers (some m) q) [] chans (receivers_of_equal m p q chans e)
                  has (one_channel c ch chans has ((==_iff _ _).0 one)))))
      ]
      | inr several ↦
          rw (e, cancel)
            (rw (has, several, receivers-get m p q chans e, receivers-put m p q (swap_out ch chans))
              ((settle p q c ch (receivers (some m) q) (swap_out ch chans) chans
                (receivers_of_equal m p q chans e) has (count-swap_out c ch chans has))))
    ]
  ]
]
