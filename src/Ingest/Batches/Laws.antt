-- ===== src/Ingest/Batches/Laws.antt =====
-- What indexAdMultihashes stores: batches of the configured size that hold the valid multihashes in
-- order.
use mathlib.Core.List.{flatten, append_assoc}
use storetheindex.Prelude.{
  ℕ, ◌≤◌, ◌<◌, ◌≡◌, refl, sym, ap, Bool, true, false, some, List, [], ◌∷◌, ◌++◌, ◌==◌, ==_iff,
  length, length-append, filter, arith, Bool-cases, inl, inr,
}
use storetheindex.Ingest.State.{Advertisement}
use storetheindex.Ingest.Batches.{
  Multihash, Value, Core, get_ad_data, store_batch, index_loop, index_ad_multihashes,
}

-- Every batch is full but the last, which is not empty.
abbrev pub IsBatches : ℕ → List (List Multihash) → Type 0
IsBatches size [] = Unit {0}
IsBatches size (b ∷ []) = (0 < length b) × (length b ≤ size)
IsBatches size (b ∷ b' ∷ bs) = (length b ≡ size) × IsBatches size (b' ∷ bs)

-- Batches stored one after another, up to the first error.
module _ (core : Core) (value : Value) (is_rm : Bool) where
  abbrev pub store_all : core.State → List (List Multihash) → core.State × Bool
  store_all s [] = (s, false)
  store_all s (b ∷ bs) =
      let (s', failed) = store_batch core s value b is_rm in
      elim failed [ true ↦ (s', true) | false ↦ store_all s' bs ]

IsBatches-cons :
    (size : ℕ) (b : List Multihash) (bs : List (List Multihash))
    → 0 < size
    → length b ≡ size
    → IsBatches size bs
    → IsBatches size (b ∷ bs)
IsBatches-cons size b [] h e k = (omega arith, omega arith)
IsBatches-cons size b (b' ∷ bs) h e k = (e, k)

module _ (core : Core) (size : ℕ) (value : Value) (is_rm : Bool) where
  abbrev pub Splits : core.State → List Multihash → core.State × Bool → Type 0
  Splits s mhs t =
      (bs : List (List Multihash)) × (flatten bs ≡ mhs)
      × IsBatches size bs
      × (t ≡ store_all core value is_rm s bs)

  one_batch : (t : core.State × Bool) → t ≡ elim t.1 [ true ↦ (t.0, true) | false ↦ (t.0, false) ]
  one_batch (s, true) = refl
  one_batch (s, false) = refl

  Splits-cons :
      (s : core.State) (b mhs : List Multihash) (t : core.State × Bool)
      → 0 < size
      → length b ≡ size
      → Splits (store_batch core s value b is_rm).0 mhs t
      → Splits s (b ++ mhs) (elim (store_batch core s value b is_rm).1 [
        | true ↦ ((store_batch core s value b is_rm).0, true)
        | false ↦ t
      ])
  unfolding flatten
  Splits-cons s b mhs t h full (bs, all, sizes, same) = (
    b ∷ bs,
    ap (λ l. b ++ l) all,
    IsBatches-cons size b bs h full sizes,
    ap
        (λ u. elim (store_batch core s value b is_rm).1 [
          | true ↦ ((store_batch core s value b is_rm).0, true)
          | false ↦ u
        ])
        same,
  )

  pub loop-Splits :
      (mhs : List Multihash) (s : core.State) (batch : List Multihash)
      → length batch < size
      → Splits s
          (batch ++ filter core.is_multihash mhs)
          (index_loop core size value is_rm s mhs batch)
  unfolding index_loop flatten
  loop-Splits [] s [] h = ([], refl, tt, refl)
  loop-Splits [] s (x ∷ batch) h =
      let nonempty : (length (x ∷ batch) == 0) ≡ false = ground arith in
      (
        (x ∷ batch) ∷ [],
        refl,
        (omega arith, omega arith),
        rw (nonempty, index_loop) (one_batch (store_batch core s value (x ∷ batch) is_rm)),
      )
  loop-Splits (entry ∷ mhs) s batch h = elim (Bool-cases (core.is_multihash entry)) [
    | inr bad ↦ rw (bad, index_loop) (loop-Splits mhs s batch h)
    | inl good ↦ elim (Bool-cases (length (batch ++ (entry ∷ [])) == size)) [
      | inl full ↦
          let is_full = (==_iff _ _).0 full in
          rw (good, index_loop)
            (rw (full, sym (append_assoc batch (entry ∷ []) (filter core.is_multihash mhs)))
              (Splits-cons s (batch ++ (entry ∷ [])) (filter core.is_multihash mhs) _ (omega arith)
                is_full (loop-Splits mhs _ [] (omega arith))))
      | inr more ↦
          let longer = length-append batch (entry ∷ []) in
          rw (good, index_loop)
            (rw (more, sym (append_assoc batch (entry ∷ []) (filter core.is_multihash mhs)))
              (loop-Splits mhs s (batch ++ (entry ∷ [])) (ground arith)))
    ]
  ]

module _ (core : Core) where
  -- The multihashes of an advertisement are stored, or removed, in batches that hold exactly the valid
  -- ones in order, all of the batch size but the last, up to the first batch that fails; the batch size
  -- is not 0 and the provider's text decodes.
  pub index-IsBatches :
      (size : ℕ) (s : core.State) (ad : Advertisement) (mhs : List Multihash) (value : Value)
      (is_rm : Bool)
      → 0 < size
      → get_ad_data core ad ≡ some (value, is_rm)
      → (bs : List (List Multihash)) × (flatten bs ≡ filter core.is_multihash mhs)
        × IsBatches size bs
        × (index_ad_multihashes core size s ad mhs ≡ store_all core value is_rm s bs)
  unfolding index_ad_multihashes
  index-IsBatches size s ad mhs value is_rm h e =
      rw (e, index_ad_multihashes) (loop-Splits core size value is_rm mhs s [] h)
