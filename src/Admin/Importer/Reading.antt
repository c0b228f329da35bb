-- ===== src/Admin/Importer/Reading.antt =====
-- What the two readers of internal/importer read.
use storetheindex.Prelude.{
  ℕ, suc, ◌+◌, ◌≡◌, ◌≢◌, refl, ap, Bool, true, false, ◌&&◌, Option, none, some, List, [], ◌∷◌,
  length, arith, inl, inr, Bool-cases, Option-cases,
}
use storetheindex.Registry.State.{Cid, Text}
use storetheindex.Ingest.Batches.{Multihash}
use storetheindex.Admin.Importer.{
  Formats, cancelled, at_end, line_cid, read_lines, entry_cid, is_other, scan_lines,
}

-- The multihashes of the lines that have a CID.
abbrev pub hashes : Formats → (Text → Option Cid) → List Text → List Multihash
hashes f cid [] = []
hashes f cid (line ∷ lines) =
    let rest = hashes f cid lines in elim (cid line) [ none ↦ rest | some c ↦ f.hash c ∷ rest ]

module _ (f : Formats) (stops : ℕ → Bool) where
  module _ (failed : Bool) (n : ℕ) (line : Text) (lines : List Text) where
    read_skip :
        line_cid f stops line ≡ none
        → read_lines f stops failed n (line ∷ lines) ≡ read_lines f stops failed n lines
    unfolding read_lines
    read_skip e = rw (e, read_lines) refl

    read_stop :
        (c : Cid)
        → line_cid f stops line ≡ some c
        → stops n ≡ true
        → read_lines f stops failed n (line ∷ lines) ≡ ([], cancelled ∷ [])
    unfolding read_lines
    read_stop c e done = rw (e, read_lines) (rw done refl)

    read_go :
        (c : Cid)
        → line_cid f stops line ≡ some c
        → stops n ≡ false
        → read_lines f stops failed n (line ∷ lines) ≡ (
          f.hash c ∷ (read_lines f stops failed (suc n) lines).0,
          (read_lines f stops failed (suc n) lines).1,
        )
    unfolding read_lines
    read_go c e on = rw (e, read_lines) (rw on refl)

  pub read_lines_ok :
      (failed : Bool) (lines : List Text) (n : ℕ)
      → (read_lines f stops failed n lines).1 ≡ []
      → ((read_lines f stops failed n lines).0 ≡ hashes f (line_cid f stops) lines)
        × (n + length (hashes f (line_cid f stops) lines) ≢ 0)
  read_lines_ok failed [] n h = unfold read_lines in (refl, λ z. ground arith)
  read_lines_ok failed (line ∷ lines) n h = elim (Option-cases (line_cid f stops line)) [
    | inl e ↦
        rw (read_skip failed n line lines e) (
          rw (e, hashes) (read_lines_ok failed lines n (rw (read_skip failed n line lines e) at h)))
    | inr (c, e) ↦ elim (Bool-cases (stops n)) [
      | inl done ↦ absurd (cc (rw (read_stop failed n line lines c e done) at h))
      | inr on ↦
          let (same, more) =
            read_lines_ok failed lines (suc n) (rw (read_go failed n line lines c e on) at h) in
          rw (read_go failed n line lines c e on)
            (rw (e, hashes) (ap (λ l. f.hash c ∷ l) same, λ z. more (omega arith)))
    ]
  ]

  module _ (checks : ℕ → Bool) where
    module _ (failed : Bool) (n : ℕ) (line : Text) (lines : List Text) where
      scan_skip :
          entry_cid f stops line ≡ none
          → (is_other f stops checks line && checks n) ≡ false
          → scan_lines f stops checks failed n (line ∷ lines)
            ≡ scan_lines f stops checks failed n lines
      unfolding scan_lines
      scan_skip e on = rw (e, scan_lines) (rw on refl)

      scan_cancel :
          entry_cid f stops line ≡ none
          → (is_other f stops checks line && checks n) ≡ true
          → scan_lines f stops checks failed n (line ∷ lines) ≡ ([], cancelled ∷ [])
      unfolding scan_lines
      scan_cancel e done = rw (e, scan_lines) (rw done refl)

      module _ (c : Cid) (e : entry_cid f stops line ≡ some c) where
        scan_stop :
            stops n ≡ true
            → scan_lines f stops checks failed n (line ∷ lines) ≡ ([], cancelled ∷ [])
        unfolding scan_lines
        scan_stop done = rw (e, scan_lines) (rw done refl)

        scan_last :
            stops n ≡ false
            → checks (suc n) ≡ true
            → scan_lines f stops checks failed n (line ∷ lines) ≡ (f.hash c ∷ [], cancelled ∷ [])
        unfolding scan_lines
        scan_last on done = rw (e, scan_lines) (rw (on, done) refl)

        scan_go :
            stops n ≡ false
            → checks (suc n) ≡ false
            → scan_lines f stops checks failed n (line ∷ lines) ≡ (
              f.hash c ∷ (scan_lines f stops checks failed (suc n) lines).0,
              (scan_lines f stops checks failed (suc n) lines).1,
            )
        unfolding scan_lines
        scan_go on on' = rw (e, scan_lines) (rw (on, on') refl)

    at_end_ok : (failed : Bool) (n : ℕ) → at_end failed n ≡ [] → n ≢ 0
    at_end_ok true n h z = ground arith
    at_end_ok false n h z = ground arith

    pub scan_lines_ok :
        (failed : Bool) (lines : List Text) (n : ℕ)
        → (scan_lines f stops checks failed n lines).1 ≡ []
        → ((scan_lines f stops checks failed n lines).0 ≡ hashes f (entry_cid f stops) lines)
          × (n + length (hashes f (entry_cid f stops) lines) ≢ 0)
    scan_lines_ok failed [] n h =
        unfold scan_lines in (refl, λ z. at_end_ok failed n h (omega arith))
    scan_lines_ok failed (line ∷ lines) n h = elim (Option-cases (entry_cid f stops line)) [
      | inl e ↦ elim (Bool-cases (is_other f stops checks line && checks n)) [
        | inl done ↦ absurd (cc (rw (scan_cancel failed n line lines e done) at h))
        | inr on ↦ rw (scan_skip failed n line lines e on) (
            rw (e, hashes)
              (scan_lines_ok failed lines n (rw (scan_skip failed n line lines e on) at h)))
      ]
      | inr (c, e) ↦ elim (Bool-cases (stops n)) [
        | inl done ↦ absurd (cc (rw (scan_stop failed n line lines c e done) at h))
        | inr on ↦ elim (Bool-cases (checks (suc n))) [
          | inl done ↦ absurd (cc (rw (scan_last failed n line lines c e on done) at h))
          | inr on' ↦
              let (same, more) =
                scan_lines_ok failed lines (suc n)
                  (rw (scan_go failed n line lines c e on on') at h) in
              rw (scan_go failed n line lines c e on on')
                (rw (e, hashes) (ap (λ l. f.hash c ∷ l) same, λ z. more (omega arith)))
        ]
      ]
    ]
