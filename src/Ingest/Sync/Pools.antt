-- ===== src/Ingest/Sync/Pools.antt =====
-- The two loops of RunWorkers, on a pool of which some workers are stuck.
use storetheindex.Prelude.{
  ℕ, zero, suc, ◌+◌, ◌-◌, ◌≤◌, ◌≡◌, refl, ◌∙◌, true, false, some, ltb, leb, arith, inl, inr, ap,
  Bool-cases, if◌then◌else◌,
}
use storetheindex.Ingest.Sync.{Pool, Ran, ended, waits, start_workers, stop_workers}

abbrev pub pool_of : ℕ → ℕ → ℕ → ℕ → Pool
pool_of size started stopped stuck = record {
  size = size;
  started = started;
  stopped = stopped;
  stuck = stuck;
}

pub same_pool :
    {a a' b b' c c' : ℕ} (k : ℕ) → a ≡ a' → b ≡ b' → c ≡ c' → pool_of a b c k ≡ pool_of a' b' c' k
same_pool k e f g = rw (e, f, g) refl

pub started :
    (fuel n a b c k : ℕ)
    → n ≤ fuel + a
    → start_workers fuel n (pool_of a b c k) ≡ some (pool_of (a + (n - a)) (b + (n - a)) c k)
unfolding start_workers
started zero n a b c k h = elim (Bool-cases (ltb a n)) [
  | inl less ↦ absurd (ground arith)
  | inr enough ↦ rw enough (ap some (same_pool k (ground arith) (ground arith) refl))
]
started (suc fuel) n a b c k h = elim (Bool-cases (ltb a n)) [
  | inl less ↦ rw less (
      started fuel n (suc a) (suc b) c k (omega arith)
      ∙ ap some (same_pool k (ground arith) (ground arith) refl))
  | inr enough ↦ rw enough (ap some (same_pool k (ground arith) (ground arith) refl))
]

-- Where the stop ends, by the wanted number, the workers that run and those that are stuck.
abbrev pub stopped_at : ℕ → ℕ → ℕ → ℕ → ℕ → Ran
stopped_at n a b c k =
    if ltb n k
    then waits (pool_of k b (c + (a - k)) k)
    else ended (pool_of (a - (a - n)) b (c + (a - n)) k)

stopped_next :
    (n a b c k : ℕ)
    → n + 1 ≤ a
    → k + 1 ≤ a
    → stopped_at n (a - 1) b (suc c) k ≡ stopped_at n a b c k
stopped_next n a b c k more free = elim (Bool-cases (ltb n k)) [
  | inl less ↦ rw less (ap waits (same_pool k refl refl (omega arith)))
  | inr enough ↦ rw enough (ap ended (same_pool k (omega arith) refl (omega arith)))
]

pub stopped :
    (fuel n a b c k : ℕ)
    → a ≤ fuel + n
    → k ≤ a
    → stop_workers fuel n (pool_of a b c k) ≡ stopped_at n a b c k
unfolding stop_workers
stopped zero n a b c k h stuck =
    let few : ltb n a ≡ false = ground arith in
    let free : ltb n k ≡ false = ground arith in
    rw (few, free) (ap ended (same_pool k (omega arith) refl (omega arith)))
stopped (suc fuel) n a b c k h stuck = elim (Bool-cases (ltb n a)) [
  | inr enough ↦
      let free : ltb n k ≡ false = ground arith in
      rw (enough, free) (ap ended (same_pool k (ground arith) refl (ground arith)))
  | inl less ↦ elim (Bool-cases (leb a k)) [
    | inl all ↦
        let hangs : ltb n k ≡ true = ground arith in
        rw (less, hangs) (rw all (ap waits (same_pool k (ground arith) refl (ground arith))))
    | inr some' ↦ rw less (
        rw some' (
          stopped fuel n (a - 1) b (suc c) k (ground arith) (ground arith)
          ∙ stopped_next n a b c k (ground arith) (ground arith)))
  ]
]
