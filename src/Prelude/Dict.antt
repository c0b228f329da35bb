-- ===== src/Prelude/Dict.antt =====
-- Go's maps as association lists. The order of the entries stands for one order of iteration; `put`
-- keeps the place of a key that is there.
use storetheindex.Prelude.Tests.{◌==◌, ==_iff, Bool-cases, if◌then◌else◌}
use Prim.Native.Nat.{ℕ}
use mathlib.Core.Bool.{Bool}
use mathlib.Core.Logic.{inl, inr}
use mathlib.Core.Path.{◌≡◌, refl}
use mathlib.Core.Option.{Option, none, some}
use mathlib.Core.List.{List, [], ◌∷◌}
use native.Mathlib.Omega.{arith}

abbrev pub Dict {ℓ} : Type ℓ → Type ℓ
Dict V = List (ℕ × V)

module _ {ℓ} {V : Type ℓ} where
  -- v, ok := m[k]
  unfoldable pub get : Dict V → ℕ → Option V
  get [] k = none
  get ((j, v) ∷ d) k = if j == k then some v else get d k

  -- m[k] = v
  unfoldable pub put : Dict V → ℕ → V → Dict V
  put [] k v = (k, v) ∷ []
  put ((j, w) ∷ d) k v = let rest = put d k v in if j == k then (k, v) ∷ d else (j, w) ∷ rest

  -- delete(m, k)
  unfoldable pub remove : Dict V → ℕ → Dict V
  remove [] k = []
  remove ((j, w) ∷ d) k = let rest = remove d k in if j == k then rest else (j, w) ∷ rest

  pub get-put :
      (d : Dict V) (k j : ℕ) (v : V) → get (put d k v) j ≡ (if k == j then some v else get d j)
  unfolding get put
  get-put [] k j v = refl
  get-put ((i, w) ∷ d) k j v = ground (arith, get-put d k j v)

  pub get-remove : (d : Dict V) (k j : ℕ) → get (remove d k) j ≡ (if k == j then none else get d j)
  unfolding get remove
  get-remove [] k j = ground arith
  get-remove ((i, w) ∷ d) k j = ground (arith, get-remove d k j)

pub ruleset dict_laws = (get-put, get-remove)

-- A Go map holds a key once.
module _ {ℓ} {V : Type ℓ} where
  abbrev pub IsDict : Dict V → Type ℓ
  IsDict [] = Unit
  IsDict ((k, v) ∷ d) = (get d k ≡ none) × IsDict d

  pub put-IsDict : (d : Dict V) (k : ℕ) (v : V) → IsDict d → IsDict (put d k v)
  unfolding get put
  put-IsDict [] k v h = (refl, tt)
  put-IsDict ((j, w) ∷ d) k v h = ground (arith, put-IsDict d k v h.1, get-put d k j v)

  pub remove-IsDict : (d : Dict V) (k : ℕ) → IsDict d → IsDict (remove d k)
  unfolding get remove
  remove-IsDict [] k h = tt
  remove-IsDict ((j, w) ∷ d) k h = ground (arith, remove-IsDict d k h.1, get-remove d k j)

  -- The entries that a loop over the map lets stand.
  unfoldable pub retain : (ℕ → V → Bool) → Dict V → Dict V
  retain p [] = []
  retain p ((k, v) ∷ d) = let rest = retain p d in if p k v then (k, v) ∷ rest else rest

  abbrev pub kept : (ℕ → V → Bool) → ℕ → Option V → Option V
  kept p k none = none
  kept p k (some v) = if p k v then some v else none

  pub get-retain :
      (p : ℕ → V → Bool) (d : Dict V) (k : ℕ) → IsDict d → get (retain p d) k ≡ kept p k (get d k)
  unfolding get retain
  get-retain p [] k h = refl
  get-retain p ((j, v) ∷ d) k h = elim (Bool-cases (j == k)) [
    | inl e ↦ ground (arith, get-retain p d k h.1, (==_iff j k).0 e)
    | inr e ↦ ground (arith, get-retain p d k h.1)
  ]

  pub retain-IsDict : (p : ℕ → V → Bool) (d : Dict V) → IsDict d → IsDict (retain p d)
  unfolding get retain
  retain-IsDict p [] h = tt
  retain-IsDict p ((j, v) ∷ d) h = ground (arith, retain-IsDict p d h.1, get-retain p d j h.1)
