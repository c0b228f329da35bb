-- ===== src/Registry/Policy/Tests.antt =====
-- Tests and instances for internal/registry/policy/policy.go.
use storetheindex.Prelude.{
  ℕ, ◌*◌, ◌/◌, ◌%◌, ◌≡◌, true, false, Option, none, some, [], ◌∷◌, ◌==◌, arith, if◌then◌else◌,
}
use storetheindex.PeerPolicy.{PeerId}
use storetheindex.Registry.Policy.{Policy}

-- All but the peer 3 are allowed, and only the peer 8 publishes for others.
abbrev usual : Policy
usual = record {
  allow = record { value = true; except = 3 ∷ [] };
  publish = record { value = false; except = 8 ∷ [] };
}

abbrev decode : ℕ → Option PeerId
decode t = if t % 10 == 0 then some (t / 10) else none

abbrev encode : PeerId → ℕ
encode id = 10 * id

decode-encode : (id : PeerId) → decode (encode id) ≡ some id
decode-encode id = ground arith
