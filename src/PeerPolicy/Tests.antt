-- ===== src/PeerPolicy/Tests.antt =====
-- Tests and instances for peerutil/policy.go. Peer 7 is decoded from the text 70, and so on.
use storetheindex.Prelude.{
  ℕ, ◌*◌, ◌≡◌, refl, true, Option, none, some, [], ◌∷◌, if◌then◌else◌, ◌%◌, ◌==◌, ◌/◌, arith,
}
use storetheindex.PeerPolicy.{PeerId, Policy, new_policy, new_policy_strings, eval, except_strings}
use storetheindex.PeerPolicy.Laws.{new_policy_strings-except_strings}

-- Everybody but the peers 3 and 5.
abbrev blocked : Policy
blocked = record { value = true; except = 3 ∷ 5 ∷ [] }

-- The texts of peer IDs are the multiples of ten.
abbrev decode : ℕ → Option PeerId
decode t = if t % 10 == 0 then some (t / 10) else none

abbrev encode : PeerId → ℕ
encode id = 10 * id

decode-encode : (id : PeerId) → decode (encode id) ≡ some id
decode-encode id = ground arith

new_policy_drops_repeats : new_policy true (5 ∷ 3 ∷ 5 ∷ []) ≡ blocked
unfolding new_policy
new_policy_drops_repeats = refl

new_policy_strings-except_strings_example :
    (p' : Policy) × (new_policy_strings decode true (except_strings encode blocked) ≡ some p')
    × (eval p' 5 ≡ eval blocked 5)
new_policy_strings-except_strings_example =
    new_policy_strings-except_strings decode encode decode-encode blocked 5
