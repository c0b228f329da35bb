-- ===== src/PeerPolicy.antt =====
-- peerutil/policy.go: a Boolean value with a set of exceptions. A peer ID is an opaque name that the
-- code only compares: a number stands for it. The set is a list without order; a nil map is `[]`.
pub mod Laws
mod Tests
use storetheindex.Prelude.{
  ℕ, Bool, true, false, not, beq, ◌||◌, Option, none, some, List, [], ◌∷◌, length, elem, ◌==◌,
  if◌then◌else◌, map,
}

abbrev pub PeerId : Type 0
PeerId = ℕ

pub record Policy : Type 0 where
  pub value : Bool
  pub except : List PeerId

-- s[id] = struct{}{}
unfoldable pub insert : PeerId → List PeerId → List PeerId
insert id s = if elem id s then s else id ∷ s

-- delete(s, id)
unfoldable pub delete : PeerId → List PeerId → List PeerId
delete id [] = []
delete id (x ∷ s) = let rest = delete id s in if x == id then rest else x ∷ rest

insert_all : List PeerId → List PeerId → List PeerId
insert_all [] s = s
insert_all (id ∷ ids) s = insert_all ids (insert id s)

-- NewPolicy
unfoldable pub new_policy : Bool → List PeerId → Policy
unfolding insert_all insert
new_policy value except = record { value = value; except = insert_all except [] }

-- `peer.Decode` and `peer.ID.String` are go-libp2p's, and texts are opaque too.
module _ {Text : Type 0} (decode : Text → Option PeerId) where
  -- The loop of NewPolicyStrings over the texts; `none` is the error of the first bad one.
  decode_all : List Text → List PeerId → Option (List PeerId)
  decode_all [] s = some s
  decode_all (t ∷ ts) s = elim (decode t) [ none ↦ none | some id ↦ decode_all ts (insert id s) ]

  unfoldable pub new_policy_strings : Bool → List Text → Option Policy
  unfolding decode_all insert
  new_policy_strings value except = elim (decode_all except []) [
    | none ↦ none
    | some s ↦ some (record { value = value; except = s })
  ]

-- Policy.Eval
unfoldable pub eval : Policy → PeerId → Bool
eval p id = let ok = elem id p.except in if p.value then not ok else ok

-- Policy.Any
unfoldable pub any : Policy → Bool → Bool
any p value = beq value p.value || not (length p.except == 0)

-- Policy.SetPeer: the new policy, and whether the set of exceptions changed.
unfoldable pub set_peer : Policy → PeerId → Bool → Policy × Bool
unfolding insert delete
set_peer p id value =
    if not (beq value p.value)
    then (
      record p { except = insert id p.except },
      not (length (insert id p.except) == length p.except),
    )
    else if not (length p.except == 0)
    then (
      record p { except = delete id p.except },
      not (length (delete id p.except) == length p.except),
    )
    else (p, false)

-- Policy.ExceptStrings
unfoldable pub except_strings : {Text : Type 0} → (PeerId → Text) → Policy → List Text
except_strings encode p = map encode p.except
