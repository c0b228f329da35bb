-- ===== src/Registry/Policy.antt =====
-- internal/registry/policy/policy.go: which peers are allowed, and which may publish for others.
-- The methods hold the policy's lock for their whole body, so each is one step.
pub mod Laws
mod Tests
use storetheindex.Prelude.{Bool, true, false, not, Option, none, some, List, ◌==◌, if◌then◌else◌}
use storetheindex.Prelude.Result.{Result, ok, err}
use storetheindex.PeerPolicy
use storetheindex.PeerPolicy.{PeerId, new_policy_strings, eval, any, set_peer, except_strings}

pub record Policy : Type 0 where
  pub allow : PeerPolicy.Policy
  pub publish : PeerPolicy.Policy

-- config.Policy, over the texts of peer IDs.
pub record Config (Text : Type 0) : Type 0 where
  pub allow : Bool
  pub except : List Text
  pub publish : Bool
  pub publish_except : List Text

pub data Error : Type 0 where
  bad_allow_policy bad_publish_policy : Error

-- New
unfoldable pub new : {Text : Type 0} → (Text → Option PeerId) → Config Text → Result Error Policy
new decode cfg = elim (new_policy_strings decode cfg.allow cfg.except) [
  | none ↦ err bad_allow_policy
  | some allow ↦ elim (new_policy_strings decode cfg.publish cfg.publish_except) [
    | none ↦ err bad_publish_policy
    | some publish ↦ ok (record { allow = allow; publish = publish })
  ]
]

-- Policy.Allowed
unfoldable pub allowed : Policy → PeerId → Bool
allowed p id = eval p.allow id

-- Policy.PublishAllowed
unfoldable pub publish_allowed : Policy → PeerId → PeerId → Bool
publish_allowed p publisher provider =
    if publisher == provider then true else eval p.publish publisher

-- Policy.Allow
unfoldable pub allow_peer : Policy → PeerId → Policy × Bool
allow_peer p id = let (a, updated) = set_peer p.allow id true in (record p { allow = a }, updated)

-- Policy.Block
unfoldable pub block_peer : Policy → PeerId → Policy × Bool
block_peer p id = let (a, updated) = set_peer p.allow id false in (record p { allow = a }, updated)

-- Policy.Copy
unfoldable pub copy : Policy → Policy → Policy
copy p other = record p { allow = other.allow; publish = other.publish }

-- Policy.ToConfig
unfoldable pub to_config : {Text : Type 0} → (PeerId → Text) → Policy → Config Text
to_config encode p = record {
  allow = p.allow.value;
  except = except_strings encode p.allow;
  publish = p.publish.value;
  publish_except = except_strings encode p.publish;
}

-- Policy.NoneAllowed
unfoldable pub none_allowed : Policy → Bool
none_allowed p = not (any p.allow true)
