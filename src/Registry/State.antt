-- ===== src/Registry/State.antt =====
-- The data of internal/registry/registry.go, and the interfaces of what it calls. Addresses, CIDs and
-- texts are opaque names; the CID 0 is cid.Undef, the time 0 is the zero time.Time and a time counts
-- nanoseconds from there, the peer ID 0 is the empty one.
use storetheindex.Prelude.{ℕ, ◌≡◌, Bool, false, Option, none, some, List, ◌==◌, if◌then◌else◌}
use storetheindex.Prelude.Dict
use storetheindex.Prelude.Dict.{Dict}
use storetheindex.PeerPolicy.{PeerId}
use storetheindex.Registry.Policy

abbrev pub Addr : Type 0
Addr = ℕ

abbrev pub Cid : Type 0
Cid = ℕ

abbrev pub Time : Type 0
Time = ℕ

abbrev pub Text : Type 0
Text = ℕ

-- peer.AddrInfo
pub record AddrInfo : Type 0 where
  pub id : PeerId
  pub addrs : List Addr

pub record ProviderInfo : Type 0 where
  pub addr_info : AddrInfo
  pub discovery_addr : Text
  pub last_advertisement : Cid
  pub last_advertisement_time : Time
  pub publisher : PeerId
  pub publisher_addr : Option Addr
  pub last_contact_time : Time
  pub deleted : Bool
  pub inactive : Bool

-- What JSON keeps of a provider: the fields that Go exports.
abbrev pub persistent : ProviderInfo → ProviderInfo
persistent info = record info { last_contact_time = 0; deleted = false; inactive = false }

pub data Error : Type 0 where
  missing_address invalid_id not_allowed publisher_not_allowed cannot_publish : Error
  not_persisted not_removed : Error
  in_progress too_soon no_discovery not_discovered : Error
  -- Go's panic, on an index out of range or by a call of `panic`
  panics : Error

-- One result of a query over the stored providers.
pub data Found (Bytes : Type 0) : Type 0 where
  unreadable undecodable : Found Bytes
  found : PeerId → Bytes → Found Bytes

-- What the registry calls and does not implement: go-datastore under the registry's key prefix, JSON,
-- and the checks of go-libp2p and go-multiaddr. The flag beside a new state says that the call failed.
pub record Env : Type 1 where
  pub State : Type 0
  pub Bytes : Type 0
  pub put : State → PeerId → Bytes → State × Bool
  pub delete : State → PeerId → State × Bool
  pub sync : State → PeerId → State × Bool
  pub query : State → Option (List (Found Bytes))
  pub marshal : ProviderInfo → Option Bytes
  pub unmarshal : Bytes → Option ProviderInfo
  -- peer.ID.Validate() == nil
  pub valid : PeerId → Bool
  -- multiaddr.NewMultiaddr
  pub new_multiaddr : Text → Option Addr

-- What the datastore holds, and the documented effect of its calls: a call that succeeds has done
-- what it says, `Sync` changes nothing, and JSON gives back the exported fields.
pub record IsStore (env : Env) (contents : env.State → Dict env.Bytes) : Type 0 where
  pub put_lem :
      (s : env.State) (k j : PeerId) (b : env.Bytes)
      → (env.put s k b).1 ≡ false
      → Dict.get (contents (env.put s k b).0) j
        ≡ (if k == j then some b else Dict.get (contents s) j)
  pub delete_lem :
      (s : env.State) (k j : PeerId)
      → (env.delete s k).1 ≡ false
      → Dict.get (contents (env.delete s k).0) j
        ≡ (if k == j then none else Dict.get (contents s) j)
  pub sync_lem : (s : env.State) (k : PeerId) → contents (env.sync s k).0 ≡ contents s
  pub unmarshal-marshal :
      (info : ProviderInfo) (b : env.Bytes)
      → env.marshal info ≡ some b
      → env.unmarshal b ≡ some (persistent info)

module _ (env : Env) where
  -- The fields of Registry that only the goroutine of `run` touches, and the policy. `dstore` is none
  -- for a nil datastore.
  pub record Registry : Type 0 where
    pub providers : Dict ProviderInfo
    pub dstore : Option env.State
    pub policy : Policy.Policy
    pub discover_times : Dict Time
    pub rediscover_wait : ℕ
