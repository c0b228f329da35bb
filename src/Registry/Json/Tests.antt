-- ===== src/Registry/Json/Tests.antt =====
-- Values that are texts themselves, for peers that have one address.
use storetheindex.Prelude.{
  ℕ, ◌+◌, ◌-◌, ◌≡◌, refl, sym, ap, Bool, Option, not, none, some, List, [], ◌∷◌, ◌==◌, ==_iff,
  if◌then◌else◌, arith, inl, inr, Bool-cases,
}
use mathlib.Core.Option.{some-injective}
use storetheindex.PeerPolicy.{PeerId}
use storetheindex.Registry.State.{Addr, persistent, AddrInfo}
use storetheindex.Registry.Tests.{provider}
use storetheindex.Registry.Json.{Value, Values, new_provider_info, marshal_json, unmarshal_json}
use storetheindex.Registry.Json.Laws.{IsValues, unmarshal_json-marshal_json}

abbrev plain : Value ℕ
plain = record { write = λ n. some n; read = λ t. some t }

abbrev valid : PeerId → Bool
valid id = not (id == 0)

-- An AddrInfo is known by its ID: the peer has the address 100 more.
abbrev known : PeerId → AddrInfo
known id = record { id = id; addrs = (100 + id) ∷ [] }

abbrev written : PeerId → List Addr → Option ℕ
written id (a ∷ []) = if a == 100 + id then some id else none
written id addrs = none

written-known :
    (id : PeerId) (addrs : List Addr) (t : ℕ)
    → written id addrs ≡ some t
    → some (known t) ≡ some (record { id = id; addrs = addrs })
written-known id [] t h = absurd cc
written-known id (a ∷ []) t h = elim (Bool-cases (a == 100 + id)) [
  | inl e ↦
      rw (sym (some-injective _ _ (rw e at h)))
        (ap (λ x. some (record { id = id; addrs = x ∷ [] })) (sym ((==_iff a (100 + id)).0 e)))
  | inr e ↦ absurd (cc (rw e at h))
]
written-known id (a ∷ b ∷ more) t h = absurd cc

abbrev values : Values
values = record {
  addr_info = record { write = λ a. written a.id a.addrs; read = λ t. some (known t) };
  cid = plain;
  time = plain;
  peer = plain;
  addr_string = λ a. a + 1;
  new_multiaddr = λ t. some (t - 1);
}

values-IsValues : IsValues valid values
values-IsValues = record {
  addr_info = λ a t h e. written-known a.id a.addrs t e;
  cid = λ c t e. sym e;
  time = λ c t e. sym e;
  peer = λ id t h e. sym e;
  new_multiaddr-addr_string = λ a. ap some (omega arith);
  not_empty = λ a. ground arith;
}

-- The provider 1, which its publisher was in contact with at the time 50
unmarshal_json-marshal_json_example :
    unmarshal_json values new_provider_info (record {
      addr_info = 1;
      discovery_addr = none;
      last_advertisement = 0;
      last_advertisement_time = 0;
      publisher = some 1;
      publisher_addr = some 10;
    })
    ≡ some (persistent (provider 1 1 50))
unfolding marshal_json
unmarshal_json-marshal_json_example =
    unmarshal_json-marshal_json valid values values-IsValues (provider 1 1 50)
      (record {
        addr_info = 1;
        discovery_addr = none;
        last_advertisement = 0;
        last_advertisement_time = 0;
        publisher = some 1;
        publisher_addr = some 10;
      })
      refl refl refl
