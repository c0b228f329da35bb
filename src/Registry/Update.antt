-- ===== src/Registry/Update.antt =====
-- RegisterOrUpdate in internal/registry/registry.go. It reads the provider in one action of the
-- registry's goroutine and writes it in another: `update_info` is what it computes between, from what
-- it read, and other actions may come between the two.
pub mod Laws
use storetheindex.Prelude.{
  Bool, true, false, not, ◌&&◌, Option, none, some, List, [], ◌∷◌, ◌==◌, if◌then◌else◌,
}
use storetheindex.Prelude.Result.{Result, ok, err, ◌>>=◌}
use storetheindex.PeerPolicy.{PeerId}
use storetheindex.Registry.State.{
  AddrInfo, Addr, Cid, Text, Time, ProviderInfo, Error, panics, Env, Registry,
}
use storetheindex.Registry.Register.{is_empty, sync_register, register, provider_info}

-- &ProviderInfo{AddrInfo: peer.AddrInfo{ID: id}}
abbrev pub new_info : PeerId → ProviderInfo
new_info id = record {
  addr_info = record { id = id; addrs = [] };
  discovery_addr = 0;
  last_advertisement = 0;
  last_advertisement_time = 0;
  publisher = 0;
  publisher_addr = none;
  last_contact_time = 0;
  deleted = false;
  inactive = false;
}

abbrev pub is_none {ℓ} : {A : Type ℓ} → Option A → Bool
is_none none = true
is_none (some a) = false

-- addrs[0], which panics where there is none
abbrev pub first : List Addr → Result Error Addr
first [] = err panics
first (a ∷ rest) = ok a

module _ (env : Env) where
  -- The copy of the known provider, and whether its publisher changes.
  known_publisher : ProviderInfo → AddrInfo → Result Error (ProviderInfo × Bool)
  known_publisher info publisher =
      if env.valid publisher.id
      then if not (publisher.id == info.publisher)
        then (do
          a ← first publisher.addrs
          ok (record info { publisher = publisher.id; publisher_addr = some a }, true))
        else elim publisher.addrs [
          | [] ↦ ok (info, false)
          | a ∷ rest ↦ ok (record info { publisher_addr = some a }, false)
        ]
      else ok (info, false)

  -- The provider that is not registered, or is inactive.
  new_publisher : PeerId → AddrInfo → ProviderInfo
  new_publisher id publisher =
      let info =
        if env.valid publisher.id
        then record (new_info id) { publisher = publisher.id }
        else new_info id in
      elim publisher.addrs [ [] ↦ info | a ∷ rest ↦ record info { publisher_addr = some a } ]

  start_info : Option ProviderInfo → PeerId → AddrInfo → Result Error (ProviderInfo × Bool)
  unfolding known_publisher new_publisher
  start_info none id publisher = ok (new_publisher id publisher, true)
  start_info (some old) id publisher =
      known_publisher
        (record old {
          addr_info = record { id = id; addrs = old.addr_info.addrs };
          last_contact_time = 0;
          deleted = false;
          inactive = false;
        })
        publisher

  -- A provider that publishes for itself is reached at its own address.
  unfoldable pub fill_publisher_addr : ProviderInfo → ProviderInfo
  fill_publisher_addr info =
      if env.valid info.publisher
        && is_none info.publisher_addr
        && info.publisher == info.addr_info.id
      then elim info.addr_info.addrs [
        | [] ↦ info
        | a ∷ rest ↦ record info { publisher_addr = some a }
      ]
      else info

  -- stringsToMultiaddrs: none is the error of the first bad one.
  unfoldable pub strings_to_multiaddrs : List Text → Option (List Addr)
  strings_to_multiaddrs [] = some []
  strings_to_multiaddrs (t ∷ ts) =
      let rest = strings_to_multiaddrs ts in
      elim (env.new_multiaddr t) [
        | none ↦ none
        | some a ↦ elim rest [ none ↦ none | some more ↦ some (a ∷ more) ]
      ]

  set_addrs : List Text → ProviderInfo → Result Error ProviderInfo
  unfolding strings_to_multiaddrs
  set_addrs addrs info = if is_empty addrs then ok info else elim (strings_to_multiaddrs addrs) [
    | none ↦ err panics
    | some maddrs ↦
        ok (record info { addr_info = record { id = info.addr_info.id; addrs = maddrs } })
  ]

  set_advertisement : Time → Cid → ProviderInfo → ProviderInfo
  set_advertisement now ad info =
      let info' =
        if not (ad == info.last_advertisement) && not (ad == 0)
        then record info { last_advertisement = ad; last_advertisement_time = now }
        else info in
      record info' { last_contact_time = now }

  -- All that RegisterOrUpdate does before it writes: the new entry, and whether to check the policy.
  unfoldable pub update_info :
      Option ProviderInfo
      → Time
      → PeerId
      → List Text
      → Cid
      → AddrInfo
      → Result Error (ProviderInfo × Bool)
  unfolding start_info fill_publisher_addr set_addrs set_advertisement
  update_info old now id addrs ad publisher = do
    (info, full) ← start_info old id publisher
    info' ← set_addrs addrs (fill_publisher_addr info)
    ok (set_advertisement now ad info', full)

  -- The write, on the registry as it then is.
  unfoldable pub write_info :
      Registry env → Result Error (ProviderInfo × Bool) → Registry env × Option Error
  write_info r (err e) = (r, some e)
  write_info r (ok (info, full)) = if full then register env r info else sync_register env r info

  -- Registry.RegisterOrUpdate, where nothing comes between its two actions.
  unfoldable pub register_or_update :
      Registry env → Time → PeerId → List Text → Cid → AddrInfo → Registry env × Option Error
  unfolding update_info write_info
  register_or_update r now id addrs ad publisher =
      write_info r (update_info (provider_info env r id) now id addrs ad publisher)
