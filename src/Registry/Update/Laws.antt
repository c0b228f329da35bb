-- ===== src/Registry/Update/Laws.antt =====
-- What an update writes, and when it is checked against the policy.
use storetheindex.Prelude.{
  ◌≡◌, ◌≢◌, refl, ◌∙◌, Bool, true, false, not, ◌&&◌, Option, none, some, List, [], ◌==◌, arith,
  if◌then◌else◌,
}
use storetheindex.Prelude.Dict
use storetheindex.Prelude.Result.{Result, ok, err}
use storetheindex.PeerPolicy.{PeerId}
use storetheindex.Registry.State.{
  Addr, AddrInfo, Cid, Text, Time, ProviderInfo, Error, panics, Env, Registry,
}
use storetheindex.Registry.Register.{is_empty, provider_info}
use storetheindex.Registry.Register.Laws.{IsAdmitted, register_ok, get-sync_register}
use storetheindex.Registry.Update.{
  strings_to_multiaddrs, update_info, write_info, register_or_update,
}

abbrev pub last_ad : Option ProviderInfo → Cid
last_ad none = 0
last_ad (some info) = info.last_advertisement

abbrev pub old_publisher : Option ProviderInfo → PeerId
old_publisher none = 0
old_publisher (some info) = info.publisher

abbrev pub old_addrs : Option ProviderInfo → List Addr
old_addrs none = []
old_addrs (some info) = info.addr_info.addrs

-- A provider that is not known, or a change of publisher, asks for the policy.
abbrev pub is_new : Env → Option ProviderInfo → AddrInfo → Bool
is_new env none publisher = true
is_new env (some info) publisher = env.valid publisher.id && not (publisher.id == info.publisher)

-- The entry that an update writes for the provider `id`, by what was known of it.
pub record IsUpdate (env : Env) (old : Option ProviderInfo) (now : Time) (id : PeerId)
    (addrs : List Text) (ad : Cid) (publisher : AddrInfo) (info : ProviderInfo) : Type 0 where
  pub same_id : info.addr_info.id ≡ id
  pub contact : info.last_contact_time ≡ now
  pub active : (info.deleted ≡ false) × (info.inactive ≡ false)
  pub advertisement : info.last_advertisement ≡ (if ad == 0 then last_ad old else ad)
  pub publishes :
      info.publisher ≡ (if env.valid publisher.id then publisher.id else old_publisher old)
  pub addresses :
      some info.addr_info.addrs
      ≡ (if is_empty addrs then some (old_addrs old) else strings_to_multiaddrs env addrs)

module _ (env : Env) (now : Time) (id : PeerId) (addrs : List Text) (ad : Cid)
    (publisher : AddrInfo) (info : ProviderInfo) (full : Bool) where
  update_info_lem :
      (old : Option ProviderInfo)
      → update_info env old now id addrs ad publisher ≡ ok (info, full)
      → IsUpdate env old now id addrs ad publisher info × (full ≡ is_new env old publisher)
  unfolding update_info
  update_info_lem none h = ground arith
  update_info_lem (some old) h = ground arith

module _ (env : Env) (now : Time) (id : PeerId) (addrs : List Text) (ad : Cid)
    (publisher : AddrInfo) where
  update_info_bad_addrs :
      (old : Option ProviderInfo)
      → strings_to_multiaddrs env addrs ≡ none
      → update_info env old now id addrs ad publisher ≡ err panics
  unfolding update_info
  update_info_bad_addrs none h = ground arith
  update_info_bad_addrs (some old) h = ground arith

module _ (env : Env) (r : Registry env) (now : Time) (id : PeerId) (addrs : List Text) (ad : Cid)
    (publisher : AddrInfo) where
  abbrev computed : Result Error (ProviderInfo × Bool)
  computed = update_info env (provider_info env r id) now id addrs ad publisher

  write_checked :
      (info : ProviderInfo)
      → (write_info env r (ok (info, true))).1 ≡ none
      → IsAdmitted env r info
        × ((k : PeerId)
            → Dict.get (write_info env r (ok (info, true))).0.providers k
              ≡ (if info.addr_info.id == k then some info else Dict.get r.providers k))
  unfolding write_info
  write_checked info h = register_ok env r info h

  write_unchecked :
      (info : ProviderInfo) (k : PeerId)
      → Dict.get (write_info env r (ok (info, false))).0.providers k
        ≡ (if info.addr_info.id == k then some info else Dict.get r.providers k)
  unfolding write_info
  write_unchecked info = get-sync_register env r info

  written :
      (info : ProviderInfo) (full : Bool)
      → (write_info env r (ok (info, full))).1 ≡ none
      → (full ≡ true → IsAdmitted env r info)
        × ((k : PeerId)
            → Dict.get (write_info env r (ok (info, full))).0.providers k
              ≡ (if info.addr_info.id == k then some info else Dict.get r.providers k))
  written info true h = let (a, g) = write_checked info h in (λ _. a, g)
  written info false h = (λ e. cc, write_unchecked info)

  -- An update that succeeds leaves the provider registered and active, in contact as of now, with the
  -- advertisement, the publisher and the addresses that were given or else the old ones; every other
  -- provider is as before. Where the provider was not known (or inactive), or the publisher changed,
  -- the policy admitted the entry.
  pub register_or_update_ok :
      (register_or_update env r now id addrs ad publisher).1 ≡ none
      → (info : ProviderInfo) × IsUpdate env (provider_info env r id) now id addrs ad publisher info
        × (is_new env (provider_info env r id) publisher ≡ true → IsAdmitted env r info)
        × ((k : PeerId)
            → Dict.get (register_or_update env r now id addrs ad publisher).0.providers k
              ≡ (if id == k then some info else Dict.get r.providers k))
  unfolding register_or_update
  register_or_update_ok h = go computed refl h
    where
      go :
          (c : Result Error (ProviderInfo × Bool))
          → computed ≡ c
          → (write_info env r c).1 ≡ none
          → (info : ProviderInfo) × IsUpdate env
              (provider_info env r id)
              now
              id
              addrs
              ad
              publisher
              info
            × (is_new env (provider_info env r id) publisher ≡ true → IsAdmitted env r info)
            × ((k : PeerId)
                → Dict.get (write_info env r c).0.providers k
                  ≡ (if id == k then some info else Dict.get r.providers k))
      go (err e) c h = cc
      go (ok (info, full)) c h =
          let (upd, asks) =
            update_info_lem env now id addrs ad publisher info full (provider_info env r id) c in
          let (adm, g) = written info full h in
          (info, upd, (λ n. adm (asks ∙ n)), λ k. rw (← upd.same_id) (g k))

  -- The first address of a new publisher is read without a check: an update by a publisher that is
  -- not the known one and comes without an address panics, whatever else holds.
  pub register_or_update_panics :
      (old : ProviderInfo)
      → provider_info env r id ≡ some old
      → env.valid publisher.id ≡ true
      → publisher.id ≢ old.publisher
      → publisher.addrs ≡ []
      → register_or_update env r now id addrs ad publisher ≡ (r, some panics)
  unfolding register_or_update
  register_or_update_panics old known v ne bare = rw (known, register_or_update) (ground arith)

  -- An address that cannot be read makes the update panic, whatever is known of the provider.
  pub register_or_update_bad_addrs :
      strings_to_multiaddrs env addrs ≡ none
      → register_or_update env r now id addrs ad publisher ≡ (r, some panics)
  unfolding register_or_update write_info
  register_or_update_bad_addrs h =
      rw
        (
          update_info_bad_addrs env now id addrs ad publisher (provider_info env r id) h,
          register_or_update,
          write_info,
        )
        refl
