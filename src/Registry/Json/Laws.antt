-- ===== src/Registry/Json/Laws.antt =====
-- An entry is read as it was stored.
use storetheindex.Prelude.{
  ℕ, ◌≡◌, refl, sym, Bool, true, false, ◌||◌, Option, none, some, ◌==◌, ==_iff, inl, inr,
  Bool-cases, Option-cases, bind_some,
}
use mathlib.Core.Option.{some-injective}
use storetheindex.PeerPolicy.{PeerId}
use storetheindex.Registry.State.{ProviderInfo, persistent, AddrInfo, Text, Addr}
use storetheindex.Registry.Json.{
  Values, Document, omit_empty, new_provider_info, marshal_json, unmarshal_json, publisher_value,
  publisher_addr_text, read_text, read_publisher, read_publisher_addr,
}

-- Values are read as they were written, those with a peer ID if it is valid, and an address is not
-- written as the empty text.
pub record IsValues (valid : PeerId → Bool) (v : Values) : Type 0 where
  pub addr_info :
      (a : AddrInfo) (t : Text)
      → valid a.id ≡ true
      → v.addr_info.write a ≡ some t
      → v.addr_info.read t ≡ some a
  pub cid : (c t : ℕ) → v.cid.write c ≡ some t → v.cid.read t ≡ some c
  pub time : (c t : ℕ) → v.time.write c ≡ some t → v.time.read t ≡ some c
  pub peer :
      (id : PeerId) (t : Text)
      → valid id ≡ true
      → v.peer.write id ≡ some t
      → v.peer.read t ≡ some id
  pub new_multiaddr-addr_string : (a : Addr) → v.new_multiaddr (v.addr_string a) ≡ some a
  pub not_empty : (a : Addr) → (v.addr_string a == 0) ≡ false

module _ (valid : PeerId → Bool) (v : Values) (laws : IsValues valid v) where
  read-omit : (t : Text) → read_text v 0 (omit_empty t) ≡ t
  read-omit t = elim (Bool-cases (t == 0)) [
    | inl e ↦ rw e (sym ((==_iff t 0).0 e))
    | inr e ↦ rw e refl
  ]

  read-publisher :
      (id : PeerId) (o : Option Text)
      → (id == 0) || valid id ≡ true
      → publisher_value v id ≡ some o
      → read_publisher v 0 o ≡ some id
  read-publisher id o h e = elim (Bool-cases (id == 0)) [
    | inl zero ↦ rw (sym (some-injective _ _ (rw zero at e))) (rw ((==_iff id 0).0 zero) refl)
    | inr not_zero ↦ elim (Option-cases (v.peer.write id)) [
      | inl f ↦ absurd (cc (rw f at (rw not_zero at e)))
      | inr (t, f) ↦
          rw (sym (some-injective _ _ (rw f at (rw not_zero at e))))
            (laws.peer id t (rw not_zero at h) f)
    ]
  ]

  read-addr :
      (a : Option Addr) → read_publisher_addr v none (omit_empty (publisher_addr_text v a)) ≡ some a
  read-addr none = refl
  read-addr (some a) =
      rw (laws.not_empty a) (rw (laws.not_empty a) (rw (laws.new_multiaddr-addr_string a) refl))

  -- An entry whose provider has a valid ID, and whose publisher has one or none, is read, into a new
  -- one, as it was written, but for what is not stored: the time of the last contact, and whether the
  -- provider is deleted or inactive.
  pub unmarshal_json-marshal_json :
      (p : ProviderInfo) (d : Document)
      → valid p.addr_info.id ≡ true
      → (p.publisher == 0) || valid p.publisher ≡ true
      → marshal_json v p ≡ some d
      → unmarshal_json v new_provider_info d ≡ some (persistent p)
  unfolding marshal_json unmarshal_json
  unmarshal_json-marshal_json p d provider publisher h =
      let (a, ea, h') = bind_some (v.addr_info.write p.addr_info) _ d h in
      let (c, ec, h'') = bind_some (v.cid.write p.last_advertisement) _ d h' in
      let (t, et, h''') = bind_some (v.time.write p.last_advertisement_time) _ d h'' in
      let (o, eo, made) = bind_some (publisher_value v p.publisher) _ d h''' in
      rw (sym (some-injective _ _ made), unmarshal_json)
        (rw (laws.addr_info p.addr_info a provider ea) (
          rw (laws.cid p.last_advertisement c ec) (
            rw (laws.time p.last_advertisement_time t et) (
              rw (read-publisher p.publisher o publisher eo)
                (rw (read-addr p.publisher_addr) (rw (read-omit p.discovery_addr) refl))))))
