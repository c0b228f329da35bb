-- ===== src/Registry/Json.antt =====
-- How entries are stored: MarshalJSON and UnmarshalJSON of ProviderInfo in internal/registry/registry.go. A
-- JSON object is a record of its fields, where none is a field that is left out, and a JSON value in
-- it is a text.
mod Laws
mod Tests
use storetheindex.Prelude.{ℕ, false, Option, none, some, [], ◌==◌, if◌then◌else◌, ◌>>=◌}
use storetheindex.PeerPolicy.{PeerId}
use storetheindex.Registry.State.{ProviderInfo, AddrInfo, Text, Addr, Cid, Time}

-- encoding/json for a type, as far as the object's fields need it
pub record Value (A : Type 0) : Type 0 where
  pub write : A → Option Text
  pub read : Text → Option A

-- The values of the fields, as go-libp2p, go-cid and time write and read them, and String and
-- NewMultiaddr of go-multiaddr.
pub record Values : Type 0 where
  pub addr_info : Value AddrInfo
  pub cid : Value Cid
  pub time : Value Time
  pub peer : Value PeerId
  pub addr_string : Addr → Text
  pub new_multiaddr : Text → Option Addr

-- The object: the text of the publisher's address hides the field of the same name within.
pub record Document : Type 0 where
  pub addr_info : Text
  pub discovery_addr : Option Text
  pub last_advertisement : Text
  pub last_advertisement_time : Text
  pub publisher : Option Text
  pub publisher_addr : Option Text

-- A text that is left out where it is empty
abbrev pub omit_empty : Text → Option Text
omit_empty t = if t == 0 then none else some t

-- new(ProviderInfo)
abbrev pub new_provider_info : ProviderInfo
new_provider_info = record {
  addr_info = record { id = 0; addrs = [] };
  discovery_addr = 0;
  last_advertisement = 0;
  last_advertisement_time = 0;
  publisher = 0;
  publisher_addr = none;
  last_contact_time = 0;
  deleted = false;
  inactive = false;
}

module _ (v : Values) where
  abbrev publisher_addr_text : Option Addr → Text
  publisher_addr_text none = 0
  publisher_addr_text (some a) = v.addr_string a

  abbrev publisher_value : PeerId → Option (Option Text)
  publisher_value id =
      if id == 0 then some none else elim (v.peer.write id) [ none ↦ none | some t ↦ some (some t) ]

  -- ProviderInfo.MarshalJSON
  unfoldable pub marshal_json : ProviderInfo → Option Document
  marshal_json p = do
    addr_info ← v.addr_info.write p.addr_info
    last_advertisement ← v.cid.write p.last_advertisement
    time ← v.time.write p.last_advertisement_time
    publisher ← publisher_value p.publisher
    some (record {
      addr_info = addr_info;
      discovery_addr = omit_empty p.discovery_addr;
      last_advertisement = last_advertisement;
      last_advertisement_time = time;
      publisher = publisher;
      publisher_addr = omit_empty (publisher_addr_text p.publisher_addr);
    })

  -- What is read for a field that may be missing
  abbrev read_text : Text → Option Text → Text
  read_text before none = before
  read_text before (some t) = t

  abbrev read_publisher : PeerId → Option Text → Option PeerId
  read_publisher before none = some before
  read_publisher before (some t) = v.peer.read t

  abbrev read_publisher_addr : Option Addr → Option Text → Option (Option Addr)
  read_publisher_addr before none = some before
  read_publisher_addr before (some t) =
      if t == 0
      then some before
      else elim (v.new_multiaddr t) [ none ↦ none | some a ↦ some (some a) ]

  -- ProviderInfo.UnmarshalJSON
  unfoldable pub unmarshal_json : ProviderInfo → Document → Option ProviderInfo
  unmarshal_json p d = do
    addr_info ← v.addr_info.read d.addr_info
    last_advertisement ← v.cid.read d.last_advertisement
    time ← v.time.read d.last_advertisement_time
    publisher ← read_publisher p.publisher d.publisher
    publisher_addr ← read_publisher_addr p.publisher_addr d.publisher_addr
    some (record p {
      addr_info = addr_info;
      discovery_addr = read_text p.discovery_addr d.discovery_addr;
      last_advertisement = last_advertisement;
      last_advertisement_time = time;
      publisher = publisher;
      publisher_addr = publisher_addr;
    })
