-- ===== src/Admin/Handler/Laws.antt =====
-- What the client of the administration brings about at the server.
use storetheindex.Prelude.{
  ◌≡◌, refl, sym, ap, Bool, true, false, Option, none, some, List, [], ◌∷◌, ◌++◌, ◌==◌, ==_iff,
  if◌then◌else◌, Bool-cases, inl, inr,
}
use storetheindex.Prelude.Ints.{ℤ, pos, negsuc, is_zero}
use storetheindex.PeerPolicy.{PeerId}
use storetheindex.Registry.Policy.{allowed}
use storetheindex.Registry.Policy.Laws.{allow_block}
use storetheindex.Registry.State.{Text, Addr}
use storetheindex.Server.Errors.{Formats}
use storetheindex.Admin.Handler.{
  Services, Admin, depth_key, resync_key, decode_peer_id, allow_handler, block_handler, parse_depth,
  parse_resync, parse_addr, sync_handler, route,
}
use storetheindex.Admin.Handler.Client
use storetheindex.Admin.Handler.Client.{sync_query, exchange, ingest_request, sync, allow, block}
use storetheindex.Web.{HttpRequest, HttpResponse, post_method, sync_word}

-- What the client writes is read by the server.
pub record IsServices (f : Formats) (s : Services f) (c : Client.Services f) : Type 0 where
  pub decode_peer-peer_string : (id : PeerId) → s.decode_peer (c.peer_string id) ≡ some id
  pub format_int-ne : (d : ℤ) → (c.format_int d == 0) ≡ false
  pub parse_int-format_int : (d : ℤ) → s.parse_int (c.format_int d) ≡ some d
  pub format_bool-ne : (b : Bool) → (c.format_bool b == 0) ≡ false
  pub parse_bool-format_bool : (b : Bool) → s.parse_bool (c.format_bool b) ≡ some b
  pub addr_read :
      (a : Addr)
      → (b : f.Bytes) × (t : Text) × (c.marshal_addr a ≡ some b)
        × (s.unmarshal_text b ≡ some t)
        × (s.new_multiaddr t ≡ some a)

module _ (f : Formats) (s : Services f) (c : Client.Services f) (laws : IsServices f s c)
    (unrouted : HttpRequest f.Bytes → HttpResponse f.Bytes) (reloaded : Bool) where
  -- A client's request to the server, which the router may answer
  abbrev pub serve : Admin f s → HttpRequest f.Bytes → Admin f s × Option (HttpResponse f.Bytes)
  serve a q = elim (route f s reloaded a q) [ none ↦ (a, some (unrouted q)) | some r ↦ r ]

  is_zero_lem : (d : ℤ) → is_zero d ≡ true → d ≡ pos 0
  is_zero_lem (pos n) h = ap pos ((==_iff n 0).0 h)
  is_zero_lem (negsuc n) h = absurd (cc h)

  -- The query that the client makes, as the server parses it.
  abbrev IsQuery : ℤ → Bool → Type 0
  IsQuery depth resync =
      (q : List (Text × Text)) × (Client.pairs (sync_query f c serve depth resync) ≡ some q)
      × (parse_depth f s q ≡ some depth)
      × (parse_resync f s q ≡ some resync)

  read-IsQuery : (depth : ℤ) (resync : Bool) → IsQuery depth resync
  unfolding parse_depth parse_resync sync_query
  read-IsQuery depth resync = elim (Bool-cases (is_zero depth)) [
    | inl zero ↦ elim (Bool-cases resync) [
      | inl again ↦
          rw (zero, sync_query)
            (rw again (
              (resync_key, c.format_bool true) ∷ [],
              refl,
              ap some (sym (is_zero_lem depth zero)),
              rw (laws.format_bool-ne true) (laws.parse_bool-format_bool true),
            ))
      | inr once ↦
          rw (zero, sync_query) (rw once ([], refl, ap some (sym (is_zero_lem depth zero)), refl))
    ]
    | inr deep ↦ elim (Bool-cases resync) [
      | inl again ↦
          rw (deep, sync_query)
            (rw again (
              (depth_key, c.format_int depth) ∷ (resync_key, c.format_bool true) ∷ [],
              refl,
              rw (laws.format_int-ne depth) (laws.parse_int-format_int depth),
              rw (laws.format_bool-ne true) (laws.parse_bool-format_bool true),
            ))
      | inr once ↦
          rw (deep, sync_query)
            (rw once (
              (depth_key, c.format_int depth) ∷ [],
              refl,
              rw (laws.format_int-ne depth) (laws.parse_int-format_int depth),
              refl,
            ))
    ]
  ]

  sent_sync :
      (a : Admin f s) (peer : PeerId) (body : Option f.Bytes) (addr : Option Addr) (depth : ℤ)
      (resync : Bool)
      → s.env.valid peer ≡ true
      → parse_addr f s body ≡ some addr
      → ingest_request f c serve a peer sync_word post_method body
          (sync_query f c serve depth resync)
        ≡ (
          record a {
            syncs =
                a.syncs
                ++ (record { peer = peer; addr = addr; depth = depth; resync = resync } ∷ []);
          },
          none,
        )
  unfolding ingest_request exchange route sync_handler decode_peer_id
  sent_sync a peer body addr depth resync valid read =
      let (q, made, depth_read, resync_read) : IsQuery depth resync = read-IsQuery depth resync in
      rw (made, ingest_request)
        (rw (laws.decode_peer-peer_string peer, exchange, sync_handler, decode_peer_id)
          (rw (depth_read) (rw resync_read (rw read (rw valid refl)))))

  -- A sync that the client asks for reaches the ingester, for a valid peer, with the peer, the address if
  -- one is given, the depth and the choice of a resync that the client was called with; nothing else
  -- changes, and the client gets no error.
  pub sync_asked :
      (a : Admin f s) (peer : PeerId) (addr : Option Addr) (depth : ℤ) (resync : Bool)
      → s.env.valid peer ≡ true
      → sync f c serve a peer addr depth resync ≡ (
        record a {
          syncs =
              a.syncs ++ (record { peer = peer; addr = addr; depth = depth; resync = resync } ∷ []);
        },
        none,
      )
  unfolding sync parse_addr
  sync_asked a peer none depth resync valid = sent_sync a peer none none depth resync valid refl
  sync_asked a peer (some addr) depth resync valid =
      let (b, t, written, read, made) = laws.addr_read addr in
      rw (written, sync)
        (sent_sync a peer (some b) (some addr) depth resync valid
          (rw (read, parse_addr) (rw made refl)))

  -- A peer that the client allows or blocks is allowed or not from then on; no other peer's standing
  -- changes, nor do the registered providers, and the client gets no error.
  pub allow_block_asked :
      (a : Admin f s) (peer q : PeerId)
      → let (a', e) = allow f c serve a peer in
        let (b', e') = block f c serve a peer in
        (e ≡ none)
        × (e' ≡ none)
        × (allowed a'.registry.policy q ≡ (if peer == q then true else allowed a.registry.policy q))
        × (allowed b'.registry.policy q
            ≡ (if peer == q then false else allowed a.registry.policy q))
        × (a'.registry.providers ≡ a.registry.providers)
        × (b'.registry.providers ≡ a.registry.providers)
  unfolding allow block ingest_request exchange route allow_handler block_handler decode_peer_id
  allow_block_asked a peer q =
      let t = allow_block a.registry.policy peer q q in
      rw (laws.decode_peer-peer_string peer, allow_handler, block_handler, decode_peer_id, exchange)
        (refl, refl, t.0, t.1, refl, refl)
