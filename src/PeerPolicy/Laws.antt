-- ===== src/PeerPolicy/Laws.antt =====
-- What a policy answers after each operation.
use storetheindex.Prelude.{
  suc, ◌+◌, ◌≤◌, ◌≡◌, ◌≢◌, sym, ◌∙◌, ◌↔◌, inl, inr, refl, Bool, true, false, not, beq, Option, none,
  some, List, [], ◌∷◌, length, elem, map, ◌==◌, if◌then◌else◌, arith, Bool-cases, Option-cases,
  ◌||◌, ◌++◌,
}
use storetheindex.PeerPolicy.{
  PeerId, Policy, insert, delete, insert_all, decode_all, new_policy_strings, eval, any, set_peer,
  except_strings,
}

pub elem-insert :
    (id x : PeerId) (s : List PeerId) → elem x (insert id s) ≡ (if id == x then true else elem x s)
unfolding insert
elem-insert id x s = ground arith

pub elem-delete :
    (id x : PeerId) (s : List PeerId) → elem x (delete id s) ≡ (if id == x then false else elem x s)
unfolding delete
elem-delete id x [] = ground arith
elem-delete id x (y ∷ s) = ground (arith, elem-delete id x s)

length-delete-le : (id : PeerId) (s : List PeerId) → length (delete id s) ≤ length s
unfolding delete
length-delete-le id [] = omega arith
length-delete-le id (y ∷ s) = ground (arith, length-delete-le id s)

-- A deletion shortens the set exactly if the element was there.
delete_shorter :
    (id : PeerId) (s : List PeerId) → (length (delete id s) == length s) ≡ not (elem id s)
unfolding delete
delete_shorter id [] = refl
delete_shorter id (y ∷ s) = ground (arith, delete_shorter id s, length-delete-le id s)

abbrev at : Bool → List PeerId → Policy
at v s = record { value = v; except = s }

eval-set_peer-at :
    (v : Bool) (s : List PeerId) (id : PeerId) (value : Bool) (q : PeerId)
    → eval (set_peer (at v s) id value).0 q ≡ (if id == q then value else eval (at v s) q)
unfolding eval set_peer
eval-set_peer-at true [] id true q = ground arith
eval-set_peer-at true (x ∷ s) id true q = ground (arith, elem-delete id q (x ∷ s))
eval-set_peer-at true s id false q = ground (arith, elem-insert id q s)
eval-set_peer-at false s id true q = ground (arith, elem-insert id q s)
eval-set_peer-at false [] id false q = ground arith
eval-set_peer-at false (x ∷ s) id false q = ground (arith, elem-delete id q (x ∷ s))

set_peer_changed_at :
    (v : Bool) (s : List PeerId) (id : PeerId) (value : Bool)
    → (set_peer (at v s) id value).1 ≡ not (beq (eval (at v s) id) value)
unfolding eval set_peer
set_peer_changed_at true [] id true = refl
set_peer_changed_at true (x ∷ s) id true = ground (arith, delete_shorter id (x ∷ s))
set_peer_changed_at true s id false = ground (arith, delete_shorter id s)
set_peer_changed_at false s id true = ground (arith, delete_shorter id s)
set_peer_changed_at false [] id false = refl
set_peer_changed_at false (x ∷ s) id false = ground (arith, delete_shorter id (x ∷ s))

-- Setting a peer makes that peer evaluate to the given value, and no other peer's answer changes.
pub eval-set_peer :
    (p : Policy) (id : PeerId) (value : Bool) (q : PeerId)
    → eval (set_peer p id value).0 q ≡ (if id == q then value else eval p q)
eval-set_peer p = eval-set_peer-at p.value p.except

-- `set_peer` reports a change exactly when the peer's answer was not the given value.
pub set_peer_changed :
    (p : Policy) (id : PeerId) (value : Bool)
    → (set_peer p id value).1 ≡ not (beq (eval p id) value)
set_peer_changed p = set_peer_changed_at p.value p.except

fresh : List PeerId → PeerId
fresh [] = 0
fresh (x ∷ s) = suc x + fresh s

elem_above : (a : PeerId) (s : List PeerId) → fresh s ≤ a → elem a s ≡ false
unfolding fresh
elem_above a [] h = refl
elem_above a (x ∷ s) h = ground (arith, elem_above a s)

some_peer : Policy → Bool → PeerId
unfolding fresh
some_peer p value = elim p.except [
  | [] ↦ 0
  | x ∷ s ↦ if beq value p.value then fresh (x ∷ s) else x
]

any-at :
    (v : Bool) (s : List PeerId) (value : Bool)
    → any (at v s) value ≡ true
    → eval (at v s) (some_peer (at v s) value) ≡ value
unfolding any eval some_peer
any-at true [] true h = refl
any-at true [] false h = cc
any-at false [] true h = cc
any-at false [] false h = refl
any-at true (x ∷ s) true h = ground (arith, elem_above (fresh (x ∷ s)) (x ∷ s))
any-at false (x ∷ s) false h = ground (arith, elem_above (fresh (x ∷ s)) (x ∷ s))
any-at true (x ∷ s) false h = ground arith
any-at false (x ∷ s) true h = ground arith

not-any-at :
    (v : Bool) (s : List PeerId) (value : Bool)
    → any (at v s) value ≡ false
    → (id : PeerId) → eval (at v s) id ≡ not value
unfolding any eval
not-any-at true [] true h id = cc
not-any-at true [] false h id = refl
not-any-at false [] true h id = refl
not-any-at false [] false h id = cc
not-any-at true (x ∷ s) v h id = ground arith
not-any-at false (x ∷ s) v h id = ground arith

not_self : (b : Bool) → b ≢ not b
not_self true = λ e. cc
not_self false = λ e. cc

-- `any` answers true exactly if some peer evaluates to the value.
pub any_iff :
    (p : Policy) (value : Bool) → (any p value ≡ true) ↔ ((id : PeerId) × (eval p id ≡ value))
any_iff p value = (λ h. (some_peer p value, any-at p.value p.except value h), back)
  where
    back : ((id : PeerId) × (eval p id ≡ value)) → any p value ≡ true
    back (id, e) = elim (Bool-cases (any p value)) [
      | inl h ↦ h
      | inr h ↦ absurd (not_self value (sym e ∙ not-any-at p.value p.except value h id))
    ]

elem-insert_all :
    (ids s : List PeerId) (q : PeerId) → elem q (insert_all ids s) ≡ (elem q ids || elem q s)
unfolding insert_all
elem-insert_all [] s q = refl
elem-insert_all (id ∷ ids) s q =
    ground (arith, elem-insert_all ids (insert id s) q, elem-insert id q s)

module _ {Text : Type 0} (decode : Text → Option PeerId) where
  -- What the loop computes where every text decodes.
  abbrev pub Decodes : List Text → List PeerId → Type 0
  Decodes [] [] = Unit {0}
  Decodes (t ∷ ts) (id ∷ ids) = (decode t ≡ some id) × Decodes ts ids
  Decodes _ _ = ⊥

  decode_all_ok :
      (ts : List Text) (ids s : List PeerId)
      → Decodes ts ids
      → decode_all decode ts s ≡ some (insert_all ids s)
  unfolding decode_all insert_all
  decode_all_ok [] [] s d = refl
  decode_all_ok (t ∷ ts) (id ∷ ids) s d =
      rw (d.0, decode_all) (decode_all_ok ts ids (insert id s) d.1)
  decode_all_ok [] (id ∷ ids) s d = absurd d
  decode_all_ok (t ∷ ts) [] s d = absurd d

  -- The policy made from texts that decode gives the value to every peer but those that the texts name.
  pub eval-new_policy_strings :
      (value : Bool) (ts : List Text) (ids : List PeerId) (q : PeerId)
      → Decodes ts ids
      → (p : Policy) × (new_policy_strings decode value ts ≡ some p)
        × (eval p q ≡ (if elem q ids then not value else value))
  unfolding new_policy_strings eval
  eval-new_policy_strings value ts ids q d =
      (at value (insert_all ids []), rw (decode_all_ok ts ids [] d, new_policy_strings), answer)
    where
      answer : eval (at value (insert_all ids [])) q ≡ (if elem q ids then not value else value)
      answer = ground (arith, elem-insert_all ids [] q)

  decode_all_bad :
      (ts : List Text) (t : Text) (us : List Text) (s : List PeerId)
      → decode t ≡ none
      → decode_all decode (ts ++ t ∷ us) s ≡ none
  unfolding decode_all
  decode_all_bad [] t us s h = rw (h, decode_all)
  decode_all_bad (x ∷ ts) t us s h = elim (Option-cases (decode x)) [
    | inl e ↦ rw (e, decode_all)
    | inr (id, e) ↦ rw (e, decode_all) (decode_all_bad ts t us (insert id s) h)
  ]

  -- One text that does not decode, wherever it stands, makes the whole construction fail.
  pub new_policy_strings_bad :
      (value : Bool) (ts : List Text) (t : Text) (us : List Text)
      → decode t ≡ none
      → new_policy_strings decode value (ts ++ t ∷ us) ≡ none
  unfolding new_policy_strings
  new_policy_strings_bad value ts t us h = rw (decode_all_bad ts t us [] h, new_policy_strings)

  module _ (encode : PeerId → Text)
      (decode-encode : (id : PeerId) → decode (encode id) ≡ some id) where
    Decodes-map : (ids : List PeerId) → Decodes (map encode ids) ids
    Decodes-map [] = tt
    Decodes-map (id ∷ ids) = (decode-encode id, Decodes-map ids)

    -- A policy that is written out as texts and made again answers as before.
    pub new_policy_strings-except_strings :
        (p : Policy) (q : PeerId)
        → (p' : Policy) × (new_policy_strings decode p.value (except_strings encode p) ≡ some p')
          × (eval p' q ≡ eval p q)
    unfolding except_strings
    new_policy_strings-except_strings p q =
        let (p', made, answer) =
          eval-new_policy_strings p.value (map encode p.except) p.except q (Decodes-map p.except) in
        (p', made, answer ∙ again)
      where
        again : (if elem q p.except then not p.value else p.value) ≡ eval p q
        again = unfold eval in ground arith
