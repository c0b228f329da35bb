-- ===== src/Server/Client.antt =====
-- api/v0/libp2pclient/client.go: the client's use of its stream. The lock makes each call one step.
pub mod Laws
mod Tests
use storetheindex.Prelude.{
  ℕ, Bool, true, false, Option, none, some, List, [], ◌∷◌, ◌++◌, if◌then◌else◌,
}
use storetheindex.Prelude.Result.{Result, ok, err}

-- The stream of the client, as the messages that were written to it and whose responses were not read:
-- the peer answers a stream's messages in their order.
pub record Client : Type 0 where
  pub stream : Option (List ℕ)

-- What comes from outside in a call: whether a stream can be opened, whether the message can be written,
-- and how the wait for the response ends.
pub data Wait : Type 0 where
  responds : Bool → Wait
  unreadable cancelled timed_out : Wait

pub record Outside : Type 0 where
  pub opens : Bool
  pub writes : Bool
  pub wait : Wait

pub data SendError : Type 0 where
  not_opened not_written not_read not_decoded : SendError

-- closeStream
abbrev pub close_stream : Client → Client
close_stream c = record c { stream = none }

-- prepStreamReader
unfoldable pub prep_stream_reader : Outside → Client → Client × Option SendError
prep_stream_reader o c = elim c.stream [
  | some l ↦ (c, none)
  | none ↦ if o.opens then (record c { stream = some [] }, none) else (c, some not_opened)
]

-- sendMessage
unfoldable pub send_message : Outside → Client → ℕ → Client × Option SendError
unfolding prep_stream_reader
send_message o c msg =
    let (c', e) = prep_stream_reader o c in
    elim e [
      | some x ↦ (c', some x)
      | none ↦ elim c'.stream [
        | none ↦ (c', none)
        | some l ↦
            if o.writes
            then (record c' { stream = some (l ++ (msg ∷ [])) }, none)
            else (close_stream c', some not_written)
      ]
    ]

-- ctxReadMsg: the message whose response was read and decoded, if there is one
unfoldable pub ctx_read_msg : Outside → Client → Client × Result SendError ℕ
ctx_read_msg o c = elim o.wait [
  | responds decoded ↦ elim c.stream [
    | some (m ∷ l) ↦ (record c { stream = some l }, if decoded then ok m else err not_decoded)
    | _ ↦ (c, err not_read)
  ]
  | _ ↦ (c, err not_read)
]

-- SendRequest
unfoldable pub send_request : Outside → Client → ℕ → Client × Result SendError ℕ
unfolding send_message ctx_read_msg
send_request o c msg =
    let (c', e) = send_message o c msg in
    elim e [
      | some x ↦ (c', err x)
      | none ↦
          let (c'', r) = ctx_read_msg o c' in
          elim r [ err x ↦ (close_stream c'', err x) | ok m ↦ (c'', ok m) ]
    ]

-- The requests of a client, one after another
unfoldable pub requests : Client → List (Outside × ℕ) → Client × List (Result SendError ℕ)
unfolding send_request
requests c [] = (c, [])
requests c ((o, msg) ∷ calls) =
    let (c', r) = send_request o c msg in let (c'', rs) = requests c' calls in (c'', r ∷ rs)

-- Close, as to the stream
unfoldable pub close : Client → Client
close c = elim c.stream [ none ↦ c | some l ↦ close_stream c ]
