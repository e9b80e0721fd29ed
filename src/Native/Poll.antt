-- ===== src/Native/Poll.antt =====
-- native/client.go, `Poll`: one RQ_MAIN, whose records change the catalog and are decoded to events; the
-- messages among these become one event. The registered decoders are a parameter (`decoders`): a
-- decoder takes the client and the body of a record. Of the statistics those are kept that `Poll` counts.
pub mod Batch
mod Runs
use txmlconnector.Common.{
  ℕ, ◌+◌, Bool, true, false, Option, none, some, List, [], ◌∷◌, ◌++◌, Bytes, length, take, drop,
}
use txmlconnector.Common.{
  ◌==◌, if◌then◌else◌, Error, Result, ok, err, unknown_layout, unknown_record,
}
use txmlconnector.Session.Conn.{SessionError, Answer, answer, failed, Net, Conn}
use txmlconnector.Session.Requests.{MainReply, main}
use txmlconnector.Records.Split.{Record, records}
use txmlconnector.Records.Catalog.{Catalog, apply_mutations}

-- The events of the decoders: a message, or any other; and those that `Poll` makes.
pub data PollEvent (E M : Type 0) : Type 0 where
  other : E → PollEvent E M
  message : M → PollEvent E M
  messages : List M → PollEvent E M
  unknown : ℕ → ℕ → Bytes → PollEvent E M

-- The client, with what `Poll` does not use in `rest`.
pub record Poller (C : Type 0) : Type 0 where
  pub catalog : Catalog
  pub polls : ℕ
  pub unknown_records : ℕ
  pub last_unknown_tag : ℕ
  pub rest : C

pub data PollError : Type 0 where
  exchange_error : SessionError → PollError
  record_error : Error → PollError

-- What the error of the splitter counts for: `none` where it ends the poll.
unfoldable pub counted_fault : {C : Type 0} → Option Error → Poller C → Option (Poller C)
counted_fault none c = some c
counted_fault (some unknown_layout) c = some (record c { unknown_records = c.unknown_records + 1 })
counted_fault (some (unknown_record tag offset)) c =
    some (record c { unknown_records = c.unknown_records + 1; last_unknown_tag = tag })
counted_fault (some e) c = none

abbrev pub fault_error : Option Error → Option PollError
fault_error (some e) = some (record_error e)
fault_error none = none

module _ {E M : Type 0} where
  -- The loop over the events: those that are kept, the messages, and where the first of these stood.
  unfoldable pub split_messages :
      List (PollEvent E M)
      → List (PollEvent E M)
      → List M
      → Option ℕ
      → List (PollEvent E M) × List M × Option ℕ
  split_messages [] kept ms at = (kept, ms, at)
  split_messages (message m ∷ es) kept ms none =
      split_messages es kept (ms ++ m ∷ []) (some (length kept))
  split_messages (message m ∷ es) kept ms (some n) = split_messages es kept (ms ++ m ∷ []) (some n)
  split_messages (other e ∷ es) kept ms at = split_messages es (kept ++ other e ∷ []) ms at
  split_messages (messages l ∷ es) kept ms at = split_messages es (kept ++ messages l ∷ []) ms at
  split_messages (unknown t o p ∷ es) kept ms at =
      split_messages es (kept ++ unknown t o p ∷ []) ms at

  -- The batch goes to the place of the first message.
  unfoldable pub place : List (PollEvent E M) × List M × Option ℕ → List (PollEvent E M)
  place (kept, [], at) = kept
  place (kept, m ∷ ms, none) = kept
  place (kept, m ∷ ms, some n) = take n kept ++ messages (m ∷ ms) ∷ drop n kept

  unfoldable pub batch : List (PollEvent E M) → List (PollEvent E M)
  unfolding split_messages place
  batch events = place (split_messages events [] [] none)

  -- The event of the record that ended the payload.
  unfoldable pub tail_event : Bytes → Option Error → List (PollEvent E M)
  tail_event payload (some (unknown_record tag offset)) =
      unknown tag offset (drop offset payload) ∷ []
  tail_event payload e = []

  -- `Poll` behind the loop.
  unfoldable pub finish_poll :
      {C : Type 0}
      → Bytes
      → Option Error
      → List (PollEvent E M) × Option Error × Poller C
      → List (PollEvent E M) × Option PollError × Poller C
  unfolding batch tail_event
  finish_poll payload fault (events, some e, c) = (events, some (record_error e), c)
  finish_poll payload fault (events, none, c) = (batch events ++ tail_event payload fault, none, c)

  module _ {C : Type 0} (cp1251 : Bytes → Bytes) (inflate : Bytes → Option ℕ)
      (decoders : ℕ → Option (Poller C → Bytes → Result (List (PollEvent E M)) × Poller C)) where
    -- One record: its events, and the client behind it.
    unfoldable pub decode_record : Record → Poller C → Result (List (PollEvent E M)) × Poller C
    decode_record r c =
        let (used, catalog) = apply_mutations cp1251 c.catalog r.tag r.body in
        let c' = record c { catalog = catalog } in
        elim used [
          | err e ↦ (err e, c')
          | ok b ↦ (elim (decoders r.tag) [ none ↦ (ok [], c') | some decode ↦ decode c' r.body ])
        ]

    -- The records in turn; the first error ends the loop.
    unfoldable pub decode_records :
        List Record
        → List (PollEvent E M)
        → Poller C
        → List (PollEvent E M) × Option Error × Poller C
    unfolding decode_record
    decode_records [] events c = (events, none, c)
    decode_records (r ∷ rs) events c =
        let (decoded, c') = decode_record r c in
        elim decoded [
          | err e ↦ (events, some e, c')
          | ok more ↦ decode_records rs (events ++ more) c'
        ]

    unfoldable pub decode_reply :
        Bytes → Poller C → List (PollEvent E M) × Option PollError × Poller C
    unfolding decode_records counted_fault finish_poll
    decode_reply payload c =
        let split = records inflate payload in
        let c' = record c { polls = c.polls + 1 } in
        elim (counted_fault split.fault c') [
          | none ↦ ([], fault_error split.fault, c')
          | some c'' ↦ finish_poll payload split.fault (decode_records split.out [] c'')
        ]

    -- `Poll`: the events, whether there is more, the error, the connection and the client.
    unfoldable pub poll :
        Net → Conn → Poller C → List (PollEvent E M) × Bool × Option PollError × Conn × Poller C
    unfolding decode_reply
    poll net conn c =
        let (result, conn') = main net conn in
        elim result [
          | failed e ↦ ([], false, some (exchange_error e), conn', c)
          | answer reply ↦
              let (events, e, c') = decode_reply reply.payload c in
              (events, reply.more, e, conn', c')
        ]
