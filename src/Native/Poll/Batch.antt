-- ===== src/Native/Poll/Batch.antt =====
-- The batch of the messages against a description without positions.
use txmlconnector.Common.{
  ℕ, ◌≡◌, ◌≢◌, ◌+◌, refl, sym, ap, ◌∙◌, Option, none, some, List, [], ◌∷◌, ◌++◌, append-nil,
  append_assoc, Bytes, length, take-append, drop-append,
}
use txmlconnector.Common.{Result, Error}
use txmlconnector.Records.Split.{records}
use txmlconnector.Native.Poll.{
  PollEvent, other, message, messages, unknown, Poller, PollError, fault_error, split_messages,
  place, batch, tail_event, decode_records, counted_fault, finish_poll, decode_reply,
}

-- An error of the splitter that does not count ends the poll with an error.
uncounted :
    {C : Type 0} (fault : Option Error) (c : Poller C)
    → counted_fault fault c ≡ none
    → fault_error fault ≢ none
unfolding counted_fault
uncounted none c h k = absurd (cc h)
uncounted (some e) c h k = absurd (cc k)

module _ {E M : Type 0} where
  abbrev pub message_list : List (PollEvent E M) → List M
  message_list [] = []
  message_list (message m ∷ es) = m ∷ message_list es
  message_list (other e ∷ es) = message_list es
  message_list (messages l ∷ es) = message_list es
  message_list (unknown t o p ∷ es) = message_list es

  -- The events but the messages.
  abbrev pub without : List (PollEvent E M) → List (PollEvent E M)
  without [] = []
  without (message m ∷ es) = without es
  without (other e ∷ es) = other e ∷ without es
  without (messages l ∷ es) = messages l ∷ without es
  without (unknown t o p ∷ es) = unknown t o p ∷ without es

  -- At the first message stand all of them, and behind it the other events.
  abbrev pub gathered : List (PollEvent E M) → List (PollEvent E M)
  gathered [] = []
  gathered (message m ∷ es) = messages (m ∷ message_list es) ∷ without es
  gathered (other e ∷ es) = other e ∷ gathered es
  gathered (messages l ∷ es) = messages l ∷ gathered es
  gathered (unknown t o p ∷ es) = unknown t o p ∷ gathered es

  -- An event that is kept behind the first message.
  kept_rest :
      (e : PollEvent E M) (es front behind : List (PollEvent E M)) (m : M) (ms : List M)
      → place (split_messages es (front ++ (behind ++ e ∷ [])) (m ∷ ms) (some (length front)))
        ≡ front ++ messages (m ∷ (ms ++ message_list es)) ∷ ((behind ++ e ∷ []) ++ without es)
      → place (split_messages es ((front ++ behind) ++ e ∷ []) (m ∷ ms) (some (length front)))
        ≡ front ++ messages (m ∷ (ms ++ message_list es)) ∷ (behind ++ e ∷ without es)
  kept_rest e es front behind m ms ih =
      ap (λ x. place (split_messages es x (m ∷ ms) (some (length front))))
        (append_assoc front behind (e ∷ []))
      ∙ ih
      ∙ ap (λ x. front ++ messages (m ∷ (ms ++ message_list es)) ∷ x)
          (append_assoc behind (e ∷ []) (without es))

  -- Behind the first message, which stood at the end of `front`.
  gather_rest :
      (es front behind : List (PollEvent E M)) (m : M) (ms : List M)
      → place (split_messages es (front ++ behind) (m ∷ ms) (some (length front)))
        ≡ front ++ messages (m ∷ (ms ++ message_list es)) ∷ (behind ++ without es)
  unfolding split_messages place
  gather_rest [] front behind m ms =
      rw (take-append front behind, drop-append front behind, append-nil ms, append-nil behind) refl
  gather_rest (message n ∷ es) front behind m ms =
      gather_rest es front behind m (ms ++ n ∷ [])
      ∙ ap (λ x. front ++ messages (m ∷ x) ∷ (behind ++ without es))
          (append_assoc ms (n ∷ []) (message_list es))
  gather_rest (other e ∷ es) front behind m ms =
      kept_rest (other e) es front behind m ms (gather_rest es front (behind ++ other e ∷ []) m ms)
  gather_rest (messages l ∷ es) front behind m ms =
      kept_rest (messages l) es front behind m ms
        (gather_rest es front (behind ++ messages l ∷ []) m ms)
  gather_rest (unknown t o p ∷ es) front behind m ms =
      kept_rest (unknown t o p) es front behind m ms
        (gather_rest es front (behind ++ unknown t o p ∷ []) m ms)

  -- In front of the first message.
  gather_front :
      (es front : List (PollEvent E M))
      → place (split_messages es front [] none) ≡ front ++ gathered es
  unfolding split_messages place
  gather_front [] front = sym (append-nil front)
  gather_front (message m ∷ es) front =
      ap (λ x. place (split_messages es x (m ∷ []) (some (length front)))) (sym (append-nil front))
      ∙ gather_rest es front [] m []
  gather_front (other e ∷ es) front =
      gather_front es (front ++ other e ∷ []) ∙ append_assoc front (other e ∷ []) (gathered es)
  gather_front (messages l ∷ es) front =
      gather_front es (front ++ messages l ∷ [])
      ∙ append_assoc front (messages l ∷ []) (gathered es)
  gather_front (unknown t o p ∷ es) front =
      gather_front es (front ++ unknown t o p ∷ [])
      ∙ append_assoc front (unknown t o p ∷ []) (gathered es)

  pub batch-gathered : (es : List (PollEvent E M)) → batch es ≡ gathered es
  unfolding batch
  batch-gathered es = gather_front es []

  module _ {C : Type 0} (cp1251 : Bytes → Bytes) (inflate : Bytes → Option ℕ)
      (decoders : ℕ → Option (Poller C → Bytes → Result (List (PollEvent E M)) × Poller C)) where
    -- A payload that is decoded without an error gives the events of its records, in their order, but for
    -- the messages: all of them stand, in their order, in one event at the place of the first. The event
    -- of a record whose layout is unknown is the last.
    pub decode_reply-gathered :
        (payload : Bytes) (c : Poller C)
        → (decode_reply cp1251 inflate decoders payload c).1 ≡ none
        → (es : List (PollEvent E M)) × (c' : Poller C) × (decode_records cp1251 inflate decoders
              (records inflate payload).out
              []
              c'
            ≡ (es, none, (decode_reply cp1251 inflate decoders payload c).2))
          × ((decode_reply cp1251 inflate decoders payload c).0
              ≡ gathered es ++ tail_event payload (records inflate payload).fault)
    unfolding decode_reply finish_poll
    decode_reply-gathered payload c h =
        by_fault (counted_fault (records inflate payload).fault (record c { polls = c.polls + 1 }))
          refl h
      where
        loop : Poller C → List (PollEvent E M) × Option Error × Poller C
        loop c' = decode_records cp1251 inflate decoders (records inflate payload).out [] c'

        result : Option (Poller C) → List (PollEvent E M) × Option PollError × Poller C
        result x = elim x [
          | none ↦
              ([], fault_error (records inflate payload).fault, record c { polls = c.polls + 1 })
          | some c'' ↦ finish_poll payload (records inflate payload).fault (loop c'')
        ]

        by_loop :
            (x : List (PollEvent E M) × Option Error × Poller C)
            → (finish_poll payload (records inflate payload).fault x).1 ≡ none
            → (es : List (PollEvent E M)) × (x
                ≡ (es, none, (finish_poll payload (records inflate payload).fault x).2))
              × ((finish_poll payload (records inflate payload).fault x).0
                  ≡ gathered es ++ tail_event payload (records inflate payload).fault)
        by_loop (es, none, c'') k = (
          es,
          refl,
          ap (λ y. y ++ tail_event payload (records inflate payload).fault) (batch-gathered es),
        )
        by_loop (es, some e, c'') k = absurd (cc k)

        by_fault :
            (x : Option (Poller C))
            → counted_fault (records inflate payload).fault (record c { polls = c.polls + 1 }) ≡ x
            → (result x).1 ≡ none
            → (es : List (PollEvent E M)) × (c' : Poller C) × (loop c' ≡ (es, none, (result x).2))
              × ((result x).0 ≡ gathered es ++ tail_event payload (records inflate payload).fault)
        by_fault none f k =
            absurd
              (uncounted (records inflate payload).fault (record c { polls = c.polls + 1 }) f k)
        by_fault (some c'') f k =
            let (es, whole, events) = by_loop (loop c'') k in (es, c'', whole, events)
