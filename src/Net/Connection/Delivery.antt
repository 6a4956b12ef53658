-- ===== src/Net/Connection/Delivery.antt =====
-- What a connection delivers: the handlers of its reads, driven by the bytes that come in.
use mathlib.Core.List.{append_assoc, append-nil}
use log_grid.Base.{
  All, Bool, Bool-cases, List, [], ap, arith, drop, drop-take, false, if◌then◌else◌, inl, inr,
  length, ltb, refl, some, suc, sym, take, take-take, true, zero, ℕ, ◌++◌, ◌∙◌, ◌∷◌, ◌≡◌,
}
use log_grid.Net.Bytes.{from_le}
use log_grid.Net.Message.{Message}
use log_grid.Net.Queue.{push_back}
use log_grid.Net.Connection.{Writer, no_write, read_messages}
use log_grid.Net.Connection.Writing.{Reachable}
use log_grid.Net.Connection.Reading.{IsFramed, read_messages-Reachable}
use log_grid.Net.Connection.Reader.{
  Connection, Inbox, OwnedMessage, Owner, ReadPhase, add_to_incoming, body_read, deliver,
  header_read, no_read, on_body_read, on_header_read, owner_client, owner_server,
}

abbrev waits_for_body : ReadPhase → Bool
waits_for_body no_read = false
waits_for_body header_read = false
waits_for_body body_read = true

-- The context calls the handlers as the bytes come in, and waits where they do not suffice; one fuel
-- for each message.
unfoldable pub feed : ℕ → List ℕ → Connection → Inbox → Connection × Inbox
feed zero bytes c inbox = (c, inbox)
feed (suc fuel) bytes c inbox =
    let (c', inbox') = on_header_read (some (take 8 bytes)) c inbox in
    let rest = drop 8 bytes in
    let size = c'.temporary_in.size in
    let (c'', inbox'') = on_body_read (some (take size rest)) c' inbox' in
    let with_body = feed fuel (drop size rest) c'' inbox'' in
    let without_body = feed fuel rest c' inbox' in
    if ltb (length bytes) 8
    then (c, inbox)
    else if waits_for_body c'.read_phase
    then (if ltb (length rest) size then (c', inbox') else with_body)
    else without_body

abbrev deliver_all : Owner → Bool → ℕ → List Message → Inbox → Inbox
deliver_all owner has_callback address [] inbox = inbox
deliver_all owner has_callback address (m ∷ ms) inbox =
    deliver_all owner has_callback address ms (deliver owner has_callback address m inbox)

header_id : (bytes : List ℕ) → take 4 (take 8 bytes) ≡ take 4 bytes
header_id bytes = take-take 4 8 bytes (omega arith)

header_size : (bytes : List ℕ) → take 4 (drop 4 (take 8 bytes)) ≡ take 4 (drop 4 bytes)
header_size bytes =
    ap (take 4) (drop-take 4 8 4 bytes (omega arith)) ∙ take-take 4 4 (drop 4 bytes) (omega arith)

-- The handlers deliver, in order, the messages that the bytes hold, whatever the owner of the
-- connection and wherever the bytes end.
pub feed-read_messages :
    (fuel : ℕ) (bytes : List ℕ) (c : Connection) (inbox : Inbox)
    → (feed fuel bytes c inbox).1
      ≡ deliver_all c.owner c.has_callback c.address
          (read_messages fuel c.temporary_in.body bytes)
          inbox
unfolding feed read_messages on_header_read on_body_read add_to_incoming
feed-read_messages zero bytes c inbox = refl
feed-read_messages (suc fuel) bytes c inbox = elim (Bool-cases (ltb (length bytes) 8)) [
  | inl short ↦ rw short refl
  | inr long ↦
      rw (long, header_id bytes, header_size bytes)
        (elim (Bool-cases (ltb 0 (from_le (take 4 (drop 4 bytes))))) [
          | inl some_body ↦
              rw some_body
                (elim (Bool-cases (ltb (length (drop 8 bytes)) (from_le (take 4 (drop 4 bytes))))) [
                  | inl cut ↦ rw cut refl
                  | inr whole ↦ rw whole (feed-read_messages fuel _ _ _)
                ])
          | inr no_body ↦ rw no_body (feed-read_messages fuel _ _ _)
        ])
]

-- The messages with the connection they came by.
unfoldable pub owned_by : ℕ → List Message → List OwnedMessage
owned_by address [] = []
owned_by address (m ∷ ms) = record { remote = some address; msg = m } ∷ owned_by address ms

deliver_all-server :
    (has_callback : Bool) (address : ℕ) (ms : List Message) (inbox : Inbox)
    → (deliver_all owner_server has_callback address ms inbox).messages_in.deq_queue
      ≡ inbox.messages_in.deq_queue ++ owned_by address ms
unfolding owned_by push_back
deliver_all-server has_callback address [] inbox = sym (append-nil inbox.messages_in.deq_queue)
deliver_all-server has_callback address (m ∷ ms) inbox =
    deliver_all-server has_callback address ms _
    ∙ append_assoc inbox.messages_in.deq_queue _ (owned_by address ms)

-- From one side to the queue of the other: when the server's connection has been given the bytes of
-- all the messages posted on a connection on which no write is under way and none has failed, its
-- handlers have appended these messages to the queue of the server, in order and unchanged, each with
-- the connection it came by. The messages have a body, and a header that tells its size.
pub feed-Reachable :
    (posted : List Message) (w : Writer) (c : Connection) (inbox : Inbox)
    → Reachable posted w
    → w.phase ≡ no_write
    → All IsFramed posted
    → c.owner ≡ owner_server
    → (feed (length posted) w.wire c inbox).1.messages_in.deq_queue
      ≡ inbox.messages_in.deq_queue ++ owned_by c.address posted
feed-Reachable posted w c inbox r idle framed of_server =
    ap (λ i. i.messages_in.deq_queue) (feed-read_messages (length posted) w.wire c inbox)
    ∙ (ap (λ ms. (deliver_all c.owner c.has_callback c.address ms inbox).messages_in.deq_queue)
          (read_messages-Reachable posted w c.temporary_in.body r idle framed)
        ∙ (ap (λ o. (deliver_all o c.has_callback c.address posted inbox).messages_in.deq_queue)
              of_server
            ∙ deliver_all-server c.has_callback c.address posted inbox))

-- A client's connection with a callback hands the messages to it, and leaves the queue as it was.
deliver_all-callback :
    (address : ℕ) (ms : List Message) (inbox : Inbox)
    → deliver_all owner_client true address ms inbox ≡ record inbox { called = inbox.called ++ ms }
deliver_all-callback address [] inbox =
    ap (λ l. record inbox { called = l }) (sym (append-nil inbox.called))
deliver_all-callback address (m ∷ ms) inbox =
    deliver_all-callback address ms _
    ∙ ap (λ l. record inbox { called = l }) (append_assoc inbox.called (m ∷ []) ms)

-- On the side of a client that has set a callback, the callback is called with the messages posted on
-- the other side, in order and unchanged, and the queue stays as it was, once no write is under way
-- and if none has failed. The messages have a body, and a header that tells its size.
pub feed-callback :
    (posted : List Message) (w : Writer) (c : Connection) (inbox : Inbox)
    → Reachable posted w
    → w.phase ≡ no_write
    → All IsFramed posted
    → c.owner ≡ owner_client
    → c.has_callback ≡ true
    → (feed (length posted) w.wire c inbox).1 ≡ record inbox { called = inbox.called ++ posted }
feed-callback posted w c inbox r idle framed of_client set =
    feed-read_messages (length posted) w.wire c inbox
    ∙ (ap (λ ms. deliver_all c.owner c.has_callback c.address ms inbox)
          (read_messages-Reachable posted w c.temporary_in.body r idle framed)
        ∙ (ap (λ o. deliver_all o c.has_callback c.address posted inbox) of_client
            ∙ (ap (λ b. deliver_all owner_client b c.address posted inbox) set
                ∙ deliver_all-callback c.address posted inbox)))
