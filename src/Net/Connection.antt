-- ===== src/Net/Connection.antt =====
-- NetCommon/include/net_connection.hpp: a connection as the handlers of its asynchronous reads and
-- writes, each of which runs on the one thread of the context. asio writes a buffer whole or reports
-- an error, and reads as many bytes as were asked for or reports an error.
pub mod Writing
pub mod Reading
pub mod Reader
pub mod Delivery
use log_grid.Base.{
  Bool, List, [], drop, false, if◌then◌else◌, length, ltb, suc, take, true, zero, ℕ, ◌++◌, ◌∷◌,
}
use log_grid.Net.Bytes.{from_le, le}
use log_grid.Net.Message.{Message}

-- The header as it lies in memory: the number of the kind of message, and the size.
unfoldable pub header_bytes : Message → List ℕ
header_bytes m = le 4 m.id ++ le 4 m.size

-- The asynchronous write that is under way, if any.
pub data WritePhase : Type 0 where
  no_write header_write body_write : WritePhase

-- `wire` is what the other side has been sent.
pub record Writer : Type 0 where
  pub messages_out : List Message
  pub phase : WritePhase
  pub is_open : Bool
  pub wire : List ℕ

abbrev pub new_writer : Writer
new_writer = record { messages_out = []; phase = no_write; is_open = true; wire = [] }

-- WriteHeader is started if there is a message left.
abbrev pub phase_for : List Message → WritePhase
phase_for [] = no_write
phase_for (m ∷ ms) = header_write

abbrev pub phase_after_push : List Message → WritePhase → WritePhase
phase_after_push [] phase = header_write
phase_after_push (m ∷ ms) phase = phase

-- `Send`, in the handler that it posts: a write is started unless the queue shows one under way.
unfoldable pub send : Message → Writer → Writer
send msg w = record w {
  messages_out = w.messages_out ++ (msg ∷ []);
  phase = phase_after_push w.messages_out w.phase;
}

abbrev pub header_done : List Message → Writer → Writer
header_done [] w = w
header_done (m ∷ ms) w =
    let out = record w { wire = w.wire ++ header_bytes m } in
    if ltb 0 (length m.body)
    then record out { phase = body_write }
    else record out { messages_out = ms; phase = phase_for ms }

abbrev pub body_done : List Message → Writer → Writer
body_done [] w = w
body_done (m ∷ ms) w = record w { wire = w.wire ++ m.body; messages_out = ms; phase = phase_for ms }

-- The handler of WriteHeader, with the success of the write.
unfoldable pub on_header_written : Bool → Writer → Writer
on_header_written true w = header_done w.messages_out w
on_header_written false w = record w { is_open = false; phase = no_write }

-- The handler of WriteBody: after an error the socket stays open and the queue as it is.
unfoldable pub on_body_written : Bool → Writer → Writer
on_body_written true w = body_done w.messages_out w
on_body_written false w = record w { phase = no_write }

-- The messages that are read from bytes that have come in, from ReadHeader on; `body` is the body of
-- the message read last, which a message of size 0 leaves as it is. A read that waits for more bytes
-- gives nothing yet. The fuel is for the messages.
unfoldable pub read_messages : ℕ → List ℕ → List ℕ → List Message
read_messages zero body bytes = []
read_messages (suc fuel) body bytes =
    let id = from_le (take 4 bytes) in
    let size = from_le (take 4 (drop 4 bytes)) in
    let after_header = drop 8 bytes in
    let new_body = take size after_header in
    let with_body = read_messages fuel new_body (drop size after_header) in
    let without_body = read_messages fuel body after_header in
    if ltb (length bytes) 8
    then []
    else if ltb 0 size
    then (if ltb (length after_header) size
        then []
        else record { id = id; size = size; body = new_body } ∷ with_body)
    else record { id = id; size = size; body = body } ∷ without_body
