-- ===== src/Net/Connection/Reader.antt =====
-- NetCommon/include/net_connection.hpp: the state of a connection but for its writes, its opening and
-- closing, and the handlers of its reads.
use log_grid.Base.{
  Bool, List, Option, [], drop, false, if◌then◌else◌, ltb, none, some, suc, take, true, zero, ℕ,
  ◌&&◌, ◌++◌, ◌∷◌,
}
use log_grid.Net.Bytes.{from_le}
use log_grid.Net.Message.{Message, empty}
use log_grid.Net.Queue.{TsQueue, push_back}

-- `enum class owner`
pub data Owner : Type 0 where
  owner_server owner_client : Owner

-- The asynchronous read that is under way, if any.
pub data ReadPhase : Type 0 where
  no_read header_read body_read : ReadPhase

-- `address` stands for the connection object itself, `id` is what GetID gives; `has_callback` tells
-- whether m_msgCallback is set.
pub record Connection : Type 0 where
  pub address : ℕ
  pub owner : Owner
  pub id : ℕ
  pub is_open : Bool
  pub has_callback : Bool
  pub temporary_in : Message
  pub read_phase : ReadPhase

-- `owned_message`
pub record OwnedMessage : Type 0 where
  pub remote : Option ℕ
  pub msg : Message

-- Where messages go: the queue of the connection's owner, or the callback, with its calls so far.
pub record Inbox : Type 0 where
  pub messages_in : TsQueue OwnedMessage
  pub called : List Message

-- The constructor; the socket that it is given is open or not.
abbrev pub new_connection : ℕ → Owner → Bool → Connection
new_connection address owner is_open = record {
  address = address;
  owner = owner;
  id = 0;
  is_open = is_open;
  has_callback = false;
  temporary_in = empty;
  read_phase = no_read;
}

abbrev pub get_id : Connection → ℕ
get_id c = c.id

abbrev pub is_server : Owner → Bool
is_server owner_server = true
is_server owner_client = false

-- ReadHeader starts a read.
abbrev pub read_header : Connection → Connection
read_header c = record c { read_phase = header_read }

-- `m_socket.close()`: no read is under way then.
abbrev pub close_socket : Connection → Connection
close_socket c = record c { is_open = false; read_phase = no_read }

-- `ConnectToClient`
unfoldable pub connect_to_client : ℕ → Connection → Connection
connect_to_client uid c =
    if is_server c.owner && c.is_open then read_header (record c { id = uid }) else c

-- The handler of ConnectToServer, with the success of the connection; the second component is what
-- `funcHandler` is called with.
unfoldable pub on_connected : Bool → Connection → Connection × Bool
on_connected true c = (read_header (record c { is_open = true }), true)
on_connected false c = (close_socket c, false)

abbrev pub is_connected : Connection → Bool
is_connected c = c.is_open

-- `Disconnect` posts a handler that closes the socket, if there is a connection: whether it does.
unfoldable pub disconnect_posts : Connection → Bool
disconnect_posts c = is_connected c

abbrev pub set_msg_callback : Connection → Connection
set_msg_callback c = record c { has_callback = true }

-- Where AddToIncomingMessageQueue puts a message, by owner and callback: a server's connection gives
-- itself along, a client's a null pointer.
abbrev pub deliver : Owner → Bool → ℕ → Message → Inbox → Inbox
deliver owner_server has_callback address msg inbox = record inbox {
  messages_in = push_back (record { remote = some address; msg = msg }) inbox.messages_in;
}
deliver owner_client true address msg inbox = record inbox { called = inbox.called ++ (msg ∷ []) }
deliver owner_client false address msg inbox = record inbox {
  messages_in = push_back (record { remote = none; msg = msg }) inbox.messages_in;
}

-- `AddToIncomingMessageQueue`
unfoldable pub add_to_incoming : Connection → Inbox → Connection × Inbox
add_to_incoming c inbox =
    (read_header c, deliver c.owner c.has_callback c.address c.temporary_in inbox)

-- `resize` of a vector of bytes
unfoldable pub resize : ℕ → List ℕ → List ℕ
resize zero bytes = []
resize (suc n) [] = 0 ∷ resize n []
resize (suc n) (b ∷ bytes) = b ∷ resize n bytes

-- The header that was read into memory.
abbrev pub with_header : List ℕ → Message → Message
with_header bytes m = record m {
  id = from_le (take 4 bytes);
  size = from_le (take 4 (drop 4 bytes));
}

-- The handler of ReadHeader, with the 8 bytes read, or `none` for an error.
unfoldable pub on_header_read : Option (List ℕ) → Connection → Inbox → Connection × Inbox
on_header_read none c inbox = (close_socket c, inbox)
on_header_read (some bytes) c inbox =
    let m = with_header bytes c.temporary_in in
    if ltb 0 m.size
    then (
      record c { temporary_in = record m { body = resize m.size m.body }; read_phase = body_read },
      inbox,
    )
    else add_to_incoming (record c { temporary_in = m }) inbox

-- The handler of ReadBody, with the bytes of the body, or `none` for an error.
unfoldable pub on_body_read : Option (List ℕ) → Connection → Inbox → Connection × Inbox
on_body_read none c inbox = (close_socket c, inbox)
on_body_read (some bytes) c inbox =
    add_to_incoming (record c { temporary_in = record c.temporary_in { body = bytes } }) inbox
