-- ===== src/Net/Client.antt =====
-- NetCommon/include/net_client.hpp: the state of a client, how it connects and disconnects, and what
-- the handlers of its connection call.
use mathlib.Core.List.{append-nil}
use log_grid.Base.{
  Bool, List, Option, [], ap, false, if◌then◌else◌, none, refl, some, true, ℕ, ◌&&◌, ◌++◌, ◌∷◌, ◌≡◌,
}
use log_grid.Net.Message.{Message}
use log_grid.Net.Queue.{TsQueue, new_queue}
use log_grid.Net.Connection.Reader.{
  Connection, OwnedMessage, close_socket, disconnect_posts, is_connected, new_connection,
  on_connected, owner_client, set_msg_callback,
}

-- The virtual functions, on the state of the derived client.
pub record ClientHandlers (S : Type 0) : Type 0 where
  pub on_connection_result : Bool → S → S
  pub on_message : Message → S → Option S

abbrev pub default_handlers : {S : Type 0} → ClientHandlers S
default_handlers = record { on_connection_result = λ connected s. s; on_message = λ msg s. some s }

-- `m_connection` is `none` for a null pointer. `sent` are the messages given to a connection,
-- `released` the connections that the pointer has let go without their destructor.
pub record ClientInterface : Type 0 where
  pub connection : Option Connection
  pub messages_in : TsQueue OwnedMessage
  pub running : Bool
  pub stopped : Bool
  pub sent : List Message
  pub released : List Connection

abbrev pub new_client : ClientInterface
new_client = record {
  connection = none;
  messages_in = new_queue;
  running = false;
  stopped = false;
  sent = [];
  released = [];
}

abbrev connected_to : Option Connection → Bool
connected_to none = false
connected_to (some c) = is_connected c

-- `IsConnected`
unfoldable pub client_is_connected : ClientInterface → Bool
client_is_connected client = connected_to client.connection

-- `Send`
unfoldable pub client_send : Message → ClientInterface → ClientInterface
client_send msg client =
    if client_is_connected client
    then record client { sent = client.sent ++ (msg ∷ []) }
    else client

-- The connection that Connect makes: its socket is not open yet, and its callback is set.
abbrev pub made_connection : ℕ → Connection
made_connection address = set_msg_callback (new_connection address owner_client false)

-- `Connect`: what it returns; the arguments tell whether the host is resolved, and whether std::thread
-- returns, or throws.
unfoldable pub connect : Bool → Bool → ℕ → ClientInterface → Bool × ClientInterface
connect false can_run address client = (false, client)
connect true false address client =
    (false, record client { connection = some (made_connection address) })
connect true true address client =
    (true, record client { connection = some (made_connection address); running = true })

-- The context of a client whose pointer is not null runs the handler of ConnectToServer.
module _ {S : Type 0} (handlers : ClientHandlers S) where
  abbrev told_result : Connection × Bool → ClientInterface → S → ClientInterface × S
  told_result (c, result) client s =
      (record client { connection = some c }, handlers.on_connection_result result s)

  abbrev result_for : Option Connection → Bool → ClientInterface → S → ClientInterface × S
  result_for none ok client s = (client, s)
  result_for (some c) ok client s = told_result (on_connected ok c) client s

  unfoldable pub on_connect_handler : Bool → ClientInterface → S → ClientInterface × S
  on_connect_handler ok client s = result_for client.connection ok client s

-- `Disconnect` posts the closing of the socket and stops the context; `runs_first` tells whether the
-- thread of the context gets to the handler before. The pointer is released, not reset.
abbrev closed_if : Bool → Connection → Connection
closed_if true c = close_socket c
closed_if false c = c

abbrev let_go : Bool → Option Connection → List Connection
let_go runs_first none = []
let_go runs_first (some c) = closed_if (runs_first && disconnect_posts c) c ∷ []

unfoldable pub disconnect : Bool → ClientInterface → ClientInterface
disconnect runs_first client = record client {
  connection = none;
  running = false;
  stopped = true;
  released = client.released ++ let_go runs_first client.connection;
}

-- `Incomming`
abbrev pub incomming : ClientInterface → TsQueue OwnedMessage
incomming client = client.messages_in

-- After Disconnect a client is not connected, whenever the context stops: it sends nothing more, and a
-- second Disconnect, such as that of the destructor, changes nothing.
pub disconnect_lem :
    (runs_first again : Bool) (msg : Message) (client : ClientInterface)
    → (client_is_connected (disconnect runs_first client) ≡ false)
      × (client_send msg (disconnect runs_first client) ≡ disconnect runs_first client)
      × (disconnect again (disconnect runs_first client) ≡ disconnect runs_first client)
unfolding disconnect client_is_connected client_send
disconnect_lem runs_first again msg client = (
  refl,
  refl,
  ap (λ l. record (disconnect runs_first client) { released = l })
      (append-nil (client.released ++ let_go runs_first client.connection)),
)

-- A connection that could not be made is closed: then the client is not connected, sends nothing, and
-- the derived client is told so; one that was made is connected, is read from, and the derived client
-- is told so too. For a client that Connect has made a connection for.
pub on_connect_handler-connect :
    {S : Type 0} (handlers : ClientHandlers S) (ok : Bool) (address : ℕ) (client : ClientInterface)
    (s : S)
    → (client_is_connected (on_connect_handler handlers ok (connect true true address client).1 s).0
        ≡ ok)
      × ((on_connect_handler handlers ok (connect true true address client).1 s).1
          ≡ handlers.on_connection_result ok s)
unfolding on_connect_handler connect client_is_connected on_connected
on_connect_handler-connect handlers true address client s = (refl, refl)
on_connect_handler-connect handlers false address client s = (refl, refl)
