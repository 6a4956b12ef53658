-- ===== src/Net/Server/Accept.antt =====
-- NetCommon/include/net_server.hpp: the state of a server, its start and stop, the handler of an
-- accepted connection, and the handlers that a derived server can override.
use log_grid.Base.{Bool, List, Option, [], false, none, some, true, ℕ, ◌%◌, ◌++◌, ◌+◌, ◌^◌, ◌∷◌}
use log_grid.Net.Message.{Message}
use log_grid.Net.Connection.Reader.{Connection, connect_to_client, new_connection, owner_server}

-- The virtual functions, on the state of the derived server; `none` where one of them leaves the
-- defined behaviour. A shared pointer to a connection is its address, or `none`.
pub record ServerHandlers (S : Type 0) : Type 0 where
  pub on_client_connect : Option ℕ → S → Bool × S
  pub on_client_disconnect : Option ℕ → S → Option S
  pub on_message : Option ℕ → Message → S → Option S

-- The defaults: a connection is denied, and nothing else is done.
abbrev pub default_handlers : {S : Type 0} → ServerHandlers S
default_handlers = record {
  on_client_connect = λ client s. (false, s);
  on_client_disconnect = λ client s. some s;
  on_message = λ client msg s. some s;
}

-- `accepting` tells whether an async_accept is under way, `running` whether the thread of the context
-- is joinable.
pub record ServerInterface : Type 0 where
  pub connections : List Connection
  pub id_counter : ℕ
  pub accepting : Bool
  pub running : Bool
  pub stopped : Bool

-- The constructor, where the acceptor could be bound.
abbrev pub new_server : ServerInterface
new_server = record {
  connections = [];
  id_counter = 10000;
  accepting = false;
  running = false;
  stopped = false;
}

-- WaitForClientConnection, up to the handler.
abbrev pub wait_for_client_connection : ServerInterface → ServerInterface
wait_for_client_connection server = record server { accepting = true }

-- `Start`, called once: whether it worked; the arguments tell whether async_accept and std::thread return or throw.
unfoldable pub start : Bool → Bool → ServerInterface → Bool × ServerInterface
start false can_run server = (false, server)
start true false server = (false, wait_for_client_connection server)
start true true server = (true, record (wait_for_client_connection server) { running = true })

-- `Stop`: nothing runs once the thread is joined.
unfoldable pub stop : ServerInterface → ServerInterface
stop server = record server { stopped = true; running = false }

-- What async_accept hands to its handler: an error, or the connection to make of the socket, which is
-- open or not, and whose remote_endpoint is known or throws.
pub data AcceptResult : Type 0 where
  accept_error : AcceptResult
  accepted : (address : ℕ) (is_open has_endpoint : Bool) → AcceptResult

-- The last connection is given the next id and starts to read; the counter is a uint32_t.
abbrev pub add_connection : Connection → ServerInterface → ServerInterface
add_connection c server = record server {
  connections = server.connections ++ (connect_to_client server.id_counter c ∷ []);
  id_counter = (server.id_counter + 1) % 2 ^ 32;
}

module _ {S : Type 0} (handlers : ServerHandlers S) where
  abbrev pub decided : Connection → Bool × S → ServerInterface → ServerInterface × S
  decided c (true, s) server = (wait_for_client_connection (add_connection c server), s)
  decided c (false, s) server = (wait_for_client_connection server, s)

  -- The handler of WaitForClientConnection; `none` where an exception leaves it, which ends the
  -- program.
  unfoldable pub on_accept : AcceptResult → ServerInterface → S → Option (ServerInterface × S)
  on_accept accept_error server s = some (wait_for_client_connection server, s)
  on_accept (accepted address is_open false) server s = none
  on_accept (accepted address is_open true) server s = some (
      decided (new_connection address owner_server is_open)
        (handlers.on_client_connect (some address) s) server)

  -- One after the other.
  unfoldable pub accept_all : List AcceptResult → ServerInterface → S → Option (ServerInterface × S)
  accept_all [] server s = some (server, s)
  accept_all (result ∷ results) server s = elim (on_accept result server s) [
    | none ↦ none
    | some (server', s') ↦ accept_all results server' s'
  ]
