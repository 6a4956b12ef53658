-- ===== src/Net/Server.antt =====
-- NetCommon/include/net_server.hpp: sending to the clients of a server. A std::shared_ptr to a
-- connection is its id, or `none` for a null pointer. Parameters are what the connections and the
-- derived server do, on a state of theirs.
pub mod Kept
pub mod Accept
pub mod Ids
pub mod Update
use log_grid.Base.{Bool, List, Option, [], false, if◌then◌else◌, none, some, true, ℕ, ◌==◌, ◌∷◌}
use log_grid.Net.Message.{Message}

-- IsConnected and Send of a connection, and the handler OnClientDisconnect.
pub record Clients (S : Type 0) : Type 0 where
  pub is_connected : ℕ → Bool
  pub send : ℕ → Message → S → S
  pub on_client_disconnect : Option ℕ → S → S

-- `erase(remove(..., nullptr))`
unfoldable pub erase_null : List (Option ℕ) → List (Option ℕ)
erase_null [] = []
erase_null (none ∷ cs) = erase_null cs
erase_null (some c ∷ cs) = some c ∷ erase_null cs

module _ {S : Type 0} (clients : Clients S) where
  -- `client && client->IsConnected()`
  abbrev pub usable : Option ℕ → Bool
  usable none = false
  usable (some c) = clients.is_connected c

  abbrev pub send_to : Option ℕ → Message → S → S
  send_to none msg s = s
  send_to (some c) msg s = clients.send c msg s

  -- `MessageClient`: `client` is a copy of the pointer, and is null when `remove` compares with it.
  unfoldable pub message_client : Option ℕ → Message → List (Option ℕ) × S → List (Option ℕ) × S
  message_client client msg (connections, s) =
      if usable client
      then (connections, send_to client msg s)
      else (erase_null connections, clients.on_client_disconnect client s)

  abbrev pub is_ignored : Option ℕ → Option ℕ → Bool
  is_ignored none none = true
  is_ignored none (some d) = false
  is_ignored (some c) none = false
  is_ignored (some c) (some d) = c == d

  -- The loop of MessageAllClients: a client that is gone becomes a null pointer in the list.
  unfoldable pub message_loop : Message → Option ℕ → List (Option ℕ) → S → List (Option ℕ) × S
  message_loop msg ignored [] s = ([], s)
  message_loop msg ignored (client ∷ others) s =
      let told = if is_ignored client ignored then s else send_to client msg s in
      let stay = message_loop msg ignored others told in
      let gone = message_loop msg ignored others (clients.on_client_disconnect client s) in
      if usable client then (client ∷ stay.0, stay.1) else (none ∷ gone.0, gone.1)

  -- `MessageAllClients`: with no null pointer in the list, erasing them leaves it as it is.
  unfoldable pub message_all_clients :
      Message → Option ℕ → List (Option ℕ) × S → List (Option ℕ) × S
  message_all_clients msg ignored (connections, s) =
      let (left, s') = message_loop msg ignored connections s in (erase_null left, s')
