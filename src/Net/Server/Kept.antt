-- ===== src/Net/Server/Kept.antt =====
-- Which clients a server keeps.
use log_grid.Base.{
  Bool, Bool-cases, List, Option, [], ap, false, if◌then◌else◌, inl, inr, map, none, refl, some, ℕ,
  ◌∷◌, ◌≡◌,
}
use log_grid.Net.Message.{Message}
use log_grid.Net.Server.{Clients, erase_null, message_all_clients, message_client, message_loop}

-- The clients of the list that are there and connected.
unfoldable pub connected_clients : (ℕ → Bool) → List (Option ℕ) → List (Option ℕ)
connected_clients is_connected [] = []
connected_clients is_connected (none ∷ cs) = connected_clients is_connected cs
connected_clients is_connected (some c ∷ cs) =
    let rest = connected_clients is_connected cs in if is_connected c then some c ∷ rest else rest

module _ {S : Type 0} (clients : Clients S) where
  erase_null-message_loop :
      (msg : Message) (ignored : Option ℕ) (connections : List (Option ℕ)) (s : S)
      → erase_null (message_loop clients msg ignored connections s).0
        ≡ connected_clients clients.is_connected connections
  unfolding message_loop erase_null connected_clients
  erase_null-message_loop msg ignored [] s = refl
  erase_null-message_loop msg ignored (none ∷ cs) s = erase_null-message_loop msg ignored cs _
  erase_null-message_loop msg ignored (some c ∷ cs) s = elim (Bool-cases (clients.is_connected c)) [
    | inl here ↦ rw here (ap (λ l. some c ∷ l) (erase_null-message_loop msg ignored cs _))
    | inr gone ↦ rw gone (erase_null-message_loop msg ignored cs _)
  ]

  -- MessageAllClients keeps the clients that are connected, in order, and no others.
  pub message_all_clients-connected :
      (msg : Message) (ignored : Option ℕ) (connections : List (Option ℕ)) (s : S)
      → (message_all_clients clients msg ignored (connections, s)).0
        ≡ connected_clients clients.is_connected connections
  unfolding message_all_clients
  message_all_clients-connected msg ignored connections s =
      erase_null-message_loop msg ignored connections s

  erase_null-some : (ids : List ℕ) → erase_null (map some ids) ≡ map some ids
  unfolding erase_null
  erase_null-some [] = refl
  erase_null-some (c ∷ cs) = ap (λ l. some c ∷ l) (erase_null-some cs)

  -- MessageClient does not take a client that is gone off the list: with no null pointer in it, the
  -- list stays as it was, while the handler is called.
  pub message_client_gone :
      (client : ℕ) (msg : Message) (ids : List ℕ) (s : S)
      → clients.is_connected client ≡ false
      → message_client clients (some client) msg (map some ids, s)
        ≡ (map some ids, clients.on_client_disconnect (some client) s)
  unfolding message_client
  message_client_gone client msg ids s gone =
      rw gone (ap (λ l. (l, clients.on_client_disconnect (some client) s)) (erase_null-some ids))
