-- ===== src/Tests/Serving.antt =====
-- A server with two clients, one of which is gone.
use log_grid.Base.{[], refl, some, ℕ, ◌+◌, ◌==◌, ◌∷◌, ◌≡◌}
use log_grid.Net.Message.{empty}
use log_grid.Net.Server.{Clients, message_client}
use log_grid.Net.Server.Kept.{message_client_gone}

-- The state counts the calls of the handler.
abbrev two_clients : Clients ℕ
two_clients = record {
  is_connected = λ client. client == 1;
  send = λ client msg calls. calls;
  on_client_disconnect = λ client calls. calls + 1;
}

message_client_gone_example :
    message_client two_clients (some 2) empty (some 1 ∷ some 2 ∷ [], 0) ≡ (some 1 ∷ some 2 ∷ [], 1)
message_client_gone_example = message_client_gone two_clients 2 empty (1 ∷ 2 ∷ []) 0 refl
