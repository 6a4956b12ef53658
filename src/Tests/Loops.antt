-- ===== src/Tests/Loops.antt =====
-- Connections, queues and the loops of the two programs.
use mathlib.Core.Option
use log_grid.Base.{
  List, [], arith, concat, false, leb, refl, some, true, ℕ, ◌++◌, ◌<◌, ◌∷◌, ◌≡◌, ◌≤◌, ◌⊎◌,
}
use log_grid.Net.Queue.{TsQueue, is_empty, new_queue, pop_front, push_back}
use log_grid.Net.Queue.Consumer.{
  QueueReachable, Shared, fresh, looks, new_shared, next, pushes, queue_consumer,
}
use log_grid.Net.Connection.Reader.{
  Connection, Inbox, OwnedMessage, connect_to_client, new_connection, owner_server,
}
use log_grid.Net.Connection.Delivery.{feed, feed-Reachable, owned_by}
use log_grid.Net.Server.Accept.{
  AcceptResult, ServerHandlers, ServerInterface, accept_all, accept_error, accepted, new_server,
  on_accept, wait_for_client_connection,
}
use log_grid.Net.Server.Ids.{Rising, accept_all-Rising, given_ids}
use log_grid.Net.Server.Update.{handle_all}
use log_grid.Master.State.{MasterServer, init}
use log_grid.Programs.MasterMain
use log_grid.Programs.WorkerMain
use log_grid.Tests.Cluster.{all_open, hello}
use log_grid.Tests.Talk.{
  first_message, framed, second_message, written_all, written_all-Reachable, written_all_idle,
}

-- One number is pushed and seen.
abbrev seen_one : Shared ℕ
seen_one = record { queue = push_back 7 new_queue; looked = true; posted = 7 ∷ []; taken = [] }

seen_one-Reachable : QueueReachable seen_one
unfolding push_back is_empty
seen_one-Reachable = next (next fresh (pushes new_shared 7)) (looks _)

queue_consumer_example :
    (true ≡ true
      → (item : ℕ) × ((left : TsQueue ℕ) × (pop_front seen_one.queue ≡ some (item, left))))
    × (seen_one.taken ++ seen_one.queue.deq_queue ≡ seen_one.posted)
queue_consumer_example = queue_consumer seen_one seen_one-Reachable

-- What was written on one side arrives in the queue of the other.
abbrev worker_side : Connection
worker_side = connect_to_client 10000 (new_connection 3 owner_server true)

worker_side_owner : worker_side.owner ≡ owner_server
unfolding connect_to_client
worker_side_owner = refl

worker_side_address : worker_side.address ≡ 3
unfolding connect_to_client
worker_side_address = refl

abbrev no_inbox : Inbox
no_inbox = record { messages_in = new_queue; called = [] }

feed-Reachable_example :
    (feed 2 written_all.wire worker_side no_inbox).1.messages_in.deq_queue
    ≡ owned_by worker_side.address (first_message ∷ second_message ∷ [])
feed-Reachable_example =
    feed-Reachable (first_message ∷ second_message ∷ []) written_all worker_side no_inbox
      written_all-Reachable written_all_idle
      (framed 1 7 (omega arith), (framed 2 8 (omega arith), tt)) worker_side_owner

abbrev handlers : ServerHandlers MasterServer
handlers = MasterMain.master_handlers (λ address. address) all_open (λ ts. ts)

abbrev from_four : OwnedMessage
from_four = record { remote = some 4; msg = hello }

main_rounds-handle_all_example :
    MasterMain.main_rounds handlers ((from_four ∷ []) ∷ ([] ∷ [])) new_queue init
    ≡ Option.map
        (λ t. (new_queue, t))
        (handle_all handlers (concat ((from_four ∷ []) ∷ ([] ∷ []))) init)
main_rounds-handle_all_example =
    MasterMain.main_rounds-handle_all handlers ((from_four ∷ []) ∷ ([] ∷ [])) init
      (omega arith, (omega arith, tt))

-- Two connections are accepted, with an error between them.
abbrev results : List AcceptResult
results = accepted 3 true true ∷ (accept_error ∷ (accepted 4 true true ∷ []))

abbrev after_results : ServerInterface
after_results = record (wait_for_client_connection new_server) {
  connections =
      connect_to_client 10000 (new_connection 3 owner_server true)
      ∷ (connect_to_client 10001 (new_connection 4 owner_server true) ∷ []);
  id_counter = 10002;
}

results_run :
    accept_all handlers results (wait_for_client_connection new_server) init
    ≡ some (after_results, init)
unfolding accept_all on_accept
results_run = refl

accept_all-Rising_example :
    Rising 10000 (given_ids after_results.connections) 10003 × (after_results.accepting ≡ true)
accept_all-Rising_example =
    accept_all-Rising handlers results after_results init init (omega arith) results_run

wait_for_connection-bounds_example :
    (attempts : ℕ) × (WorkerMain.wait_for_connection 100 (leb 3) ≡ some attempts)
    × (attempts ≤ 10)
    × ((leb 3 attempts ≡ true) ⊎ (attempts ≡ 10))
    × ((j : ℕ) → j < attempts → leb 3 j ≡ false)
wait_for_connection-bounds_example = WorkerMain.wait_for_connection-bounds 100 (leb 3) (omega arith)

-- The worker of the example is connected after three attempts.
waits_for_three : WorkerMain.wait_for_connection 100 (leb 3) ≡ some 3
unfolding WorkerMain.wait_for_connection WorkerMain.wait_loop
waits_for_three = refl
