-- ===== src/Tests/Hello.antt =====
-- A worker on a machine of two threads connects to a master, and is sent a task.
use log_grid.Base.{[], arith, refl, some, true, ◌∷◌, ◌≡◌}
use log_grid.Net.Bytes.{le}
use log_grid.Net.Message.{Message, push, size_of}
use log_grid.Net.Queue.{new_queue}
use log_grid.Net.Connection.{Writer, new_writer, no_write, on_body_written, on_header_written, send}
use log_grid.Net.Connection.Writing.{Reachable, body_written, header_written, posted_message, start}
use log_grid.Net.Connection.Reader.{Connection, new_connection, owner_server}
use log_grid.Net.Connection.Delivery.{feed}
use log_grid.Net.Server.Update.{max_size, update}
use log_grid.Master.Chunks.{padded}
use log_grid.Master.State.{MasterServer, init}
use log_grid.Master.Dispatch.Sending.{Filled}
use log_grid.Master.Dispatch.{task_message}
use log_grid.Programs.MasterMain.{master_handlers}
use log_grid.Net.Client.{made_connection}
use log_grid.Protocol.Codec.{encode_task}
use log_grid.Programs.Jobs.{call_all, call_all-posted, worker_handlers}
use log_grid.Tests.Wire.{err_task, err_task-IsPayload}
use log_grid.Programs.Hello.{empty_inbox, update-hello}
use log_grid.Worker.Client
use log_grid.Tests.Cluster.{all_open}

abbrev said : Message
said = Client.hello_message 1

abbrev said_all : Writer
said_all = on_body_written true (on_header_written true (send said new_writer))

said_all-Reachable : Reachable (said ∷ []) said_all
unfolding send Client.hello_message push size_of on_header_written le
said_all-Reachable = body_written (header_written (posted_message said start) refl) refl

said_all-sent : Reachable (Client.on_connection_result true (Client.new_client 2)).sent said_all
unfolding Client.on_connection_result Client.send_hello Client.send Client.calculate_thread_count
said_all-sent = said_all-Reachable

said_all_idle : said_all.phase ≡ no_write
unfolding send on_header_written on_body_written Client.hello_message push size_of le
said_all_idle = refl

abbrev accepted_one : Connection
accepted_one = new_connection 3 owner_server true

-- Two tasks wait for it.
abbrev two_waiting : MasterServer
two_waiting = record init { pending_tasks = err_task ∷ err_task ∷ [] }

update-hello_example :
    (s : MasterServer) × (update
        (master_handlers (λ address. address) all_open (λ ts. ts))
        max_size
        (feed 1 said_all.wire accepted_one empty_inbox).1.messages_in
        two_waiting
      ≡ some (new_queue, s))
    × Filled (Client.calculate_thread_count 2) 3 two_waiting s
update-hello_example =
    update-hello (λ address. address) all_open (λ ts. ts) 2 said_all accepted_one two_waiting
      (omega arith) said_all-sent said_all_idle refl

-- The master posts a task.
abbrev posted_all : Writer
posted_all = on_body_written true (on_header_written true (send (task_message err_task) new_writer))

posted_all-Reachable : Reachable (task_message err_task ∷ []) posted_all
unfolding send task_message push size_of on_header_written encode_task le padded
posted_all-Reachable =
    body_written (header_written (posted_message (task_message err_task) start) refl) refl

posted_all_idle : posted_all.phase ≡ no_write
unfolding send on_header_written on_body_written task_message push size_of encode_task le padded
posted_all_idle = refl

call_all-posted_example :
    call_all worker_handlers
      (feed 1 posted_all.wire (made_connection 5) empty_inbox).1.called
      (Client.new_client 2)
    ≡ some (record (Client.new_client 2) { task_queue = err_task ∷ [] })
call_all-posted_example =
    call_all-posted (err_task ∷ []) posted_all (made_connection 5) (Client.new_client 2)
      posted_all-Reachable posted_all_idle (err_task-IsPayload, tt) refl refl
