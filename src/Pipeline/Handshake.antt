-- ===== src/Pipeline/Handshake.antt =====
-- The messages between master and worker, from one side to the other.
use log_grid.Base.{Bool, List, [], ap, arith, refl, some, sym, ℕ, ◌++◌, ◌<◌, ◌^◌, ◌∷◌, ◌≡◌}
use log_grid.Net.Bytes.{from_le-le, le, length-le}
use log_grid.Net.Message.{empty, pull, pull-push, push, size_of}
use log_grid.Protocol.{IsPayload, TaskPayload, code, from_code, server_search_task, worker_hello}
use log_grid.Protocol.Codec.{decode_task-encode_task, encode_task, length-encode_task, payload_size}
use log_grid.Master.State.{MasterServer}
use log_grid.Master.Dispatch.{dispatch_up_to, task_message}
use log_grid.Worker.Client
use log_grid.Master.Handlers.{on_hello, on_message, register_worker}

task_message_kind : (t : TaskPayload) → from_code (task_message t).id ≡ some server_search_task
unfolding from_code code task_message push
task_message_kind t = refl

hello_message_kind : (threads : ℕ) → from_code (Client.hello_message threads).id ≡ some worker_hello
unfolding from_code code Client.hello_message push
hello_message_kind threads = refl

pull-task_message :
    (t : TaskPayload)
    → IsPayload t
    → pull 360 (task_message t)
      ≡ some (encode_task t, record empty { id = code server_search_task })
unfolding task_message payload_size size_of
pull-task_message t v = pull-push 360 _ (encode_task t) (sym (length-encode_task t v))

pull-hello_message :
    (threads : ℕ)
    → pull 8 (Client.hello_message threads)
      ≡ some (le 8 threads, record empty { id = code worker_hello })
unfolding Client.hello_message size_of
pull-hello_message threads = pull-push 8 _ (le 8 threads) (sym (length-le 8 threads))

-- A task that the master sends is the last job of the worker that gets it, as it was sent, if it holds
-- what the C++ types can hold.
pub on_message-task_message :
    (t : TaskPayload) (w : Client.WorkerClient)
    → IsPayload t
    → Client.on_message (task_message t) w
      ≡ some (record w { task_queue = w.task_queue ++ (t ∷ []) })
unfolding Client.on_message
on_message-task_message t w v =
    rw (task_message_kind t, pull-task_message t v, decode_task-encode_task t v) refl

-- A worker that says hello, with a 64-bit number of threads, is registered with that number, and
-- given a task for each, while there are any.
pub on_message-hello_message :
    (can_open : List ℕ → Bool) (client threads : ℕ) (s : MasterServer)
    → threads < 2 ^ 64
    → on_message can_open client (Client.hello_message threads) s
      ≡ some (dispatch_up_to threads client (register_worker client threads s))
unfolding on_message on_hello
on_message-hello_message can_open client threads s small =
    rw (hello_message_kind threads) (ap some hello)
  where
    hello :
        on_hello client (Client.hello_message threads) s
        ≡ dispatch_up_to threads client (register_worker client threads s)
    hello = rw (pull-hello_message threads, on_hello) (rw (from_le-le 8 threads (omega arith)) refl)
