-- ===== src/Programs/Hello.antt =====
-- From the constructor of a worker to the books of the master, through every layer between them.
use mathlib.Core.Option
use log_grid.Base.{
  Bool, List, [], ap, arith, refl, some, subst, true, ℕ, ◌+◌, ◌<◌, ◌^◌, ◌∙◌, ◌∷◌, ◌≡◌, ◌≤◌,
}
use log_grid.Net.Bytes.{length-le}
use log_grid.Net.Message.{push, size_of}
use log_grid.Net.Queue.{new_queue, push_back}
use log_grid.Net.Connection.{Writer, no_write}
use log_grid.Net.Connection.Writing.{Reachable}
use log_grid.Net.Connection.Reading.{IsFramed}
use log_grid.Net.Connection.Reader.{Connection, Inbox, OwnedMessage, owner_server}
use log_grid.Net.Connection.Delivery.{feed, feed-Reachable, owned_by}
use log_grid.Net.Server.Update.{handle_all, max_size, update}
use log_grid.Protocol.{TaskPayload, code}
use log_grid.Master.State.{MasterServer}
use log_grid.Master.Dispatch.{dispatch_up_to}
use log_grid.Master.Dispatch.Sending.{Filled, dispatch_up_to-Filled}
use log_grid.Base.Assoc.{lookup-insert_self}
use log_grid.Master.Handlers.{register_worker}
use log_grid.Pipeline.Handshake.{on_message-hello_message}
use log_grid.Programs.MasterMain.{master_handlers, update_all}
use log_grid.Worker.Client

-- A worker has a thread for each of the machine but one, and one thread at least.
pub calculate_thread_count-bounds :
    (hardware_concurrency : ℕ)
    → (0 < Client.calculate_thread_count hardware_concurrency)
      × (Client.calculate_thread_count hardware_concurrency ≤ hardware_concurrency + 4)
      × (1 < hardware_concurrency
          → Client.calculate_thread_count hardware_concurrency + 1 ≡ hardware_concurrency)
unfolding Client.calculate_thread_count
calculate_thread_count-bounds n = (ground arith, ground arith, λ h. ground (arith, h))

-- What a worker has sent when its connection is made.
sent_hello :
    (hardware_concurrency : ℕ)
    → (Client.on_connection_result true (Client.new_client hardware_concurrency)).sent
      ≡ Client.hello_message (Client.calculate_thread_count hardware_concurrency) ∷ []
unfolding Client.on_connection_result Client.send_hello Client.send
sent_hello n = refl

hello-IsFramed : (threads : ℕ) → IsFramed (Client.hello_message threads)
unfolding Client.hello_message push size_of code
hello-IsFramed threads = record {
  id_u32 = omega arith;
  some_body = omega (arith, length-le 8 threads);
  sized = omega (arith, length-le 8 threads);
  size_u32 = omega (arith, length-le 8 threads);
}

abbrev pub empty_inbox : Inbox
empty_inbox = record { messages_in = new_queue; called = [] }

module _ (id_of : ℕ → ℕ) (can_open : List ℕ → Bool)
    (walk : List (ℕ × TaskPayload) → List (ℕ × TaskPayload)) where
  -- The queue of the master once the hello has come in.
  received :
      (threads : ℕ) (w : Writer) (c : Connection)
      → Reachable (Client.hello_message threads ∷ []) w
      → w.phase ≡ no_write
      → c.owner ≡ owner_server
      → (feed 1 w.wire c empty_inbox).1.messages_in ≡ record {
        deq_queue = record { remote = some c.address; msg = Client.hello_message threads } ∷ [];
      }
  unfolding owned_by
  received threads w c r idle of_server =
      ap (λ l. record { deq_queue = l })
        (feed-Reachable (Client.hello_message threads ∷ []) w c empty_inbox r idle
          (hello-IsFramed threads, tt) of_server)

  handled :
      (address threads : ℕ) (s : MasterServer)
      → threads < 2 ^ 64
      → handle_all
          (master_handlers id_of can_open walk)
          (record { remote = some address; msg = Client.hello_message threads } ∷ [])
          s
        ≡ some (dispatch_up_to threads (id_of address) (register_worker (id_of address) threads s))
  unfolding handle_all
  handled address threads s small =
      rw (on_message-hello_message can_open (id_of address) threads s small, handle_all) refl

  -- A worker whose connection is made comes to work: once what it has sent is written, without an
  -- error, and read by the connection of the master, the next Update of the master has given it the
  -- tasks at the front of the queue of waiting tasks, one for each thread that CalculateThreadCount
  -- gives while there are any, in their order, under the ids that come next, in messages to it, and
  -- no other message is sent; the other tasks still wait; and the worker is registered with the
  -- threads that are left as its free slots. The queue of the master was empty before, and the
  -- machine has less than 2 ^ 64 - 4 threads.
  pub update-hello :
      (hardware_concurrency : ℕ) (w : Writer) (c : Connection) (s : MasterServer)
      → hardware_concurrency + 4 < 2 ^ 64
      → Reachable (Client.on_connection_result true (Client.new_client hardware_concurrency)).sent w
      → w.phase ≡ no_write
      → c.owner ≡ owner_server
      → (s' : MasterServer) × (update
            (master_handlers id_of can_open walk)
            max_size
            (feed 1 w.wire c empty_inbox).1.messages_in
            s
          ≡ some (new_queue, s'))
        × Filled (Client.calculate_thread_count hardware_concurrency) (id_of c.address) s s'
  unfolding push_back register_worker
  update-hello n w c s small r idle of_server =
      let threads = Client.calculate_thread_count n in
      let client = id_of c.address in
      let registered = register_worker client threads s in
      let threads_u64 : threads < 2 ^ 64 =
        omega (arith, (calculate_thread_count-bounds n).1, small) in
      let hello : OwnedMessage = record {
        remote = some c.address;
        msg = Client.hello_message threads;
      } in
      let v =
        dispatch_up_to-Filled threads client registered threads_u64
          (lookup-insert_self client threads s.workers_free_slots) in
      (
        dispatch_up_to threads client registered,
        ap (λ q. update (master_handlers id_of can_open walk) max_size q s)
              (received threads w c (subst (λ posted. Reachable posted w) (sent_hello n) r) idle
                of_server)
            ∙ (update_all (master_handlers id_of can_open walk) (hello ∷ []) s (omega arith)
                ∙ ap (Option.map (λ t. (new_queue, t))) (handled c.address threads s threads_u64)),
        record { rest_waits = v.rest_waits; slots_left = v.slots_left; was_sent = v.was_sent },
      )
