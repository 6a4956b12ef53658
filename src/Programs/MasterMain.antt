-- ===== src/Programs/MasterMain.antt =====
-- NetServer/src/main.cpp, and what of NetServer/src/MasterServer.hpp overrides the virtual functions of
-- a server: the master handles what has come in, again and again.
use mathlib.Core.Option
use mathlib.Core.List.{append_assoc, append-nil}
use log_grid.Base.{
  All, Bool, List, Option, Option-cases, [], ap, arith, concat, drop-length, inl, inr, length, none,
  refl, some, sym, take, take-length, true, ℕ, ◌++◌, ◌<◌, ◌^◌, ◌∙◌, ◌∷◌, ◌≡◌,
}
use log_grid.Net.Message.{Message}
use log_grid.Net.Queue.{TsQueue, new_queue, push_back}
use log_grid.Net.Connection.Reader.{OwnedMessage}
use log_grid.Net.Server.Accept.{ServerHandlers, ServerInterface, new_server, start}
use log_grid.Net.Server.Update.{handle_all, max_size, update, update-handle_all}
use log_grid.Protocol.{TaskPayload}
use log_grid.Master.State.{MasterServer, get_or}
use log_grid.Master.Handlers.{on_client_disconnect, on_message}

-- "/app/data" and "/data/loggrid"
abbrev default_input_dir : List ℕ
default_input_dir = 47 ∷ 97 ∷ 112 ∷ 112 ∷ 47 ∷ 100 ∷ 97 ∷ 116 ∷ 97 ∷ []

abbrev default_output_dir : List ℕ
default_output_dir = 47 ∷ 100 ∷ 97 ∷ 116 ∷ 97 ∷ 47 ∷ 108 ∷ 111 ∷ 103 ∷ 103 ∷ 114 ∷ 105 ∷ 100 ∷ []

-- The constructor: m_input_dir and m_base_dir, from what std::getenv gives for LOGGRID_INPUT_DIR and
-- LOGGRID_OUTPUT_DIR.
unfoldable pub directories : Option (List ℕ) → Option (List ℕ) → List ℕ × List ℕ
directories env_input env_output =
    (get_or env_input default_input_dir, get_or env_output default_output_dir)

-- `OnClientConnect`
abbrev pub on_client_connect : Option ℕ → MasterServer → Bool × MasterServer
on_client_connect client s = (true, s)

-- GetID of a connection is a parameter, and so are the calls of the file system and the order in which
-- a map is walked. A null pointer is not to be followed.
module _ (id_of : ℕ → ℕ) (can_open : List ℕ → Bool)
    (walk : List (ℕ × TaskPayload) → List (ℕ × TaskPayload)) where
  abbrev pub disconnect_handler : Option ℕ → MasterServer → Option MasterServer
  disconnect_handler none s = none
  disconnect_handler (some client) s = some (on_client_disconnect walk (id_of client) s)

  abbrev pub message_handler : Option ℕ → Message → MasterServer → Option MasterServer
  message_handler none msg s = none
  message_handler (some client) msg s = on_message can_open (id_of client) msg s

  -- What MasterServer overrides.
  abbrev pub master_handlers : ServerHandlers MasterServer
  master_handlers = record {
    on_client_connect = on_client_connect;
    on_client_disconnect = disconnect_handler;
    on_message = message_handler;
  }

module _ {S : Type 0} (handlers : ServerHandlers S) where
  -- What the connections have pushed before a round.
  abbrev pub push_all : List OwnedMessage → TsQueue OwnedMessage → TsQueue OwnedMessage
  push_all [] q = q
  push_all (m ∷ ms) q = push_all ms (push_back m q)

  -- Rounds of the endless loop, each with what has come in before it.
  unfoldable pub main_rounds :
      List (List OwnedMessage) → TsQueue OwnedMessage → S → Option (TsQueue OwnedMessage × S)
  main_rounds [] q s = some (q, s)
  main_rounds (arrived ∷ rounds) q s = elim (update handlers max_size (push_all arrived q) s) [
    | none ↦ none
    | some (left, s') ↦ main_rounds rounds left s'
  ]

  -- `main`, up to some round: what Start returns is not looked at.
  unfoldable pub main :
      Bool
      → Bool
      → List (List OwnedMessage)
      → S
      → Option (ServerInterface × TsQueue OwnedMessage × S)
  main can_accept can_run rounds s =
      let server = (start can_accept can_run new_server).1 in
      Option.map (λ p. (server, p.0, p.1)) (main_rounds rounds new_queue s)

  push_all_lem :
      (ms : List OwnedMessage) (q : TsQueue OwnedMessage)
      → push_all ms q ≡ record { deq_queue = q.deq_queue ++ ms }
  unfolding push_back
  push_all_lem [] q = ap (λ l. record { deq_queue = l }) (sym (append-nil q.deq_queue))
  push_all_lem (m ∷ ms) q =
      push_all_lem ms (push_back m q)
      ∙ ap (λ l. record { deq_queue = l }) (append_assoc q.deq_queue (m ∷ []) ms)

  abbrev then_handle : List OwnedMessage → Option S → Option S
  then_handle ns none = none
  then_handle ns (some t) = handle_all handlers ns t

  handle_all-append :
      (ms ns : List OwnedMessage) (s : S)
      → handle_all handlers (ms ++ ns) s ≡ then_handle ns (handle_all handlers ms s)
  unfolding handle_all
  handle_all-append [] ns s = refl
  handle_all-append (m ∷ ms) ns s = elim (Option-cases (handlers.on_message m.remote m.msg s)) [
    | inl fails ↦ rw (fails, handle_all) refl
    | inr (s', e) ↦ rw (e, handle_all) (handle_all-append ms ns s')
  ]

  -- One round, from an empty queue.
  pub update_all :
      (ms : List OwnedMessage) (s : S)
      → length ms < 2 ^ 64
      → update handlers max_size (push_all ms new_queue) s
        ≡ Option.map (λ t. (new_queue, t)) (handle_all handlers ms s)
  update_all ms s small =
      ap (λ q. update handlers max_size q s) (push_all_lem ms new_queue)
      ∙ (update-handle_all handlers max_size (record { deq_queue = ms }) s
          ∙ (ap
                (λ l.
                  Option.map (λ t. (record { deq_queue = l }, t))
                    (handle_all handlers (take max_size ms) s))
                (drop-length max_size ms (omega (arith, small)))
              ∙ ap (λ l. Option.map (λ t. (new_queue, t)) (handle_all handlers l s))
                  (take-length max_size ms (omega (arith, small)))))

  -- The main loop of the master handles every message that has come in, in order, and leaves the queue
  -- empty after each round, as long as no message makes OnMessage fail; less than 2 ^ 64 of them come
  -- in before each round.
  pub main_rounds-handle_all :
      (rounds : List (List OwnedMessage)) (s : S)
      → All (λ ms. length ms < 2 ^ 64) rounds
      → main_rounds rounds new_queue s
        ≡ Option.map (λ t. (new_queue, t)) (handle_all handlers (concat rounds) s)
  unfolding main_rounds
  main_rounds-handle_all [] s small = unfold handle_all in refl
  main_rounds-handle_all (ms ∷ rounds) s small =
      rw (update_all ms s small.0, main_rounds, handle_all-append ms (concat rounds) s)
        (elim (Option-cases (handle_all handlers ms s)) [
          | inl fails ↦ rw fails refl
          | inr (t, e) ↦ rw e (main_rounds-handle_all rounds t small.1)
        ])
