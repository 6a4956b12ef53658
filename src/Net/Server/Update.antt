-- ===== src/Net/Server/Update.antt =====
-- Update of NetCommon/include/net_server.hpp: the messages in the queue are handled in order. The
-- sections of the threads that push meanwhile are in Net/Queue/Consumer.
use mathlib.Core.Option
use log_grid.Base.{
  List, Option, Option-cases, [], arith, drop, false, if◌then◌else◌, inl, inr, length, ltb, none,
  not, refl, some, suc, take, true, zero, ℕ, ◌&&◌, ◌+◌, ◌-◌, ◌==◌, ◌^◌, ◌∷◌, ◌≡◌,
}
use log_grid.Net.Queue.{TsQueue, count, is_empty, pop_front}
use log_grid.Net.Connection.Reader.{OwnedMessage}
use log_grid.Net.Server.Accept.{ServerHandlers}

-- `nMaxMessages = -1`, as a size_t
abbrev pub max_size : ℕ
max_size = 2 ^ 64 - 1

module _ {S : Type 0} (handlers : ServerHandlers S) where
  -- The loop, with nMessageCount. Every round takes one message off, so the length of the queue is
  -- the fuel that suffices.
  unfoldable pub update_loop :
      ℕ → ℕ → ℕ → TsQueue OwnedMessage → S → Option (TsQueue OwnedMessage × S)
  update_loop zero max_messages message_count q s = some (q, s)
  update_loop (suc fuel) max_messages message_count q s =
      if ltb message_count max_messages && not (is_empty q)
      then elim (pop_front q) [
        | none ↦ none
        | some (m, left) ↦ elim (handlers.on_message m.remote m.msg s) [
          | none ↦ none
          | some s' ↦ update_loop fuel max_messages (message_count + 1) left s'
        ]
      ]
      else some (q, s)

  -- `Update`
  unfoldable pub update : ℕ → TsQueue OwnedMessage → S → Option (TsQueue OwnedMessage × S)
  update max_messages q s = update_loop (count q) max_messages 0 q s

  -- The messages of a list, one after the other.
  unfoldable pub handle_all : List OwnedMessage → S → Option S
  handle_all [] s = some s
  handle_all (m ∷ ms) s = elim (handlers.on_message m.remote m.msg s) [
    | none ↦ none
    | some s' ↦ handle_all ms s'
  ]

  abbrev left_with : TsQueue OwnedMessage → Option S → Option (TsQueue OwnedMessage × S)
  left_with q result = Option.map (λ s. (q, s)) result

  update_loop_lem :
      (max room done : ℕ) (ms : List OwnedMessage) (s : S)
      → max ≡ done + room
      → update_loop (length ms) max done (record { deq_queue = ms }) s
        ≡ left_with (record { deq_queue = drop room ms }) (handle_all (take room ms) s)
  unfolding update_loop handle_all pop_front is_empty
  update_loop_lem max zero done [] s h = refl
  update_loop_lem max (suc room) done [] s h = refl
  update_loop_lem max zero done (m ∷ ms) s h =
      let full : ltb done max ≡ false = ground (arith, h) in rw full refl
  update_loop_lem max (suc room) done (m ∷ ms) s h =
      let below : ltb done max ≡ true = ground (arith, h) in
      let there : (suc (length ms) == 0) ≡ false = ground arith in
      rw (below, there)
        (elim (Option-cases (handlers.on_message m.remote m.msg s)) [
          | inl fails ↦ rw fails refl
          | inr (s', e) ↦ rw e (update_loop_lem max room (done + 1) ms s' (omega (arith, h)))
        ])

  -- Update hands the first messages of the queue to OnMessage, in order and as many as it was told to,
  -- and leaves the others in the queue; if a message makes OnMessage fail, it goes no further.
  pub update-handle_all :
      (max : ℕ) (q : TsQueue OwnedMessage) (s : S)
      → update max q s
        ≡ Option.map
            (λ s'. (record { deq_queue = drop max q.deq_queue }, s'))
            (handle_all (take max q.deq_queue) s)
  unfolding update count
  update-handle_all max q s = update_loop_lem max max 0 q.deq_queue s (omega arith)
