-- ===== src/Master/Served/Handled.antt =====
-- The workers under OnMessage, for messages of any bytes.
use mathlib.Core.Option.{some-ne-none}
use log_grid.Base.{
  All, Bool, Bool-cases, List, Option-cases, [], ap, arith, drop, inl, inr, length, length-drop,
  ltb, refl, some, some_injective, subst, suc, sym, take, zero, ℕ, ◌-◌, ◌<◌, ◌^◌, ◌∙◌, ◌∷◌, ◌≡◌,
}
use log_grid.Base.Assoc.{insert, remove}
use log_grid.Net.Bytes.{IsByte, from_le, from_le-lt}
use log_grid.Net.Message.{Message, pull, size_of}
use log_grid.Protocol.{TaskPayload}
use log_grid.Master.State.{MasterServer}
use log_grid.Master.Dispatch.{dispatch_next_task, tasks_of}
use log_grid.Master.Handlers.{free_slot, on_hello, on_message, without_task}
use log_grid.Master.Served.Keeping.{on_message-keeps}
use log_grid.Master.Served.Working.{Working, finished-Working, hello-Working, results-Working}

-- The body of a message is made of bytes.
abbrev pub HasBytes : ℕ → Message → MasterServer → Type 0
HasBytes client msg s = All IsByte msg.body

drop-All : (n : ℕ) (bs : List ℕ) → All IsByte bs → All IsByte (drop n bs)
drop-All zero bs h = h
drop-All (suc n) [] h = tt
drop-All (suc n) (b ∷ bs) h = drop-All n bs h.1

pull-u64 :
    (msg : Message) (raw : List ℕ) (rest : Message)
    → All IsByte msg.body
    → pull 8 msg ≡ some (raw, rest)
    → from_le raw < 2 ^ 64
unfolding pull
pull-u64 msg raw rest bytes e = elim (Bool-cases (ltb (length msg.body) 8)) [
  | inl short ↦ absurd (some-ne-none _ (sym e ∙ rw short refl))
  | inr enough ↦
      let start = length msg.body - 8 in
      let start_body = take start msg.body in
      let pulled : pull 8 msg
          ≡ some
              (drop start msg.body, record msg { body = start_body; size = size_of start_body }) =
        rw enough refl in
      let it : drop start msg.body ≡ raw = ap (λ r. r.0) (some_injective (sym pulled ∙ e)) in
      let bound = from_le-lt raw (subst (All IsByte) it (drop-All start msg.body bytes)) in
      let eight : length raw ≡ 8 =
        sym (ap length it) ∙ (length-drop start msg.body ∙ ground arith) in
      subst (λ n. from_le raw < 256 ^ n) eight bound
]

module _ (client : ℕ) (s : MasterServer) (v : Working s) where
  task-Working :
      (task_id : ℕ) (ts : List (ℕ × TaskPayload))
      → Working (dispatch_next_task client (free_slot client (without_task client task_id ts s))).1
  task-Working task_id [] = finished-Working client s v (remove client s.in_flight_tasks)
  task-Working task_id (t ∷ ts) =
      finished-Working client s v (insert client (t ∷ ts) s.in_flight_tasks)

  on_hello-Working : (msg : Message) → All IsByte msg.body → Working (on_hello client msg s)
  unfolding on_hello
  on_hello-Working msg bytes = elim (Option-cases (pull 8 msg)) [
    | inl short ↦ rw (short, on_hello) v
    | inr ((raw, rest), popped) ↦
        rw (popped, on_hello)
          (hello-Working client s v (from_le raw) (pull-u64 msg raw rest bytes popped))
  ]

  pub on_message-Working :
      (can_open : List ℕ → Bool) (msg : Message) (s' : MasterServer)
      → All IsByte msg.body
      → on_message can_open client msg s ≡ some s'
      → Working s'
  on_message-Working can_open msg s' bytes =
      on_message-keeps Working results-Working can_open client s v
        (λ task_id t there. task-Working task_id (remove task_id (tasks_of client s))) msg s'
        (λ hello. on_hello-Working msg bytes)
