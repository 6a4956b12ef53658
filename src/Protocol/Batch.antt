-- ===== src/Protocol/Batch.antt =====
-- A batch of matched lines on the wire: WorkerClient::SerializeBatch (NetClient/src/WorkerClient.cpp)
-- and MasterServer::DeserializeBatch (NetServer/src/MasterServer.cpp).
pub mod Overrun
use log_grid.Base.{
  All, List, Option, [], arith, drop, drop-append_length, false, if◌then◌else◌, length,
  length-append, ltb, none, refl, some, suc, sym, take, take-append_length, zero, ℕ, ◌%◌, ◌++◌, ◌<◌,
  ◌^◌, ◌∙◌, ◌∷◌, ◌≡◌,
}
use log_grid.Net.Bytes.{from_le, from_le-le, le, length-le}
use log_grid.Net.Message.{Message, pull, pull-push_sized, push, push-IsSized, size_of}
use log_grid.Protocol.{ChunkResult, code, worker_task_done}

-- How a call on the master ends: it returns, throws, or reads outside the body, which C++ leaves
-- undefined.
pub data Outcome {ℓ} (A : Type ℓ) : Type ℓ where
  ok : A → Outcome A
  throws : Outcome A
  out_of_bounds : Outcome A

infixl 5 ◌>>=◌
abbrev pub ◌>>=◌ {ℓ κ} : {A : Type ℓ} {B : Type κ} → Outcome A → (A → Outcome B) → Outcome B
ok a >>= f = f a
throws >>= f = throws
out_of_bounds >>= f = out_of_bounds

-- Each line with its length before it, as a uint32_t.
unfoldable pub serialize_lines : List (List ℕ) → List ℕ
serialize_lines [] = []
serialize_lines (line ∷ lines) = le 4 (length line % 2 ^ 32) ++ (line ++ serialize_lines lines)

-- The body with the lines, before the numbers are pushed.
unfoldable pub lines_message : List (List ℕ) → Message
lines_message lines =
    let body = serialize_lines lines in record { id = 0; size = size_of body; body = body }

unfoldable pub serialize_batch : ChunkResult → Message
serialize_batch b =
    push
      (push (push (push (lines_message b.lines) (le 4 b.lines_found)) (le 8 b.total_matches))
        (le 8 b.search_id))
      (le 8 b.task_id)

-- What SendTaskDone sends.
unfoldable pub task_done_message : ChunkResult → Message
task_done_message b = record (serialize_batch b) { id = code worker_task_done }

-- The loop of DeserializeBatch. The list is the body from `offset` on: the source checks neither
-- of its two reads against the end of the body.
unfoldable pub read_lines : ℕ → List ℕ → Outcome (List (List ℕ))
read_lines zero body = ok []
read_lines (suc n) body =
    let len = from_le (take 4 body) in
    let at_line = drop 4 body in
    let more = read_lines n (drop len at_line) in
    if ltb (length body) 4
    then out_of_bounds
    else if ltb (length at_line) len
    then out_of_bounds
    else (do lines ← more; ok (take len at_line ∷ lines))

unfoldable pub or_throw {ℓ} : {A : Type ℓ} → Option A → Outcome A
or_throw none = throws
or_throw (some a) = ok a

unfoldable pub deserialize_batch : Message → Outcome ChunkResult
unfolding or_throw
deserialize_batch m0 = do
  (search_id, m1) ← or_throw (pull 8 m0)
  (total_matches, m2) ← or_throw (pull 8 m1)
  (line_count, m3) ← or_throw (pull 4 m2)
  lines ← read_lines (from_le line_count) m3.body
  ok (record {
    lines = lines;
    search_id = from_le search_id;
    task_id = 0;
    total_matches = from_le total_matches;
    lines_found = from_le line_count;
  })

-- What the C++ types can hold, with `lines_found` the number of lines, as the worker keeps it.
pub record IsBatch (b : ChunkResult) : Type 0 where
  pub short_lines : All (λ line. length line < 2 ^ 32) b.lines
  pub counted : b.lines_found ≡ length b.lines
  pub lines_found_u32 : b.lines_found < 256 ^ 4
  pub total_matches_u64 : b.total_matches < 256 ^ 8
  pub search_id_u64 : b.search_id < 256 ^ 8
  pub task_id_u64 : b.task_id < 256 ^ 8

-- One round of the loop on one line of the sender.
pub read_lines_round :
    (n : ℕ) (line rest : List ℕ)
    → length line < 2 ^ 32
    → read_lines (suc n) (le 4 (length line % 2 ^ 32) ++ (line ++ rest))
      ≡ (read_lines n rest >>= λ lines. ok (line ∷ lines))
unfolding read_lines
read_lines_round n line rest h =
    let raw = le 4 (length line % 2 ^ 32) in
    let four : 4 ≡ length raw = sym (length-le 4 (length line % 2 ^ 32)) in
    let len : from_le raw ≡ length line =
      from_le-le 4 (length line % 2 ^ 32) (omega arith) ∙ omega arith in
    let enough : ltb (length (raw ++ (line ++ rest))) 4 ≡ false =
      ground (arith, length-append raw (line ++ rest)) in
    let fits : ltb (length (line ++ rest)) (length line) ≡ false =
      ground (arith, length-append line rest) in
    simp (
      enough,
      take-append_length 4 raw (line ++ rest) four,
      drop-append_length 4 raw (line ++ rest) four,
      len,
      fits,
      take-append_length (length line) line rest refl,
      drop-append_length (length line) line rest refl,
    )

read_lines-serialize_lines :
    (lines : List (List ℕ))
    → All (λ line. length line < 2 ^ 32) lines
    → read_lines (length lines) (serialize_lines lines) ≡ ok lines
unfolding serialize_lines
read_lines-serialize_lines [] h = unfold read_lines in refl
read_lines-serialize_lines (line ∷ lines) h = rw (
  read_lines_round (length lines) line (serialize_lines lines) h.0,
  read_lines-serialize_lines lines h.1,
)

-- The message with the task id taken off.
abbrev pub popped_message : ChunkResult → Message
popped_message b =
    push
      (push
        (push (record (lines_message b.lines) { id = code worker_task_done }) (le 4 b.lines_found))
        (le 8 b.total_matches))
      (le 8 b.search_id)

-- The number of the kind of message, set last, is below the pushed values.
task_done_message_lem :
    (b : ChunkResult) → task_done_message b ≡ push (popped_message b) (le 8 b.task_id)
unfolding task_done_message serialize_batch push
task_done_message_lem b = refl

pub pull-task_done_message :
    (b : ChunkResult) → pull 8 (task_done_message b) ≡ some (le 8 b.task_id, popped_message b)
pull-task_done_message b =
    rw (task_done_message_lem b)
      (pull-push_sized 8 _ _ (sym (length-le 8 b.task_id)) (push-IsSized _ _))

-- The numbers come off as they were put on; the lines are left to the loop.
pub deserialize_batch-popped_message :
    (b : ChunkResult)
    → b.lines_found < 256 ^ 4
    → b.total_matches < 256 ^ 8
    → b.search_id < 256 ^ 8
    → deserialize_batch (popped_message b) ≡ (
        read_lines b.lines_found (serialize_lines b.lines) >>= λ lines.
        ok (record b { lines = lines; task_id = 0 }))
unfolding deserialize_batch lines_message
deserialize_batch-popped_message b found_u32 matches_u64 id_u64 = simp (
  pull-push_sized 8 m2 _ (sym (length-le 8 b.search_id)) (push-IsSized m1 _),
  pull-push_sized 8 m1 _ (sym (length-le 8 b.total_matches)) (push-IsSized m0 _),
  pull-push_sized 4 m0 _ (sym (length-le 4 b.lines_found)) refl,
  from_le-le 8 b.search_id id_u64,
  from_le-le 8 b.total_matches matches_u64,
  from_le-le 4 b.lines_found found_u32,
)
  where
    m0 : Message
    m0 = record (lines_message b.lines) { id = code worker_task_done }

    m1 : Message
    m1 = push m0 (le 4 b.lines_found)

    m2 : Message
    m2 = push m1 (le 8 b.total_matches)

-- The master pops the task id off the worker's message, and the rest decodes to the same lines,
-- counts and search id, for a batch that the C++ types can hold. (The task id of the decoded batch
-- stays 0.)
pub deserialize_batch-task_done_message :
    (b : ChunkResult)
    → IsBatch b
    → (m : Message) × (pull 8 (task_done_message b) ≡ some (le 8 b.task_id, m))
      × (deserialize_batch m ≡ ok (record b { task_id = 0 }))
deserialize_batch-task_done_message b v = (
  popped_message b,
  pull-task_done_message b,
  deserialize_batch-popped_message b v.lines_found_u32 v.total_matches_u64 v.search_id_u64
      ∙ rw (v.counted, read_lines-serialize_lines b.lines v.short_lines) refl,
)
