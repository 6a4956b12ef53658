-- ===== src/Protocol/Batch/Overrun.antt =====
-- A batch that announces more lines than it holds.
use log_grid.Base.{All, List, [], arith, length, refl, some, suc, zero, ℕ, ◌<◌, ◌^◌, ◌∙◌, ◌∷◌, ◌≡◌}
use log_grid.Net.Bytes.{le}
use log_grid.Protocol.{ChunkResult}
use log_grid.Net.Message.{Message, pull}
use log_grid.Protocol.Batch.{
  deserialize_batch, deserialize_batch-popped_message, out_of_bounds, popped_message,
  pull-task_done_message, read_lines, read_lines_round, serialize_lines, task_done_message,
}

read_lines_overrun :
    (n : ℕ) (lines : List (List ℕ))
    → length lines < n
    → All (λ line. length line < 2 ^ 32) lines
    → read_lines n (serialize_lines lines) ≡ out_of_bounds
unfolding serialize_lines
read_lines_overrun zero lines more h = absurd (omega arith)
read_lines_overrun (suc n) [] more h = unfold read_lines in refl
read_lines_overrun (suc n) (line ∷ lines) more h = rw (
  read_lines_round n line (serialize_lines lines) h.0,
  read_lines_overrun n lines (omega arith) h.1,
)

-- DeserializeBatch checks the count of lines against nothing: a message that announces more lines
-- than it holds is not refused, and the loop reads past the end of the body. The numbers of the
-- batch fit their types, and its lines are shorter than 2 ^ 32.
pub deserialize_batch_overrun :
    (b : ChunkResult)
    → length b.lines < b.lines_found
    → b.lines_found < 256 ^ 4
    → b.total_matches < 256 ^ 8
    → b.search_id < 256 ^ 8
    → All (λ line. length line < 2 ^ 32) b.lines
    → (m : Message) × (pull 8 (task_done_message b) ≡ some (le 8 b.task_id, m))
      × (deserialize_batch m ≡ out_of_bounds)
deserialize_batch_overrun b more found_u32 matches_u64 id_u64 short = (
  popped_message b,
  pull-task_done_message b,
  deserialize_batch-popped_message b found_u32 matches_u64 id_u64
      ∙ rw (read_lines_overrun b.lines_found b.lines more short) refl,
)
