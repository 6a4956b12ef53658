-- ===== src/Tests/Wire.antt =====
-- Messages, payloads and batches on concrete bytes.
use log_grid.Base.{[], arith, none, refl, some, ℕ, ◌<◌, ◌↔◌, ◌∷◌, ◌≡◌, ◌≢◌, ◌≤◌}
use log_grid.Net.Bytes.{le}
use log_grid.Net.Message.{Message, pull}
use log_grid.Protocol.{ChunkResult, IsPayload, TaskPayload, c_str}
use log_grid.Protocol.Batch.{
  IsBatch, deserialize_batch, deserialize_batch-task_done_message, ok, out_of_bounds,
  task_done_message,
}
use log_grid.Protocol.Batch.Overrun.{deserialize_batch_overrun}
use log_grid.Master.Chunks.{create_chunk_task, padded}
use log_grid.Master.Chunks.Texts.{create_chunk_task-throws_iff, create_chunk_task_lem}

-- "a" and "bc"
abbrev pub two_lines : ChunkResult
two_lines = record {
  lines = (97 ∷ []) ∷ (98 ∷ 99 ∷ []) ∷ [];
  search_id = 0;
  task_id = 1;
  total_matches = 5;
  lines_found = 2;
}

pub two_lines-IsBatch : IsBatch two_lines
two_lines-IsBatch = record {
  short_lines = (omega arith, (omega arith, tt));
  counted = refl;
  lines_found_u32 = omega arith;
  total_matches_u64 = omega arith;
  search_id_u64 = omega arith;
  task_id_u64 = omega arith;
}

-- "err" in "a.log"
abbrev pub err_task : TaskPayload
err_task = record {
  search_id = 0;
  task_id = 0;
  max_results = 10;
  start_offset = 0;
  end_offset = 0;
  keyword = padded 64 (101 ∷ 114 ∷ 114 ∷ []);
  filename = padded 256 (97 ∷ 46 ∷ 108 ∷ 111 ∷ 103 ∷ []);
}

pub err_task-IsPayload : IsPayload err_task
unfolding padded
err_task-IsPayload = record {
  search_id_u64 = omega arith;
  task_id_u64 = omega arith;
  max_results_u64 = omega arith;
  start_u64 = omega arith;
  end_u64 = omega arith;
  keyword_len = refl;
  filename_len = refl;
}

deserialize_batch-task_done_message_example :
    (m : Message) × (pull 8 (task_done_message two_lines) ≡ some (le 8 1, m))
    × (deserialize_batch m ≡ ok (record two_lines { task_id = 0 }))
deserialize_batch-task_done_message_example =
    deserialize_batch-task_done_message two_lines two_lines-IsBatch

deserialize_batch_overrun_example :
    (m : Message) × (pull 8 (task_done_message (record two_lines { lines_found = 3 }))
      ≡ some (le 8 1, m))
    × (deserialize_batch m ≡ out_of_bounds)
deserialize_batch_overrun_example =
    deserialize_batch_overrun (record two_lines { lines_found = 3 }) (omega arith) (omega arith)
      (omega arith) (omega arith) (omega arith, (omega arith, tt))

create_chunk_task-throws_iff_example :
    (create_chunk_task (97 ∷ []) (101 ∷ []) 0 10 ≡ none) ↔ (256 ≤ 1)
create_chunk_task-throws_iff_example = create_chunk_task-throws_iff (97 ∷ []) (101 ∷ []) 0 10

create_chunk_task_lem_example :
    (t : TaskPayload) × (create_chunk_task (97 ∷ []) (101 ∷ []) 0 10 ≡ some t)
    × (c_str t.filename ≡ 97 ∷ [])
    × (c_str t.keyword ≡ 101 ∷ [])
    × IsPayload t
create_chunk_task_lem_example =
    create_chunk_task_lem (97 ∷ []) (101 ∷ []) 0 10 (omega arith) (one≢zero 97 (omega arith), tt)
      (one≢zero 101 (omega arith), tt) (omega arith) (omega arith)
  where
    one≢zero : (n : ℕ) → 0 < n → n ≢ 0
    one≢zero n h = ground arith
