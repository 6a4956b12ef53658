-- ===== src/Protocol.antt =====
-- NetCommon/include/LogSearchCommon.hpp: the messages between master and workers and their payloads.
-- Texts are lists of bytes.
pub mod Codec
pub mod Batch
use log_grid.Base.{List, Option, [], if◌then◌else◌, length, none, some, ℕ, ◌<◌, ◌==◌, ◌^◌, ◌∷◌, ◌≡◌}

pub data LogSearchMsg : Type 0 where
  worker_hello server_search_task worker_task_done server_job_finished : LogSearchMsg

-- The numbers of the constants, and the `switch` on a received number.
unfoldable pub code : LogSearchMsg → ℕ
code worker_hello = 0
code server_search_task = 1
code worker_task_done = 2
code server_job_finished = 3

unfoldable pub from_code : ℕ → Option LogSearchMsg
from_code n =
    if n == 0
    then some worker_hello
    else if n == 1
    then some server_search_task
    else if n == 2
    then some worker_task_done
    else if n == 3
    then some server_job_finished
    else none

-- `keyword` and `filename` are the arrays, of 64 and 256 chars.
pub record TaskPayload : Type 0 where
  pub search_id : ℕ
  pub task_id : ℕ
  pub max_results : ℕ
  pub start_offset : ℕ
  pub end_offset : ℕ
  pub keyword : List ℕ
  pub filename : List ℕ

pub record ChunkResult : Type 0 where
  pub lines : List (List ℕ)
  pub search_id : ℕ
  pub task_id : ℕ
  pub total_matches : ℕ
  pub lines_found : ℕ

abbrev pub no_result : ChunkResult
no_result = record { lines = []; search_id = 0; task_id = 0; total_matches = 0; lines_found = 0 }

abbrev pub keyword_size : ℕ
keyword_size = 64

abbrev pub filename_size : ℕ
filename_size = 256

-- A char array read as a C string: up to the first NUL.
unfoldable pub c_str : List ℕ → List ℕ
c_str [] = []
c_str (b ∷ bs) = let rest = c_str bs in if b == 0 then [] else b ∷ rest

-- The values that the C++ types can hold.
pub record IsPayload (t : TaskPayload) : Type 0 where
  pub search_id_u64 : t.search_id < 256 ^ 8
  pub task_id_u64 : t.task_id < 256 ^ 8
  pub max_results_u64 : t.max_results < 256 ^ 8
  pub start_u64 : t.start_offset < 256 ^ 8
  pub end_u64 : t.end_offset < 256 ^ 8
  pub keyword_len : length t.keyword ≡ keyword_size
  pub filename_len : length t.filename ≡ filename_size
