-- ===== src/Master/Chunks/Texts.antt =====
-- The texts of a task: what MasterServer::CreateChunkTask puts into the arrays, and what a worker
-- reads from them as C strings.
use log_grid.Base.{
  All, List, [], ap, arith, false, leb, length, none, refl, some, suc, take, take-length, zero, ℕ,
  ◌<◌, ◌^◌, ◌↔◌, ◌∙◌, ◌∷◌, ◌≡◌, ◌≢◌, ◌≤◌,
}
use log_grid.Protocol.{IsPayload, TaskPayload, c_str, filename_size, keyword_size}
use log_grid.Master.Chunks.{create_chunk_task, padded}

-- No NUL in a text.
abbrev pub IsText : List ℕ → Type 0
IsText text = All (λ c. c ≢ 0) text

length-padded : (n : ℕ) (text : List ℕ) → length (padded n text) ≡ n
unfolding padded
length-padded zero text = refl
length-padded (suc zero) text = refl
length-padded (suc (suc n)) [] = ap (λ k. suc k) (length-padded (suc n) [])
length-padded (suc (suc n)) (c ∷ cs) = ap (λ k. suc k) (length-padded (suc n) cs)

-- An array of n + 1 chars keeps the first n of a text.
pub c_str-padded : (n : ℕ) (text : List ℕ) → IsText text → c_str (padded (suc n) text) ≡ take n text
unfolding padded c_str
c_str-padded zero [] h = refl
c_str-padded zero (c ∷ cs) h = refl
c_str-padded (suc n) [] h = refl
c_str-padded (suc n) (c ∷ cs) h = ground (arith, c_str-padded n cs h.1, h.0)

pub create_chunk_task-fits :
    (filepath keyword : List ℕ) (search_id max_results : ℕ)
    → length filepath < filename_size
    → create_chunk_task filepath keyword search_id max_results
      ≡ some (record {
        search_id = search_id;
        task_id = 0;
        max_results = max_results;
        start_offset = 0;
        end_offset = 0;
        keyword = padded keyword_size keyword;
        filename = padded filename_size filepath;
      })
unfolding create_chunk_task
create_chunk_task-fits filepath keyword search_id max_results h =
    let fits : leb filename_size (length filepath) ≡ false = ground (arith, h) in rw fits refl

-- CreateChunkTask throws exactly when the path does not fit its array.
pub create_chunk_task-throws_iff :
    (filepath keyword : List ℕ) (search_id max_results : ℕ)
    → (create_chunk_task filepath keyword search_id max_results ≡ none) ↔ (256 ≤ length filepath)
unfolding create_chunk_task
create_chunk_task-throws_iff filepath keyword search_id max_results = ground arith

-- For a path that fits, the worker reads from the task the same path, and of the keyword its first
-- 63 bytes: a longer keyword is searched for in its cut form, without an error. The task is one
-- that the C++ types can hold. The path and the keyword have no NUL in them, and the id and the
-- maximum are 64-bit numbers.
pub create_chunk_task_lem :
    (filepath keyword : List ℕ) (search_id max_results : ℕ)
    → length filepath < 256
    → IsText filepath
    → IsText keyword
    → search_id < 2 ^ 64
    → max_results < 2 ^ 64
    → (t : TaskPayload) × (create_chunk_task filepath keyword search_id max_results ≡ some t)
      × (c_str t.filename ≡ filepath)
      × (c_str t.keyword ≡ take 63 keyword)
      × IsPayload t
create_chunk_task_lem filepath keyword search_id max_results fits path_text keyword_text id_u64
      max_u64 =
    (
      _,
      create_chunk_task-fits filepath keyword search_id max_results fits,
      c_str-padded 255 filepath path_text ∙ take-length 255 filepath (omega arith),
      c_str-padded 63 keyword keyword_text,
      record {
        search_id_u64 = omega arith;
        task_id_u64 = omega arith;
        max_results_u64 = omega arith;
        start_u64 = omega arith;
        end_u64 = omega arith;
        keyword_len = length-padded 64 keyword;
        filename_len = length-padded 256 filepath;
      },
    )
