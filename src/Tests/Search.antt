-- ===== src/Tests/Search.antt =====
-- The search of a small file, in one chunk.
use log_grid.Base.{
  Bool, List, Option, [], arith, false, if◌then◌else◌, length, min, none, refl, some, take, true, ℕ,
  ◌++◌, ◌==◌, ◌∷◌, ◌≡◌,
}
use log_grid.Protocol.{ChunkResult, TaskPayload, c_str}
use log_grid.Worker.FileProcessor.{search_task}
use log_grid.Worker.FileProcessor.Counts.{matched}
use log_grid.Worker.FileProcessor.Tiling.{chunk_lines}
use log_grid.Worker.Lines.{lines_of}
use log_grid.Master.Chunks.{
  Tiles, chunk_size-eq, enqueue_file_chunks, enqueue_file_chunks-Tiles, padded,
}
use log_grid.Pipeline.Lines.{each_line_once, owned_lines}
use log_grid.Pipeline.Matches.{
  all_lines, all_matches, search_all, search_finds_all, search_task_lem,
}
use log_grid.Tests.Wire.{err_task}

-- "ab", "c" and "b", the first with a carriage return
abbrev pub text : List ℕ
text = 97 ∷ 98 ∷ 13 ∷ 10 ∷ 99 ∷ 10 ∷ 98 ∷ []

-- A pattern is a byte, and matches where the byte occurs.
abbrev pub compile_byte : List ℕ → Option ℕ
compile_byte [] = none
compile_byte (c ∷ cs) = some c

abbrev pub contains : ℕ → List ℕ → Bool
contains p [] = false
contains p (c ∷ cs) = let rest = contains p cs in if c == p then true else rest

-- The one file is "a".
abbrev pub files : List ℕ → Option (List ℕ)
files [] = none
files (c ∷ cs) = if c == 97 then some text else none

abbrev pub byte_task : TaskPayload
byte_task = record err_task {
  keyword = padded 64 (98 ∷ []);
  filename = padded 256 (97 ∷ []);
  end_offset = 7;
}

pub opens : files (c_str byte_task.filename) ≡ some text
unfolding c_str padded
opens = refl

pub compiles : compile_byte (c_str byte_task.keyword) ≡ some 98
unfolding c_str padded
compiles = refl

enqueue_file_chunks-Tiles_example :
    (ts : List TaskPayload) × (enqueue_file_chunks 7 byte_task [] ≡ some ([] ++ ts))
    × Tiles byte_task 0 7 ts
enqueue_file_chunks-Tiles_example =
    enqueue_file_chunks-Tiles 7 byte_task [] (omega (arith, chunk_size-eq))

each_line_once_example :
    (ts : List TaskPayload) × (enqueue_file_chunks 7 byte_task [] ≡ some ts)
    × (owned_lines text ts ≡ lines_of text)
each_line_once_example = each_line_once text byte_task (omega (arith, chunk_size-eq))

search_finds_all_example :
    let found = matched contains 98 byte_task.filename (lines_of text) in
    (ts : List TaskPayload) × (bs : List ChunkResult) × (enqueue_file_chunks 7 byte_task []
      ≡ some ts)
    × (search_all compile_byte contains files ts ≡ some bs)
    × (all_matches bs ≡ length found)
    × (take 10 (all_lines bs) ≡ take 10 found)
search_finds_all_example =
    search_finds_all compile_byte contains files text 98 byte_task opens compiles
      (omega (arith, chunk_size-eq))

search_task_lem_example :
    let found = matched contains 98 byte_task.filename (chunk_lines text 0 7) in
    search_task compile_byte contains files byte_task 1
    ≡ some (record {
      lines = take 1 found;
      search_id = 0;
      task_id = 0;
      total_matches = length found;
      lines_found = min 1 (length found);
    })
search_task_lem_example =
    search_task_lem compile_byte contains files text 98 byte_task 1 opens compiles (omega arith)
      (omega arith)
