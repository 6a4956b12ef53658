-- ===== src/Pipeline/Lines.antt =====
-- Which lines the chunks of a file own: MasterServer::EnqueueFileChunks against the lines that
-- FileProcessor::SearchTask reads.
use log_grid.Base.{
  List, [], ap, arith, length, refl, some, sym, ℕ, ◌++◌, ◌+◌, ◌-◌, ◌^◌, ◌∙◌, ◌∷◌, ◌≡◌, ◌≤◌,
}
use log_grid.Protocol.{TaskPayload}
use log_grid.Worker.Lines.{
  from_start, from_start-from_start, from_start-length, length-from_start, lines_of, lines_of-split,
}
use log_grid.Worker.FileProcessor.Tiling.{chunk_lines}
use log_grid.Master.Chunks.{Tiles, chunk_size, enqueue_file_chunks, enqueue_file_chunks-Tiles}

-- The lines that the tasks own, task after task.
unfoldable pub owned_lines : List ℕ → List TaskPayload → List (List ℕ)
owned_lines content [] = []
owned_lines content (t ∷ ts) =
    chunk_lines content t.start_offset t.end_offset ++ owned_lines content ts

lines_of_nil : lines_of [] ≡ []
unfolding lines_of
lines_of_nil = refl

owned_lines-Tiles :
    (content : List ℕ) (base : TaskPayload) (a : ℕ) (ts : List TaskPayload)
    → Tiles base a (length content) ts
    → owned_lines content ts ≡ lines_of (from_start a content)
unfolding owned_lines
owned_lines-Tiles content base a [] e =
    sym (ap lines_of (ap (λ n. from_start n content) e ∙ from_start-length content) ∙ lines_of_nil)
owned_lines-Tiles content base a (t ∷ ts) (same, less, bounded, rest) =
    let start : t.start_offset ≡ a = ap (λ (x : TaskPayload). x.start_offset) same in
    let r = from_start a content in
    let room = t.end_offset - (length content - length r) in
    rw
      (
        start,
        owned_lines-Tiles content base t.end_offset ts rest,
        from_start-from_start a t.end_offset content (omega arith),
      )
      (sym (lines_of-split (length content) room r (length-from_start a content)))

pub owned_lines-Tiles_zero :
    (content : List ℕ) (base : TaskPayload) (ts : List TaskPayload)
    → Tiles base 0 (length content) ts
    → owned_lines content ts ≡ lines_of content
unfolding from_start
owned_lines-Tiles_zero content base ts tiles = owned_lines-Tiles content base 0 ts tiles

-- Every line of the file is owned by exactly one chunk, and the chunks own them in order: for a
-- file of any bytes, the lines owned by the tasks that the master makes of it are the lines of the
-- file, as long as the offset of a chunk does not wrap.
pub each_line_once :
    (content : List ℕ) (base : TaskPayload)
    → length content + chunk_size ≤ 2 ^ 64
    → (ts : List TaskPayload) × (enqueue_file_chunks (length content) base [] ≡ some ts)
      × (owned_lines content ts ≡ lines_of content)
each_line_once content base fits =
    let (ts, made, tiles) = enqueue_file_chunks-Tiles (length content) base [] fits in
    (ts, made, owned_lines-Tiles_zero content base ts tiles)
