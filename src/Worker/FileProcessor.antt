-- ===== src/Worker/FileProcessor.antt =====
-- NetClient/src/FileProcessor.hpp: one chunk of one file, searched line by line.
-- The file system and the regular expressions are parameters: the bytes of a file that can be
-- opened, the pattern that a keyword compiles to, and whether it matches in a line.
pub mod Loop
pub mod Tiling
pub mod Counts
use log_grid.Base.{
  Bool, List, Option, [], if◌then◌else◌, length, ltb, none, some, suc, zero, ℕ, ◌%◌, ◌++◌, ◌+◌, ◌-◌,
  ◌==◌, ◌^◌, ◌∷◌,
}
use log_grid.Protocol.{ChunkResult, TaskPayload, c_str, no_result}
use log_grid.Worker.Stream.{Stream, get, getline, newline, open_stream, seekg, tellg}

abbrev pub carriage_return : ℕ
carriage_return = 13

-- A last '\r' is dropped.
unfoldable pub strip_cr : List ℕ → List ℕ
strip_cr [] = []
strip_cr (c ∷ []) = if c == carriage_return then [] else c ∷ []
strip_cr (c ∷ d ∷ cs) = c ∷ strip_cr (d ∷ cs)

-- `std::format("{}: {}", task.filename, line)`
unfoldable pub result_line : List ℕ → List ℕ → List ℕ
result_line filename line = c_str filename ++ (58 ∷ 32 ∷ line)

-- A line that matches: stored if there is room, and counted.
unfoldable pub add_match : List ℕ → ℕ → ChunkResult → List ℕ → ChunkResult
add_match filename max_line_count b line =
    let counted = record b { total_matches = (b.total_matches + 1) % 2 ^ 64 } in
    if ltb b.lines_found max_line_count
    then record counted {
      lines = b.lines ++ (result_line filename line ∷ []);
      lines_found = (b.lines_found + 1) % 2 ^ 32;
    }
    else counted

-- Before the loop: the line that a chunk begins inside of belongs to the chunk before. Where `get`
-- fails the variable is not set; the stream has failed then, and either branch leaves it failed.
abbrev pub skip_rest : Option ℕ × Stream → Stream
skip_rest (none, s) = (getline s).1
skip_rest (some c, s) = if c == newline then s else (getline s).1

unfoldable pub skip_partial : ℕ → Stream → Stream
skip_partial start_byte s =
    if start_byte == 0 then s else skip_rest (get (seekg (start_byte - 1) s))

-- `static_cast<uint64_t>(file.tellg())`
unfoldable pub as_u64 : Option ℕ → ℕ
as_u64 none = 2 ^ 64 - 1
as_u64 (some p) = p

-- The end of a round: on EOF `tellg` gives -1, and the loop breaks.
abbrev pub update_position :
    (ℕ → Stream → ChunkResult → Option ChunkResult)
    → ChunkResult
    → Option ℕ × Stream
    → Option ChunkResult
update_position next b (none, s) = some b
update_position next b (some p, s) = next p s b

-- The body of a round, on what `getline` gave.
abbrev pub read_round :
    (ℕ → Stream → ChunkResult → Option ChunkResult)
    → (ChunkResult → List ℕ → ChunkResult)
    → ChunkResult
    → Option (List ℕ) × Stream
    → Option ChunkResult
read_round next note b (none, s) = some b
read_round next note b (some line, s) = update_position next (note b line) (tellg s)

module _ {R : Type 0} (regex_search : R → List ℕ → Bool) where
  unfoldable pub note_line : R → List ℕ → ℕ → ChunkResult → List ℕ → ChunkResult
  note_line pattern filename max_line_count b raw =
      let line = strip_cr raw in
      if regex_search pattern line then add_match filename max_line_count b line else b

  -- The `while` loop; `none` means that the fuel ran out.
  unfoldable pub search_loop :
      ℕ → R → List ℕ → ℕ → ℕ → ℕ → Stream → ChunkResult → Option ChunkResult
  search_loop zero pattern filename max end_byte current s b = none
  search_loop (suc fuel) pattern filename max end_byte current s b =
      let round =
        read_round (search_loop fuel pattern filename max end_byte) (note_line pattern filename max)
          b (getline s) in
      if ltb current end_byte then round else some b

module _ {R : Type 0} (compile : List ℕ → Option R) (regex_search : R → List ℕ → Bool) where
  -- One round takes a byte at least, so the loop ends in one round more than there are bytes.
  unfoldable pub search_content : List ℕ → TaskPayload → ℕ → Option ChunkResult
  search_content content task max_line_count =
      let s = skip_partial task.start_offset (seekg task.start_offset (open_stream content)) in
      let (pos, s') = tellg s in
      elim (compile (c_str task.keyword)) [
        | none ↦ some no_result
        | some pattern ↦
            search_loop regex_search (length content + 1) pattern task.filename max_line_count
              task.end_offset (as_u64 pos) s' no_result
      ]

  -- FileProcessor::SearchTask
  unfoldable pub search_task : (List ℕ → Option (List ℕ)) → TaskPayload → ℕ → Option ChunkResult
  search_task open_file task max_line_count = elim (open_file (c_str task.filename)) [
    | none ↦ some no_result
    | some content ↦ search_content content task max_line_count
  ]
