-- ===== src/Pipeline/Matches.antt =====
-- One search of a whole file: the results of its chunks together.
use log_grid.Base.{
  Bool, List, Option, [], ap, arith, length, length-append, min, none, refl, some, subst, sym, take,
  take-take_left, take-take_right, ℕ, ◌++◌, ◌+◌, ◌-◌, ◌<◌, ◌^◌, ◌∙◌, ◌∷◌, ◌≡◌, ◌≤◌,
}
use log_grid.Protocol.{ChunkResult, TaskPayload, c_str, no_result}
use log_grid.Worker.Lines.{lines_of}
use log_grid.Worker.FileProcessor.{search_task}
use log_grid.Worker.FileProcessor.Tiling.{chunk_lines, search_content_lem}
use log_grid.Worker.FileProcessor.Counts.{
  length-chunk_lines, matched, matched-append, note_all_lem, with_counts, with_counts_eq,
}
use log_grid.Master.Chunks.{
  Tiles, chunk_at, chunk_size, chunk_size-eq, enqueue_file_chunks, enqueue_file_chunks-Tiles,
}
use log_grid.Pipeline.Lines.{owned_lines, owned_lines-Tiles_zero}

-- The batches of a list, put together: their stored lines and their counts.
unfoldable pub all_lines : List ChunkResult → List (List ℕ)
all_lines [] = []
all_lines (b ∷ bs) = b.lines ++ all_lines bs

unfoldable pub all_matches : List ChunkResult → ℕ
all_matches [] = 0
all_matches (b ∷ bs) = b.total_matches + all_matches bs

abbrev joined : Option ChunkResult → Option (List ChunkResult) → Option (List ChunkResult)
joined none bs = none
joined (some b) none = none
joined (some b) (some bs) = some (b ∷ bs)

module _ {R : Type 0} (compile : List ℕ → Option R) (regex_search : R → List ℕ → Bool)
    (open_file : List ℕ → Option (List ℕ)) where
  -- Each task searched, as by WorkerClient with the task's `max_results` for the limit.
  unfoldable pub search_all : List TaskPayload → Option (List ChunkResult)
  search_all [] = some []
  search_all (t ∷ ts) =
      joined (search_task compile regex_search open_file t t.max_results) (search_all ts)

  module _ (content : List ℕ) (pattern : R) where
    -- The search of one chunk ends with the count of its matching lines and the first `max` of
    -- them, formatted, where the file opens, the keyword compiles, the end of the chunk is a
    -- 64-bit number and the chunk has less than 2 ^ 32 bytes.
    pub search_task_lem :
        (t : TaskPayload) (max : ℕ)
        → open_file (c_str t.filename) ≡ some content
        → compile (c_str t.keyword) ≡ some pattern
        → t.end_offset < 2 ^ 64
        → t.end_offset - t.start_offset < 2 ^ 32
        → let found =
            matched regex_search pattern t.filename
              (chunk_lines content t.start_offset t.end_offset) in
          search_task compile regex_search open_file t max
          ≡ some (record {
            lines = take max found;
            search_id = 0;
            task_id = 0;
            total_matches = length found;
            lines_found = min max (length found);
          })
    unfolding search_task
    search_task_lem t max opens compiles end_u64 small =
        let few = length-chunk_lines content t.start_offset t.end_offset in
        let found =
          matched regex_search pattern t.filename
            (chunk_lines content t.start_offset t.end_offset) in
        let room : max - 0 ≡ max = omega arith in
        rw (opens, search_task)
          (search_content_lem compile regex_search content t max pattern compiles end_u64
            ∙ ap some (
                note_all_lem regex_search pattern t.filename max
                  (chunk_lines content t.start_offset t.end_offset) no_result (omega arith)
                  (omega arith)
                ∙ with_counts_eq no_result (ap (λ k. take k found) room) (omega arith)
                    (omega arith)))

take-parts :
    (m : ℕ) (xs ys zs : List (List ℕ))
    → take m ys ≡ take m zs
    → take m (take m xs ++ ys) ≡ take m (xs ++ zs)
take-parts m xs ys zs e =
    take-take_left m m xs ys (omega arith)
    ∙ (sym (take-take_right m m xs ys (omega arith))
        ∙ (ap (λ ws. take m (xs ++ ws)) e ∙ take-take_right m m xs zs (omega arith)))

-- The tasks of one file, made from `base`.
module _ {R : Type 0} (compile : List ℕ → Option R) (regex_search : R → List ℕ → Bool)
    (open_file : List ℕ → Option (List ℕ)) (content : List ℕ) (pattern : R) (base : TaskPayload)
    (opens : open_file (c_str base.filename) ≡ some content)
    (compiles : compile (c_str base.keyword) ≡ some pattern) where
  -- What the searches of `ts` give together: the lines `found`, in order, up to the maximum.
  abbrev Finds : List TaskPayload → List (List ℕ) → Type 0
  Finds ts found =
      (bs : List ChunkResult) × (search_all compile regex_search open_file ts ≡ some bs)
      × (all_matches bs ≡ length found)
      × (take base.max_results (all_lines bs) ≡ take base.max_results found)

  Finds-cons :
      (a e : ℕ) (ts : List TaskPayload) (rest : List (List ℕ))
      → e < 2 ^ 64
      → e ≤ a + chunk_size
      → Finds ts rest
      → Finds
          (chunk_at base a e ∷ ts)
          (matched regex_search pattern base.filename (chunk_lines content a e) ++ rest)
  unfolding search_all all_matches all_lines
  Finds-cons a e ts rest small bounded (bs, runs, count, lines) =
      let found = matched regex_search pattern base.filename (chunk_lines content a e) in
      let b =
        with_counts no_result (take base.max_results found) (length found)
          (min base.max_results (length found)) in
      let searched =
        search_task_lem compile regex_search open_file content pattern (chunk_at base a e)
          base.max_results opens compiles small (omega (arith, chunk_size-eq)) in
      (
        b ∷ bs,
        rw (searched, runs),
        omega (arith, length-append found rest),
        take-parts base.max_results found (all_lines bs) rest lines,
      )

  Tiles-le : (a b : ℕ) (ts : List TaskPayload) → Tiles base a b ts → a ≤ b
  Tiles-le a b [] e = omega arith
  Tiles-le a b (t ∷ ts) (same, less, bounded, rest) = omega (arith, Tiles-le t.end_offset b ts rest)

  Tiles-Finds :
      (a b : ℕ) (ts : List TaskPayload)
      → b < 2 ^ 64
      → Tiles base a b ts
      → Finds ts (matched regex_search pattern base.filename (owned_lines content ts))
  unfolding owned_lines
  Tiles-Finds a b [] small tiles =
      unfold search_all all_matches all_lines matched in ([], refl, refl, refl)
  Tiles-Finds a b (t ∷ ts) small (same, less, bounded, rest) =
      let end = t.end_offset in
      let later = Tiles-Finds end b ts small rest in
      let here =
        Finds-cons a end ts (matched regex_search pattern base.filename (owned_lines content ts))
          (omega (arith, Tiles-le end b ts rest)) bounded later in
      subst
        (λ x.
          Finds (x ∷ ts)
            (matched regex_search pattern base.filename (owned_lines content (x ∷ ts))))
        (sym same)
        (rw (matched-append regex_search pattern base.filename (chunk_lines content a end)) here)

  -- A file cut by the master and searched chunk by chunk gives the matches of the whole file:
  -- every search ends, the counts add up to the number of matching lines of the file, and the
  -- first `max_results` of the stored lines, chunk after chunk, are its first `max_results`
  -- matching lines in order, formatted. The file opens, the keyword compiles, and the offset of a
  -- chunk does not wrap.
  pub search_finds_all :
      length content + chunk_size ≤ 2 ^ 64
      → let found = matched regex_search pattern base.filename (lines_of content) in
        (ts : List TaskPayload) × (bs : List ChunkResult) × (enqueue_file_chunks
            (length content)
            base
            []
          ≡ some ts)
        × (search_all compile regex_search open_file ts ≡ some bs)
        × (all_matches bs ≡ length found)
        × (take base.max_results (all_lines bs) ≡ take base.max_results found)
  search_finds_all fits =
      let (ts, made, tiles) = enqueue_file_chunks-Tiles (length content) base [] fits in
      let all = owned_lines-Tiles_zero content base ts tiles in
      let (bs, runs, count, lines) =
        Tiles-Finds 0 (length content) ts (omega (arith, chunk_size-eq)) tiles in
      (ts, bs, made, runs, rw (← all) count, rw (← all) lines)
