-- ===== src/Master/Chunks.antt =====
-- MasterServer::CreateChunkTask and MasterServer::EnqueueFileChunks.
pub mod Texts
use mathlib.Core.List.{append-nil, append_assoc}
use log_grid.Base.{
  Bool-cases, List, Option, [], ap, arith, false, if◌then◌else◌, inl, inr, leb, length, ltb, min,
  none, refl, some, suc, sym, true, zero, ℕ, ◌%◌, ◌*◌, ◌++◌, ◌+◌, ◌/◌, ◌<◌, ◌^◌, ◌∙◌, ◌∷◌, ◌≡◌, ◌≤◌,
}
use log_grid.Protocol.{TaskPayload, filename_size, keyword_size}

-- 5 MB: the source defines DOCKER_DEBUG.
unfoldable pub chunk_size : ℕ
chunk_size = 5 * 1024 * 1024

pub chunk_size-eq : chunk_size ≡ 5242880
unfolding chunk_size
chunk_size-eq = refl

-- `strncpy(array, text, size)` and the NUL that the source puts at the end: a text that is too long
-- is cut, a shorter one is padded with NULs.
unfoldable pub padded : ℕ → List ℕ → List ℕ
padded zero text = []
padded (suc zero) text = 0 ∷ []
padded (suc (suc n)) [] = 0 ∷ padded (suc n) []
padded (suc (suc n)) (c ∷ cs) = c ∷ padded (suc n) cs

-- `none` where the source throws: the path does not fit. What the source leaves unset is 0 here: the
-- offsets are set by EnqueueFileChunks, the task id when the task is dispatched.
unfoldable pub create_chunk_task : List ℕ → List ℕ → ℕ → ℕ → Option TaskPayload
create_chunk_task filepath keyword search_id max_results =
    if leb filename_size (length filepath)
    then none
    else some (record {
      search_id = search_id;
      task_id = 0;
      max_results = max_results;
      start_offset = 0;
      end_offset = 0;
      keyword = padded keyword_size keyword;
      filename = padded filename_size filepath;
    })

abbrev pub chunk_at : TaskPayload → ℕ → ℕ → TaskPayload
chunk_at base start end = record base { start_offset = start; end_offset = end }

-- The `while` loop on `currentByte`, which is a uint64_t; `none` means that the fuel ran out.
unfoldable pub chunk_loop : ℕ → ℕ → ℕ → TaskPayload → List TaskPayload → Option (List TaskPayload)
chunk_loop zero file_size current base out = none
chunk_loop (suc fuel) file_size current base out =
    let next = (current + chunk_size) % 2 ^ 64 in
    let round =
      chunk_loop fuel file_size next base
        (out ++ (chunk_at base current (min next file_size) ∷ [])) in
    if ltb current file_size then round else some out

-- One round for each chunk, and one to see the end.
unfoldable pub enqueue_file_chunks : ℕ → TaskPayload → List TaskPayload → Option (List TaskPayload)
enqueue_file_chunks file_size base out =
    chunk_loop (suc (suc (file_size / chunk_size))) file_size 0 base out

-- Chunks of `base` side by side from `a` to `b`, none empty and none longer than `chunk_size`.
abbrev pub Tiles : TaskPayload → ℕ → ℕ → List TaskPayload → Type 0
Tiles base a b [] = a ≡ b
Tiles base a b (t ∷ ts) =
    (t ≡ chunk_at base a t.end_offset)
    × (a < t.end_offset)
    × (t.end_offset ≤ a + chunk_size)
    × Tiles base t.end_offset b ts

module _ (fuel file_size current : ℕ) (base : TaskPayload) (out : List TaskPayload) where
  chunk_loop_stop :
      ltb current file_size ≡ false → chunk_loop (suc fuel) file_size current base out ≡ some out
  unfolding chunk_loop
  chunk_loop_stop h = rw h

  chunk_loop_round :
      ltb current file_size ≡ true
      → file_size + chunk_size ≤ 2 ^ 64
      → chunk_loop (suc fuel) file_size current base out
        ≡ chunk_loop fuel file_size
            (current + chunk_size)
            base
            (out ++ (chunk_at base current (min (current + chunk_size) file_size) ∷ []))
  unfolding chunk_loop
  chunk_loop_round h fits =
      let same : (current + chunk_size) % 2 ^ 64 ≡ current + chunk_size = ground arith in
      rw (h, same)

chunk_loop_lem :
    (fuel file_size current : ℕ) (base : TaskPayload) (out : List TaskPayload)
    → file_size + chunk_size ≤ 2 ^ 64
    → file_size < current + chunk_size * fuel + 1
    → (ts : List TaskPayload) × (chunk_loop (suc fuel) file_size current base out
        ≡ some (out ++ ts))
      × Tiles base (min current file_size) file_size ts
chunk_loop_lem zero size current base out fits enough = (
  [],
  chunk_loop_stop zero size current base out (ground arith) ∙ ap some (sym (append-nil out)),
  omega arith,
)
chunk_loop_lem (suc fuel) size current base out fits enough = elim (Bool-cases (ltb current size)) [
  | inr stop ↦ (
    [],
    chunk_loop_stop (suc fuel) size current base out stop ∙ ap some (sym (append-nil out)),
    ground arith,
  )
  | inl go ↦
      let end = min (current + chunk_size) size in
      let t = chunk_at base current end in
      let (ts, runs, tiles) =
        chunk_loop_lem fuel size (current + chunk_size) base (out ++ (t ∷ [])) fits (omega arith) in
      let from : min current size ≡ current = ground arith in
      (
        t ∷ ts,
        chunk_loop_round (suc fuel) size current base out go fits
            ∙ runs
            ∙ ap some (append_assoc out (t ∷ []) ts),
        (rw from, ground (arith, chunk_size-eq), omega arith, tiles),
      )
]

-- The chunks of a file lie side by side from its first byte to its last, each longer than nothing
-- and no longer than `chunk_size`, and are otherwise copies of the base task; they go to the end of
-- the list. A file size so large that the counter would wrap is left out.
pub enqueue_file_chunks-Tiles :
    (file_size : ℕ) (base : TaskPayload) (out : List TaskPayload)
    → file_size + chunk_size ≤ 2 ^ 64
    → (ts : List TaskPayload) × (enqueue_file_chunks file_size base out ≡ some (out ++ ts))
      × Tiles base 0 file_size ts
unfolding enqueue_file_chunks chunk_size
enqueue_file_chunks-Tiles size base out fits =
    let (ts, runs, tiles) =
      chunk_loop_lem (suc (size / chunk_size)) size 0 base out fits (omega arith) in
    let start : min 0 size ≡ 0 = omega arith in (ts, runs, rw start at tiles)
