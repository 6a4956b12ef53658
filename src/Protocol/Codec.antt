-- ===== src/Protocol/Codec.antt =====
-- TaskPayload as the bytes of the struct: five uint64_t and two char arrays, with no padding.
use log_grid.Base.{
  List, drop, drop-append_length, length, length-append, sym, take, take-append_length, ℕ, ◌++◌,
  ◌<◌, ◌^◌, ◌≡◌,
}
use log_grid.Net.Bytes.{from_le, from_le-le, le, length-le}
use log_grid.Protocol.{IsPayload, TaskPayload, keyword_size}

unfoldable pub payload_size : ℕ
payload_size = 360

unfoldable pub encode_task : TaskPayload → List ℕ
encode_task t =
    le 8 t.search_id
    ++ (le 8 t.task_id
        ++ (le 8 t.max_results
            ++ (le 8 t.start_offset ++ (le 8 t.end_offset ++ (t.keyword ++ t.filename)))))

-- The word at the front of the bytes.
unfoldable pub word : List ℕ → ℕ
word bs = from_le (take 8 bs)

unfoldable pub decode_task : List ℕ → TaskPayload
decode_task b0 =
    let b1 = drop 8 b0 in
    let b2 = drop 8 b1 in
    let b3 = drop 8 b2 in
    let b4 = drop 8 b3 in
    let b5 = drop 8 b4 in
    record {
      search_id = word b0;
      task_id = word b1;
      max_results = word b2;
      start_offset = word b3;
      end_offset = word b4;
      keyword = take keyword_size b5;
      filename = drop keyword_size b5;
    }

pub length-encode_task : (t : TaskPayload) → IsPayload t → length (encode_task t) ≡ payload_size
unfolding encode_task payload_size
length-encode_task t v = simp (length-append, length-le, v.keyword_len, v.filename_len)

word-le : (v : ℕ) (bs : List ℕ) → v < 256 ^ 8 → word (le 8 v ++ bs) ≡ v
unfolding word
word-le v bs h = rw (take-append_length 8 (le 8 v) bs (sym (length-le 8 v))) (from_le-le 8 v h)

drop-le : (v : ℕ) (bs : List ℕ) → drop 8 (le 8 v ++ bs) ≡ bs
drop-le v bs = drop-append_length 8 (le 8 v) bs (sym (length-le 8 v))

-- A payload that the C++ types can hold survives the trip through its bytes.
pub decode_task-encode_task : (t : TaskPayload) → IsPayload t → decode_task (encode_task t) ≡ t
unfolding decode_task encode_task
decode_task-encode_task t v = simp (
  drop-le,
  word-le t.search_id _ v.search_id_u64,
  word-le t.task_id _ v.task_id_u64,
  word-le t.max_results _ v.max_results_u64,
  word-le t.start_offset _ v.start_u64,
  word-le t.end_offset _ v.end_u64,
  take-append_length keyword_size t.keyword t.filename (sym v.keyword_len),
  drop-append_length keyword_size t.keyword t.filename (sym v.keyword_len),
)
