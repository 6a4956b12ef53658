-- ===== src/Net/Connection/Reading.antt =====
-- What a connection reads: the messages that the other side has put on the wire.
use mathlib.Core.List.{append_assoc}
use log_grid.Base.{
  All, List, [], ap, arith, drop, drop-append_length, false, length, length-append, ltb, refl, suc,
  sym, take-append_length, true, zero, ℕ, ◌++◌, ◌<◌, ◌^◌, ◌∙◌, ◌∷◌, ◌≡◌, ◌≤◌,
}
use log_grid.Net.Bytes.{from_le, from_le-le, le, length-le}
use log_grid.Net.Message.{Message}
use log_grid.Net.Connection.{Writer, header_bytes, no_write, read_messages}
use log_grid.Net.Connection.Writing.{Reachable, frame, frames, wire_idle}

-- A message that has a body, and a header that tells its size.
pub record IsFramed (m : Message) : Type 0 where
  pub id_u32 : m.id < 256 ^ 4
  pub some_body : 0 < length m.body
  pub sized : m.size ≡ length m.body
  pub size_u32 : length m.body < 256 ^ 4

header_front : (i s : ℕ) (x : List ℕ) → drop 8 (le 4 i ++ (le 4 s ++ x)) ≡ x
header_front i s x =
    ap (drop 8) (sym (append_assoc (le 4 i) (le 4 s) x))
    ∙ drop-append_length 8 (le 4 i ++ le 4 s) x
        (omega (arith, length-append (le 4 i) (le 4 s), length-le 4 i, length-le 4 s))

frame_lem :
    (m : Message) (rest : List ℕ) → frame m ++ rest ≡ le 4 m.id ++ (le 4 m.size ++ (m.body ++ rest))
unfolding header_bytes
frame_lem m rest =
    append_assoc (le 4 m.id ++ le 4 m.size) m.body rest
    ∙ append_assoc (le 4 m.id) (le 4 m.size) (m.body ++ rest)

read_messages_round :
    (fuel : ℕ) (body : List ℕ) (m : Message) (rest : List ℕ)
    → IsFramed m
    → read_messages (suc fuel) body (frame m ++ rest) ≡ m ∷ read_messages fuel m.body rest
unfolding read_messages
read_messages_round fuel body m rest v =
    let i = le 4 m.id in
    let s = le 4 m.size in
    let x = m.body ++ rest in
    let long : ltb (length (i ++ (s ++ x))) 8 ≡ false =
      ground (
        arith,
        length-append i (s ++ x),
        length-append s x,
        length-le 4 m.id,
        length-le 4 m.size,
      ) in
    let some_body : ltb 0 m.size ≡ true = ground (arith, v.some_body, v.sized) in
    let enough : ltb (length x) m.size ≡ false =
      ground (arith, length-append m.body rest, v.sized) in
    let size : from_le s ≡ m.size = from_le-le 4 m.size (omega (arith, v.sized, v.size_u32)) in
    rw (frame_lem m rest) (
      simp (
        long,
        take-append_length 4 i (s ++ x) (sym (length-le 4 m.id)),
        drop-append_length 4 i (s ++ x) (sym (length-le 4 m.id)),
        take-append_length 4 s x (sym (length-le 4 m.size)),
        header_front m.id m.size x,
        from_le-le 4 m.id v.id_u32,
        size,
        some_body,
        enough,
        take-append_length m.size m.body rest v.sized,
        drop-append_length m.size m.body rest v.sized,
      ))

read_messages-frames :
    (fuel : ℕ) (body : List ℕ) (ms : List Message)
    → length ms ≤ fuel
    → All IsFramed ms
    → read_messages fuel body (frames ms) ≡ ms
unfolding frames
read_messages-frames zero body [] h framed = unfold read_messages in refl
read_messages-frames (suc fuel) body [] h framed = unfold read_messages in refl
read_messages-frames zero body (m ∷ ms) h framed = absurd (omega (arith, h))
read_messages-frames (suc fuel) body (m ∷ ms) h framed =
    read_messages_round fuel body m (frames ms) framed.0
    ∙ ap (λ l. m ∷ l) (read_messages-frames fuel m.body ms (omega (arith, h)) framed.1)

-- The other side reads the messages that were posted, in order and unchanged, once no write is under
-- way and if none has failed: messages with a body and a header that tells its size. What was read
-- before does not matter, and a fuel of one for each message is enough.
pub read_messages-Reachable :
    (posted : List Message) (w : Writer) (body : List ℕ)
    → Reachable posted w
    → w.phase ≡ no_write
    → All IsFramed posted
    → read_messages (length posted) body w.wire ≡ posted
read_messages-Reachable posted w body r idle framed =
    ap (read_messages (length posted) body) (wire_idle posted w r idle)
    ∙ read_messages-frames (length posted) body posted (omega arith) framed
