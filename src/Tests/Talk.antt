-- ===== src/Tests/Talk.antt =====
-- Messages between a master and a worker, over a connection.
use log_grid.Base.{[], arith, refl, true, ℕ, ◌++◌, ◌<◌, ◌^◌, ◌∷◌, ◌≡◌}
use log_grid.Net.Message.{Message}
use log_grid.Net.Connection.{Writer, new_writer, no_write, on_body_written, on_header_written, send}
use log_grid.Net.Connection.Writing.{
  Busy, Reachable, body_written, frames, header_written, lacking, posted_message, start, wire_lem,
}
use log_grid.Net.Connection.Reading.{IsFramed}

-- Two messages of one byte, posted before the first is written.
abbrev pub first_message : Message
first_message = record { id = 1; size = 1; body = 7 ∷ [] }

abbrev pub second_message : Message
second_message = record { id = 2; size = 1; body = 8 ∷ [] }

abbrev writing : Writer
writing = on_header_written true (send second_message (send first_message new_writer))

writing-Reachable : Reachable (first_message ∷ second_message ∷ []) writing
unfolding send
writing-Reachable =
    header_written (posted_message second_message (posted_message first_message start)) refl

abbrev pub written_all : Writer
written_all = on_body_written true (on_header_written true (on_body_written true writing))

pub written_all-Reachable : Reachable (first_message ∷ second_message ∷ []) written_all
unfolding send on_header_written on_body_written
written_all-Reachable =
    body_written (header_written (body_written writing-Reachable refl) refl) refl

pub written_all_idle : written_all.phase ≡ no_write
unfolding send on_header_written on_body_written
written_all_idle = refl

wire_lem_example :
    (writing.wire ++ lacking writing.phase writing.messages_out
      ≡ frames (first_message ∷ second_message ∷ []))
    × Busy writing.phase writing.messages_out
wire_lem_example = wire_lem (first_message ∷ second_message ∷ []) writing writing-Reachable

pub framed :
    (id byte : ℕ) → id < 256 ^ 4 → IsFramed (record { id = id; size = 1; body = byte ∷ [] })
framed id byte small = record {
  id_u32 = small;
  some_body = omega arith;
  sized = refl;
  size_u32 = omega arith;
}
