-- ===== src/Net/Connection/Writing.antt =====
-- What a connection puts on the wire.
use mathlib.Core.List.{append_assoc, append-nil}
use log_grid.Base.{
  Bool-cases, List, [], ap, arith, false, inl, inr, length, ltb, refl, subst, sym, true, ℕ, ◌++◌,
  ◌<◌, ◌∙◌, ◌∷◌, ◌≡◌,
}
use log_grid.Net.Message.{Message}
use log_grid.Net.Connection.{
  WritePhase, Writer, body_done, body_write, header_bytes, header_done, header_write, new_writer,
  no_write, on_body_written, on_header_written, phase_after_push, phase_for, send,
}

-- A message on the wire.
abbrev pub frame : Message → List ℕ
frame m = header_bytes m ++ m.body

unfoldable pub frames : List Message → List ℕ
frames [] = []
frames (m ∷ ms) = frame m ++ frames ms

-- The states that a connection comes to without an error, with the messages posted so far: a handler
-- runs when the write that it belongs to is under way.
pub data Reachable : List Message → Writer → Type 0 where
  start : Reachable [] new_writer
  posted_message :
      {posted : List Message} {w : Writer} (msg : Message)
      → Reachable posted w
      → Reachable (posted ++ (msg ∷ [])) (send msg w)
  header_written :
      {posted : List Message} {w : Writer}
      → Reachable posted w
      → w.phase ≡ header_write
      → Reachable posted (on_header_written true w)
  body_written :
      {posted : List Message} {w : Writer}
      → Reachable posted w
      → w.phase ≡ body_write
      → Reachable posted (on_body_written true w)

-- What the wire still lacks, by the write under way.
abbrev pub lacking : WritePhase → List Message → List ℕ
lacking no_write ms = []
lacking header_write ms = frames ms
lacking body_write [] = []
lacking body_write (m ∷ ms) = m.body ++ frames ms

-- No write is under way exactly when the queue is empty.
abbrev pub Busy : WritePhase → List Message → Type 0
Busy no_write ms = ms ≡ []
Busy header_write ms = 0 < length ms
Busy body_write ms = 0 < length ms

record Consistent (posted : List Message) (w : Writer) : Type 0 where
  busy : Busy w.phase w.messages_out
  bytes : w.wire ++ lacking w.phase w.messages_out ≡ frames posted

frames-append : (ms ns : List Message) → frames (ms ++ ns) ≡ frames ms ++ frames ns
unfolding frames
frames-append [] ns = refl
frames-append (m ∷ ms) ns =
    ap (λ x. frame m ++ x) (frames-append ms ns) ∙ sym (append_assoc (frame m) _ _)

lacking-phase_for : (ms : List Message) → lacking (phase_for ms) ms ≡ frames ms
unfolding frames
lacking-phase_for [] = refl
lacking-phase_for (m ∷ ms) = refl

Busy-phase_for : (ms : List Message) → Busy (phase_for ms) ms
Busy-phase_for [] = refl
Busy-phase_for (m ∷ ms) = omega arith

lacking-push :
    (phase : WritePhase) (ms : List Message) (msg : Message)
    → Busy phase ms
    → lacking (phase_after_push ms phase) (ms ++ (msg ∷ [])) ≡ lacking phase ms ++ frames (msg ∷ [])
lacking-push no_write [] msg h = refl
lacking-push no_write (m ∷ ms) msg h = absurd (omega (arith, ap length h))
lacking-push header_write [] msg h = absurd (omega (arith, h))
lacking-push header_write (m ∷ ms) msg h = frames-append (m ∷ ms) (msg ∷ [])
lacking-push body_write [] msg h = absurd (omega (arith, h))
lacking-push body_write (m ∷ ms) msg h =
    ap (λ x. m.body ++ x) (frames-append ms (msg ∷ []))
    ∙ sym (append_assoc m.body (frames ms) (frames (msg ∷ [])))

Busy-push :
    (phase : WritePhase) (ms : List Message) (msg : Message)
    → Busy phase ms
    → Busy (phase_after_push ms phase) (ms ++ (msg ∷ []))
Busy-push no_write [] msg h = omega arith
Busy-push no_write (m ∷ ms) msg h = absurd (omega (arith, ap length h))
Busy-push header_write [] msg h = absurd (omega (arith, h))
Busy-push header_write (m ∷ ms) msg h = omega arith
Busy-push body_write [] msg h = absurd (omega (arith, h))
Busy-push body_write (m ∷ ms) msg h = omega arith

send-Consistent :
    {posted : List Message} {w : Writer} (msg : Message)
    → Consistent posted w
    → Consistent (posted ++ (msg ∷ [])) (send msg w)
unfolding send
send-Consistent {posted} {w} msg c = record {
  busy = Busy-push w.phase w.messages_out msg c.busy;
  bytes =
      ap (λ x. w.wire ++ x) (lacking-push w.phase w.messages_out msg c.busy)
      ∙ (sym (append_assoc w.wire _ _)
          ∙ (ap (λ x. x ++ frames (msg ∷ [])) c.bytes ∙ sym (frames-append posted (msg ∷ []))));
}

no_bytes : (bytes : List ℕ) → ltb 0 (length bytes) ≡ false → bytes ≡ []
no_bytes [] h = refl
no_bytes (b ∷ bs) h = absurd (ground (arith, h))

header_done-Consistent :
    (posted : List Message) (w : Writer) (ms : List Message)
    → w.messages_out ≡ ms
    → 0 < length ms
    → w.wire ++ frames ms ≡ frames posted
    → Consistent posted (header_done ms w)
unfolding frames
header_done-Consistent posted w [] e h bytes = absurd (omega (arith, h))
header_done-Consistent posted w (m ∷ ms) e h bytes =
    let joined =
      append_assoc w.wire (header_bytes m) (m.body ++ frames ms)
      ∙ (ap (λ x. w.wire ++ x) (sym (append_assoc (header_bytes m) m.body (frames ms))) ∙ bytes) in
    elim (Bool-cases (ltb 0 (length m.body))) [
      | inl some_body ↦ rw some_body (record {
        busy = subst (λ l. 0 < length l) (sym e) h;
        bytes =
            subst (λ l. w.wire ++ header_bytes m ++ lacking body_write l ≡ frames posted) (sym e)
              joined;
      })
      | inr no_body ↦ rw no_body (record {
        busy = Busy-phase_for ms;
        bytes =
            ap (λ x. w.wire ++ header_bytes m ++ x)
              (lacking-phase_for ms ∙ ap (λ b. b ++ frames ms) (sym (no_bytes m.body no_body)))
            ∙ joined;
      })
    ]

body_done-Consistent :
    (posted : List Message) (w : Writer) (ms : List Message)
    → 0 < length ms
    → w.wire ++ lacking body_write ms ≡ frames posted
    → Consistent posted (body_done ms w)
body_done-Consistent posted w [] h bytes = absurd (omega (arith, h))
body_done-Consistent posted w (m ∷ ms) h bytes = record {
  busy = Busy-phase_for ms;
  bytes =
      ap (λ x. w.wire ++ m.body ++ x) (lacking-phase_for ms)
      ∙ (append_assoc w.wire m.body (frames ms) ∙ bytes);
}

Reachable-Consistent :
    {posted : List Message} {w : Writer} → Reachable posted w → Consistent posted w
unfolding on_header_written on_body_written frames
Reachable-Consistent start = record { busy = refl; bytes = refl }
Reachable-Consistent (posted_message msg r) = send-Consistent msg (Reachable-Consistent r)
Reachable-Consistent {posted} (header_written {w = w} r e) =
    let c = Reachable-Consistent r in
    header_done-Consistent posted w w.messages_out refl
      (subst (λ p. Busy p w.messages_out) e c.busy)
      (subst (λ p. w.wire ++ lacking p w.messages_out ≡ frames posted) e c.bytes)
Reachable-Consistent {posted} (body_written {w = w} r e) =
    let c = Reachable-Consistent r in
    body_done-Consistent posted w w.messages_out (subst (λ p. Busy p w.messages_out) e c.busy)
      (subst (λ p. w.wire ++ lacking p w.messages_out ≡ frames posted) e c.bytes)

-- Whatever the order of calls of Send and of completed writes, without an error: what is on the wire,
-- and what the queue still has to give, are the messages posted, header and body, in order. When no
-- write is under way, all of them are on the wire.
pub wire_lem :
    (posted : List Message) (w : Writer)
    → Reachable posted w
    → (w.wire ++ lacking w.phase w.messages_out ≡ frames posted) × Busy w.phase w.messages_out
wire_lem posted w r = ((Reachable-Consistent r).bytes, (Reachable-Consistent r).busy)

pub wire_idle :
    (posted : List Message) (w : Writer)
    → Reachable posted w
    → w.phase ≡ no_write
    → w.wire ≡ frames posted
wire_idle posted w r e =
    sym (append-nil w.wire)
    ∙ subst (λ p. w.wire ++ lacking p w.messages_out ≡ frames posted) e
        (Reachable-Consistent r).bytes
