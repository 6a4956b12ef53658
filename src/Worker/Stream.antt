-- ===== src/Worker/Stream.antt =====
-- The calls of std::ifstream that FileProcessor.hpp makes, on a binary file of known content.
-- eofbit and failbit are kept; the file is not written to while it is read.
use log_grid.Base.{
  Bool, List, Option, [], drop, false, if◌then◌else◌, length, none, some, true, ℕ, ◌+◌, ◌==◌, ◌||◌,
  ◌∷◌,
}

abbrev pub newline : ℕ
newline = 10

-- A suffix of the file up to its first newline, and what follows that newline.
unfoldable pub first_line : List ℕ → List ℕ
first_line [] = []
first_line (c ∷ cs) = let rest = first_line cs in if c == newline then [] else c ∷ rest

unfoldable pub after_newline : List ℕ → List ℕ
after_newline [] = []
after_newline (c ∷ cs) = let rest = after_newline cs in if c == newline then cs else rest

unfoldable pub has_newline : List ℕ → Bool
has_newline [] = false
has_newline (c ∷ cs) = let rest = has_newline cs in if c == newline then true else rest

pub record Stream : Type 0 where
  pub content : List ℕ
  pub position : ℕ
  pub eof : Bool
  pub fail : Bool

abbrev pub open_stream : List ℕ → Stream
open_stream content = record { content = content; position = 0; eof = false; fail = false }

-- `seekg(n)` clears eofbit, and moves unless the stream has failed; past the end is allowed.
unfoldable pub seekg : ℕ → Stream → Stream
seekg n s = if s.fail then record s { eof = false } else record s { eof = false; position = n }

-- The part of the file that is still ahead.
abbrev pub ahead : Stream → List ℕ
ahead s = drop s.position s.content

abbrev get_byte : List ℕ → Stream → Option ℕ × Stream
get_byte [] s = (none, record s { eof = true; fail = true })
get_byte (c ∷ cs) s = (some c, record s { position = s.position + 1 })

-- `get(c)`: `none` leaves the variable as it was.
unfoldable pub get : Stream → Option ℕ × Stream
get s = if s.eof || s.fail then (none, record s { fail = true }) else get_byte (ahead s) s

abbrev is_empty : List ℕ → Bool
is_empty [] = true
is_empty (c ∷ cs) = false

-- `std::getline`: `none` where the stream then tests false. The newline is taken and not stored; a
-- last line without one sets eofbit.
unfoldable pub getline : Stream → Option (List ℕ) × Stream
getline s =
    let line = first_line (ahead s) in
    if s.eof || s.fail
    then (none, record s { fail = true })
    else if has_newline (ahead s)
    then (some line, record s { position = s.position + (length line + 1) })
    else if is_empty line
    then (none, record s { eof = true; fail = true })
    else (some line, record s { eof = true; position = s.position + length line })

-- `tellg()`: `none` is the position -1. Its sentry sets failbit where eofbit is set.
unfoldable pub tellg : Stream → Option ℕ × Stream
tellg s = if s.eof || s.fail then (none, record s { fail = true }) else (some s.position, s)
