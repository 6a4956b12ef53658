-- ===== src/Net/Message.antt =====
-- NetCommon/include/net_message.hpp: a message is a header and a body of bytes that is used as a
-- stack of plain values. `pull` gives `none` where the source throws std::runtime_error.
use log_grid.Base.{
  List, Option, [], arith, drop, drop-append_length, false, if◌then◌else◌, length, length-append,
  ltb, none, refl, some, take, take-append_length, ℕ, ◌%◌, ◌++◌, ◌-◌, ◌<◌, ◌^◌, ◌≡◌,
}

-- `header.id` is the number of an enumeration constant, `header.size` a uint32_t.
pub record Message : Type 0 where
  pub id : ℕ
  pub size : ℕ
  pub body : List ℕ

-- `message<T>::size()`, with its cast to uint32_t
unfoldable pub size_of : List ℕ → ℕ
size_of body = length body % 2 ^ 32

abbrev pub empty : Message
empty = record { id = 0; size = 0; body = [] }

-- `msg << data`, on the bytes of `data`
unfoldable pub push : Message → List ℕ → Message
push m raw = record m { body = m.body ++ raw; size = size_of (m.body ++ raw) }

-- `msg >> data`, for a type of `type_size` bytes
unfoldable pub pull : ℕ → Message → Option (List ℕ × Message)
pull type_size m =
    if ltb (length m.body) type_size
    then none
    else let start_index = length m.body - type_size in
      let rest = take start_index m.body in
      some (drop start_index m.body, record m { body = rest; size = size_of rest })

-- What was pushed last is pulled first, by its length, and the body below it is as it was.
pub pull-push :
    (n : ℕ) (m : Message) (raw : List ℕ)
    → n ≡ length raw
    → pull n (push m raw) ≡ some (raw, record m { size = size_of m.body })
unfolding pull push
pull-push n m raw h =
    let enough : ltb (length (m.body ++ raw)) n ≡ false =
      ground (arith, length-append m.body raw) in
    let start : length (m.body ++ raw) - n ≡ length m.body =
      omega (arith, length-append m.body raw) in
    rw (
      enough,
      start,
      take-append_length (length m.body) m.body raw refl,
      drop-append_length (length m.body) m.body raw refl,
    )

-- A value longer than the body is refused.
pub pull_short : (n : ℕ) (m : Message) → length m.body < n → pull n m ≡ none
unfolding pull
pull_short n m h = ground arith

-- The header agrees with the body.
abbrev pub IsSized : Message → Type 0
IsSized m = m.size ≡ size_of m.body

pub push-IsSized : (m : Message) (raw : List ℕ) → IsSized (push m raw)
unfolding push
push-IsSized m raw = refl

pub pull-push_sized :
    (n : ℕ) (m : Message) (raw : List ℕ)
    → n ≡ length raw
    → IsSized m
    → pull n (push m raw) ≡ some (raw, m)
pull-push_sized n m raw h sized = rw (pull-push n m raw h, ← sized)
