-- ===== src/Net/Print.antt =====
-- The printing operators of NetCommon/include/net_message.hpp, as the text that they put out.
use log_grid.Base.{List, [], if◌then◌else◌, ltb, ℕ, ◌-◌, ◌^◌, ◌∷◌}
use log_grid.Http.Stoull.{decimal}
use log_grid.Net.Message.{Message}
use log_grid.Net.Connection.Reader.{OwnedMessage}

-- An unsigned 32-bit number as an int: from 2 ^ 31 on it is negative.
unfoldable pub print_int : ℕ → List ℕ → List ℕ
print_int n text = if ltb n (2 ^ 31) then decimal 10 n text else 45 ∷ decimal 10 (2 ^ 32 - n) text

-- "ID:" and " Size:"
unfoldable pub print_message : Message → List ℕ
print_message m =
    73 ∷ 68 ∷ 58 ∷ print_int m.id (32 ∷ 83 ∷ 105 ∷ 122 ∷ 101 ∷ 58 ∷ decimal 10 m.size [])

abbrev pub print_owned : OwnedMessage → List ℕ
print_owned m = print_message m.msg
