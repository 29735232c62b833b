-- ===== src/Protocol/Names.antt =====
-- shared/src/lib.rs: identifiers, the length limit and the alphabet of names; and the test of the
-- handlers for an empty name.
use facetime_v.Base.{ℕ, Bool, ◌&&◌, ◌||◌, leb, ◌==◌, all, Bytes}
use facetime_v.Protocol.Utf8.{chars}

-- `[u8; 4]`.
abbrev pub RoomId : Type 0
RoomId = Bytes

abbrev pub StreamId : Type 0
StreamId = Bytes

abbrev pub id_len : ℕ
id_len = 4

abbrev pub max_name_length : ℕ
max_name_length = 15

unfoldable pub is_name_char : ℕ → Bool
is_name_char c =
    (leb b'a' c && leb c b'z')
    || (leb b'A' c && leb c b'Z')
    || (leb b'0' c && leb c b'9')
    || c == b'_'
    || c == b'-'

unfoldable pub is_valid_name : Bytes → Bool
unfolding is_name_char chars
is_valid_name name = all is_name_char (chars name)

-- `char::is_whitespace`: the White_Space property of Unicode.
unfoldable pub is_whitespace : ℕ → Bool
is_whitespace c =
    (leb 9 c && leb c 13)
    || c == 0x20
    || c == 0x85
    || c == 0xa0
    || c == 0x1680
    || (leb 0x2000 c && leb c 0x200a)
    || c == 0x2028
    || c == 0x2029
    || c == 0x202f
    || c == 0x205f
    || c == 0x3000

-- `name.trim().is_empty()`: nothing is left when white space is cut off at both ends.
unfoldable pub is_blank : Bytes → Bool
unfolding is_whitespace chars
is_blank name = all is_whitespace (chars name)
