-- ===== src/Protocol/RoundTrip.antt =====
-- What the writer of tcp_command.rs puts on the wire and what its reader makes of it.
use facetime_v.Base.{
  >>=-eq-ok, All, Bytes, List, Result-cases, [], append_assoc, arith, drop-append, guard, inl, inr,
  leb, length, length-append, ok, refl, string_in_list_too_large, take-append, ◌++◌, ◌>>=◌, ◌↔◌,
  ◌∷◌, ◌≡◌, ◌≤◌,
}
use facetime_v.Protocol.Id.{to_byte, TcpCommandPayloadType, get_payload_type}
use facetime_v.Protocol.Utf8.{from_utf8}
use facetime_v.Protocol.Bytes.{from_byte-to_byte}
use facetime_v.Protocol.Command.{
  TcpCommand, simple, string, bytes, string_list, command, encode_strings, encode, read_exact,
  read_block, read_string, read_strings, read_from_stream, u8_max,
}

abbrev pub IsText : Bytes → Type 0
IsText s = from_utf8 s ≡ ok s

-- The constructor is the one that the command's payload type asks for, and texts are UTF-8, as
-- every Rust `String` is.
abbrev pub IsWellFormed : TcpCommand → Type 0
IsWellFormed (simple id) = get_payload_type id ≡ TcpCommandPayloadType.simple
IsWellFormed (string id s) = (get_payload_type id ≡ TcpCommandPayloadType.string) × IsText s
IsWellFormed (bytes id b) = get_payload_type id ≡ TcpCommandPayloadType.bytes
IsWellFormed (string_list id ss) =
    (get_payload_type id ≡ TcpCommandPayloadType.string_list) × All IsText ss

-- The lengths fit the single bytes that stand for them.
abbrev pub Fits : TcpCommand → Type 0
Fits (simple id) = Unit
Fits (string id s) = length s ≤ u8_max
Fits (bytes id b) = length b ≤ u8_max
Fits (string_list id ss) = (length ss ≤ u8_max) × All (λ (s : Bytes). length s ≤ u8_max) ss

read_exact-append : (xs rest : Bytes) → read_exact (length xs) (xs ++ rest) ≡ ok (xs, rest)
unfolding read_exact
read_exact-append xs rest =
    ground (arith, length-append xs rest, take-append xs rest, drop-append xs rest)

read_string-append : (s rest : Bytes) → IsText s → read_string (length s ∷ s ++ rest) ≡ ok (s, rest)
unfolding read_string read_block
read_string-append s rest h = rw (read_exact-append s rest) (rw h refl)

encode_strings-cons :
    (s : Bytes) (ss : List Bytes) (b : Bytes)
    → encode_strings (s ∷ ss) ≡ ok b
    → (t : Bytes) × (encode_strings ss ≡ ok t) × (b ≡ length s ∷ s ++ t)
unfolding encode_strings
encode_strings-cons s ss b h =
    let (u, _, rest) =
      >>=-eq-ok (guard (leb (length s) u8_max) string_in_list_too_large)
        (λ _. encode_strings ss >>= λ t. ok (length s ∷ s ++ t)) h in
    let (t, ht, e) = >>=-eq-ok (encode_strings ss) (λ t. ok (length s ∷ s ++ t)) rest in
    (t, ht, ground arith)

read_strings-encode_strings :
    (ss : List Bytes) (b rest : Bytes)
    → All IsText ss
    → encode_strings ss ≡ ok b
    → read_strings (length ss) (b ++ rest) ≡ ok (ss, rest)
unfolding read_strings
read_strings-encode_strings [] b rest ht h = unfold encode_strings in ground arith
read_strings-encode_strings (s ∷ ss) b rest (hs, hss) h =
    let (t, ht, e) = encode_strings-cons s ss b h in
    rw (e, append_assoc s t rest, read_string-append s (t ++ rest) hs)
      (rw (read_strings-encode_strings ss t rest hss ht) refl)

-- A well-formed command that the writer accepts is what the reader finds at the front of the stream,
-- whatever follows, and the reader leaves what follows.
pub read-encode :
    (cmd : TcpCommand) (b rest : Bytes)
    → IsWellFormed cmd
    → encode cmd ≡ ok b
    → read_from_stream (b ++ rest) ≡ ok (command cmd, rest)
unfolding encode read_from_stream
read-encode (simple id) b rest w h = ground (arith, from_byte-to_byte id)
read-encode (string id s) b rest w h =
    ground (arith, from_byte-to_byte id, read_string-append s rest w.1)
read-encode (bytes id s) b rest w h = ground (arith, from_byte-to_byte id, read_exact-append s rest)
read-encode (string_list id ss) b rest w h = elim (Result-cases (encode_strings ss)) [
  | inl (t, e) ↦
      ground (arith, e, from_byte-to_byte id, read_strings-encode_strings ss t rest w.1 e)
  | inr (x, e) ↦ ground (arith, e)
]

encode_strings-fits :
    (ss : List Bytes) (b : Bytes)
    → encode_strings ss ≡ ok b
    → All (λ (s : Bytes). length s ≤ u8_max) ss
unfolding encode_strings
encode_strings-fits [] b h = tt
encode_strings-fits (s ∷ ss) b h = elim (Result-cases (encode_strings ss)) [
  | inl (t, e) ↦ (ground arith, encode_strings-fits ss t e)
  | inr (x, e) ↦ ground (arith, e)
]

encode_strings_total :
    (ss : List Bytes)
    → All (λ (s : Bytes). length s ≤ u8_max) ss
    → (b : Bytes) × (encode_strings ss ≡ ok b)
unfolding encode_strings
encode_strings_total [] h = ([], refl)
encode_strings_total (s ∷ ss) h =
    let (t, e) = encode_strings_total ss h.1 in (length s ∷ s ++ t, ground (arith, h.0, e))

-- The writer accepts a command exactly when each length in it is at most 255.
pub encode-Fits : (cmd : TcpCommand) → ((b : Bytes) × (encode cmd ≡ ok b)) ↔ Fits cmd
unfolding encode
encode-Fits (simple id) = (λ _. tt, λ _. (_, refl))
encode-Fits (string id s) = (λ h. ground arith, λ h. (to_byte id ∷ length s ∷ s, ground arith))
encode-Fits (bytes id s) = (λ h. ground arith, λ h. (to_byte id ∷ length s ∷ s, ground arith))
encode-Fits (string_list id ss) = (
  λ h. elim (Result-cases (encode_strings ss)) [
    | inl (t, e) ↦ (ground arith, encode_strings-fits ss t e)
    | inr (x, e) ↦ ground (arith, e)
  ],
  λ h.
      let (t, e) = encode_strings_total ss h.1 in
      (to_byte id ∷ length ss ∷ t, ground (arith, h.0, e)),
)
