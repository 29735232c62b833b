-- ===== src/Protocol/Reader.antt =====
-- The reader of tcp_command.rs on any bytes, well formed or not.
use facetime_v.Base.{
  >>=-eq-ok, All, All-append_right, Bytes, IsByte, List, Result-cases, [], ap, append_assoc, arith,
  inl, inr, length, length-take, ok, refl, suc, take-append-drop, zero, ℕ, ◌++◌, ◌>>=◌, ◌∷◌, ◌≡◌,
  ◌≤◌,
}
use facetime_v.Protocol.Id.{
  TcpCommandId, TcpCommandPayloadType, to_byte, from_byte, get_payload_type,
}
use facetime_v.Protocol.Utf8.{from_utf8-eq-ok}
use facetime_v.Protocol.Bytes.{from_byte-eq-ok}
use facetime_v.Protocol.RoundTrip.{IsText, IsWellFormed, Fits}
use facetime_v.Protocol.Command.{
  TcpCommand, simple, string, bytes, string_list, command, encode_strings, encode, read_exact,
  read_block, read_string, read_strings, read_payload, read_from_stream, u8_max,
}

read_exact-eq-ok :
    (n : ℕ) (stream x rest : Bytes)
    → read_exact n stream ≡ ok (x, rest)
    → (length x ≡ n) × (stream ≡ x ++ rest)
unfolding read_exact
read_exact-eq-ok n stream x rest h = ground (arith, take-append-drop n stream, length-take n stream)

read_block-eq-ok :
    (stream x rest : Bytes) → read_block stream ≡ ok (x, rest) → stream ≡ length x ∷ x ++ rest
unfolding read_block
read_block-eq-ok [] x rest h = cc
read_block-eq-ok (n ∷ stream) x rest h = ground (arith, read_exact-eq-ok n stream x rest)

read_string-eq-ok :
    (stream s rest : Bytes)
    → read_string stream ≡ ok (s, rest)
    → IsText s × (stream ≡ length s ∷ s ++ rest)
unfolding read_string
read_string-eq-ok stream s rest h = elim (Result-cases (read_block stream)) [
  | inl ((buf, r), e) ↦ ground (arith, e, read_block-eq-ok stream buf r e, from_utf8-eq-ok buf s)
  | inr (x, e) ↦ ground (arith, e)
]

-- The texts read so far fit the length byte, since a byte was read for it.
abbrev StringsRead : ℕ → Bytes → List Bytes → Bytes → Type 0
StringsRead n stream ss rest =
    (length ss ≡ n)
    × All IsText ss
    × All (λ (s : Bytes). length s ≤ u8_max) ss
    × ((b : Bytes) × (encode_strings ss ≡ ok b) × (stream ≡ b ++ rest))

StringsRead-cons :
    (n : ℕ) (stream s mid rest : Bytes) (ss : List Bytes)
    → All IsByte stream
    → read_string stream ≡ ok (s, mid)
    → (All IsByte mid → StringsRead n mid ss rest)
    → StringsRead (suc n) stream (s ∷ ss) rest
unfolding encode_strings
StringsRead-cons n stream s mid rest ss hb h ih =
    let (is_text, e) = read_string-eq-ok stream s mid h in
    let hb' : All IsByte (length s ∷ s ++ mid) = rw e at hb in
    let (same_len, texts, lens, (b, enc, split)) = ih (All-append_right IsByte s mid hb'.1) in
    (
      ap suc same_len,
      (is_text, texts),
      (omega arith, lens),
      (length s ∷ s ++ b, ground (arith, hb'.0), rw (e, split) (rw append_assoc)),
    )

read_strings-eq-ok :
    (n : ℕ) (stream : Bytes) (ss : List Bytes) (rest : Bytes)
    → All IsByte stream
    → read_strings n stream ≡ ok (ss, rest)
    → StringsRead n stream ss rest
unfolding read_strings
read_strings-eq-ok zero stream [] rest hb h =
    (refl, tt, tt, ([], unfold encode_strings in refl, ground arith))
read_strings-eq-ok zero stream (s ∷ ss) rest hb h = ground arith
read_strings-eq-ok (suc n) stream ss rest hb h =
    let ((s, mid), e, more) =
      >>=-eq-ok (read_string stream) (λ p. read_strings n p.1 >>= λ q. ok (p.0 ∷ q.0, q.1)) h in
    let ((ts, r), e', final) = >>=-eq-ok (read_strings n mid) (λ q. ok (s ∷ q.0, q.1)) more in
    let whole : s ∷ ts ≡ ss = cc in
    let left : r ≡ rest = cc in
    rw (← whole, ← left)
      (StringsRead-cons n stream s mid r ts hb e (λ hm. read_strings-eq-ok n mid ts r hm e'))

-- What a successful read says: the command is well formed and fits, and the bytes consumed are the
-- ones that the writer has for it.
abbrev pub Consumed : TcpCommand → Bytes → Bytes → Type 0
Consumed cmd stream rest =
    IsWellFormed cmd × Fits cmd × ((b : Bytes) × (encode cmd ≡ ok b) × (stream ≡ b ++ rest))

module _ (id : TcpCommandId) (stream rest : Bytes) (hb : All IsByte stream) where
  string-Consumed :
      (s : Bytes)
      → get_payload_type id ≡ TcpCommandPayloadType.string
      → read_string stream ≡ ok (s, rest)
      → Consumed (string id s) (to_byte id ∷ stream) rest
  unfolding encode
  string-Consumed s t h =
      let (is_text, e) = read_string-eq-ok stream s rest h in
      let hb' : All IsByte (length s ∷ s ++ rest) = rw e at hb in
      let fits : length s ≤ u8_max = omega arith in
      (
        (t, is_text),
        fits,
        (to_byte id ∷ length s ∷ s, ground arith, ap (λ (x : Bytes). to_byte id ∷ x) e),
      )

  bytes-Consumed :
      (s : Bytes)
      → get_payload_type id ≡ TcpCommandPayloadType.bytes
      → read_block stream ≡ ok (s, rest)
      → Consumed (bytes id s) (to_byte id ∷ stream) rest
  unfolding encode
  bytes-Consumed s t h =
      let e = read_block-eq-ok stream s rest h in
      let hb' : All IsByte (length s ∷ s ++ rest) = rw e at hb in
      let fits : length s ≤ u8_max = omega arith in
      (t, fits, (to_byte id ∷ length s ∷ s, ground arith, ap (λ (x : Bytes). to_byte id ∷ x) e))

string_list-Consumed :
    (id : TcpCommandId) (n : ℕ) (stream rest : Bytes) (ss : List Bytes)
    → All IsByte (n ∷ stream)
    → get_payload_type id ≡ TcpCommandPayloadType.string_list
    → read_strings n stream ≡ ok (ss, rest)
    → Consumed (string_list id ss) (to_byte id ∷ n ∷ stream) rest
unfolding encode
string_list-Consumed id n stream rest ss hb t h =
    let (same_len, texts, lens, (b, enc, split)) = read_strings-eq-ok n stream ss rest hb.1 h in
    let fits : length ss ≤ u8_max = omega arith in
    ((t, texts), (fits, lens), (to_byte id ∷ length ss ∷ b, ground arith, ground (arith, split)))

read_payload-eq-ok :
    (ty : TcpCommandPayloadType) (id : TcpCommandId) (stream : Bytes) (cmd : TcpCommand)
    (rest : Bytes)
    → All IsByte stream
    → get_payload_type id ≡ ty
    → read_payload ty id stream ≡ ok (cmd, rest)
    → Consumed cmd (to_byte id ∷ stream) rest
unfolding read_payload
read_payload-eq-ok TcpCommandPayloadType.simple id stream cmd rest hb t h =
    let same : simple id ≡ cmd = cc in
    let left : stream ≡ rest = cc in
    rw (← same, ← left) (t, tt, (to_byte id ∷ [], unfold encode in refl, refl))
read_payload-eq-ok TcpCommandPayloadType.string id stream cmd rest hb t h =
    elim (Result-cases (read_string stream)) [
      | inl ((s, r), e) ↦
          let same : string id s ≡ cmd = ground (arith, e) in
          let left : r ≡ rest = ground (arith, e) in
          rw (← same, ← left) (string-Consumed id stream r hb s t e)
      | inr (x, e) ↦ ground (arith, e)
    ]
read_payload-eq-ok TcpCommandPayloadType.bytes id stream cmd rest hb t h =
    elim (Result-cases (read_block stream)) [
      | inl ((s, r), e) ↦
          let same : bytes id s ≡ cmd = ground (arith, e) in
          let left : r ≡ rest = ground (arith, e) in
          rw (← same, ← left) (bytes-Consumed id stream r hb s t e)
      | inr (x, e) ↦ ground (arith, e)
    ]
read_payload-eq-ok TcpCommandPayloadType.string_list id [] cmd rest hb t h = cc
read_payload-eq-ok TcpCommandPayloadType.string_list id (n ∷ stream) cmd rest hb t h =
    elim (Result-cases (read_strings n stream)) [
      | inl ((ss, r), e) ↦
          let same : string_list id ss ≡ cmd = ground (arith, e) in
          let left : r ≡ rest = ground (arith, e) in
          rw (← same, ← left) (string_list-Consumed id n stream r ss hb t e)
      | inr (x, e) ↦ ground (arith, e)
    ]

-- A command that the reader takes from a stream of bytes is well formed and fits the wire format,
-- and the bytes that it takes are exactly those that the writer has for that command.
pub encode-read :
    (stream : Bytes) (cmd : TcpCommand) (rest : Bytes)
    → All IsByte stream
    → read_from_stream stream ≡ ok (command cmd, rest)
    → Consumed cmd stream rest
unfolding read_from_stream
encode-read [] cmd rest hb h = cc
encode-read (b ∷ stream) cmd rest hb h = elim (Result-cases (from_byte b)) [
  | inl (id, e) ↦ elim (Result-cases (read_payload (get_payload_type id) id stream)) [
    | inl ((c, r), e') ↦
        let same : c ≡ cmd = cc (rw e' at (rw e at h)) in
        let left : r ≡ rest = cc (rw e' at (rw e at h)) in
        rw (← same, ← left, ← from_byte-eq-ok b id hb.0 e)
          (read_payload-eq-ok (get_payload_type id) id stream c r hb.1 refl e')
    | inr (x, e') ↦ cc (rw e' at (rw e at h))
  ]
  | inr (x, e) ↦ cc (rw e at h)
]
