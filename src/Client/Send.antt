-- ===== src/Client/Send.antt =====
-- client/src/udp_handler.rs, `udp_send_loop`: one round of the loop for one frame of the camera. The
-- state is the loop's variables; the packets are those handed to `send`, whose failures the loop
-- ignores.
pub mod Chunks
use facetime_v.Base.{
  Bool, Bytes, List, Option, [], as_u32, drop, if◌then◌else◌, leb, length, none, some, suc, take,
  to_be_bytes, true, zero, ℕ, ◌%◌, ◌++◌, ◌+◌, ◌==◌, ◌∷◌,
}
use facetime_v.Client.Delta.{
  Created, made, refused, stuck, create_delta_optimized, serialize_deltas_optimized,
}

abbrev pub max_chunk : ℕ
max_chunk = 1350

abbrev pub sequence_wrap : ℕ
sequence_wrap = 1_000_000

abbrev pub heartbeat_interval : ℕ
heartbeat_interval = 30

pub data FrameType : Type 0 where
  full delta heartbeat : FrameType

-- `frame_type as u8`.
abbrev pub type_byte : FrameType → ℕ
type_byte full = 0
type_byte delta = 1
type_byte heartbeat = 2

pub record Sending : Type 0 where
  pub last_frame : Option Bytes
  pub sequence : ℕ
  pub heartbeat_counter : ℕ

-- What is sent for a frame: its type and the bytes, or nothing (`continue`).
pub data Choice : Type 0 where
  nothing : Choice
  packet_of : FrameType → Bytes → Choice

-- No change to the frame before: a heartbeat for each thirtieth in a row.
unfoldable pub unchanged : ℕ → Choice × ℕ
unchanged heartbeat_counter =
    let counted = heartbeat_counter + 1 in
    if leb heartbeat_interval counted then (packet_of heartbeat [], 0) else (nothing, counted)

-- What is made of the answer of `create_delta_optimized`, which never is `stuck`.
unfoldable pub choose_delta : Bytes → ℕ → Created → Choice × ℕ
choose_delta frame heartbeat_counter (made []) = unchanged heartbeat_counter
choose_delta frame heartbeat_counter (made (d ∷ ds)) =
    (packet_of delta (serialize_deltas_optimized (d ∷ ds)), 0)
choose_delta frame heartbeat_counter refused = (packet_of full frame, 0)
choose_delta frame heartbeat_counter stuck = (packet_of full frame, 0)

unfoldable pub choose : (ℕ → ℕ) → Bytes → Option Bytes → ℕ → Choice × ℕ
choose threshold frame none heartbeat_counter = (packet_of full frame, 0)
choose threshold frame (some prev_frame) heartbeat_counter =
    choose_delta frame heartbeat_counter (create_delta_optimized threshold prev_frame frame)

-- `data.chunks(n)`, for data of at most `fuel` bytes.
unfoldable pub chunks_of : ℕ → ℕ → Bytes → List Bytes
chunks_of zero n data_ahead = []
chunks_of (suc fuel) n [] = []
chunks_of (suc fuel) n (b ∷ data_ahead) =
    take n (b ∷ data_ahead) ∷ chunks_of fuel n (drop n (b ∷ data_ahead))

-- The bytes of one packet: where it goes, what it is, and its chunk.
unfoldable pub packet : Bytes → FrameType → ℕ → ℕ → Bool → Bytes → Bytes
packet full_sid t sequence i is_last chunk =
    full_sid
    ++ (type_byte t ∷ to_be_bytes sequence
        ++ (to_be_bytes (as_u32 i) ++ ((if is_last then 1 else 0) ∷ chunk)))

-- The packets of the chunks from the `i`-th on.
unfoldable pub packets_from : Bytes → FrameType → ℕ → ℕ → ℕ → List Bytes → List Bytes
packets_from full_sid t sequence total i [] = []
packets_from full_sid t sequence total i (chunk ∷ chunks) =
    packet full_sid t sequence i (i + 1 == total) chunk
    ∷ packets_from full_sid t sequence total (i + 1) chunks

unfoldable pub packets : Bytes → FrameType → ℕ → Bytes → List Bytes
packets full_sid heartbeat sequence content = packet full_sid heartbeat sequence 0 true [] ∷ []
packets full_sid t sequence content =
    let chunks = chunks_of (length content) max_chunk content in
    packets_from full_sid t sequence (length chunks) 0 chunks

unfoldable pub send_choice : Bytes → Bytes → Sending → Choice × ℕ → List Bytes × Sending
send_choice full_sid frame s (nothing, counter) = ([], record s { heartbeat_counter = counter })
send_choice full_sid frame s (packet_of t content, counter) = (
  packets full_sid t s.sequence content,
  record s { last_frame = some frame; heartbeat_counter = counter },
)

-- `frame` is what `to_bytes` makes of the new frame.
unfoldable pub send_frame : (ℕ → ℕ) → Bytes → Bytes → Sending → List Bytes × Sending
send_frame threshold full_sid frame s =
    let s' = record s { sequence = (s.sequence + 1) % sequence_wrap } in
    send_choice full_sid frame s' (choose threshold frame s.last_frame s.heartbeat_counter)
