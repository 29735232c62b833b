-- ===== src/Client/Stream/Run.antt =====
-- Any number of frames, the first one included.
use facetime_v.Base.{
  All, Bool, Bytes, IsU32, List, Option, [], arith, length, none, ℕ, ◌++◌, ◌+◌, ◌∷◌, ◌≡◌, ◌≤◌,
}
use facetime_v.Protocol.Names.{id_len}
use facetime_v.Client.Send.{Sending, send_frame}
use facetime_v.Client.Receive.{Listener}
use facetime_v.Client.Stream.{Arrives, IsReady, InStep, hear}
use facetime_v.Client.Stream.Frames.{first_frame, next_frame}

-- The frames that the camera gives, each with what the listener receives until its packets have come.
abbrev pub Captured : Type 0
Captured = List (List (ℕ × Bytes) × Bytes)

abbrev pub latest : Bytes → Captured → Bytes
latest frame [] = frame
latest frame ((traffic, next) ∷ later) = latest next later

-- A frame is not empty, and four bytes short of 4 GiB.
abbrev pub HasSize : List (ℕ × Bytes) × Bytes → Type 0
HasSize (traffic, frame) = (1 ≤ length frame) × IsU32 (length frame + 4)

module _ {F : Type 0} (from_bytes : Bytes → Option F) (unlocked : Bool) (rid sid : Bytes)
    (hr : length rid ≡ id_len) (hs : length sid ≡ id_len) (threshold : ℕ → ℕ) where
  pub stream : Captured → Sending → Listener F → Sending × Listener F
  stream [] s l = (s, l)
  stream ((traffic, frame) ∷ later) s l =
      let (ps, s') = send_frame threshold (rid ++ sid) frame s in
      stream later s' (hear from_bytes unlocked rid sid hr hs traffic l)

  -- The packets of each frame arrive.
  abbrev pub AllArrive : Captured → Sending → Type 0
  AllArrive [] s = Unit
  AllArrive ((traffic, frame) ∷ later) s =
      Arrives sid (send_frame threshold (rid ++ sid) frame s).0 traffic
      × AllArrive later (send_frame threshold (rid ++ sid) frame s).1

  stream-InStep :
      (captured : Captured) (frame : Bytes) (s : Sending) (l : Listener F)
      → ((n : ℕ) → threshold n ≤ n)
      → All HasSize captured
      → AllArrive captured s
      → InStep sid frame s l
      → InStep sid (latest frame captured) (stream captured s l).0 (stream captured s l).1
  unfolding stream
  stream-InStep [] frame s l limited sizes arrive i = i
  stream-InStep ((traffic, next) ∷ later) frame s l limited sizes arrive i =
      stream-InStep later next _ _ limited sizes.1 arrive.1
        (next_frame from_bytes unlocked rid sid hr hs threshold limited frame next s traffic l
          sizes.0.0 sizes.0.1 i arrive.0).in_step

  -- Whatever frames the sender captures, of one byte at least and four bytes short of 4 GiB at most,
  -- if none of their packets is lost or overtaken, whenever they come, and whatever datagrams of other
  -- streams come before the packets of a frame, or less than 50 ms after one of them: behind them the
  -- listener has reconstructed the latest frame, is not corrupted and holds no chunk, and the sender
  -- makes its next delta from that very frame. Identifiers have four bytes, the sender starts with no
  -- frame, the listener with no chunk of the stream and clear buffers, and a delta is given up at a
  -- size no larger than the frame.
  pub stream_from_start :
      (traffic : List (ℕ × Bytes)) (frame : Bytes) (later : Captured) (s : Sending) (l : Listener F)
      → ((n : ℕ) → threshold n ≤ n)
      → All HasSize ((traffic, frame) ∷ later)
      → AllArrive ((traffic, frame) ∷ later) s
      → s.last_frame ≡ none
      → IsReady sid l
      → InStep sid
          (latest frame later)
          (stream ((traffic, frame) ∷ later) s l).0
          (stream ((traffic, frame) ∷ later) s l).1
  unfolding stream
  stream_from_start traffic frame later s l limited sizes arrive none_sent r =
      stream-InStep later frame _ _ limited sizes.1 arrive.1
        (first_frame from_bytes unlocked rid sid hr hs threshold limited frame s traffic l sizes.0.0
          (omega arith) none_sent r arrive.0).in_step
