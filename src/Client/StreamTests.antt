-- ===== src/Client/StreamTests.antt =====
-- Two frames of one stream, sent, relayed and received.
use facetime_v.Base.{
  Bytes, List, Option, [], arith, bytes_instance, drop, inl, inr, lookup, nat_instance, none, refl,
  replicate, some, true, ℕ, ◌++◌, ◌+◌, ◌/◌, ◌∷◌,
}
use facetime_v.Client.Send.{full, Sending, packets, send_frame}
use facetime_v.Client.Receive.{Listener, new_cache, reset, receive_all, current_buffer}
use facetime_v.Client.Receive.Round.{Holding, Finished}
use facetime_v.Client.Receive.Frame.{InPieces, receive-packets}
use facetime_v.Client.Stream.{IsReady, InStep, Arrives, hear}
use facetime_v.Client.Stream.Frames.{Followed, next_frame}
use facetime_v.Client.Stream.Run.{Captured, latest, stream, stream_from_start}
use facetime_v.Client.Receive.Expiry.{buffers_of}
use facetime_v.Protocol.Names.{id_len}

abbrev rid : Bytes
rid = 1 ∷ 1 ∷ 1 ∷ 1 ∷ []

abbrev sid : Bytes
sid = 0 ∷ 0 ∷ 0 ∷ 2 ∷ []

-- More than one packet's worth.
abbrev frame_1 : Bytes
frame_1 = 5 ∷ replicate 1400 7

abbrev frame_2 : Bytes
frame_2 = 6 ∷ replicate 1400 7

-- Any bytes decode.
abbrev shows : Bytes → Option Bytes
shows frame = some frame

abbrev start : Sending
start = record { last_frame = none; sequence = 999_999; heartbeat_counter = 0 }

abbrev silent : Listener Bytes
silent = record {
  fragment_buffers = [];
  frame_caches = [];
  buffer_pool = [] ∷ [] ∷ [];
  sid_to_frame_map = [];
}

silent-IsReady : IsReady sid silent
unfolding lookup buffers_of
silent-IsReady = record { gone = refl; none_left = refl; clear = (refl, (refl, tt)) }

silent-Holding : Holding shows true sid full 7 [] none none silent
unfolding lookup current_buffer buffers_of
silent-Holding = record {
  held = refl;
  kind = refl;
  single = omega arith;
  cached = refl;
  clear = (refl, (refl, tt));
  shown = refl;
}

-- A whole frame of another stream.
abbrev noise : Bytes
noise = 9 ∷ 9 ∷ 9 ∷ 9 ∷ 0 ∷ 0 ∷ 0 ∷ 0 ∷ 1 ∷ 0 ∷ 0 ∷ 0 ∷ 0 ∷ 1 ∷ 5 ∷ []

-- Packets 60 ms after each other, and the other stream's frame 10 ms after each but the last.
relayed : ℕ → List Bytes → List (ℕ × Bytes)
relayed now [] = []
relayed now (p ∷ []) = (now, drop id_len p) ∷ []
relayed now (p ∷ q ∷ ps) = (now, drop id_len p) ∷ (now + 10, noise) ∷ relayed (now + 60) (q ∷ ps)

relayed-InPieces :
    (since : Option ℕ) (now : ℕ) (ps : List Bytes) → InPieces sid since ps (relayed now ps)
unfolding relayed
relayed-InPieces since now [] = refl
relayed-InPieces since now (p ∷ []) = inl (refl, refl)
relayed-InPieces since now (p ∷ q ∷ ps) =
    inl (refl, inr (refl, omega arith, relayed-InPieces (some now) (now + 60) (q ∷ ps)))

-- The other stream's frame, and then those packets.
abbrev traffic : ℕ → List Bytes → List (ℕ × Bytes)
traffic now ps = (now, noise) ∷ relayed now ps

traffic-Arrives : (now : ℕ) (ps : List Bytes) → Arrives sid ps (traffic now ps)
traffic-Arrives now ps = record {
  before = (now, noise) ∷ [];
  pieces = relayed now ps;
  cut = refl;
  foreign = (refl, tt);
  in_order = relayed-InPieces none now ps;
}

receive-packets_example :
    Finished shows true sid full 7 frame_1 none none
      (receive_all shows true (relayed 0 (packets (rid ++ sid) full 7 frame_1)) silent)
receive-packets_example =
    receive-packets shows true rid sid full 7 refl refl (inl refl) (omega arith) frame_1 none none
      (relayed 0 (packets (rid ++ sid) full 7 frame_1)) silent (omega arith) (omega arith)
      silent-Holding (relayed-InPieces none 0 (packets (rid ++ sid) full 7 frame_1))

abbrev threshold : ℕ → ℕ
threshold n = n / 3

abbrev after_1 : List Bytes × Sending
after_1 = send_frame threshold (rid ++ sid) frame_1 start

abbrev after_2 : List Bytes × Sending
after_2 = send_frame threshold (rid ++ sid) frame_2 after_1.1

abbrev later : Captured
later = (traffic 200 after_2.0, frame_2) ∷ []

stream_from_start_example :
    InStep sid
      (latest frame_1 later)
      (stream shows true rid sid refl refl threshold
        ((traffic 0 after_1.0, frame_1) ∷ later)
        start
        silent).0
      (stream shows true rid sid refl refl threshold
        ((traffic 0 after_1.0, frame_1) ∷ later)
        start
        silent).1
stream_from_start_example =
    stream_from_start shows true rid sid refl refl threshold (traffic 0 after_1.0) frame_1 later
      start silent (λ n. omega arith) ((omega arith, omega arith), ((omega arith, omega arith), tt))
      (traffic-Arrives 0 after_1.0, (traffic-Arrives 200 after_2.0, tt)) refl silent-IsReady

abbrev sending_1 : Sending
sending_1 = record { last_frame = some frame_1; sequence = 0; heartbeat_counter = 0 }

abbrev listening_1 : Listener Bytes
listening_1 = record {
  fragment_buffers = [];
  frame_caches = (sid, reset frame_1 0 new_cache) ∷ [];
  buffer_pool = [];
  sid_to_frame_map = (sid, some frame_1) ∷ [];
}

listening_1-InStep : InStep sid frame_1 sending_1 listening_1
unfolding lookup buffers_of reset
listening_1-InStep = record {
  sent = refl;
  tracks = record { cache = _; found = refl; same_frame = refl; sane = refl };
  ready = record { gone = refl; none_left = refl; clear = tt };
}

abbrev sent_2 : List Bytes × Sending
sent_2 = send_frame threshold (rid ++ sid) frame_2 sending_1

next_frame_example :
    Followed shows true rid sid refl refl threshold
      (λ n. omega arith)
      frame_2
      (some frame_1)
      listening_1
      sent_2.1
      (hear shows true rid sid refl refl (traffic 0 sent_2.0) listening_1)
next_frame_example =
    next_frame shows true rid sid refl refl threshold (λ n. omega arith) frame_1 frame_2 sending_1
      (traffic 0 sent_2.0) listening_1 (omega arith) (omega arith) listening_1-InStep
      (traffic-Arrives 0 sent_2.0)
