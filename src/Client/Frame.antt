-- ===== src/Client/Frame.antt =====
-- client/src/frame.rs: a frame as bytes. The picture is compressed by libwebp, whose two calls are a
-- parameter; sizes are 32-bit words, as the source's `i32` fields are on the wire.
use facetime_v.Base.{
  Bool-cases, Bytes, IsU32, Option, Result, [], arith, as_u32, decoding_failed, err, from_be_bytes,
  from_be_bytes-to_be_bytes, if◌then◌else◌, inl, inr, is_empty, length, length-append, ltb, none,
  not_enough_bytes, ok, some, take, take-append, too_short, wrong_dimensions, ℕ, ◌%◌, ◌&&◌, ◌++◌,
  ◌/◌, ◌==◌, ◌^◌, ◌∷◌, ◌≡◌,
}

-- `WebPEncodeRGB` of the pixels, width and height at the source's quality: no bytes where it fails.
-- `WebPDecodeRGB`: width, height and pixels, if the bytes are a picture.
pub record Webp : Type 0 where
  pub encode : Bytes → ℕ → ℕ → Bytes
  pub decode : Bytes → Option (ℕ × ℕ × Bytes)

pub record Frame : Type 0 where
  pub width : ℕ
  pub height : ℕ
  pub pixels : Bytes

-- `to_le_bytes` and `from_le_bytes`.
abbrev pub to_le_bytes : ℕ → Bytes
to_le_bytes n = n % 256 ∷ n / 2 ^ 8 % 256 ∷ n / 2 ^ 16 % 256 ∷ n / 2 ^ 24 % 256 ∷ []

abbrev pub from_le_bytes : ℕ → ℕ → ℕ → ℕ → ℕ
from_le_bytes a b c d = from_be_bytes d c b a

-- `none` is the panic when the encoder fails.
unfoldable pub to_bytes : Webp → Frame → Option Bytes
to_bytes webp frame =
    let compressed = webp.encode frame.pixels frame.width frame.height in
    if is_empty compressed
    then none
    else some (
        to_le_bytes frame.width
        ++ (to_le_bytes frame.height ++ (to_le_bytes (as_u32 (length compressed)) ++ compressed)))

-- What is made of the decoder's answer.
unfoldable pub check_size : ℕ → ℕ → Option (ℕ × ℕ × Bytes) → Result Frame
check_size stored_width stored_height none = err decoding_failed
check_size stored_width stored_height (some (width, height, pixels)) =
    if width == stored_width && height == stored_height
    then ok (record { width = width; height = height; pixels = pixels })
    else err wrong_dimensions

-- Behind the three words.
unfoldable pub decode_body : Webp → ℕ → ℕ → ℕ → Bytes → Result Frame
decode_body webp stored_width stored_height compressed_len rest =
    if ltb (length rest) compressed_len
    then err not_enough_bytes
    else check_size stored_width stored_height (webp.decode (take compressed_len rest))

unfoldable pub from_bytes : Webp → Bytes → Result Frame
from_bytes webp (a ∷ b ∷ c ∷ d ∷ e ∷ f ∷ g ∷ h ∷ i ∷ j ∷ k ∷ l ∷ rest) =
    decode_body webp (from_le_bytes a b c d) (from_le_bytes e f g h) (from_le_bytes i j k l) rest
from_bytes webp _ = err too_short

decode_body-append :
    (webp : Webp) (w h : ℕ) (compressed rest : Bytes)
    → decode_body webp w h (length compressed) (compressed ++ rest)
      ≡ check_size w h (webp.decode compressed)
unfolding decode_body
decode_body-append webp w h compressed rest =
    ground (arith, length-append compressed rest, take-append compressed rest)

check_size_same :
    (w h : ℕ) (pixels : Bytes)
    → check_size w h (some (w, h, pixels)) ≡ ok (record { width = w; height = h; pixels = pixels })
unfolding check_size
check_size_same w h pixels = ground arith

-- The bytes of a frame with 32-bit sizes, whatever follows them, are read as a frame of the same sizes
-- with the pixels that the decoder makes of the compressed picture. What is asked of libwebp: the
-- picture has fewer than 4 GiB, and decodes to the size that was encoded.
pub from_bytes-to_bytes :
    (webp : Webp) (frame : Frame) (b rest pixels : Bytes)
    → IsU32 frame.width
    → IsU32 frame.height
    → IsU32 (length (webp.encode frame.pixels frame.width frame.height))
    → webp.decode (webp.encode frame.pixels frame.width frame.height)
      ≡ some (frame.width, frame.height, pixels)
    → to_bytes webp frame ≡ some b
    → from_bytes webp (b ++ rest)
      ≡ ok (record { width = frame.width; height = frame.height; pixels = pixels })
unfolding to_bytes from_bytes
from_bytes-to_bytes webp frame b rest pixels hw hh hc decodes h =
    let compressed = webp.encode frame.pixels frame.width frame.height in
    let same_length : as_u32 (length compressed) ≡ length compressed = omega arith in
    elim (Bool-cases (is_empty compressed)) [
      | inl failed ↦ cc (rw failed at h)
      | inr fine ↦
          let e : to_le_bytes frame.width
                ++ (to_le_bytes frame.height
                    ++ (to_le_bytes (as_u32 (length compressed)) ++ compressed))
              ≡ b =
            cc (rw fine at h) in
          rw
            (
              ← e,
              same_length,
              from_be_bytes-to_be_bytes frame.width hw,
              from_be_bytes-to_be_bytes frame.height hh,
              from_be_bytes-to_be_bytes (length compressed) hc,
              decode_body-append webp frame.width frame.height compressed rest,
              decodes,
            )
            (check_size_same frame.width frame.height pixels)
    ]
