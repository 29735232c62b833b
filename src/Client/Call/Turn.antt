-- ===== src/Client/Call/Turn.antt =====
-- call_interface.rs: what a turn of the drawing loop leaves.
use facetime_v.Base.{
  bytes_instance, Bool, Bytes, List, arith, false, length, ok, refl, same_iff, true, ℕ, ◌*◌, ◌-◌,
  ◌<◌, ◌^◌, ◌∷◌, ◌≡◌, ◌≤◌,
}
use facetime_v.Client.Frame.{Frame}
use facetime_v.Client.Visible.{unlines}
use facetime_v.Client.Ascii.{Mode, Resize}
use facetime_v.Client.Ascii.Rows.{IsPicture}
use facetime_v.Client.Layout.{Floats}
use facetime_v.Client.Layout.Whole.{IsDrawn, IsUsual, combine_frames-IsPicture}
use facetime_v.Client.Call.{FrameMap, constrained, shown_frames, Drawing, show_content, render_turn}
use facetime_v.Client.Layout.Frames.{per_character}

-- A terminal that is not too small for its frames, of which there are at most as many as the lines
-- that a coloured call uses, and one more. The columns and lines that the call draws on are few
-- enough for the estimate of the bytes of a frame: 4369 characters with colours, 32767 without.
pub record IsRoomy (color_enabled : Bool) (count width height : ℕ) : Type 0 where
  pub word : width < 2 ^ 16
  pub two_columns : 2 ≤ width
  pub one_line : 1 ≤ height
  pub lines_for_frames : count - 1 ≤ height
  pub few_frames : count ≤ 114
  pub few_characters :
      let t = constrained color_enabled (width, height) in
      t.target_width * t.target_height * per_character color_enabled < 2 ^ 16

constrained-IsUsual :
    (color_enabled : Bool) (count width height : ℕ)
    → IsRoomy color_enabled count width height
    → IsUsual color_enabled (constrained color_enabled (width, height)) count
unfolding constrained
constrained-IsUsual true count width height r = record {
  few_characters = (unfold constrained in r.few_characters);
  word = omega (arith, r.word);
  two_columns = omega (arith, r.two_columns);
  one_line = omega (arith, r.one_line);
  lines_for_frames = omega (arith, r.lines_for_frames, r.few_frames);
  wide = omega arith;
  high = omega arith;
}
constrained-IsUsual false count width height r = record {
  few_characters = (unfold constrained in r.few_characters);
  word = omega (arith, r.word);
  two_columns = omega (arith, r.two_columns);
  one_line = omega (arith, r.one_line);
  lines_for_frames = omega (arith, r.lines_for_frames, r.few_frames);
  wide = omega arith;
  high = omega arith;
}

true_size :
    (color_enabled : Bool) (width height : ℕ) (out : List Bytes)
    → let t = constrained color_enabled (width, height) in
      IsPicture t.true_width t.true_height out → IsPicture width height out
unfolding constrained
true_size true width height out p = p
true_size false width height out p = p

show_content-last :
    (color_enabled : Bool) (size : ℕ × ℕ) (content : Bytes) (buffers : List Bytes) (d : Drawing)
    → (show_content color_enabled size (content, buffers) d).last_content ≡ content
show_content-last color_enabled (width, height) content buffers d =
    ground (arith, same_iff ⦃e = bytes_instance⦄ content d.last_content)

-- In a terminal of at least two columns and one line, of which the call draws on at most 4369
-- characters with colours or 32767 without, and with at most one frame more than it has lines and at
-- most 114, where OpenCV can resize the frames, a turn of the drawing loop ends without a panic, and what it keeps as shown is a picture of exactly the terminal's size.
pub render_turn-IsPicture :
    (floats : Floats) (resize : Resize) (mode : Mode) (width height : ℕ) (frame : Frame)
    (frame_map : FrameMap) (d : Drawing)
    → IsRoomy mode.color_enabled (length (frame ∷ shown_frames frame_map)) width height
    → IsDrawn floats resize
        (constrained mode.color_enabled (width, height))
        frame
        (shown_frames frame_map)
    → (after : Drawing) × (out : List Bytes) × (render_turn floats resize mode
          (width, height)
          frame
          frame_map
          d
        ≡ ok after)
      × (after.last_content ≡ unlines out)
      × IsPicture width height out
unfolding render_turn
render_turn-IsPicture floats resize mode width height frame frame_map d r drawn =
    let t = constrained mode.color_enabled (width, height) in
    let (out, buffers, e, p) =
      combine_frames-IsPicture floats resize mode t frame (shown_frames frame_map) d.temp_buffers
        (omega (arith, r.few_frames))
        (constrained-IsUsual mode.color_enabled (length (frame ∷ shown_frames frame_map)) width
          height r)
        drawn in
    (
      show_content mode.color_enabled (width, height) (unlines out, buffers) d,
      out,
      rw e refl,
      show_content-last mode.color_enabled (width, height) (unlines out) buffers d,
      true_size mode.color_enabled width height out p,
    )
