-- ===== src/Client/Camera.antt =====
-- client/src/camera.rs: which cameras there are and what a camera's name means. Whether OpenCV opens
-- the camera at an index is a parameter.
pub mod Names
use facetime_v.Base.{
  Bool, Bytes, List, Option, [], any, bytes_instance, decimal, false, if◌then◌else◌, leb, length,
  ltb, nat_instance, none, refl, same, some, suc, text, true, zero, ℕ, ◌&&◌, ◌*◌, ◌++◌, ◌+◌, ◌-◌,
  ◌==◌, ◌^◌, ◌||◌, ◌∷◌, ◌≡◌, ◌⊎◌,
}

-- `i32`.
pub data ℤ : Type 0 where
  pos : ℕ → ℤ
  negsuc : ℕ → ℤ

-- `{}` of an `i32`.
unfoldable pub i32_text : ℤ → Bytes
i32_text (pos n) = decimal n
i32_text (negsuc n) = text "-" ++ decimal (n + 1)

pub data CameraTestMode : Type 0 where
  spiral_tunnel vortex_grid diamond_flow : CameraTestMode

abbrev pub max_user_cameras : ℕ
max_user_cameras = 10

-- `CameraTestMode::iter()`.
abbrev pub test_modes : List CameraTestMode
test_modes = spiral_tunnel ∷ vortex_grid ∷ diamond_flow ∷ []

pub data CameraCapture : Type 0 where
  real : ℕ → CameraCapture
  test : CameraTestMode → CameraCapture

-- The loop over the test modes.
unfoldable pub find_test_mode : ℕ → ℕ → List CameraTestMode → Option CameraTestMode
find_test_mode camera_index idx [] = none
find_test_mode camera_index idx (mode ∷ modes) =
    if camera_index == max_user_cameras + idx
    then some mode
    else find_test_mode camera_index (idx + 1) modes

-- `Camera::new`: `none` is its error.
unfoldable pub new_camera : (ℕ → Bool) → ℕ → Option CameraCapture
unfolding find_test_mode
new_camera opens camera_index = elim (find_test_mode camera_index 0 test_modes) [
  | some mode ↦ some (test mode)
  | none ↦ if opens camera_index then some (real camera_index) else none
]

-- The digits of a number, behind those that are read already.
unfoldable pub parse_digits : ℕ → Bytes → Option ℕ
parse_digits n [] = some n
parse_digits n (b ∷ rest) =
    if leb b'0' b && leb b b'9' then parse_digits (n * 10 + (b - 48)) rest else none

unfoldable pub parse_nat : Bytes → Option ℕ
unfolding parse_digits
parse_nat [] = none
parse_nat (b ∷ rest) = parse_digits 0 (b ∷ rest)

abbrev pub negated : ℕ → ℤ
negated zero = pos zero
negated (suc n) = negsuc n

-- A number that is in the range of an i32.
abbrev pub in_range : ℕ → (ℕ → ℤ) → Option ℕ → Option ℤ
in_range bound sign none = none
in_range bound sign (some n) = if leb n bound then some (sign n) else none

-- `parse::<i32>()`: a sign, or none, and at least one digit.
unfoldable pub parse_i32 : Bytes → Option ℤ
unfolding parse_nat
parse_i32 [] = none
parse_i32 (b ∷ rest) =
    if b == b'-'
    then in_range (2 ^ 31) negated (parse_nat rest)
    else if b == b'+'
    then in_range (2 ^ 31 - 1) pos (parse_nat rest)
    else in_range (2 ^ 31 - 1) pos (parse_nat (b ∷ rest))

-- `for i in 1..MAX_USER_CAMERAS`, from the index `i` on, for `n` more of them.
unfoldable pub opened_cameras : (ℕ → Bool) → ℕ → ℕ → List Bytes
opened_cameras opens i zero = []
opened_cameras opens i (suc n) =
    let rest = opened_cameras opens (i + 1) n in if opens i then decimal i ∷ rest else rest

-- `for idx in 0..CameraTestMode::iter().len()`.
unfoldable pub test_cameras : ℕ → List CameraTestMode → List Bytes
test_cameras idx [] = []
test_cameras idx (mode ∷ modes) = decimal (max_user_cameras + idx) ∷ test_cameras (idx + 1) modes

unfoldable pub list_available_cameras : (ℕ → Bool) → List Bytes
unfolding opened_cameras test_cameras
list_available_cameras opens =
    text "0" ∷ opened_cameras opens 1 (max_user_cameras - 1) ++ test_cameras 0 test_modes

-- The tests of `is_valid_camera_name` on the index that the name stands for.
unfoldable pub is_valid_index : (ℕ → Bool) → Bytes → Option ℤ → Bool
unfolding list_available_cameras
is_valid_index opens camera none = false
is_valid_index opens camera (some (negsuc n)) = false
is_valid_index opens camera (some (pos camera_index)) =
    if camera_index == 0
      || (leb max_user_cameras camera_index
          && ltb camera_index (max_user_cameras + length test_modes))
    then true
    else any (λ name. same name camera) (list_available_cameras opens)

unfoldable pub is_valid_camera_name : (ℕ → Bool) → Bytes → Bool
unfolding is_valid_index parse_i32
is_valid_camera_name opens camera = is_valid_index opens camera (parse_i32 camera)

-- An index that `new_camera` opens, or 0, which is accepted unseen.
abbrev pub IsUsable : (ℕ → Bool) → ℕ → Type 0
IsUsable opens n = (n ≡ 0) ⊎ ((capture : CameraCapture) × (new_camera opens n ≡ some capture))

parse_decimals :
    (parse_i32 (decimal 1) ≡ some (pos 1))
    × (parse_i32 (decimal 12) ≡ some (pos 12))
    × (parse_i32 (text "-0") ≡ some (pos 0))
    × (parse_i32 (text "-") ≡ none)
    × (parse_i32 (text "2147483648") ≡ none)
    × (parse_i32 (text "-2147483648") ≡ some (negsuc 2147483647))
unfolding parse_i32 decimal
parse_decimals = (refl, refl, refl, refl, refl, refl)
