-- ===== src/Client/Commands/Typed.antt =====
-- pre_call_interface.rs: reading the line that the user typed.
-- `to_lowercase` is taken of the ASCII letters alone. The line is only compared with words that have
-- neither a `k` nor an `i` followed by a combining dot, the one thing and the other that a letter
-- outside ASCII may turn into, so each test has the answer of the source.
use facetime_v.Base.{
  Bool, Bytes, List, [], bytes_instance, drop, if◌then◌else◌, is_empty, leb, length, ltb, map,
  nat_instance, refl, same, suc, take, text, zero, ℕ, ◌&&◌, ◌+◌, ◌==◌, ◌||◌, ◌∷◌, ◌≡◌,
}

-- How many of the first bytes are one white-space character: 0 if there is none.
unfoldable pub space_len : Bytes → ℕ
space_len [] = 0
space_len (a ∷ rest) = if a == 0x20 || (leb 9 a && leb a 13) then 1 else elim rest [
  | [] ↦ 0
  | b ∷ rest' ↦ if a == 0xc2 && (b == 0x85 || b == 0xa0) then 2 else elim rest' [
    | [] ↦ 0
    | c ∷ _ ↦
        if (a == 0xe1 && b == 0x9a && c == 0x80)
          || (a == 0xe2
              && b == 0x80
              && ((leb 0x80 c && leb c 0x8a) || c == 0xa8 || c == 0xa9 || c == 0xaf))
          || (a == 0xe2 && b == 0x81 && c == 0x9f)
          || (a == 0xe3 && b == 0x80 && c == 0x80)
        then 3
        else 0
  ]
]

-- `fuel` more characters; a text has at most as many as bytes.
unfoldable pub trim_start_from : ℕ → Bytes → Bytes
unfolding space_len
trim_start_from zero s = s
trim_start_from (suc fuel) s =
    let rest = trim_start_from fuel (drop (space_len s) s) in if space_len s == 0 then s else rest

unfoldable pub all_space_from : ℕ → Bytes → Bool
unfolding space_len
all_space_from zero s = is_empty s
all_space_from (suc fuel) s =
    let rest = all_space_from fuel (drop (space_len s) s) in
    is_empty s || (ltb 0 (space_len s) && rest)

unfoldable pub trim_end : Bytes → Bytes
unfolding all_space_from
trim_end [] = []
trim_end (b ∷ rest) =
    let kept = b ∷ trim_end rest in
    if all_space_from (length (b ∷ rest)) (b ∷ rest) then [] else kept

-- `line.trim()`.
unfoldable pub trim : Bytes → Bytes
unfolding trim_end trim_start_from
trim s = trim_end (trim_start_from (length s) s)

abbrev pub lower : ℕ → ℕ
lower b = if leb b'A' b && leb b b'Z' then b + 32 else b

abbrev pub to_lowercase : Bytes → Bytes
to_lowercase s = map lower s

abbrev pub push_part : ℕ → List Bytes → List Bytes
push_part b [] = (b ∷ []) ∷ []
push_part b (part ∷ parts) = (b ∷ part) ∷ parts

-- `input.split(" ")`.
unfoldable pub split : Bytes → List Bytes
split [] = [] ∷ []
split (b ∷ rest) = if b == 32 then [] ∷ split rest else push_part b (split rest)

abbrev pub starts_with : Bytes → Bytes → Bool
starts_with prefix s = same (take (length prefix) s) prefix

-- The arms of the match, with the name that the arm takes out of the line.
pub data Typed : Type 0 where
  nothing help list_users list_rooms list_cameras unknown : Typed
  usage : Bytes → Typed
  create delete join switch : Bytes → Typed

-- `if command_parts.len() != 3`.
abbrev pub third_part : Bytes → (Bytes → Typed) → List Bytes → Typed
third_part message arm (first ∷ second ∷ third ∷ []) = arm third
third_part message arm parts = usage message

abbrev pub create_usage : Bytes
create_usage = text "Usage: create room <string>"

abbrev pub delete_usage : Bytes
delete_usage = text "Usage: delete room <string>"

abbrev pub join_usage : Bytes
join_usage = text "Usage: join room <string>"

abbrev pub switch_usage : Bytes
switch_usage = text "Usage: switch camera [index]"

-- The arms in the order of the source, on the line and on the line in lower case.
unfoldable pub choose_arm : Bytes → Bytes → Typed
unfolding split
choose_arm input lowercase_input =
    if same lowercase_input []
    then nothing
    else if same lowercase_input (text "help")
    then help
    else if same lowercase_input (text "create room")
    then usage create_usage
    else if starts_with (text "create room ") lowercase_input
    then third_part create_usage create (split input)
    else if same lowercase_input (text "delete room")
    then usage delete_usage
    else if starts_with (text "delete room ") lowercase_input
    then third_part delete_usage delete (split input)
    else if same lowercase_input (text "join room")
    then usage join_usage
    else if starts_with (text "join room ") lowercase_input
    then third_part join_usage join (split input)
    else if same lowercase_input (text "list users")
    then list_users
    else if same lowercase_input (text "list rooms")
    then list_rooms
    else if same lowercase_input (text "list cameras")
    then list_cameras
    else if same lowercase_input (text "switch camera")
    then usage switch_usage
    else if starts_with (text "switch camera ") lowercase_input
    then third_part switch_usage switch (split input)
    else unknown

unfoldable pub typed : Bytes → Typed
unfolding choose_arm
typed input = choose_arm input (to_lowercase input)

typed_runs :
    (typed (trim (text "  Create ROOM Den\n")) ≡ create (text "Den"))
    × (typed (trim (text "create room  Den")) ≡ usage create_usage)
    × (typed (trim (text "LIST users \t\n")) ≡ list_users)
    × (typed (trim (0xc2 ∷ 0xa0 ∷ 0xe2 ∷ 0x80 ∷ 0x83 ∷ 10 ∷ [])) ≡ nothing)
    × (typed (text "join den") ≡ unknown)
unfolding typed trim
typed_runs = (refl, refl, refl, refl, refl)
