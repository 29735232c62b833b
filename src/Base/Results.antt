-- ===== src/Base/Results.antt =====
-- `Result<_, Box<dyn Error>>`: the errors that the code makes itself, of which `custom`
-- has a text, the failures of a stream, `panicked` for code that stops by a panic, and the bind that `?` stands for.
use mathlib.Core.Path.{◌≡◌, refl}
use mathlib.Core.Logic.{◌⊎◌, inl, inr}
use mathlib.Core.Bool.{Bool, true, false}
use mathlib.Core.List.{List}
use Prim.Native.Nat.{ℕ}

pub data Error : Type 0 where
  string_too_large bytes_too_large string_list_too_large string_in_list_too_large : Error
  invalid_command_id unexpected_eof invalid_utf8 write_failed channel_closed : Error
  invalid_hello no_sid_found : Error
  failed_to_send : Error → Error
  custom : List ℕ → Error
  invalid_delta_data invalid_delta_format invalid_delta_length delta_out_of_bounds : Error
  too_short not_enough_bytes decoding_failed wrong_dimensions : Error
  panicked : Error

pub data Result {ℓ} (A : Type ℓ) : Type ℓ where
  ok : A → Result A
  err : Error → Result A

infixl 5 ◌>>=◌
abbrev pub ◌>>=◌ {ℓ κ} : {Out : Type κ} {In : Type ℓ} → Result In → (In → Result Out) → Result Out
err e >>= next = err e
ok value >>= next = next value

-- `if !test { return Err(e) }`.
abbrev pub guard : Bool → Error → Result (Unit {0})
guard test e = elim test [ true ↦ ok tt | false ↦ err e ]

infixl 5 ◌>>◌
abbrev pub ◌>>◌ {κ} : {Out : Type κ} → Result (Unit {0}) → Result Out → Result Out
checked >> next = checked >>= λ _. next

pub Result-cases {ℓ} :
    {A : Type ℓ} (r : Result A) → ((a : A) × (r ≡ ok a)) ⊎ ((e : Error) × (r ≡ err e))
Result-cases (ok a) = inl (a, refl)
Result-cases (err e) = inr (e, refl)

-- What a bind that succeeds says of its two parts.
pub >>=-eq-ok {ℓ κ} :
    {In : Type ℓ} {Out : Type κ} (first : Result In) (next : In → Result Out) {out : Out}
    → first >>= next ≡ ok out
    → (value : In) × (first ≡ ok value) × (next value ≡ ok out)
>>=-eq-ok (err e) next h = cc
>>=-eq-ok (ok value) next h = (value, refl, h)
