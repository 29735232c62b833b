-- ===== src/Protocol/Bytes.antt =====
-- The command byte: what `from_byte` makes of what `to_byte` wrote, and of any byte.
use facetime_v.Base.{
  ◌||◌, ℕ, zero, suc, ◌≡◌, refl, ◌<◌, ◌≤◌, Bool, true, ◌&&◌, arith, Result, ok, err, IsByte, ◌==◌,
  ltb,
}
use facetime_v.Protocol.Id.{TcpCommandId, to_byte, from_byte, hello_from_client}

-- A command is recovered from its byte, which is between 69 and 84.
pub from_byte-to_byte :
    (id : TcpCommandId) → (from_byte (to_byte id) ≡ ok id) × (69 ≤ to_byte id) × (to_byte id ≤ 84)
unfolding from_byte to_byte
from_byte-to_byte hello_from_client = (refl, omega arith, omega arith)
from_byte-to_byte _ = (refl, omega arith, omega arith)

-- Does `from_byte` refuse the byte, or answer a command that `to_byte` takes back to it?
answer_fits : ℕ → Result TcpCommandId → Bool
answer_fits b (ok id) = to_byte id == b
answer_fits b (err e) = ltb b 69 || ltb 84 b

every_under : (ℕ → Bool) → ℕ → Bool
every_under test zero = true
every_under test (suc bound) = every_under test bound && test bound

every_under_lem :
    (test : ℕ → Bool) (bound b : ℕ) → b < bound → every_under test bound ≡ true → test b ≡ true
unfolding every_under
every_under_lem test zero b below h = absurd (omega arith)
every_under_lem test (suc bound) b below h = ground (arith, every_under_lem test bound b)

answers_fit : every_under (λ b. answer_fits b (from_byte b)) 256 ≡ true
unfolding every_under answer_fits from_byte to_byte
answers_fit = refl

-- A byte that `from_byte` accepts is the byte of the command that it answers.
pub from_byte-eq-ok : (b : ℕ) (id : TcpCommandId) → IsByte b → from_byte b ≡ ok id → to_byte id ≡ b
unfolding answer_fits
from_byte-eq-ok b id h e =
    let fits : answer_fits b (from_byte b) ≡ true =
      every_under_lem (λ x. answer_fits x (from_byte x)) 256 b h answers_fit in
    ground (arith, fits, e)
