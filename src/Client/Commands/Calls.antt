-- ===== src/Client/Commands/Calls.antt =====
-- The loop of pre_call_interface.rs: what a call is started with.
use mathlib.Core.Path.{subst}
use facetime_v.Base.{
  ==_iff, Bool, Bool-cases, Bytes, Error, List, Option, Result, [], bytes_instance, err, inl, inr,
  length, nat_instance, none, ok, refl, same, some, text, ℕ, ◌+◌, ◌==◌, ◌∷◌, ◌≡◌,
}
use facetime_v.Base.Exec.{pure, fail, ◌>>=◌, continue}
use facetime_v.Protocol.Id.{error_response, join_room_success}
use facetime_v.Protocol.Names.{id_len}
use facetime_v.Protocol.Command.{TcpCommand, string, bytes}
use facetime_v.Client.Commands.Typed.{Typed, nothing, join, typed, trim}
use facetime_v.Client.Commands.Exchange.{
  Client, ClientAction, no_call, join_answer, join_room, handle_typed, handle_user_input,
  handle_line, end_or, run,
}

-- What is returned without an error satisfies `P`.
record Returns {A : Type 0} (P : A → Type 0) (m : ClientAction A) : Type 0 where
  from : (c : Client) (a : A) → (m c).0 ≡ ok a → P a

module _ {A : Type 0} {P : A → Type 0} where
  Returns-fail : (e : Error) → Returns P (fail e)
  unfolding fail
  Returns-fail e = record { from = λ c a h. cc }

  Returns-pure : (a : A) → P a → Returns P (pure a)
  unfolding pure
  Returns-pure a p = record { from = λ c b h. let e : a ≡ b = cc in subst P e p }

module _ {A B : Type 0} {Q : A → Type 0} {P : B → Type 0} where
  Returns-continue :
      (r : Result A) (next : A → ClientAction B) (c : Client) (b : B)
      → (continue r next c).0 ≡ ok b
      → ((a : A) → r ≡ ok a → Q a)
      → ((a : A) → Q a → Returns P (next a))
      → P b
  Returns-continue (ok a) next c b h first each = (each a (first a refl)).from c b h
  Returns-continue (err e) next c b h first each = cc

  Returns-bind :
      (first : ClientAction A) (next : A → ClientAction B)
      → Returns Q first
      → ((a : A) → Q a → Returns P (next a))
      → Returns P (first >>= next)
  unfolding ◌>>=◌
  Returns-bind first next q each = record {
    from = λ c b h. Returns-continue (first c).0 next (first c).1 b h (λ a e. q.from c a e) each;
  }

Returns-any : {A : Type 0} (m : ClientAction A) → Returns (λ (a : A). Unit {0}) m
Returns-any m = record { from = λ c a h. tt }

Returns-then :
    {A B : Type 0} {P : B → Type 0} (first : ClientAction A) (next : A → ClientAction B)
    → ((a : A) → Returns P (next a))
    → Returns P (first >>= next)
Returns-then first next each = Returns-bind first next (Returns-any first) (λ a u. each a)

-- No call, or one with two identifiers of four bytes.
abbrev pub IsCall : Option Bytes → Type 0
IsCall none = Unit
IsCall (some full_sid) = length full_sid ≡ 8

no_call-IsCall : (m : ClientAction Unit) → Returns IsCall (no_call m)
no_call-IsCall m = Returns-then m (λ u. pure none) (λ u. Returns-pure none tt)

join_answer-IsCall : (name : Bytes) (cmd : TcpCommand) → Returns IsCall (join_answer name cmd)
unfolding join_answer
join_answer-IsCall name (bytes join_room_success full_sid) =
    elim (Bool-cases (length full_sid == id_len + id_len)) [
      | inl e ↦
          rw e (
            Returns-then _ _ (λ u. Returns-pure (some full_sid) ((==_iff (length full_sid) 8).0 e)))
      | inr e ↦ rw e (Returns-fail _)
    ]
join_answer-IsCall name (string error_response e) = Returns-then _ _ (λ u. Returns-pure none tt)
join_answer-IsCall name cmd = Returns-fail _

handle_typed-IsCall :
    (opens : ℕ → Bool) (username : Bytes) (t : Typed)
    → Returns IsCall (handle_typed opens username t)
unfolding handle_typed join_room
handle_typed-IsCall opens username nothing = Returns-pure none tt
handle_typed-IsCall opens username (join name) = Returns-then _ _ (join_answer-IsCall name)
handle_typed-IsCall opens username t = no_call-IsCall _

end_or-IsCall :
    (rest : ClientAction (Option Bytes)) (o : Option Bytes)
    → Returns IsCall rest
    → IsCall o
    → Returns IsCall (end_or rest o)
end_or-IsCall rest none r h = r
end_or-IsCall rest (some full_sid) r h = Returns-pure (some full_sid) h

handle_line-IsCall :
    (opens : ℕ → Bool) (username line : Bytes) (rest : ClientAction (Option Bytes))
    → Returns IsCall rest
    → Returns IsCall (handle_line opens username line rest)
unfolding handle_line handle_user_input
handle_line-IsCall opens username line rest r = elim (Bool-cases (same line (text "exit"))) [
  | inl e ↦ rw e (no_call-IsCall _)
  | inr e ↦ rw e (
      Returns-bind _ _ (handle_typed-IsCall opens username (typed line))
        (λ o h. end_or-IsCall rest o r h))
]

run-Returns :
    (opens : ℕ → Bool) (username : Bytes) (lines : List (Option Bytes))
    → Returns IsCall (run opens username lines)
unfolding run
run-Returns opens username [] = no_call-IsCall _
run-Returns opens username (none ∷ lines) = Returns-then _ _ (λ u. run-Returns opens username lines)
run-Returns opens username (some line ∷ lines) =
    Returns-then _ _
      (λ u. handle_line-IsCall opens username (trim line) _ (run-Returns opens username lines))

-- Where the loop over the typed lines ends with a call, the identifiers of the call have eight bytes,
-- whatever the server answered.
pub run-IsCall :
    (opens : ℕ → Bool) (username full_sid : Bytes) (lines : List (Option Bytes)) (c : Client)
    → (run opens username lines c).0 ≡ ok (some full_sid)
    → length full_sid ≡ 8
run-IsCall opens username full_sid lines c h =
    (run-Returns opens username lines).from c (some full_sid) h
