-- ===== src/Base/Exec.antt =====
-- Code that changes a state and may stop at a `?`: the result is paired with the state that is left,
-- beside an error too. And what such code keeps true.
use mathlib.Core.Path.{◌≡◌, refl}
use mathlib.Core.Bool.{Bool, true, false}
use mathlib.Core.List.{List, [], ◌∷◌}
use facetime_v.Base.Tests.{if◌then◌else◌}
use facetime_v.Base.Results.{Error, Result, ok, err}

abbrev pub Exec {ℓ} : Type ℓ → Type ℓ → Type ℓ
Exec S A = S → Result A × S

abbrev pub renamed {ℓ} : {A : Type ℓ} → (Error → Error) → Result A → Result A
renamed f (ok a) = ok a
renamed f (err e) = err (f e)

module _ {ℓ} {State Out : Type ℓ} where
  unfoldable pub gets : (State → Out) → Exec State Out
  gets read now = (ok (read now), now)

  unfoldable pub fail : Error → Exec State Out
  fail e now = (err e, now)

  unfoldable pub pure : Out → Exec State Out
  pure out now = (ok out, now)

  -- `.map_err(f)`.
  unfoldable pub map_err : (Error → Error) → Exec State Out → Exec State Out
  map_err f m now = let (r, later) = m now in (renamed f r, later)

-- What comes after a result: nothing after an error.
abbrev pub continue {ℓ} :
    {State In Out : Type ℓ} → Result In → (In → Exec State Out) → Exec State Out
continue (err e) next now = (err e, now)
continue (ok value) next now = next value now

infixl 5 ◌>>=◌
unfoldable pub ◌>>=◌ {ℓ} :
    {State In Out : Type ℓ} → Exec State In → (In → Exec State Out) → Exec State Out
unfolding gets fail pure map_err
first >>= next = λ now. let (r, later) = first now in continue r next later

infixl 5 ◌>>◌
abbrev pub ◌>>◌ {ℓ} : {State In Out : Type ℓ} → Exec State In → Exec State Out → Exec State Out
first >> next = first >>= λ _. next

-- The body of a `for` loop, run at each element in turn until one fails.
unfoldable pub for_each : {A S : Type 0} → List A → (A → Exec S (Unit {0})) → Exec S (Unit {0})
unfolding ◌>>=◌
for_each [] body = pure tt
for_each (x ∷ xs) body = body x >> for_each xs body

-- `m` keeps `P` true, whether it succeeds or fails.
pub record Keeps {ℓ} {S A : Type ℓ} (P : S → Type ℓ) (m : Exec S A) : Type ℓ where
  pub at : (before : S) → P before → P (m before).1

module _ {ℓ} {State Out : Type ℓ} {P : State → Type ℓ} where
  pub Keeps-map_err : (f : Error → Error) (m : Exec State Out) → Keeps P m → Keeps P (map_err f m)
  unfolding map_err
  Keeps-map_err f m k = record { at = λ before holds. k.at before holds }

  pub Keeps-gets : (read : State → Out) → Keeps P (gets read)
  unfolding gets
  Keeps-gets read = record { at = λ before holds. holds }

  pub Keeps-if :
      (test : Bool) (m n : Exec State Out)
      → (test ≡ true → Keeps P m)
      → (test ≡ false → Keeps P n)
      → Keeps P (if test then m else n)
  Keeps-if true m n on_true on_false = on_true refl
  Keeps-if false m n on_true on_false = on_false refl

  pub Keeps-fail : (e : Error) → Keeps P (fail {Out = Out} e)
  unfolding fail
  Keeps-fail e = record { at = λ before holds. holds }

  pub Keeps-pure : (out : Out) → Keeps P (pure out)
  unfolding pure
  Keeps-pure out = record { at = λ before holds. holds }

module _ {ℓ} {S A B : Type ℓ} {P : S → Type ℓ} where
  Keeps-continue :
      (r : Result A) (next : A → Exec S B) (between : S)
      → P between
      → ((a : A) → Keeps P (next a))
      → P (continue r next between).1
  Keeps-continue (ok a) next between holds each = (each a).at between holds
  Keeps-continue (err c) next between holds each = holds

  pub Keeps-bind :
      (first : Exec S A) (next : A → Exec S B)
      → Keeps P first
      → ((a : A) → Keeps P (next a))
      → Keeps P (first >>= next)
  unfolding ◌>>=◌
  Keeps-bind first next k each = record {
    at = λ before holds.
        Keeps-continue (first before).0 next (first before).1 (k.at before holds) each;
  }

  -- After a read of the state the rest may use what was read.
  pub Keeps-gets_bind :
      (f : S → A) (k : A → Exec S B) → ((s : S) → P s → P (k (f s) s).1) → Keeps P (gets f >>= k)
  unfolding ◌>>=◌
  Keeps-gets_bind f k h = record { at = h }

module _ {A S : Type 0} {P : S → Type 0} where
  pub Keeps-for_each :
      (xs : List A) (body : A → Exec S (Unit {0}))
      → ((a : A) → Keeps P (body a))
      → Keeps P (for_each xs body)
  unfolding for_each
  Keeps-for_each [] body k = Keeps-pure tt
  Keeps-for_each (x ∷ xs) body k =
      Keeps-bind (body x) (λ _. for_each xs body) (k x) (λ _. Keeps-for_each xs body k)

pub ruleset keeps_rules =
    (Keeps-gets, Keeps-map_err, Keeps-if, Keeps-for_each, Keeps-bind, Keeps-fail, Keeps-pure)
