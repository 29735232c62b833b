-- ===== src/Base/Maps.antt =====
-- Equality tests as an interface, and hash maps as association lists: the order of the entries is
-- the order in which one iteration would meet them. `insert` on a key that is there replaces the
-- value in place, `HashMap::insert`.
use Prim.Native.Nat.{ℕ}
use mathlib.Core.Path.{◌≡◌, refl}
use mathlib.Core.Logic.{◌↔◌}
use mathlib.Core.Bool.{Bool, true, false}
use mathlib.Core.Option.{Option, none, some}
use mathlib.Core.List.{List, [], ◌∷◌}
use native.Mathlib.Omega.{arith}
use facetime_v.Base.Tests.{if◌then◌else◌, ==_iff}
use facetime_v.Base.Tests.{◌==◌ as nat_eq}
use facetime_v.Base.Lists.{any, list_eq, list_eq→eq, list_eq_refl}

pub record Eq {ℓ} (A : Type ℓ) : Type ℓ where
  pub beq : A → A → Bool
  pub beq_iff : (a b : A) → (beq a b ≡ true) ↔ (a ≡ b)

abbrev pub same {ℓ} : {A : Type ℓ} ⦃e : Eq A⦄ → A → A → Bool
same ⦃e⦄ = e.beq

pub same_iff {ℓ} : {A : Type ℓ} ⦃e : Eq A⦄ → (a b : A) → (same a b ≡ true) ↔ (a ≡ b)
same_iff ⦃e⦄ = e.beq_iff

pub list_eq_iff : (a b : List ℕ) → (list_eq a b ≡ true) ↔ (a ≡ b)
list_eq_iff a b = (list_eq→eq a b, λ e. rw e (list_eq_refl b))

instance abbrev pub nat_instance : Eq ℕ
nat_instance = record { beq = nat_eq; beq_iff = ==_iff }

instance abbrev pub bytes_instance : Eq (List ℕ)
bytes_instance = record { beq = list_eq; beq_iff = list_eq_iff }

abbrev pub Map {ℓ κ} : Type ℓ → Type κ → Type (ℓ ⊔ κ)
Map K V = List (K × V)

module _ {ℓ κ} {K : Type ℓ} {V : Type κ} where
  abbrev pub keys : Map K V → List K
  keys [] = []
  keys ((k, v) ∷ m) = k ∷ keys m

  abbrev pub values : Map K V → List V
  values [] = []
  values ((k, v) ∷ m) = v ∷ values m

module _ {ℓ κ} {K : Type ℓ} {V : Type κ} ⦃e : Eq K⦄ where
  unfoldable pub lookup : K → Map K V → Option V
  lookup k [] = none
  lookup k ((j, v) ∷ m) = if same j k then some v else lookup k m

  unfoldable pub insert : K → V → Map K V → Map K V
  insert k v [] = (k, v) ∷ []
  insert k v ((j, w) ∷ m) = if same j k then (j, v) ∷ m else (j, w) ∷ insert k v m

  unfoldable pub remove : K → Map K V → Map K V
  remove k [] = []
  remove k ((j, w) ∷ m) = if same j k then remove k m else (j, w) ∷ remove k m

  unfoldable pub contains_key : K → Map K V → Bool
  unfolding lookup
  contains_key k m = elim (lookup k m) [ none ↦ false | some v ↦ true ]

  pub lookup-insert :
      (k j : K) (v : V) (m : Map K V)
      → lookup j (insert k v m) ≡ (if same k j then some v else lookup j m)
  unfolding lookup insert
  lookup-insert k j v [] = refl
  lookup-insert k j v ((i, w) ∷ m) =
      ground (arith, same_iff k j, same_iff i k, same_iff i j, lookup-insert k j v m)

  pub lookup-remove :
      (k j : K) (m : Map K V) → lookup j (remove k m) ≡ (if same k j then none else lookup j m)
  unfolding lookup remove
  lookup-remove k j [] = ground arith
  lookup-remove k j ((i, w) ∷ m) =
      ground (arith, same_iff k j, same_iff i k, same_iff i j, lookup-remove k j m)

module _ {ℓ} {K : Type ℓ} ⦃e : Eq K⦄ where
  pub same_symm : (a b : K) → same a b ≡ false → same b a ≡ false
  same_symm a b h = ground (arith, same_iff a b, same_iff b a)

  pub same_refl : (a : K) → same a a ≡ true
  same_refl a = (same_iff a a).1 refl

  -- No element stands twice in the list.
  abbrev pub Distinct : List K → Type 0
  Distinct [] = Unit
  Distinct (x ∷ xs) = (any (λ y. same y x) xs ≡ false) × Distinct xs
