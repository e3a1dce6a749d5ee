-- ===== src/Common/Lists.antt =====
-- Lists: membership tests of Python's `in`, predicates on all elements, lengths over the native numbers.
use Prim.Native.Nat.{ℕ, zero, suc, ◌+◌}
use Prim.Native.String.{String}
use mathlib.Core.Path.{◌≡◌, refl, sym}
use mathlib.Core.Logic.{◌↔◌, ◌⊎◌, inl, inr}
use mathlib.Core.Bool.{Bool, true, false}
use mathlib.Core.List.{List, [], ◌∷◌, ◌++◌, Memᴰ}
use native.Mathlib.Omega.{arith}
use text.Mathlib.Text.{◌==◌}
use text.Mathlib.TextEquality.{eq_iff}
use nighwatch.Common.Tests.{if◌then◌else◌, eqb, eqb_iff, Bool-cases}

module _ {ℓ} {A : Type ℓ} where
  abbrev pub length : List A → ℕ
  length [] = 0
  length (x ∷ xs) = suc (length xs)

  abbrev pub take : ℕ → List A → List A
  take zero xs = []
  take (suc n) [] = []
  take (suc n) (x ∷ xs) = x ∷ take n xs

  pub length-append : (xs ys : List A) → length (xs ++ ys) ≡ length xs + length ys
  length-append [] ys = omega arith
  length-append (x ∷ xs) ys = omega (arith, length-append xs ys)

abbrev pub All {ℓ κ} : {A : Type ℓ} → (A → Type κ) → List A → Type κ
All P [] = Unit
All P (x ∷ xs) = P x × All P xs

pub All-append {ℓ κ} :
    {A : Type ℓ} (P : A → Type κ) (xs ys : List A) → All P xs → All P ys → All P (xs ++ ys)
All-append P [] ys hx hy = hy
All-append P (x ∷ xs) ys hx hy = (hx.0, All-append P xs ys hx.1 hy)

pub All-of {ℓ κ} :
    {A : Type ℓ} (P : A → Type κ) (xs : List A) → ((x : A) → Memᴰ x xs → P x) → All P xs
All-of P [] f = tt
All-of P (x ∷ xs) f = (f x (Memᴰ.head refl), All-of P xs (λ y m. f y (Memᴰ.tail m)))

-- `x in xs` for a container of strings.
unfoldable pub contains : List String → String → Bool
contains [] x = false
contains (y ∷ ys) x = if y == x then true else contains ys x

-- `x in xs` for a container of integers.
unfoldable pub contains_int : List ℕ → ℕ → Bool
contains_int [] x = false
contains_int (y ∷ ys) x = if eqb y x then true else contains_int ys x

Memᴰ-cons {ℓ} : {A : Type ℓ} {x y : A} {ys : List A} → Memᴰ x (y ∷ ys) → (x ≡ y) ⊎ Memᴰ x ys
Memᴰ-cons (Memᴰ.head e) = inl e
Memᴰ-cons (Memᴰ.tail m) = inr m

pub contains→Mem : (xs : List String) (x : String) → contains xs x ≡ true → Memᴰ x xs
unfolding contains
contains→Mem [] x h = cc
contains→Mem (y ∷ ys) x h = elim (Bool-cases (y == x)) [
  | inl same ↦ Memᴰ.head (sym ((eq_iff y x).0 same))
  | inr other ↦ Memᴰ.tail (contains→Mem ys x (ground arith))
]

pub Mem→contains : (xs : List String) (x : String) → Memᴰ x xs → contains xs x ≡ true
unfolding contains
Mem→contains [] x m = elim m [ ]
Mem→contains (y ∷ ys) x (Memᴰ.head e) = ground (arith, eq_iff y x)
Mem→contains (y ∷ ys) x (Memᴰ.tail m) = ground (arith, Mem→contains ys x m)

-- Python's `in` finds exactly the members.
pub contains_iff : (xs : List String) (x : String) → (contains xs x ≡ true) ↔ Memᴰ x xs
contains_iff xs x = (contains→Mem xs x, Mem→contains xs x)

contains_int→Mem : (xs : List ℕ) (x : ℕ) → contains_int xs x ≡ true → Memᴰ x xs
unfolding contains_int
contains_int→Mem [] x h = cc
contains_int→Mem (y ∷ ys) x h = elim (Bool-cases (eqb y x)) [
  | inl same ↦ Memᴰ.head (sym ((eqb_iff y x).0 same))
  | inr other ↦ Memᴰ.tail (contains_int→Mem ys x (ground arith))
]

Mem→contains_int : (xs : List ℕ) (x : ℕ) → Memᴰ x xs → contains_int xs x ≡ true
unfolding contains_int
Mem→contains_int [] x m = elim m [ ]
Mem→contains_int (y ∷ ys) x (Memᴰ.head e) = ground (arith, eqb_iff y x)
Mem→contains_int (y ∷ ys) x (Memᴰ.tail m) = ground (arith, Mem→contains_int ys x m)

pub contains_int_iff : (xs : List ℕ) (x : ℕ) → (contains_int xs x ≡ true) ↔ Memᴰ x xs
contains_int_iff xs x = (contains_int→Mem xs x, Mem→contains_int xs x)
