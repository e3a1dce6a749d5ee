-- ===== src/Python/Sets.antt =====
-- `sorted` of strings and of sets, in the order of the code points.
use Prim.Native.String.{compare}
use Prim.Native.Nat.{Ordering}
use nighwatch.Common.{String, ◌<>◌, Bool, true, false, List, [], ◌∷◌, ◌==◌, if◌then◌else◌}

-- `a < b`
abbrev pub string_lt : String → String → Bool
string_lt a b = elim (compare a b) [ Ordering.lt ↦ true | _ ↦ false ]

-- Into a list sorted by `key`, after what is not greater.
unfoldable pub insert {ℓ} : {A : Type ℓ} → (A → String) → A → List A → List A
insert key x [] = x ∷ []
insert key x (y ∷ ys) = if string_lt (key x) (key y) then x ∷ y ∷ ys else y ∷ insert key x ys

-- `sorted(xs)` of strings
unfoldable pub sort_strings : List String → List String
sort_strings [] = []
sort_strings (x ∷ xs) = insert (λ s. s) x (sort_strings xs)

-- A set is the sorted list of its elements; a value is added unless its key is there.
unfoldable pub add_to_set {ℓ} : {A : Type ℓ} → (A → String) → List A → A → List A
add_to_set key [] x = x ∷ []
add_to_set key (y ∷ ys) x =
    if key y == key x
    then y ∷ ys
    else if string_lt (key x) (key y)
    then x ∷ y ∷ ys
    else y ∷ add_to_set key ys x

-- `current.update(values)`, sorted
unfoldable pub update_set {ℓ} : {A : Type ℓ} → (A → String) → List A → List A → List A
update_set key set [] = set
update_set key set (x ∷ xs) = update_set key (add_to_set key set x) xs

-- `sep.join(xs)`
unfoldable pub join : String → List String → String
join sep [] = ""
join sep (x ∷ []) = x
join sep (x ∷ y ∷ ys) = let rest = join sep (y ∷ ys) in x <> sep <> rest
