-- ===== src/Python/SetLaws.antt =====
-- Updating a set keeps its elements and adds the new ones.
use nighwatch.Common.{
  String, List, [], ◌∷◌, Memᴰ, ◌≡◌, ◌⊎◌, refl, arith, ◌==◌, eq_iff, inl, inr, All, All-of,
  Bool-cases,
}
use nighwatch.Python.Sets.{string_lt, add_to_set, update_set}

module _ {A : Type 0} (key : A → String) where
  add_to_set_cases :
      (z : A) (zs : List A) (x : A)
      → ((key z ≡ key x) × (add_to_set key (z ∷ zs) x ≡ z ∷ zs))
        ⊎ (add_to_set key (z ∷ zs) x ≡ x ∷ z ∷ zs)
        ⊎ (add_to_set key (z ∷ zs) x ≡ z ∷ add_to_set key zs x)
  unfolding add_to_set
  add_to_set_cases z zs x = elim (Bool-cases (key z == key x)) [
    | inl same ↦ inl ((eq_iff (key z) (key x)).0 same, ground arith)
    | inr other ↦ elim (Bool-cases (string_lt (key x) (key z))) [
      | inl less ↦ inr (inl (ground arith))
      | inr more ↦ inr (inr (ground arith))
    ]
  ]

  add_to_set_keeps : {y : A} (ys : List A) (x : A) → Memᴰ y ys → Memᴰ y (add_to_set key ys x)
  unfolding add_to_set
  add_to_set_keeps [] x m = elim m [ ]
  add_to_set_keeps (z ∷ zs) x m = elim (add_to_set_cases z zs x) [
    | inl (same, e) ↦ rw e m
    | inr (inl e) ↦ rw e (Memᴰ.tail m)
    | inr (inr e) ↦
        rw e
          (elim m [ Memᴰ.head h ↦ Memᴰ.head h | Memᴰ.tail t ↦ Memᴰ.tail (add_to_set_keeps zs x t) ])
  ]

  -- An element of the set with the key of `x`.
  abbrev pub HasKey : List A → A → Type 0
  HasKey ys x = (y : A) × Memᴰ y ys × (key y ≡ key x)

  add_to_set-HasKey : (ys : List A) (x : A) → HasKey (add_to_set key ys x) x
  unfolding add_to_set
  add_to_set-HasKey [] x = (x, Memᴰ.head refl, refl)
  add_to_set-HasKey (z ∷ zs) x = elim (add_to_set_cases z zs x) [
    | inl (same, e) ↦ rw e (z, Memᴰ.head refl, same)
    | inr (inl e) ↦ rw e (x, Memᴰ.head refl, refl)
    | inr (inr e) ↦ rw e (let (y, m, k) = add_to_set-HasKey zs x in (y, Memᴰ.tail m, k))
  ]

  pub update_set_keeps : {y : A} (ys xs : List A) → Memᴰ y ys → Memᴰ y (update_set key ys xs)
  unfolding update_set
  update_set_keeps ys [] m = m
  update_set_keeps ys (x ∷ xs) m =
      update_set_keeps (add_to_set key ys x) xs (add_to_set_keeps ys x m)

  pub update_set-HasKey : {x : A} (ys xs : List A) → Memᴰ x xs → HasKey (update_set key ys xs) x
  unfolding update_set
  update_set-HasKey ys [] m = elim m [ ]
  update_set-HasKey ys (z ∷ xs) (Memᴰ.head h) =
      let (y, m, k) = add_to_set-HasKey ys z in
      (y, update_set_keeps (add_to_set key ys z) xs m, rw h k)
  update_set-HasKey ys (z ∷ xs) (Memᴰ.tail m) = update_set-HasKey (add_to_set key ys z) xs m

  pub All-update_set : (ys xs : List A) → All (λ y. Memᴰ y (update_set key ys xs)) ys
  All-update_set ys xs = All-of _ ys (λ y m. update_set_keeps ys xs m)

  pub All-HasKey : (ys xs : List A) → All (HasKey (update_set key ys xs)) xs
  All-HasKey ys xs = All-of _ xs (λ x m. update_set-HasKey ys xs m)
