-- ===== src/Findings/Signature/Laws.antt =====
-- When the verdict is that an access was verified.
use nighwatch.Common.{
  ◌≤◌, ◌<◌, String, true, false, List, [], ◌∷◌, Memᴰ, ◌≡◌, ◌≢◌, ◌⊎◌, ◌↔◌, refl, arith, ◌==◌, eq_iff,
  contains, contains_iff, Bool, Bool-cases, inl, inr,
}
use nighwatch.Findings.Signature.{
  ResponseSignature, succeeded, shares, repeats, is_none, ladder, verdict,
}

-- An identifier that both lists hold.
abbrev pub Common : List String → List String → Type 0
Common xs ys = (x : String) × Memᴰ x xs × Memᴰ x ys

shares→Common : (xs ys : List String) → shares xs ys ≡ true → Common xs ys
unfolding shares
shares→Common [] ys h = ground (arith, h)
shares→Common (x ∷ xs) ys h = elim (Bool-cases (contains ys x)) [
  | inl found ↦ (x, Memᴰ.head refl, (contains_iff ys x).0 found)
  | inr absent ↦
      let (y, m, n) = shares→Common xs ys (ground (arith, h, absent)) in (y, Memᴰ.tail m, n)
]

Common→shares : (xs ys : List String) (y : String) → Memᴰ y xs → Memᴰ y ys → shares xs ys ≡ true
unfolding shares
Common→shares [] ys y m n = elim m [ ]
Common→shares (x ∷ xs) ys y (Memᴰ.head e) n =
    let found : contains ys x ≡ true = (contains_iff ys x).1 (rw e at n) in ground (arith, found)
Common→shares (x ∷ xs) ys y (Memᴰ.tail m) n = ground (arith, Common→shares xs ys y m n)

-- Two signatures with one status and one body, literally or up to volatile fields.
abbrev pub Agree : ResponseSignature → ResponseSignature → Type 0
Agree s t =
    (s.status ≡ t.status)
    × ((s.body_sha256 ≡ t.body_sha256) ⊎ (s.normalized_hash ≡ t.normalized_hash))

repeats_iff : (s t : ResponseSignature) → (repeats s t ≡ true) ↔ Agree s t
repeats_iff s t =
    ground (arith, eq_iff s.body_sha256 t.body_sha256, eq_iff s.normalized_hash t.normalized_hash)

abbrev pub IsSuccess : ResponseSignature → Type 0
IsSuccess s = (200 ≤ s.status) × (s.status < 300)

ladder-verified :
    (a b c d e f : Bool)
    → ((ladder a b c d e f).0 == "verified") ≡ true
    → (a ≡ true) × (b ≡ true) × (c ≡ true) × (d ≡ true) × (e ≡ true) × (f ≡ false)
unfolding ladder
ladder-verified false b c d e f h = ground (arith, h)
ladder-verified true false c d e f h = ground (arith, h)
ladder-verified true true false d e f h = ground (arith, h)
ladder-verified true true true false e f h = ground (arith, h)
ladder-verified true true true true false f h = ground (arith, h)
ladder-verified true true true true true true h = ground (arith, h)
ladder-verified true true true true true false h = (refl, refl, refl, refl, refl, refl)

some_impact : (xs : List String) → is_none xs ≡ false → xs ≢ []
some_impact [] h e = ground (arith, h)
some_impact (x ∷ xs) h e = ground (arith, e)

module _ (owner subject owner_again subject_again : ResponseSignature) (impact : List String) where
  -- What a verified access is.
  pub record IsVerified : Type 0 where
    pub owner_success : IsSuccess owner
    pub subject_success : IsSuccess subject
    pub same_object : Common owner.object_ids subject.object_ids
    pub subject_repeats : Agree subject subject_again
    pub owner_repeats : Agree owner owner_again
    pub impact_seen : impact ≢ []

  -- The same as the code tests it.
  abbrev Tests : Type 0
  Tests =
      (succeeded owner.status ≡ true)
      × (succeeded subject.status ≡ true)
      × (shares owner.object_ids subject.object_ids ≡ true)
      × (repeats subject subject_again ≡ true)
      × (repeats owner owner_again ≡ true)
      × (impact ≢ [])

  verified_tests : (verdict owner subject owner_again subject_again impact).0 ≡ "verified" → Tests
  unfolding verdict
  verified_tests h =
      let (a, b, c, d, e, f) =
        ladder-verified (succeeded owner.status) (succeeded subject.status)
          (shares owner.object_ids subject.object_ids) (repeats subject subject_again)
          (repeats owner owner_again) (is_none impact)
          ((eq_iff (verdict owner subject owner_again subject_again impact).0 "verified").1 h) in
      (a, b, c, d, e, some_impact impact f)

  tests_verified : Tests → (verdict owner subject owner_again subject_again impact).0 ≡ "verified"
  unfolding verdict
  tests_verified t = ground (arith, t)

  -- The verdict is `verified` exactly when both profiles got a successful answer, the two answers
  -- name a common object identifier, each profile's second answer agrees with its first in status
  -- and in the body, literally or without its volatile fields, and some impact field was
  -- observed.
  pub verdict-verified_iff :
      ((verdict owner subject owner_again subject_again impact).0 ≡ "verified") ↔ IsVerified
  verdict-verified_iff = (
    λ h.
        let (a, b, c, d, e, f) = verified_tests h in
        record {
          owner_success = ground (arith, a);
          subject_success = ground (arith, b);
          same_object = shares→Common owner.object_ids subject.object_ids c;
          subject_repeats = (repeats_iff subject subject_again).0 d;
          owner_repeats = (repeats_iff owner owner_again).0 e;
          impact_seen = f;
        },
    λ v.
        let (y, m, n) = v.same_object in
        tests_verified (
          ground (arith, v.owner_success),
          ground (arith, v.subject_success),
          Common→shares owner.object_ids subject.object_ids y m n,
          (repeats_iff subject subject_again).1 v.subject_repeats,
          (repeats_iff owner owner_again).1 v.owner_repeats,
          v.impact_seen,
        ),
  )
