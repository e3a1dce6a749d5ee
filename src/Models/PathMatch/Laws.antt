-- ===== src/Models/PathMatch/Laws.antt =====
-- What the path test of agentsec/models.py admits.
use text.Mathlib.TextEquality.{starts_with_iff}
use text.Mathlib.TextLemmas.{append-nil, append_assoc}
use nighwatch.Common.{
  String, ◌<>◌, true, List, [], ◌∷◌, ◌==◌, starts_with, ◌≡◌, refl, sym, ap, ◌∙◌, ◌↔◌, ◌⊎◌, inl, inr,
  Memᴰ, arith, eq_iff, Bool-cases,
}
use nighwatch.Models.PathMatch.{normalize_prefix, matches_some, path_matches}

-- The text ends here, or goes on with a slash.
abbrev pub AtBoundary : String → Type 0
AtBoundary rest = (rest ≡ "") ⊎ ((more : String) × (rest ≡ "/" <> more))

-- `path` is the tree below `root`, cut at a segment boundary; the root "/" covers every path.
abbrev pub Covers : String → String → Type 0
Covers root path = (root ≡ "/") ⊎ ((rest : String) × (path ≡ root <> rest) × AtBoundary rest)

module _ (path root : String) where
  Covers-of_eq : path ≡ root → Covers root path
  Covers-of_eq e = inr ("", e ∙ sym (append-nil root), inl refl)

  Covers-of_prefix : starts_with path (root <> "/") ≡ true → Covers root path
  Covers-of_prefix h =
      let (more, e) = (starts_with_iff path (root <> "/")).0 h in
      inr ("/" <> more, sym e ∙ append_assoc root "/" more, inr (more, refl))

  test_of_Covers :
      Covers root path → (root ≡ "/") ⊎ (path ≡ root) ⊎ (starts_with path (root <> "/") ≡ true)
  test_of_Covers (inl e) = inl e
  test_of_Covers (inr (rest, e, inl nil)) =
      inr (inl (e ∙ ap (λ r. root <> r) nil ∙ append-nil root))
  test_of_Covers (inr (rest, e, inr (more, slash))) = inr (
      inr (
        (starts_with_iff path (root <> "/")).1
          (more, append_assoc root "/" more ∙ sym (e ∙ ap (λ r. root <> r) slash))))

matches_some_sound :
    (path : String) (prefixes : List String)
    → matches_some path prefixes ≡ true
    → (prefix : String) × Memᴰ prefix prefixes × Covers (normalize_prefix prefix) path
unfolding matches_some
matches_some_sound path [] h = cc
matches_some_sound path (prefix ∷ prefixes) h =
    let root = normalize_prefix prefix in
    elim (Bool-cases (root == "/")) [
      | inl all ↦ (prefix, Memᴰ.head refl, inl ((eq_iff _ _).0 all))
      | inr not_all ↦ elim (Bool-cases (path == root)) [
        | inl same ↦ (prefix, Memᴰ.head refl, Covers-of_eq path root ((eq_iff _ _).0 same))
        | inr differ ↦ elim (Bool-cases (starts_with path (root <> "/"))) [
          | inl below ↦ (prefix, Memᴰ.head refl, Covers-of_prefix path root below)
          | inr outside ↦
              let (p, m, c) = matches_some_sound path prefixes (ground arith) in (p, Memᴰ.tail m, c)
        ]
      ]
    ]

matches_some_complete :
    (path : String) (prefixes : List String) {prefix : String}
    → Memᴰ prefix prefixes
    → Covers (normalize_prefix prefix) path
    → matches_some path prefixes ≡ true
unfolding matches_some
matches_some_complete path [] m c = elim m [ ]
matches_some_complete path (p ∷ prefixes) {prefix} (Memᴰ.head e) c = ground (
  arith,
  ap normalize_prefix e,
  test_of_Covers path (normalize_prefix prefix) c,
  eq_iff (normalize_prefix p) "/",
  eq_iff path (normalize_prefix p),
)
matches_some_complete path (p ∷ prefixes) (Memᴰ.tail m) c =
    ground (arith, matches_some_complete path prefixes m c)

-- A path is admitted exactly when no prefix is configured, or a configured prefix, normalised,
-- covers it: is the root, is the path, or is continued by the path at a slash.
pub path_matches_iff :
    (path : String) (prefixes : List String)
    → (path_matches path prefixes ≡ true) ↔ (
        (prefixes ≡ [])
        ⊎ ((prefix : String) × Memᴰ prefix prefixes × Covers (normalize_prefix prefix) path))
unfolding path_matches
path_matches_iff path [] = (λ _. inl refl, λ _. refl)
path_matches_iff path (p ∷ ps) = (
  λ h. inr (matches_some_sound path (p ∷ ps) h),
  λ w. elim w [ inl e ↦ cc | inr (prefix, m, c) ↦ matches_some_complete path (p ∷ ps) m c ],
)

-- Dot segments are not resolved: a normalised configured prefix followed by `/..` and any rest is
-- admitted.
pub path_matches_climbs :
    (prefix rest : String) (prefixes : List String)
    → Memᴰ prefix prefixes
    → path_matches (normalize_prefix prefix <> "/.." <> rest) prefixes ≡ true
path_matches_climbs prefix rest prefixes m =
    (path_matches_iff _ prefixes).1
      (inr (prefix, m, inr ("/.." <> rest, refl, inr (".." <> rest, append_assoc "/" ".." rest))))
