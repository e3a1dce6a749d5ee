-- ===== src/Python/Url/Laws.antt =====
-- What `urlunsplit` keeps.
use text.Mathlib.TextLemmas.{append_assoc}
use nighwatch.Common.{
  String, ◌<>◌, Bool, true, false, ◌||◌, ◌==◌, starts_with, if◌then◌else◌, ◌≡◌, ◌≢◌, refl, sym, ap,
  ◌∙◌, arith, eq_iff,
}
use nighwatch.Python.Url.{SplitResult, urlunsplit}

-- A text contains a part.
abbrev pub HasPart : String → String → Type 0
HasPart part text = (before : String) × (after : String) × (text ≡ before <> (part <> after))

module _ (part : String) where
  HasPart-prepend : (s text : String) → HasPart part text → HasPart part (s <> text)
  HasPart-prepend s text (b, a, e) =
      (s <> b, a, ap (λ t. s <> t) e ∙ sym (append_assoc s b (part <> a)))

  HasPart-append : (text s : String) → HasPart part text → HasPart part (text <> s)
  HasPart-append text s (b, a, e) = (
    b,
    a <> s,
    ap (λ t. t <> s) e ∙ append_assoc b (part <> a) s ∙ ap (λ t. b <> t) (append_assoc part a s),
  )

  HasPart-if :
      (test : Bool) (s t : String)
      → HasPart part s
      → HasPart part t
      → HasPart part (if test then s else t)
  HasPart-if true s t hs ht = hs
  HasPart-if false s t hs ht = ht

-- A network location stands in the URL that is put together from it.
pub urlunsplit-netloc : (u : SplitResult) → u.netloc ≢ "" → HasPart u.netloc (urlunsplit u)
unfolding urlunsplit
urlunsplit-netloc u located =
    let part = u.netloc in
    let e : (u.netloc == "") ≡ false = ground (arith, eq_iff u.netloc "") in
    let slashed = if u.path == "" || starts_with u.path "/" then u.path else "/" <> u.path in
    let at_host : HasPart part ("//" <> (part <> slashed)) = ("//", slashed, refl) in
    let at_scheme =
      HasPart-if part (u.scheme == "") _ _ at_host
        (HasPart-prepend part u.scheme _ (HasPart-prepend part ":" _ at_host)) in
    let at_query =
      HasPart-if part (u.query == "") _ _ at_scheme
        (HasPart-append part _ ("?" <> u.query) at_scheme) in
    rw e (
      HasPart-if part (u.fragment == "") _ _ at_query
        (HasPart-append part _ ("#" <> u.fragment) at_query))
