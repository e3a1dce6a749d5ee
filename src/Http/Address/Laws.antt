-- ===== src/Http/Address/Laws.antt =====
-- Which address a request may be sent to.
use nighwatch.Common.{
  ℕ, String, true, false, Option, some, List, [], ◌∷◌, Memᴰ, ◌≡◌, ◌⊎◌, refl, arith, ok,
  Option-cases, Bool-cases, inl, inr, Bool,
}
use nighwatch.Http.Address.{
  Candidate, IpAddress, is_restricted, is_admitted, first_admitted, resolve_allowed_address,
}

-- A stream candidate whose address parses and, unless private addresses are allowed, is none of the
-- restricted kinds.
abbrev pub Admitted : (String → Option IpAddress) → Bool → Candidate → Type 0
Admitted ip_address allow_private c =
    (c.is_stream ≡ true)
    × ((ip : IpAddress) × (ip_address c.sockaddr.address ≡ some ip)
        × ((allow_private ≡ true) ⊎ (is_restricted ip ≡ false)))

is_admitted-Admitted :
    (ip_address : String → Option IpAddress) (allow_private : Bool) (c : Candidate)
    → is_admitted allow_private c (ip_address c.sockaddr.address) ≡ true
    → Admitted ip_address allow_private c
is_admitted-Admitted ip_address allow_private c h =
    elim (Option-cases (ip_address c.sockaddr.address)) [
      | inl e ↦ ground (arith, e, h)
      | inr (ip, e) ↦ (ground (arith, e, h), (ip, e, ground (arith, e, h)))
    ]

-- The first candidate that is admitted: those before it are not.
pub data FirstAdmitted (ip_address : String → Option IpAddress) (allow_private : Bool)
    (c : Candidate) : List Candidate → Type 0 where
  here :
      {cs : List Candidate}
      → Admitted ip_address allow_private c
      → FirstAdmitted ip_address allow_private c (c ∷ cs)
  later :
      {d : Candidate} {cs : List Candidate}
      → is_admitted allow_private d (ip_address d.sockaddr.address) ≡ false
      → FirstAdmitted ip_address allow_private c cs
      → FirstAdmitted ip_address allow_private c (d ∷ cs)

first_admitted_sound :
    (ip_address : String → Option IpAddress) (allow_private : Bool) (cs : List Candidate)
    (c : Candidate)
    → first_admitted ip_address allow_private cs ≡ some c
    → FirstAdmitted ip_address allow_private c cs
unfolding first_admitted
first_admitted_sound ip_address allow_private [] c e = ground (arith, e)
first_admitted_sound ip_address allow_private (d ∷ cs) c e =
    elim (Bool-cases (is_admitted allow_private d (ip_address d.sockaddr.address))) [
      | inl admitted ↦
          let same : d ≡ c = ground (arith, e, admitted) in
          rw same (here (rw same at (is_admitted-Admitted ip_address allow_private d admitted)))
      | inr refused ↦
          later refused
            (first_admitted_sound ip_address allow_private cs c (ground (arith, e, refused)))
    ]

pub FirstAdmitted-Admitted :
    {ip_address : String → Option IpAddress} {allow_private : Bool} {c : Candidate}
    {cs : List Candidate}
    → FirstAdmitted ip_address allow_private c cs
    → Memᴰ c cs × Admitted ip_address allow_private c
FirstAdmitted-Admitted (here a) = (Memᴰ.head refl, a)
FirstAdmitted-Admitted (later refused f) = let (m, a) = FirstAdmitted-Admitted f in (Memᴰ.tail m, a)

-- An address is chosen only from what the resolver answers for the host and port, and it is the
-- first of these that is a stream candidate whose address parses and, unless private addresses
-- are allowed, is not private, loopback, link-local, multicast, reserved or unspecified.
pub resolve_allowed_address_sound :
    (getaddrinfo : String → ℕ → Option (List Candidate)) (ip_address : String → Option IpAddress)
    (host : String) (port : ℕ) (allow_private : Bool) (c : Candidate)
    → resolve_allowed_address getaddrinfo ip_address host port allow_private ≡ ok c
    → (cs : List Candidate) × (getaddrinfo host port ≡ some cs)
      × FirstAdmitted ip_address allow_private c cs
unfolding resolve_allowed_address
resolve_allowed_address_sound getaddrinfo ip_address host port allow_private c e =
    elim (Option-cases (getaddrinfo host port)) [
      | inl p ↦ ground (arith, e, p)
      | inr (cs, p) ↦ elim (Option-cases (first_admitted ip_address allow_private cs)) [
        | inl q ↦ ground (arith, e, p, q)
        | inr (d, q) ↦
            let same : d ≡ c = ground (arith, e, p, q) in
            (cs, p, first_admitted_sound ip_address allow_private cs c (rw same at q))
      ]
    ]
