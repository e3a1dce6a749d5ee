-- ===== src/Http/Address.antt =====
-- `_resolve_allowed_address`. The resolver's answer and the classification of an address are the
-- network's.
pub mod Laws
use nighwatch.Common.{
  ℕ, String, ◌<>◌, Bool, true, false, ◌||◌, ◌&&◌, not, Option, none, some, List, [], ◌∷◌, Result,
  ok, err, if◌then◌else◌,
}

-- A `sockaddr`: its first component and the others.
pub record SockAddr : Type 0 where
  pub address : String
  pub rest : List ℕ

-- One entry of `socket.getaddrinfo`.
pub record Candidate : Type 0 where
  pub family : ℕ
  pub is_stream : Bool
  pub sockaddr : SockAddr

-- What `ipaddress.ip_address` says of an address.
pub record IpAddress : Type 0 where
  pub is_private : Bool
  pub is_loopback : Bool
  pub is_link_local : Bool
  pub is_multicast : Bool
  pub is_reserved : Bool
  pub is_unspecified : Bool

abbrev pub is_restricted : IpAddress → Bool
is_restricted ip =
    ip.is_private || ip.is_loopback || ip.is_link_local || ip.is_multicast || ip.is_reserved
    || ip.is_unspecified

-- The loop's tests on one candidate, with its parsed address, or `none` for a `ValueError`.
abbrev pub is_admitted : Bool → Candidate → Option IpAddress → Bool
is_admitted allow_private c none = false
is_admitted allow_private c (some ip) =
    if not c.is_stream then false else if not allow_private && is_restricted ip then false else true

-- The loop over the candidates.
unfoldable pub first_admitted :
    (String → Option IpAddress) → Bool → List Candidate → Option Candidate
first_admitted ip_address allow_private [] = none
first_admitted ip_address allow_private (c ∷ cs) =
    let rest = first_admitted ip_address allow_private cs in
    if is_admitted allow_private c (ip_address c.sockaddr.address) then some c else rest

-- `_resolve_allowed_address`; `err` is the message of the `HttpExecutorError`.
unfoldable pub resolve_allowed_address :
    (String → ℕ → Option (List Candidate))
    → (String → Option IpAddress)
    → String
    → ℕ
    → Bool
    → Result String Candidate
resolve_allowed_address getaddrinfo ip_address host port allow_private =
    elim (getaddrinfo host port) [
      | none ↦ err ("DNS resolution failed for authorized host: " <> host)
      | some candidates ↦ elim (first_admitted ip_address allow_private candidates) [
        | none ↦ err "authorized host resolved only to a private or otherwise restricted address"
        | some c ↦ ok c
      ]
    ]
