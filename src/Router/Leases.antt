-- ===== src/Router/Leases.antt =====
-- A refresh that succeeds, and a refresh that asks for a lease.
use agents_can_communicate.Base.{
  ℕ, ◌+◌, ◌≤◌, ◌<◌, ◌≡◌, refl, true, false, Option, none, some, arith, Text, codes, ◌==◌, leb,
  Bool-cases, inl, inr,
}
use agents_can_communicate.Core.Bindings.{Binding}
use agents_can_communicate.Router.Refresh.{
  RefreshAnswers, Renewal, Validated, max_refresh_lease_ms, refresh_expired, by_handshake,
  requested_lease, renew, refused, earlier, same_binding,
}

-- A lease that is asked for lies ahead, and not far; and a refresh that reports no error has asked
-- for one, and has read it back for the same endpoint, not retired.
abbrev pub IsBounded : RefreshAnswers → Binding → Renewal → Type 0
IsBounded r b renewal =
    ((l : ℕ) → renewal.lease_until ≡ some l → (r.clock < l) × (l ≤ r.clock + max_refresh_lease_ms))
    × (renewal.error_code ≡ none
        → (l : ℕ) × (renewal.lease_until ≡ some l) × (same_binding r.current b l ≡ true))

refused-IsBounded : (r : RefreshAnswers) (b : Binding) (code : Text) → IsBounded r b (refused code)
unfolding refused
refused-IsBounded r b code = (λ l h. absurd (cc), λ h. absurd (cc))

renew-IsBounded :
    (r : RefreshAnswers) (b : Binding) (requested : ℕ)
    → leb requested r.clock ≡ false
    → IsBounded r b (renew r b requested)
unfolding renew earlier
renew-IsBounded r b requested ahead = (
  λ l h. (ground arith, ground arith),
  λ h. (earlier requested (r.clock + max_refresh_lease_ms), refl, ground arith),
)

requested-IsBounded :
    (r : RefreshAnswers) (b : Binding) (o : Option ℕ) → IsBounded r b (requested_lease r b o)
unfolding requested_lease
requested-IsBounded r b none = refused-IsBounded r b (codes "recipient_unavailable")
requested-IsBounded r b (some lease) = elim (Bool-cases (leb lease r.clock)) [
  | inl e ↦ rw e (refused-IsBounded r b (codes "recipient_unavailable"))
  | inr e ↦ rw e (renew-IsBounded r b lease e)
]

by_handshake-IsBounded :
    (r : RefreshAnswers) (b : Binding) (o : Option Validated) → IsBounded r b (by_handshake r b o)
unfolding by_handshake
by_handshake-IsBounded r b none = refused-IsBounded r b (codes "recipient_unavailable")
by_handshake-IsBounded r b (some v) = elim (Bool-cases v.is_ok) [
  | inr e ↦ rw e (refused-IsBounded r b _)
  | inl e ↦ elim (Bool-cases (v.endpoint == b.endpoint)) [
    | inr d ↦ rw (e, d) (refused-IsBounded r b (codes "recipient_unavailable"))
    | inl d ↦ rw (e, d) (requested-IsBounded r b v.lease_until)
  ]
]

-- A lease that a refresh asks for ends after the time of the refresh, and at most 120 seconds after
-- it; and a refresh that reports no error has asked for a lease and has then read it back, in a
-- binding of the same endpoint that is not retired.
pub refresh_expired-IsBounded :
    (r : RefreshAnswers) (b : Binding) → IsBounded r b (refresh_expired r b)
unfolding refresh_expired
refresh_expired-IsBounded r b = elim (Bool-cases r.is_callable) [
  | inl e ↦ rw e (by_handshake-IsBounded r b r.validated)
  | inr e ↦ rw e (refused-IsBounded r b (codes "recipient_unavailable"))
]
