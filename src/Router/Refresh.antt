-- ===== src/Router/Refresh.antt =====
-- packages/delivery-router/src/refresh-binding.mjs: an expired lease is moved on where the adapter
-- still reaches the same endpoint. What the adapter and the store answer are arguments.
use agents_can_communicate.Base.{
  ℕ, ◌+◌, Bool, false, not, ◌&&◌, Option, none, some, Text, codes, ◌==◌, if◌then◌else◌, leb, eqb,
  is_none,
}
use agents_can_communicate.Core.Bindings.{Binding}

-- MAX_REFRESH_LEASE_MS
abbrev pub max_refresh_lease_ms : ℕ
max_refresh_lease_ms = 120000

-- The answer of `validateNativeHandshake`; a lease that is no time is none.
pub record Validated : Type 0 where
  pub is_ok : Bool
  pub reason_code : Text
  pub endpoint : Text
  pub lease_until : Option ℕ

-- Whether the adapter can refresh, the clock, the validated handshake unless something throws,
-- whether `refreshDeliveryBinding` returns, and the binding that is read afterwards.
pub record RefreshAnswers : Type 0 where
  pub is_callable : Bool
  pub clock : ℕ
  pub validated : Option Validated
  pub is_stored : Bool
  pub current : Option Binding

-- What is answered, and the lease that the store was asked to write, where it was.
pub record Renewal : Type 0 where
  pub error_code : Option Text
  pub lease_until : Option ℕ

unfoldable pub same_endpoint : Binding → Binding → Bool
same_endpoint b c =
    b.session_id == c.session_id
    && b.generation == c.generation
    && b.adapter_id == c.adapter_id
    && b.client_version == c.client_version
    && b.endpoint == c.endpoint

-- `sameBinding`
unfoldable pub same_binding : Option Binding → Binding → (lease_until : ℕ) → Bool
unfolding same_endpoint
same_binding none expected lease_until = false
same_binding (some b) expected lease_until =
    is_none b.retired_at && same_endpoint b expected && eqb b.lease_until lease_until

unfoldable pub refused : Text → Renewal
refused code = record { error_code = some code; lease_until = none }

unfoldable pub earlier : ℕ → ℕ → ℕ
earlier m n = if leb m n then m else n

-- The lease is asked for, and read back.
unfoldable pub renew : RefreshAnswers → Binding → (requested : ℕ) → Renewal
unfolding earlier same_binding
renew r b requested =
    let lease = earlier requested (r.clock + max_refresh_lease_ms) in
    record {
      error_code =
          if r.is_stored && same_binding r.current b lease
          then none
          else some (codes "recipient_unavailable");
      lease_until = some lease;
    }

unfoldable pub requested_lease : RefreshAnswers → Binding → Option ℕ → Renewal
unfolding renew refused
requested_lease r b none = refused (codes "recipient_unavailable")
requested_lease r b (some lease) =
    if leb lease r.clock then refused (codes "recipient_unavailable") else renew r b lease

unfoldable pub by_handshake : RefreshAnswers → Binding → Option Validated → Renewal
unfolding requested_lease refused
by_handshake r b none = refused (codes "recipient_unavailable")
by_handshake r b (some v) =
    if not v.is_ok
    then refused (
        if v.reason_code == codes "transport_permission_denied"
        then codes "transport_permission_denied"
        else codes "recipient_unavailable")
    else if not (v.endpoint == b.endpoint)
    then refused (codes "recipient_unavailable")
    else requested_lease r b v.lease_until

-- `refreshExpiredBinding`
unfoldable pub refresh_expired : RefreshAnswers → Binding → Renewal
unfolding by_handshake refused
refresh_expired r b =
    if not r.is_callable
    then refused (codes "recipient_unavailable")
    else by_handshake r b r.validated
