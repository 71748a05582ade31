-- ===== src/Core/Bindings/Stale.antt =====
-- A session that was replaced cannot touch the endpoint of its successor, and what was retired
-- stays retired.
use agents_can_communicate.Base.{ℕ, ◌≡◌, true, false, Option, some, arith, Text, ◌==◌, is_some}
use agents_can_communicate.Base.Table.{Table, lookup}
use agents_can_communicate.Core.Records.{Session}
use agents_can_communicate.Core.Bindings.{Binding, publish, clear, refresh, is_current}

-- One call, whatever the sessions are that it locates: of which generation, and what it leaves.
pub data Call (session_id : Text) (t t' : Table Binding) : Text → Type 0 where
  published :
      (first under_lock last : Option Session) (input : Binding)
      → input.session_id ≡ session_id
      → (publish first under_lock last input t).0 ≡ t'
      → is_current under_lock input.generation ≡ false
      → Call session_id t t' input.generation
  cleared :
      (seen : Option Binding) (generation : Text) (endpoint : Option Text) (now : ℕ)
      → (clear seen session_id generation endpoint now t).0 ≡ t'
      → Call session_id t t' generation
  refreshed :
      (located : Option Session) (generation : Text) (lease_until : ℕ)
      → (refresh located session_id generation lease_until t).0 ≡ t'
      → Call session_id t t' generation

-- A call of a generation that is not that of the stored binding, and that is not the current one
-- when it holds the lock, changes nothing.
pub stale-Call_changes_nothing :
    (session_id : Text) (t t' : Table Binding) (generation : Text) (b : Binding)
    → lookup session_id t ≡ some b
    → b.generation == generation ≡ false
    → Call session_id t t' generation
    → t' ≡ t
unfolding publish clear refresh
stale-Call_changes_nothing session_id t t' generation b found other
      (published first under_lock last input same h stale) =
    ground arith
stale-Call_changes_nothing session_id t t' generation b found other
      (cleared seen _ endpoint now h) =
    ground arith
stale-Call_changes_nothing session_id t t' generation b found other
      (refreshed located _ lease_until h) =
    ground arith

-- A binding that is retired is left as it is by every clearing and every refresh, so that no lease
-- brings it back.
pub retired_stays :
    (session_id : Text) (t : Table Binding) (b : Binding) (seen : Option Binding)
    (located : Option Session) (generation : Text) (endpoint : Option Text) (now lease_until : ℕ)
    → lookup session_id t ≡ some b
    → is_some b.retired_at ≡ true
    → ((clear seen session_id generation endpoint now t).0 ≡ t)
      × ((refresh located session_id generation lease_until t).0 ≡ t)
unfolding clear refresh
retired_stays session_id t b seen located generation endpoint now lease_until found gone =
    (ground arith, ground arith)
