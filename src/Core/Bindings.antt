-- ===== src/Core/Bindings.antt =====
-- packages/core/src/delivery-bindings.mjs: where a live session can be reached. A binding stands in
-- the ephemeral area under its session id. What `locateSession` answers is an argument, one for
-- each time that it is asked, since other writers may come between.
pub mod Stale
pub mod Listed
mod Examples
use agents_can_communicate.Base.{
  ℕ, Bool, true, false, not, ◌&&◌, ◌||◌, Option, none, some, List, [], ◌∷◌, Text, ◌==◌,
  if◌then◌else◌, includes, distinct, every, filter, map, ltb, is_some, is_none, eqb, Result, ok,
  err, Exit, require, ◌>>=◌, ◌>>◌,
}
use agents_can_communicate.Base.Table.{Table, lookup, insert, values}
use agents_can_communicate.Protocol.Fields.{is_portable_id, is_text}
use agents_can_communicate.Core.Records.{Session, is_open}

-- DELIVERY_MODES
pub data Mode : Type 0 where
  next_turn live_push idle_wake busy_queue reply_route : Mode

pub data Policy : Type 0 where
  off actionable all : Policy

-- The `deliveryBinding` record of packages/protocol/src/schema.mjs.
pub record Binding : Type 0 where
  pub session_id : Text
  pub generation : Text
  pub adapter_id : Text
  pub client_version : Text
  pub available_modes : List Mode
  pub live_policy : Policy
  pub endpoint : Text
  pub lease_until : ℕ
  pub retired_at : Option ℕ

mode_code : Mode → ℕ
mode_code Mode.next_turn = 0
mode_code Mode.live_push = 1
mode_code Mode.idle_wake = 2
mode_code Mode.busy_queue = 3
mode_code Mode.reply_route = 4

unfoldable pub has_mode : Mode → List Mode → Bool
unfolding mode_code
has_mode mode [] = false
has_mode mode (m ∷ ms) = eqb (mode_code mode) (mode_code m) || has_mode mode ms

different_modes : List Mode → Bool
unfolding has_mode
different_modes [] = true
different_modes (m ∷ ms) = not (has_mode m ms) && different_modes ms

-- `validateRecord("deliveryBinding", binding)`
unfoldable pub is_valid_binding : Binding → Bool
unfolding different_modes
is_valid_binding b =
    is_portable_id b.session_id
    && is_portable_id b.generation
    && is_portable_id b.adapter_id
    && is_text 500 false b.client_version
    && different_modes b.available_modes
    && is_text 4000 true b.endpoint

-- `located?.record.state === "open" && located.record.generation === generation`
unfoldable pub is_current : Option Session → (generation : Text) → Bool
unfolding is_open
is_current none generation = false
is_current (some s) generation = is_open s.state && s.generation == generation

-- A publication writes the binding unretired.
unfoldable pub unretired : Binding → Binding
unretired b = record b { retired_at = none }

-- `publishDeliveryBinding`: the session is located before, under the writer lock, and after. An
-- error after the write leaves the write.
unfoldable pub publish :
    (first under_lock last : Option Session) (input : Binding) (t : Table Binding)
    → Table Binding × Result Binding
unfolding is_current unretired insert
publish first under_lock last input t =
    if not (is_current first input.generation)
    then (t, err Exit.conflict)
    else if not (is_valid_binding (unretired input))
    then (t, err Exit.invalid)
    else if not (is_current under_lock input.generation)
    then (t, err Exit.conflict)
    else (
      insert input.session_id (unretired input) t,
      if is_current last input.generation then ok (unretired input) else err Exit.conflict,
    )

-- The endpoint that a caller scoped the retirement to, if any.
unfoldable pub other_endpoint : Option Text → Binding → Bool
other_endpoint none b = false
other_endpoint (some endpoint) b = not (b.endpoint == endpoint)

retire : (generation : Text) (endpoint : Option Text) (now : ℕ) → Binding → Result (Option Binding)
unfolding other_endpoint
retire generation endpoint now b =
    if not (b.generation == generation)
    then err Exit.conflict
    else if other_endpoint endpoint b
    then ok none
    else if is_some b.retired_at
    then ok none
    else ok (some (record b { lease_until = now; retired_at = some now }))

-- `store.ephemeral.update`: a record that is returned is written, nothing else is.
unfoldable pub updated :
    (session_id : Text)
    → Result (Option Binding)
    → Table Binding
    → Table Binding × Result (Unit {0})
unfolding insert
updated session_id (err e) t = (t, err e)
updated session_id (ok none) t = (t, ok tt)
updated session_id (ok (some b)) t = (insert session_id b t, ok tt)

unchanged : Option Binding → (Binding → Result (Option Binding)) → Result (Option Binding)
unchanged none f = ok none
unchanged (some b) f = f b

-- What is absent, or retired for this generation, is left as it is before the lock is taken.
settled : Option Binding → (generation : Text) → Bool
settled none generation = true
settled (some b) generation = b.generation == generation && is_some b.retired_at

-- `clearDeliveryBinding`: `seen` is what was read before the lock was taken.
unfoldable pub clear :
    (seen : Option Binding) (session_id generation : Text) (endpoint : Option Text) (now : ℕ)
    (t : Table Binding)
    → Table Binding × Result (Unit {0})
unfolding retire updated unchanged settled lookup
clear seen session_id generation endpoint now t =
    if settled seen generation
    then (t, ok tt)
    else updated session_id (unchanged (lookup session_id t) (retire generation endpoint now)) t

extend : (generation : Text) (lease_until : ℕ) → Binding → Result (Option Binding)
extend generation lease_until b =
    if not (b.generation == generation)
    then err Exit.conflict
    else if is_some b.retired_at
    then ok none
    else if is_valid_binding b
    then ok (some (record b { lease_until = lease_until }))
    else err Exit.invalid

-- `refreshDeliveryBinding`
unfoldable pub refresh :
    (located : Option Session) (session_id generation : Text) (lease_until : ℕ) (t : Table Binding)
    → Table Binding × Result (Unit {0})
unfolding extend updated unchanged is_current lookup
refresh located session_id generation lease_until t =
    if not (is_current located generation)
    then (t, err Exit.conflict)
    else updated session_id (unchanged (lookup session_id t) (extend generation lease_until)) t

unfoldable pub participant_is : Option Session → Text → Bool
participant_is none participant_id = false
participant_is (some s) participant_id = s.participant_id == participant_id

-- `localeCompare` of two session ids, `before` where it is negative, is a port of the language.
module _ (before : Text → Text → Bool) where
  insert_binding : Binding → List Binding → List Binding
  insert_binding b [] = b ∷ []
  insert_binding b (c ∷ cs) =
      let rest = insert_binding b cs in
      if before c.session_id b.session_id then c ∷ rest else b ∷ c ∷ cs

  -- `current.sort((left, right) => …)`
  unfoldable pub in_session_order : List Binding → List Binding
  unfolding insert_binding
  in_session_order [] = []
  in_session_order (b ∷ bs) = insert_binding b (in_session_order bs)

  -- `currentBindings`: those of open sessions in their generation, that are not retired.
  unfoldable pub current_bindings : (locate : Text → Option Session) → Table Binding → List Binding
  unfolding is_current in_session_order filter values
  current_bindings locate t = in_session_order (
      filter
        (λ (b : Binding). is_current (locate b.session_id) b.generation && is_none b.retired_at)
        (values t))

  -- `listDeliveryBindings`
  unfoldable pub list_bindings :
      (locate : Text → Option Session) (participant_id : Text) (now : ℕ) (include_expired : Bool)
      → Table Binding
      → List Binding
  unfolding current_bindings participant_is filter
  list_bindings locate participant_id now include_expired t =
      filter
        (λ (b : Binding).
          participant_is (locate b.session_id) participant_id
          && (include_expired || ltb now b.lease_until))
        (current_bindings locate t)
