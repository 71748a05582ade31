-- ===== src/Core/Intents.antt =====
-- packages/core/src/intents.mjs: what a session says that it is doing, in a durable workspace.
pub mod Clearing
mod Examples
use agents_can_communicate.Base.{
  ℕ, Bool, true, false, not, ◌&&◌, ◌||◌, Option, none, some, List, [], ◌∷◌, Text, ◌==◌,
  if◌then◌else◌, every, Result, ok, err, Exit, require,
}
use agents_can_communicate.Base.Table.{lookup, insert}
use agents_can_communicate.Protocol.Fields.{is_portable_id, is_text, is_resource_uri}
use agents_can_communicate.Core.Records.{
  Session, Intent, IntentMode, IntentState, Happening, Tx, is_open,
}
use agents_can_communicate.Core.Sessions.{or_keep}
use agents_can_communicate.Core.Transaction.{M, pure, lift, gets, modify, ◌>>=◌, ◌>>◌, append}

-- `isCurrentIntent` of packages/core/src/intents.mjs
unfoldable pub is_current_intent : Intent → Bool
is_current_intent intent = elim intent.state [ IntentState.done ↦ false | _ ↦ true ]

-- `requireOwner`: the generation is compared before the state.
unfoldable pub require_owner : Option Session → (generation : Text) → Result Session
unfolding is_open
require_owner none generation = err Exit.conflict
require_owner (some s) generation =
    if not (s.generation == generation)
    then err Exit.conflict
    else if is_open s.state
    then ok s
    else err Exit.conflict

pub record IntentInput : Type 0 where
  pub session_id : Text
  pub generation : Text
  pub summary : Text
  pub mode : IntentMode
  pub resource_hints : List Text
  pub state : Option IntentState

-- `validateRecord("intent", …)`
unfoldable pub is_valid_intent : Intent → Bool
unfolding every
is_valid_intent i =
    is_portable_id i.session_id
    && is_portable_id i.workspace_id
    && is_text 280 false i.summary
    && every is_resource_uri i.resource_hints

unfoldable pub intent_record : IntentInput → (workspace_id : Text) → (now : ℕ) → Intent
unfolding or_keep
intent_record input workspace_id now = record {
  session_id = input.session_id;
  workspace_id = workspace_id;
  summary = input.summary;
  mode = input.mode;
  resource_hints = input.resource_hints;
  state = or_keep input.state IntentState.active;
  updated_at = now;
}

-- An intent that is done.
unfoldable pub done : (now : ℕ) → Intent → Intent
done now i = record i { state = IntentState.done; updated_at = now }

-- The ids of events are a parameter, `ids.next`; `located` is the session that was found before.
module _ (fresh : Text → ℕ → Text) where
  -- `setIntent`, once the workspace is durable.
  unfoldable pub set_intent : (located : Option Session) → IntentInput → (now : ℕ) → M Intent
  unfolding require_owner intent_record is_valid_intent lookup insert
  set_intent located input now = do
    found ← lift (require_owner located input.generation)
    let intent = intent_record input found.workspace_id now
    lift (require (is_valid_intent intent) Exit.invalid)
    current ← gets (λ tx. lookup input.session_id tx.sessions)
    owner ← lift (require_owner current input.generation)
    modify (λ tx. record tx { intents = insert input.session_id intent tx.intents })
    append fresh found.workspace_id input.session_id now
        (Happening.intent_published intent.mode intent.state)
    pure intent

  -- What `clearIntent` does with the intent that is there.
  unfoldable pub clear_found :
      (workspace_id session_id : Text) → (now : ℕ) → Option Intent → M (Unit {0})
  unfolding done insert
  clear_found workspace_id session_id now none = pure tt
  clear_found workspace_id session_id now (some intent) =
      modify (λ tx. record tx { intents = insert session_id (done now intent) tx.intents })
      >> append fresh workspace_id session_id now Happening.intent_cleared

  -- `clearIntent`, once the workspace is durable.
  unfoldable pub clear_intent :
      (located : Option Session) → (session_id generation : Text) → (now : ℕ) → M (Unit {0})
  unfolding require_owner clear_found lookup
  clear_intent located session_id generation now = do
    found ← lift (require_owner located generation)
    current ← gets (λ tx. lookup session_id tx.sessions)
    owner ← lift (require_owner current generation)
    intent ← gets (λ tx. lookup session_id tx.intents)
    clear_found found.workspace_id session_id now intent
