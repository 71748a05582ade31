-- ===== src/Protocol/Messages/Records.antt =====
-- The `message` record of packages/protocol/src/schema.mjs: what `validateRecord` asks of it.
use agents_can_communicate.Base.{
  ℕ, Bool, true, false, ◌&&◌, ◌||◌, Option, none, some, Text, leb, eqb, length, every, Result, ok,
  err, Exit, require, ◌>>◌,
}
use agents_can_communicate.Protocol.Fields.{is_portable_id, is_text, is_resource_uri}
use agents_can_communicate.Protocol.Messages.{
  Message, Artifact, Handoff, DecisionChange, assert_message_semantics, assert_decision_change,
}

-- `nullable` and `optional`
holds_of {ℓ} : {A : Type ℓ} → (A → Bool) → Option A → Bool
holds_of p none = true
holds_of p (some a) = p a

-- [a-f0-9]
is_hex : ℕ → Bool
is_hex c = (leb b'a' c && leb c b'f') || (leb b'0' c && leb c b'9')

is_digest : Text → Bool
unfolding is_hex every
is_digest sum = eqb (length sum) 64 && every is_hex sum

line : Text → Bool
unfolding is_text
line value = is_text 500 false value

-- `artifactRef`
unfoldable pub is_artifact : Artifact → Bool
unfolding holds_of is_digest line
is_artifact a = is_resource_uri a.uri && line a.description && holds_of is_digest a.sha256

-- `handoffPayload`
unfoldable pub is_handoff_payload : Handoff → Bool
unfolding line is_artifact every
is_handoff_payload h =
    every line h.completed
    && every line h.remaining
    && every line h.blockers
    && every is_artifact h.verification

accepted : Result DecisionChange → Bool
accepted (ok c) = true
accepted (err e) = false

-- `validateRecord("message", message)`: the fields, and then what they say together.
unfoldable pub valid_message : Message → Result Message
unfolding holds_of line is_artifact is_handoff_payload accepted every
valid_message m = do
  require
      (is_portable_id m.message_id
        && is_portable_id m.thread_id
        && is_portable_id m.client_message_id
        && is_portable_id m.workspace_id
        && is_portable_id m.from_participant_id
        && is_portable_id m.from_session_id
        && every is_portable_id m.to_participant_ids
        && line m.subject
        && is_text 4000 true m.body
        && holds_of is_portable_id m.in_reply_to
        && every is_artifact m.artifacts
        && holds_of is_handoff_payload m.handoff_payload
        && holds_of (λ c. accepted (assert_decision_change is_portable_id c)) m.decision_change)
      Exit.invalid
  assert_message_semantics m
