-- ===== src/Core/Conversations/Content.antt =====
-- packages/core/src/message-retry.mjs: when a stored message says what an input says
-- (`isDeepStrictEqual` of node:util, on the fields that `logicalContent` picks).
use agents_can_communicate.Base.{
  ℕ, ◌≡◌, refl, Bool, true, false, ◌&&◌, Option, none, some, List, [], ◌∷◌, arith, Text, ◌==◌,
  eq_refl, eqb,
}
use agents_can_communicate.Protocol.Messages.{
  Message, MessageKind, Obligation, Artifact, ArtifactKind, Handoff, HandoffStatus, DecisionChange,
  ChangeAction,
}
use agents_can_communicate.Core.Conversations.{MessageInput}

abbrev pub kind_code : MessageKind → ℕ
kind_code MessageKind.note = 0
kind_code MessageKind.question = 1
kind_code MessageKind.request = 2
kind_code MessageKind.answer = 3
kind_code MessageKind.decision = 4
kind_code MessageKind.handoff = 5

abbrev obligation_code : Obligation → ℕ
obligation_code Obligation.nothing = 0
obligation_code Obligation.acknowledge = 1
obligation_code Obligation.reply = 2

abbrev artifact_code : ArtifactKind → ℕ
artifact_code ArtifactKind.file = 0
artifact_code ArtifactKind.git = 1
artifact_code ArtifactKind.url = 2
artifact_code ArtifactKind.report = 3
artifact_code ArtifactKind.image = 4
artifact_code ArtifactKind.bytes = 5

abbrev status_code : HandoffStatus → ℕ
status_code HandoffStatus.complete = 0
status_code HandoffStatus.partial = 1
status_code HandoffStatus.blocked = 2

abbrev action_code : ChangeAction → ℕ
action_code ChangeAction.replace = 0
action_code ChangeAction.withdraw = 1

module _ {ℓ} {A : Type ℓ} (same : A → A → Bool) where
  same_list : List A → List A → Bool
  same_list [] [] = true
  same_list [] (y ∷ ys) = false
  same_list (x ∷ xs) [] = false
  same_list (x ∷ xs) (y ∷ ys) = same x y && same_list xs ys

  same_option : Option A → Option A → Bool
  same_option none none = true
  same_option none (some y) = false
  same_option (some x) none = false
  same_option (some x) (some y) = same x y

module _ {ℓ} {A : Type ℓ} (same : A → A → Bool) (same_refl : (a : A) → same a a ≡ true) where
  same_list_refl : (xs : List A) → same_list same xs xs ≡ true
  unfolding same_list
  same_list_refl [] = refl
  same_list_refl (x ∷ xs) = ground (arith, same_refl x, same_list_refl xs)

  same_option_refl : (o : Option A) → same_option same o o ≡ true
  unfolding same_option
  same_option_refl none = refl
  same_option_refl (some x) = same_refl x

same_text : Text → Text → Bool
unfolding ◌==◌
same_text s t = s == t

same_artifact : Artifact → Artifact → Bool
unfolding same_option same_text
same_artifact a b =
    eqb (artifact_code a.kind) (artifact_code b.kind)
    && a.uri == b.uri
    && a.description == b.description
    && same_option same_text a.sha256 b.sha256

same_handoff : Handoff → Handoff → Bool
unfolding same_list same_text same_artifact
same_handoff a b =
    eqb (status_code a.status) (status_code b.status)
    && same_list same_text a.completed b.completed
    && same_list same_text a.remaining b.remaining
    && same_list same_text a.blockers b.blockers
    && same_list same_artifact a.verification b.verification

same_change : DecisionChange → DecisionChange → Bool
unfolding same_list same_text
same_change a b =
    eqb (action_code a.action) (action_code b.action)
    && same_list same_text a.message_ids b.message_ids

-- `isDeepStrictEqual(logicalContent(existing), normalizedContent(input))`
unfoldable pub same_content : Message → MessageInput → Bool
unfolding same_list same_option same_text same_artifact same_handoff same_change
same_content m input =
    same_list same_text m.to_participant_ids input.to_participant_ids
    && eqb (kind_code m.kind) (kind_code input.kind)
    && eqb (obligation_code m.obligation) (obligation_code input.obligation)
    && m.subject == input.subject
    && m.body == input.body
    && same_option same_text m.in_reply_to input.in_reply_to
    && same_list same_artifact m.artifacts input.artifacts
    && same_option same_handoff m.handoff_payload input.handoff_payload
    && same_option same_change m.decision_change input.decision_change

same_text_refl : (s : Text) → same_text s s ≡ true
unfolding same_text
same_text_refl s = eq_refl s

same_artifact_refl : (a : Artifact) → same_artifact a a ≡ true
unfolding same_artifact
same_artifact_refl a = ground (
  arith,
  eq_refl a.uri,
  eq_refl a.description,
  same_option_refl same_text same_text_refl a.sha256,
)

same_handoff_refl : (a : Handoff) → same_handoff a a ≡ true
unfolding same_handoff
same_handoff_refl a = ground (
  arith,
  same_list_refl same_text same_text_refl a.completed,
  same_list_refl same_text same_text_refl a.remaining,
  same_list_refl same_text same_text_refl a.blockers,
  same_list_refl same_artifact same_artifact_refl a.verification,
)

same_change_refl : (a : DecisionChange) → same_change a a ≡ true
unfolding same_change
same_change_refl a = ground (arith, same_list_refl same_text same_text_refl a.message_ids)

-- A message says what the input says that it was made of.
pub same_content_of_input :
    (m : Message) (input : MessageInput)
    → m.to_participant_ids ≡ input.to_participant_ids
    → m.kind ≡ input.kind
    → m.obligation ≡ input.obligation
    → m.subject ≡ input.subject
    → m.body ≡ input.body
    → m.in_reply_to ≡ input.in_reply_to
    → m.artifacts ≡ input.artifacts
    → m.handoff_payload ≡ input.handoff_payload
    → m.decision_change ≡ input.decision_change
    → same_content m input ≡ true
unfolding same_content
same_content_of_input m input to kind asked subject body parent artifacts payload change =
    rw (to, kind, asked, subject, body, parent, artifacts, payload, change)
      (ground (
        arith,
        same_list_refl same_text same_text_refl input.to_participant_ids,
        eq_refl input.subject,
        eq_refl input.body,
        same_option_refl same_text same_text_refl input.in_reply_to,
        same_list_refl same_artifact same_artifact_refl input.artifacts,
        same_option_refl same_handoff same_handoff_refl input.handoff_payload,
        same_option_refl same_change same_change_refl input.decision_change,
      ))
