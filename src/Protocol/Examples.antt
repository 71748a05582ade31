-- ===== src/Protocol/Examples.antt =====
-- The theorems about packages/protocol at concrete inputs, and tests.
use agents_can_communicate.Base.{
  ◌≡◌, ◌⊎◌, refl, true, false, none, [], ◌∷◌, ◌++◌, Text, codes, ◌==◌, every, distinct, ok, err,
  Exit,
}
use agents_can_communicate.Protocol.States.{ReceiptState, position, advance, advance-eq-forward}
use agents_can_communicate.Protocol.Fields.Portable.{IsPortable, is_portable_id-IsPortable}
use agents_can_communicate.Protocol.Fields.{
  is_portable_id, matches_portable, ends_with_dot, windows_device,
}
use agents_can_communicate.Protocol.Messages.{
  Message, MessageKind, Obligation, DecisionChange, ChangeAction, IsSemantic,
  assert_message_semantics, assert_decision_change,
}
use agents_can_communicate.Protocol.Messages.Semantics.{assert_message_semantics_decides}
use agents_can_communicate.Protocol.Resources.{
  slash, normalise_path, take_segments, take_segment, split_slash, join_slash,
}
use agents_can_communicate.Protocol.Resources.Paths.{normalise_path_idem}
use agents_can_communicate.Protocol.Resources.Spellings.{IsPlain, normalise_path_spellings}

advance-eq-forward_example : advance ReceiptState.retrieved ReceiptState.offered ≡ err Exit.conflict
unfolding position
advance-eq-forward_example = advance-eq-forward ReceiptState.retrieved ReceiptState.offered

abbrev plain_id : Text
plain_id = codes "claude_code-fbqX8o"

plain_id_accepted : is_portable_id plain_id ≡ true
unfolding is_portable_id matches_portable ends_with_dot windows_device
plain_id_accepted = refl

device_refused : is_portable_id (codes "Com1.json") ≡ false
unfolding is_portable_id matches_portable ends_with_dot windows_device
device_refused = refl

is_portable_id-IsPortable_example : IsPortable plain_id
is_portable_id-IsPortable_example = is_portable_id-IsPortable plain_id plain_id_accepted

abbrev question : Message
question = record {
  message_id = codes "m1";
  thread_id = codes "m1";
  client_message_id = codes "k1";
  workspace_id = codes "w";
  from_participant_id = codes "ana";
  from_session_id = codes "s1";
  to_participant_ids = codes "ben" ∷ [];
  kind = MessageKind.question;
  obligation = Obligation.reply;
  subject = codes "Which port?";
  body = codes "Which port does the server use?";
  in_reply_to = none;
  artifacts = [];
  handoff_payload = none;
  decision_change = none;
  sent_at = 1000;
}

assert_message_semantics_decides_example :
    (IsSemantic question × (assert_message_semantics question ≡ ok question))
    ⊎ ((¬ IsSemantic question) × (assert_message_semantics question ≡ err Exit.invalid))
assert_message_semantics_decides_example = assert_message_semantics_decides question

question_accepted : assert_message_semantics question ≡ ok question
unfolding assert_message_semantics ◌==◌
question_accepted = refl

question_to_room_refused :
    assert_message_semantics (record question { to_participant_ids = [] }) ≡ err Exit.invalid
unfolding assert_message_semantics ◌==◌
question_to_room_refused = refl

abbrev replacing : DecisionChange
replacing = record { action = ChangeAction.replace; message_ids = codes "m1" ∷ codes "m2" ∷ [] }

replacing_accepted : assert_decision_change is_portable_id replacing ≡ ok replacing
unfolding assert_decision_change is_portable_id matches_portable ends_with_dot windows_device every
    distinct ◌==◌
replacing_accepted = refl

abbrev winding : Text
winding = codes "a/./b//../c"

winding_normal : normalise_path winding ≡ codes "a/c"
unfolding normalise_path take_segments take_segment split_slash join_slash ◌==◌
winding_normal = refl

-- What climbs out of the workspace stays visible.
climbing_kept : normalise_path (codes "a/../../b") ≡ codes "../b"
unfolding normalise_path take_segments take_segment split_slash join_slash ◌==◌
climbing_kept = refl

normalise_path_idem_example : normalise_path (normalise_path winding) ≡ normalise_path winding
normalise_path_idem_example = normalise_path_idem winding

lib-IsPlain : IsPlain (codes "lib")
unfolding ◌==◌
lib-IsPlain = record {
  segment = (refl, (refl, (refl, tt)));
  nonempty = refl;
  no_dot = refl;
  no_dots = refl;
}

normalise_path_spellings_example :
    (normalise_path (codes "src" ++ slash ∷ slash ∷ codes "a.mjs")
      ≡ normalise_path (codes "src/a.mjs"))
    × (normalise_path (codes "src" ++ slash ∷ (codes "." ++ slash ∷ codes "a.mjs"))
        ≡ normalise_path (codes "src/a.mjs"))
    × (normalise_path
          (codes "src" ++ slash ∷ (codes "lib" ++ slash ∷ (codes ".." ++ slash ∷ codes "a.mjs")))
        ≡ normalise_path (codes "src/a.mjs"))
normalise_path_spellings_example =
    normalise_path_spellings (codes "src") (codes "a.mjs") (codes "lib") lib-IsPlain
