-- ===== src/Protocol/Messages/Semantics.antt =====
-- `assertMessageSemantics` accepts exactly the messages that are in order.
use agents_can_communicate.Base.{
  ◌≡◌, ◌⊎◌, ◌≢◌, inl, inr, none, arith, eq_iff, is_empty, ok, err, Exit,
}
use agents_can_communicate.Protocol.Messages.{
  Message, MessageKind, IsSemantic, Asks, assert_message_semantics,
}

module _ (m : Message) where
  -- The two ways that the guards can end.
  pub assert_cases :
      (assert_message_semantics m ≡ ok m) ⊎ (assert_message_semantics m ≡ err Exit.invalid)
  unfolding assert_message_semantics
  assert_cases = ground arith

  accepted-Asks :
      assert_message_semantics m ≡ ok m → Asks (is_empty m.to_participant_ids) m.kind m.obligation
  unfolding assert_message_semantics
  accepted-Asks h = ground arith

  accepted-threading_left :
      assert_message_semantics m ≡ ok m → m.in_reply_to ≡ none → m.thread_id ≡ m.message_id
  unfolding assert_message_semantics
  accepted-threading_left h e = ground (arith, eq_iff m.thread_id m.message_id)

  accepted-threading_right :
      assert_message_semantics m ≡ ok m → m.thread_id ≡ m.message_id → m.in_reply_to ≡ none
  unfolding assert_message_semantics
  accepted-threading_right h e = ground (arith, eq_iff m.thread_id m.message_id)

  accepted-answering :
      assert_message_semantics m ≡ ok m → m.kind ≡ MessageKind.answer → m.in_reply_to ≢ none
  unfolding assert_message_semantics
  accepted-answering h e n = ground arith

  accepted-payload_left :
      assert_message_semantics m ≡ ok m → m.kind ≡ MessageKind.handoff → m.handoff_payload ≢ none
  unfolding assert_message_semantics
  accepted-payload_left h e n = ground arith

  accepted-payload_right :
      assert_message_semantics m ≡ ok m → m.handoff_payload ≢ none → m.kind ≡ MessageKind.handoff
  unfolding assert_message_semantics
  accepted-payload_right h e = ground arith

  accepted-changing :
      assert_message_semantics m ≡ ok m → m.decision_change ≢ none → m.kind ≡ MessageKind.decision
  unfolding assert_message_semantics
  accepted-changing h e = ground arith

  accepted-IsSemantic : assert_message_semantics m ≡ ok m → IsSemantic m
  accepted-IsSemantic h = record {
    asks = accepted-Asks h;
    threading = (accepted-threading_left h, accepted-threading_right h);
    answering = accepted-answering h;
    payload = (accepted-payload_left h, accepted-payload_right h);
    changing = accepted-changing h;
  }

  IsSemantic-accepted : IsSemantic m → assert_message_semantics m ≡ ok m
  unfolding assert_message_semantics
  IsSemantic-accepted v = ground (
    arith,
    v.asks,
    v.threading.0,
    v.threading.1,
    v.answering,
    v.payload.0,
    v.payload.1,
    v.changing,
    eq_iff m.thread_id m.message_id,
  )

  -- A message in order is accepted and returned as it is; any other message is refused as DATA.
  pub assert_message_semantics_decides :
      (IsSemantic m × (assert_message_semantics m ≡ ok m))
      ⊎ ((¬ IsSemantic m) × (assert_message_semantics m ≡ err Exit.invalid))
  assert_message_semantics_decides = elim assert_cases [
    | inl e ↦ inl (accepted-IsSemantic e, e)
    | inr e ↦ inr (λ v. cc (e, IsSemantic-accepted v), e)
  ]
