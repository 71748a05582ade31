-- ===== src/Core/NextTurn/Telling.antt =====
-- No message of the recipient is forgotten, and none is both shown again and reminded of.
use mathlib.Core.List.{Memᴰ}
use mathlib.Core.List.Memᴰ
use agents_can_communicate.Base.Members.{Memᴰ-filter}
use agents_can_communicate.Base.Sorting.{Memᴰ-sort_by}
use agents_can_communicate.Base.{
  ◌≡◌, refl, ap, ◌∙◌, Bool, true, false, not, ◌||◌, List, [], ◌∷◌, arith, Text, ◌==◌, eq_iff,
  includes, filter, is_empty, Bool-cases, inl, inr,
}
use agents_can_communicate.Protocol.States.{ReceiptState}
use agents_can_communicate.Protocol.Messages.{Message}
use agents_can_communicate.Core.Records.{Receipt}
use agents_can_communicate.Core.NextTurn.{
  TurnInput, Delivery, receipt_is, receipt_of, is_eligible, eligible, repeat_messages, repeating,
  is_live_offered, is_reminded, next_turn_delivery, ids_of, asks_something,
}

included :
    (p : Message → Bool) (m : Message) (ms : List Message)
    → Memᴰ m ms
    → p m ≡ true
    → includes m.message_id (ids_of (filter p ms)) ≡ true
unfolding includes filter
included p m [] i h = absurd (Memᴰ.not-nil i)
included p m (x ∷ xs) i h = elim (Memᴰ.cases_cons i) [
  | inl e ↦ rw (← e, h, (eq_iff m.message_id m.message_id).1 refl) refl
  | inr j ↦ ground (arith, included p m xs j h)
]

left_out :
    (p : Message → Bool) (id : Text) (ms : List Message)
    → ((m : Message) → m.message_id ≡ id → p m ≡ false)
    → includes id (ids_of (filter p ms)) ≡ false
unfolding includes filter
left_out p id [] h = refl
left_out p id (x ∷ xs) h = elim (Bool-cases (p x)) [
  | inl e ↦ rw e (elim (Bool-cases (id == x.message_id)) [
    | inl q ↦ absurd (ground (arith, h x, eq_iff id x.message_id))
    | inr q ↦ rw (q, left_out p id xs h) refl
  ])
  | inr e ↦ rw e (left_out p id xs h)
]

module _ (id_before : Text → Text → Bool) (input : TurnInput) (messages : List Message)
    (receipts : List Receipt) where
  abbrev delivery : Delivery
  delivery = next_turn_delivery id_before input messages receipts

  abbrev receipt_in : ReceiptState → Message → Bool
  receipt_in state m = receipt_is state (receipt_of id_before input messages receipts m)

  -- A message is in the list exactly where it is not shown again.
  abbrev IsEither : List Text → Message → Type 0
  IsEither ids m =
      includes m.message_id ids ≡ not (includes m.message_id (ids_of delivery.repeat_messages))

  pub record Told (m : Message) : Type 0 where
    pub queued : receipt_in ReceiptState.queued m ≡ true → Memᴰ m delivery.queued_messages
    pub offered :
        is_empty m.to_participant_ids ≡ false
        → receipt_in ReceiptState.offered m ≡ true
        → IsEither delivery.live_offered_message_ids m
    pub asked :
        asks_something m.obligation ≡ true
        → (receipt_in ReceiptState.offered m || receipt_in ReceiptState.retrieved m) ≡ true
        → IsEither delivery.reminder_message_ids m

  Memᴰ-eligible :
      (m : Message)
      → Memᴰ m messages
      → is_eligible id_before input messages receipts m ≡ true
      → Memᴰ m (eligible id_before input messages receipts)
  unfolding eligible
  Memᴰ-eligible m i h = Memᴰ-sort_by _ m _ (Memᴰ-filter _ m messages i h)

  repeating_same :
      (x m : Message)
      → x.message_id ≡ m.message_id
      → repeating id_before input messages receipts x
        ≡ repeating id_before input messages receipts m
  unfolding repeating
  repeating_same x m same =
      ap (λ id. includes id (ids_of (repeat_messages id_before input messages receipts))) same

  -- A list that leaves out what is shown again, and has the message otherwise.
  either :
      (p : Message → Bool) (m : Message)
      → Memᴰ m (eligible id_before input messages receipts)
      → ((x : Message) → repeating id_before input messages receipts x ≡ true → p x ≡ false)
      → (repeating id_before input messages receipts m ≡ false → p m ≡ true)
      → includes m.message_id (ids_of (filter p (eligible id_before input messages receipts)))
        ≡ not (repeating id_before input messages receipts m)
  either p m i out in_it = elim (Bool-cases (repeating id_before input messages receipts m)) [
    | inl e ↦ rw e (left_out p m.message_id _ (λ x same. out x (repeating_same x m same ∙ e)))
    | inr e ↦ rw e (included p m _ i (in_it e))
  ]

  -- Of a recipient that has a name, a message that is eligible is told: its body where its receipt is
  -- queued; where it is addressed and was offered, either it is shown again or its id is among those
  -- that were offered live, and not both; and where it asks for something and was offered or
  -- retrieved, either it is shown again or its id is among the reminders, and not both.
  pub next_turn_delivery-Told :
      (m : Message)
      → is_empty input.participant_id ≡ false
      → Memᴰ m messages
      → is_eligible id_before input messages receipts m ≡ true
      → Told m
  unfolding next_turn_delivery repeating
  next_turn_delivery-Told m named i h =
      let j = Memᴰ-eligible m i h in
      record {
        queued = λ q. rw named (Memᴰ-filter _ m _ j q);
        offered = λ addressed o. rw named (
            either (is_live_offered id_before input messages receipts) m j
              (λ x e. unfold is_live_offered in ground arith)
              (λ e. unfold is_live_offered in ground arith));
        asked = λ some_thing o. rw named (
            either (is_reminded id_before input messages receipts) m j
              (λ x e. unfold is_reminded in ground arith)
              (λ e. unfold is_reminded in ground arith));
      }
