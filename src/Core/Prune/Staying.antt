-- ===== src/Core/Prune/Staying.antt =====
-- What a record that stays names does not go, however far the pass came.
use agents_can_communicate.Base.{
  ℕ, ◌<◌, ◌≡◌, refl, ◌∙◌, Bool, true, false, not, Option, none, some, List, [], ◌∷◌, ◌++◌, map,
  arith, Text, eq_iff, if◌then◌else◌, includes, filter, Bool-cases, inl, inr,
}
use agents_can_communicate.Base.Table.{Table, lookup, values}
use agents_can_communicate.Protocol.Messages.{Message}
use agents_can_communicate.Core.Records.{Session, Claim, Receipt}
use agents_can_communicate.Core.Snapshot.{Snapshot, Intent}
use agents_can_communicate.Core.Claims.{is_live}
use agents_can_communicate.Core.Decisions.Walks.{includes-append}
use agents_can_communicate.Core.Prune.Order.{
  rank, has, has-append, ids_of, has-in_order, in_order-Sorted, done_before,
}
use agents_can_communicate.Core.Prune.Safety.{picked, passed, picked-value}
use agents_can_communicate.Core.Prune.{
  Kind, Entry, Wants, Below, Named, pick, ids, holding, surviving, named_in_messages,
  eligible_participants, eligible_sessions, doomed_sessions, owning, doomed_messages, when, named,
  in_order,
}

pub was_there {ℓ} :
    {A : Type ℓ} (b : Bool) (before after : Option A) (a : A)
    → after ≡ (if b then none else before)
    → after ≡ some a
    → (b ≡ false) × (before ≡ some a)
was_there true before after a e h = absurd (cc)
was_there false before after a e h = (refl, cc)

pub still_there {ℓ} :
    {A : Type ℓ} (b : Bool) (before after : Option A) (a : A)
    → after ≡ (if b then none else before)
    → b ≡ false
    → before ≡ some a
    → after ≡ some a
still_there true before after a e f h = absurd (cc)
still_there false before after a e f h = e ∙ h

live-holding :
    (now : ℕ) (t : Table Claim) (k : Text) (c : Claim)
    → lookup k t ≡ some c
    → is_live c now ≡ true
    → includes c.owner_session_id
        (map (λ (d : Claim). d.owner_session_id) (filter (λ (d : Claim). is_live d now) (values t)))
      ≡ true
unfolding lookup values filter includes
live-holding now [] k c h q = cc
live-holding now ((j, d) ∷ t) k c h q =
    ground (arith, live-holding now t k c, eq_iff c.owner_session_id c.owner_session_id)

named-includes :
    (p : Text → Message → Bool) (t : Table Message) (k : Text) (m : Message) (id : Text)
    → lookup k t ≡ some m
    → p k m ≡ true
    → includes id (m.from_participant_id ∷ m.to_participant_ids) ≡ true
    → includes id (named_in_messages (values (pick p t))) ≡ true
unfolding lookup pick values named_in_messages
named-includes p [] k m id h q i = cc
named-includes p ((j, d) ∷ t) k m id h q i =
    let split =
      includes-append id (d.from_participant_id ∷ d.to_participant_ids)
        (named_in_messages (values (pick p t))) in
    elim (Bool-cases (p j d)) [
      | inl e ↦ rw e (ground (arith, named-includes p t k m id, split, eq_iff j k))
      | inr e ↦ rw e (ground (arith, named-includes p t k m id, eq_iff j k))
    ]

module _ (pid_is_alive : ℕ → Bool) (wants : Wants) (s : Snapshot) (below : Option Below) (now : ℕ)
    (done rest : List Entry)
    (cut : done ++ rest ≡ in_order (named pid_is_alive wants s below now)) where
  abbrev n : Named
  n = named pid_is_alive wants s below now

  planned : (kind : Kind) (id : Text) → has kind id (done ++ rest) ≡ includes id (ids_of n kind)
  planned kind id = rw cut (has-in_order n kind id)

  taken : (kind : Kind) (id : Text) → has kind id done ≡ true → includes id (ids_of n kind) ≡ true
  taken kind id h = ground (arith, planned kind id, has-append kind id done rest)

  -- What is named and goes earlier than something that is gone is gone.
  early :
      (k1 k2 : Kind) (i j : Text)
      → has k1 i done ≡ true
      → includes j (ids_of n k2) ≡ true
      → rank k2 < rank k1
      → has k2 j done ≡ true
  early k1 k2 i j h m lt =
      done_before k1 k2 i j done rest (rw cut (in_order-Sorted n)) h (planned k2 j ∙ m) lt

  -- A session that goes is eligible.
  doomed-eligible :
      (id : Text)
      → includes id (ids (doomed_sessions pid_is_alive wants s now)) ≡ true
      → includes id (ids (eligible_sessions pid_is_alive s now)) ≡ true
  unfolding doomed_sessions
  doomed-eligible id h = elim (Bool-cases wants.sessions) [
    | inl e ↦ rw e at h
    | inr e ↦ absurd (unfold when ids includes in cc (rw e at h))
  ]

  doomed-owning :
      (id : Text)
      → includes id (ids (doomed_sessions pid_is_alive wants s now)) ≡ true
      → includes id (owning pid_is_alive wants s now) ≡ true
  unfolding owning
  doomed-owning id h = ground (arith, doomed-eligible id)

  eligible-free :
      (id : Text)
      → includes id (ids (eligible_sessions pid_is_alive s now)) ≡ true
      → includes id (holding s now) ≡ false
  unfolding eligible_sessions
  eligible-free id h = let (r, q) = passed _ s.sessions id h in ground arith

  abbrev leaving : List Text
  leaving = ids (doomed_sessions pid_is_alive wants s now)

  abbrev is_kept : Text → Message → Bool
  is_kept _ m = not (includes m.message_id (ids (doomed_messages s below)))

  -- No session and no message that stays names this participant.
  abbrev IsFree : Text → Type 0
  IsFree id =
      (includes id (surviving s.sessions leaving) ≡ false)
      × (includes id (named_in_messages (values (pick is_kept s.messages))) ≡ false)

  when-IsFree :
      (b : Bool) (id : Text)
      → includes id
          (ids (when b (eligible_participants s leaving (values (pick is_kept s.messages)))))
        ≡ true
      → IsFree id
  unfolding when eligible_participants
  when-IsFree true id h = let (_, q) = passed _ s.participants id h in (ground arith, ground arith)
  when-IsFree false id h = absurd (unfold ids includes in cc h)

  participant-IsFree : (id : Text) → has Kind.participant id done ≡ true → IsFree id
  participant-IsFree id e =
      when-IsFree wants.participants id (unfold named ids_of in taken Kind.participant id e)

  module _ (k : Text) where
    pub message_stays :
        (r : Receipt)
        → lookup k s.receipts ≡ some r
        → has Kind.receipt k done ≡ false
        → has Kind.message r.message_id done ≡ false
    unfolding rank
    message_stays r found kept = elim (Bool-cases (has Kind.message r.message_id done)) [
      | inr e ↦ e
      | inl e ↦
          let doomed = taken Kind.message r.message_id e in
          let m : includes k (ids_of n Kind.receipt) ≡ true =
            unfold named ids_of in picked _ s.receipts k r found (unfold named ids_of in doomed) in
          cc (early Kind.message Kind.receipt r.message_id k e m (omega arith))
    ]

    pub intent_session_stays :
        (i : Intent)
        → lookup k s.intents ≡ some i
        → has Kind.intent k done ≡ false
        → has Kind.session i.session_id done ≡ false
    unfolding rank
    intent_session_stays i found kept = elim (Bool-cases (has Kind.session i.session_id done)) [
      | inr e ↦ e
      | inl e ↦
          let doomed = taken Kind.session i.session_id e in
          let m : includes k (ids_of n Kind.intent) ≡ true =
            unfold named ids_of in
            picked _ s.intents k i found
              (doomed-owning i.session_id (unfold named ids_of in doomed)) in
          cc (early Kind.session Kind.intent i.session_id k e m (omega arith))
    ]

    pub claim_session_stays :
        (c : Claim)
        → lookup k s.claims ≡ some c
        → is_live c now ≡ true
        → has Kind.session c.owner_session_id done ≡ false
    claim_session_stays c found live =
        elim (Bool-cases (has Kind.session c.owner_session_id done)) [
          | inr e ↦ e
          | inl e ↦
              let doomed = taken Kind.session c.owner_session_id e in
              let free : includes c.owner_session_id (holding s now) ≡ false =
                eligible-free c.owner_session_id
                  (doomed-eligible c.owner_session_id (unfold named ids_of in doomed)) in
              let held : includes c.owner_session_id (holding s now) ≡ true =
                unfold holding in live-holding now s.claims k c found live in
              cc
        ]

    pub participant_of_session_stays :
        (r : Session)
        → lookup k s.sessions ≡ some r
        → has Kind.session k done ≡ false
        → has Kind.participant r.participant_id done ≡ false
    unfolding rank
    participant_of_session_stays r found kept =
        elim (Bool-cases (has Kind.participant r.participant_id done)) [
          | inr e ↦ e
          | inl e ↦
              let (free, _) = participant-IsFree r.participant_id e in
              elim (Bool-cases (includes k leaving)) [
                | inl d ↦
                    let m : includes k (ids_of n Kind.session) ≡ true = unfold named ids_of in d in
                    cc (early Kind.participant Kind.session r.participant_id k e m (omega arith))
                | inr d ↦
                    let held : includes r.participant_id (surviving s.sessions leaving) ≡ true =
                      unfold surviving in
                      picked-value (λ (x : Session). x.participant_id) _ s.sessions k r found
                        (rw d refl) in
                    cc
              ]
        ]

    pub participant_of_message_stays :
        (m : Message) (id : Text)
        → lookup k s.messages ≡ some m
        → m.message_id ≡ k
        → has Kind.message k done ≡ false
        → includes id (m.from_participant_id ∷ m.to_participant_ids) ≡ true
        → has Kind.participant id done ≡ false
    unfolding rank
    participant_of_message_stays m id found same kept inside =
        elim (Bool-cases (has Kind.participant id done)) [
          | inr e ↦ e
          | inl e ↦
              let (_, free) = participant-IsFree id e in
              elim (Bool-cases (includes k (ids (doomed_messages s below)))) [
                | inl d ↦
                    let x : includes k (ids_of n Kind.message) ≡ true = unfold named ids_of in d in
                    cc (early Kind.participant Kind.message id k e x (omega arith))
                | inr d ↦
                    let held =
                      named-includes is_kept s.messages k m id found (rw (same, d) refl) inside in
                    cc
              ]
        ]
