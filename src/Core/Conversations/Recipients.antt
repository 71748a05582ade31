-- ===== src/Core/Conversations/Recipients.antt =====
-- Who gets a message: `addressedRecipients` of packages/core/src/conversations.mjs.
use mathlib.Core.List.{Memᴰ}
use mathlib.Core.List.Memᴰ
use agents_can_communicate.Base.{
  ◌≡◌, ◌≢◌, ◌↔◌, refl, ◌∙◌, ap, Bool, true, not, ◌&&◌, List, [], ◌∷◌, map, arith, Text, ◌==◌,
  eq_iff, includes, filter, every, every-includes, Bool-cases, inl, inr, ok,
}
use agents_can_communicate.Base.Members.{Memᴰ-filter, filter-Memᴰ}
use agents_can_communicate.Base.Order.{includes-sort, includes-unique}
use agents_can_communicate.Base.Table.{values}
use agents_can_communicate.Core.Records.{Session, SessionState, Participant, Tx, is_open}
use agents_can_communicate.Core.Conversations.{
  known_participants, open_participants, addressed_recipients,
}

module _ {A : Type 0} (f : A → Text) (p : Text) where
  map-source : (xs : List A) → includes p (map f xs) ≡ true → (x : A) × Memᴰ x xs × (f x ≡ p)
  unfolding includes
  map-source [] h = absurd (cc)
  map-source (y ∷ ys) h = elim (Bool-cases (p == f y)) [
    | inl e ↦ (y, Memᴰ.head refl, ground (arith, eq_iff p (f y)))
    | inr n ↦ let (x, m, same) = map-source ys (ground arith) in (x, Memᴰ.tail m, same)
  ]

  includes-map : (xs : List A) (x : A) → Memᴰ x xs → f x ≡ p → includes p (map f xs) ≡ true
  unfolding includes
  includes-map [] x m e = absurd (Memᴰ.not-nil m)
  includes-map (y ∷ ys) x (Memᴰ.head same) e = let at = ap f same in ground (arith, eq_iff p (f y))
  includes-map (y ∷ ys) x (Memᴰ.tail m) e = let rest = includes-map ys x m e in ground arith

-- Someone else in the room: a participant, not the sender, with an open session.
pub record IsPresent (tx : Tx) (session : Session) (participant_id : Text) : Type 0 where
  pub other : participant_id ≢ session.participant_id
  pub reached :
      (s : Session) × Memᴰ s (values tx.sessions)
      × (s.state ≡ SessionState.opened)
      × (s.participant_id ≡ participant_id)

-- Whom a message to these participants goes to: to themselves, who are all known; a message to
-- nobody goes to everyone else in the room.
pub record IsAddressed (tx : Tx) (session : Session) (to recipients : List Text) : Type 0 where
  pub goes_to_named : to ≢ [] → recipients ≡ to
  pub known :
      to ≢ []
      → (p : Text) → includes p to ≡ true
      → (q : Participant) × Memᴰ q (values tx.participants) × (q.participant_id ≡ p)
  pub room : to ≡ [] → (p : Text) → (includes p recipients ≡ true) ↔ IsPresent tx session p

is_open-opened : (state : SessionState) → is_open state ≡ true → state ≡ SessionState.opened
unfolding is_open
is_open-opened SessionState.opened h = refl
is_open-opened SessionState.closed h = cc

module _ (tx : Tx) (session : Session) (p : Text) where
  -- The test of `addressedRecipients` for the room.
  abbrev is_other : Session → Bool
  is_other s = is_open s.state && true && not (s.participant_id == session.participant_id)

  open_participants-map :
      includes p (open_participants (λ _. true) session.participant_id tx)
      ≡ includes p (map (λ (s : Session). s.participant_id) (filter is_other (values tx.sessions)))
  unfolding open_participants
  open_participants-map = includes-sort p _ ∙ includes-unique p _

  listed-IsPresent :
      includes p (open_participants (λ _. true) session.participant_id tx) ≡ true
      → IsPresent tx session p
  listed-IsPresent h =
      let (s, m, e) =
        map-source (λ (s : Session). s.participant_id) p (filter is_other (values tx.sessions))
          (rw open_participants-map at h) in
      let (stored, test) = filter-Memᴰ is_other s (values tx.sessions) m in
      record {
        other = λ same. ground (arith, eq_iff s.participant_id session.participant_id);
        reached = (s, stored, is_open-opened s.state (ground arith), e);
      }

  IsPresent-listed :
      IsPresent tx session p
      → includes p (open_participants (λ _. true) session.participant_id tx) ≡ true
  unfolding is_open
  IsPresent-listed h =
      let (s, stored, opened, e) = h.reached in
      open_participants-map
      ∙ includes-map (λ (s : Session). s.participant_id) p (filter is_other (values tx.sessions)) s
          (Memᴰ-filter is_other s (values tx.sessions) stored
            (rw opened (ground (arith, h.other, eq_iff s.participant_id session.participant_id))))
          e

known-found :
    (tx : Tx) (p : Text)
    → includes p (known_participants tx) ≡ true
    → (q : Participant) × Memᴰ q (values tx.participants) × (q.participant_id ≡ p)
unfolding known_participants
known-found tx p h = map-source (λ (q : Participant). q.participant_id) p (values tx.participants) h

pub addressed_recipients-IsAddressed :
    (tx : Tx) (session : Session) (to recipients : List Text)
    → addressed_recipients tx to session ≡ ok recipients
    → IsAddressed tx session to recipients
unfolding addressed_recipients
addressed_recipients-IsAddressed tx session [] recipients h = record {
  goes_to_named = λ n. absurd (n refl);
  known = λ n. absurd (n refl);
  room = λ _ p.
      let same : open_participants (λ _. true) session.participant_id tx ≡ recipients = cc in
      (
        λ m. listed-IsPresent tx session p (rw same m),
        λ q.
            let m : includes p (open_participants (λ _. true) session.participant_id tx) ≡ true =
              IsPresent-listed tx session p q in
            rw same at m,
      );
}
addressed_recipients-IsAddressed tx session (x ∷ to) recipients h = record {
  goes_to_named = λ _. ground arith;
  known = λ _ p m.
      let test : every (λ (q : Text). includes q (known_participants tx)) (x ∷ to) ≡ true =
        ground arith in
      known-found tx p
        (every-includes (λ (q : Text). includes q (known_participants tx)) p (x ∷ to) test m);
  room = λ e. absurd (cc);
}
