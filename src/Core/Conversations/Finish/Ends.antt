-- ===== src/Core/Conversations/Finish/Ends.antt =====
-- What a session leaves behind when it finishes.
use agents_can_communicate.Base.{
  ℕ, ◌≡◌, ◌≢◌, refl, ◌∙◌, Bool, true, false, Option, none, some, List, [], ◌∷◌, arith, Text, ◌==◌,
  eq_iff, eq_refl, map, includes, filter, ok,
}
use agents_can_communicate.Base.Table.{
  Table, lookup, insert, remove, values, lookup-insert, lookup-remove,
}
use agents_can_communicate.Protocol.Messages.{Message}
use agents_can_communicate.Core.Records.{Session, SessionState, Claim, Happening, Tx}
use agents_can_communicate.Core.Transaction.{for_each, append, next_id}
use agents_can_communicate.Core.Transaction.Posts.{
  Post, Post-bind, Post-pure, Post-weaken, Post-bind-lift, Post-bind-gets, Post-modify,
  Post-bind-modify, Post-for_each, Post-for_each_cons, Post-for_each_nil,
}
use agents_can_communicate.Core.Claims.Removal.{LessIds, ids_of}
use agents_can_communicate.Core.FinishRetry.{project_released_claim}
use agents_can_communicate.Core.Conversations.{MessageInput}
use agents_can_communicate.Core.Conversations.Recording.{
  queue_receipt, put_message, record_unless, record_message,
}
use agents_can_communicate.Core.Conversations.Retries.{each_unit}
use agents_can_communicate.Core.Conversations.Finish.{
  FinishInput, Finished, finish_message, claims_of, closed_session, give_back, close_session,
  finish_unless, finish_session, finish_in_transaction, after_transaction,
}

-- A claim that passes a test is among those that pass it.
listed :
    (p : Claim → Bool) (t : Table Claim) (k : Text) (c : Claim)
    → lookup k t ≡ some c
    → p c ≡ true
    → includes c.claim_id (ids_of (filter p (values t))) ≡ true
unfolding lookup values filter includes
listed p [] k c h q = cc
listed p ((j, d) ∷ t) k c h q = ground (arith, listed p t k c, eq_refl c.claim_id)

-- Every claim is stored under its own id.
abbrev pub IsKeyed : Table Claim → Type 0
IsKeyed t = (k : Text) (c : Claim) → lookup k t ≡ some c → c.claim_id ≡ k

-- Claims and sessions stay as they are.
abbrev Same : Tx → Tx → Type 0
Same tx s = (s.claims ≡ tx.claims) × (s.sessions ≡ tx.sessions)

-- What is stored of the session is closed, at this time.
abbrev pub IsClosed : Session → (now : ℕ) → Table Session → Session → Type 0
IsClosed session now sessions closed =
    (lookup session.session_id sessions ≡ some closed)
    × (closed.state ≡ SessionState.closed)
    × (closed.heartbeat_at ≡ now)

module _ (receipt_id : Text → Text → Text) (fresh : Text → ℕ → Text) where
  append-Same :
      (base : Tx) (workspace actor : Text) (now : ℕ) (h : Happening) (tx : Tx)
      → Same base tx
      → Post (append fresh workspace actor now h) tx (λ _ s. Same base s)
  unfolding append
  append-Same base workspace actor now h tx i = record {
    holds = λ u s e. (ground arith, ground arith);
  }

  next_id-Same : (kind : Text) (tx : Tx) → Post (next_id fresh kind) tx (λ _ s. Same tx s)
  unfolding next_id
  next_id-Same kind tx = record { holds = λ u s e. (ground arith, ground arith) }

  put_message-Same :
      (base : Tx) (id : Text) (m : Message) (tx : Tx)
      → Same base tx
      → Post (put_message id m) tx (λ _ s. Same base s)
  unfolding put_message
  put_message-Same base id m tx i =
      Post-bind-gets _ _ tx (Post-bind-lift _ _ tx λ _ _. Post-modify _ tx i)

  queue_receipt-Same :
      (base : Tx) (m : Message) (now : ℕ) (p : Text) (tx : Tx)
      → Same base tx
      → Post (queue_receipt receipt_id fresh m now p) tx (λ _ s. Same base s)
  unfolding queue_receipt
  queue_receipt-Same base m now p tx i =
      Post-bind-lift _ _ tx
        λ _ _. Post-bind-gets _ _ tx (Post-bind-lift _ _ tx λ _ _. Post-modify _ tx i)

  record_unless-Same :
      (session : Session) (input : MessageInput) (now : ℕ) (id : Text) (existing : Option Message)
      (base tx : Tx)
      → Same base tx
      → Post (record_unless receipt_id fresh session input now id existing) tx (λ _ s. Same base s)
  unfolding record_unless
  record_unless-Same session input now id (some m) base tx i = Post-pure _ tx i
  record_unless-Same session input now id none base tx i = Post-bind-gets _ _ tx (
      Post-bind-lift _ _ tx λ thread _. Post-bind-lift _ _ tx λ m _. Post-bind-gets _ _ tx (
        Post-bind-lift _ _ tx λ recipients _.
          Post-bind _ _ tx (put_message-Same base id m tx i) λ _ s j.
            Post-bind _ _ s
              (Post-for_each (λ _. Unit {0}) (Same base) _
                (λ p t _ k. queue_receipt-Same base m now p t k) recipients s (each_unit recipients)
                j)
              λ _ t k. Post-bind _ _ t (append-Same base _ _ now _ t k) λ _ u l. Post-pure _ u l))

  record_message-Same :
      (session : Session) (raw : MessageInput) (now : ℕ) (id : Text) (base tx : Tx)
      → Same base tx
      → Post (record_message receipt_id fresh session raw now id) tx (λ _ s. Same base s)
  unfolding record_message
  record_message-Same session raw now id base tx i = Post-bind-gets _ _ tx (
      Post-bind-lift _ _ tx λ _ _. Post-bind-gets _ _ tx (
        Post-bind-lift _ _ tx λ to _. Post-bind-gets _ _ tx (
          Post-bind-lift _ _ tx λ input _. Post-bind-gets _ _ tx (
            Post-bind-lift _ _ tx
              λ existing _. record_unless-Same session input now id existing base tx i))))

  give_back-claims :
      (session : Session) (now : ℕ) (c : Claim) (tx : Tx)
      → Post
          (give_back receipt_id fresh session now c)
          tx
          (λ _ s. s.claims ≡ remove c.claim_id tx.claims)
  unfolding give_back
  give_back-claims session now c tx = Post-bind-modify _ _ tx (
      Post-weaken _ _
        (append-Same (record tx { claims = remove c.claim_id tx.claims }) _ _ now _ _ (refl, refl))
        λ _ t e. e.0)

  give_all :
      (session : Session) (now : ℕ) (cs : List Claim) (tx : Tx)
      → Post
          (for_each (give_back receipt_id fresh session now) cs)
          tx
          (λ _ s. LessIds (ids_of cs) tx.claims s.claims)
  unfolding includes
  give_all session now [] tx = Post-for_each_nil _ tx (λ k. refl)
  give_all session now (c ∷ cs) tx =
      Post-for_each_cons _ c cs tx (give_back-claims session now c tx) λ s e.
        Post-weaken _ s (give_all session now cs s) λ _ t less k.
          less k
          ∙ rw e (
              ground (
                arith,
                lookup-remove c.claim_id k tx.claims,
                eq_iff k c.claim_id,
                eq_iff c.claim_id k,
              ))

  close_session-IsClosed :
      (session current : Session) (now : ℕ) (m : Message) (released : List Claim) (tx : Tx)
      → Post
          (close_session receipt_id fresh session current now m released)
          tx
          (λ closed s. (s.claims ≡ tx.claims) × IsClosed session now s.sessions closed)
  unfolding close_session closed_session
  close_session-IsClosed session current now m released tx = Post-bind-modify _ _ tx (
      Post-bind _ _ _
        (append-Same
          (record tx {
            sessions = insert session.session_id (closed_session current now) tx.sessions;
          })
          _ _ now _ _ (refl, refl))
        λ _ s (e, f). Post-pure _ s (
          e,
          (
            rw f (
                lookup-insert session.session_id session.session_id (closed_session current now)
                  tx.sessions
                ∙ rw (eq_refl session.session_id) refl),
            refl,
            refl,
          ),
        ))

  -- What a finish comes to, where it is no retry.
  abbrev Ended : Session → (now : ℕ) → Tx → Finished → Tx → Type 0
  Ended session now tx done s =
      done.retry ≡ false
      → (done.released ≡ map project_released_claim (claims_of session.session_id tx))
        × LessIds (ids_of (claims_of session.session_id tx)) tx.claims s.claims
        × IsClosed session now s.sessions done.session

  finish_unless-Ended :
      (session current : Session) (input : FinishInput) (now : ℕ) (existing : Option Message)
      (tx : Tx)
      → Post
          (finish_unless receipt_id fresh session current input now existing)
          tx
          (Ended session now tx)
  unfolding finish_unless
  finish_unless-Ended session current input now (some m) tx =
      Post-bind-lift _ _ tx λ _ _. Post-pure _ tx (λ e. cc)
  finish_unless-Ended session current input now none tx = Post-bind-lift _ _ tx λ _ _.
      Post-bind-gets _ _ tx (
        Post-bind _ _ tx (next_id-Same _ tx) λ id s i.
          Post-bind _ _ s (record_message-Same session (finish_message input) now id tx s i)
            λ recorded t (claims, _).
              Post-bind _ _ t (give_all session now (claims_of session.session_id tx) t) λ _ u less.
                Post-bind _ _ u (close_session-IsClosed session current now _ _ u)
                  λ closed v (same, shut).
                    Post-pure _ v (λ _. (refl, rw same (λ k. less k ∙ rw claims refl), shut)))

  finish_in_transaction-Ended :
      (session : Session) (input : FinishInput) (now : ℕ) (tx : Tx)
      → Post (finish_in_transaction receipt_id fresh session input now) tx (Ended session now tx)
  unfolding finish_in_transaction
  finish_in_transaction-Ended session input now tx = Post-bind-gets _ _ tx (
      Post-bind-lift _ _ tx λ current _. Post-bind-gets _ _ tx (
        Post-bind-lift _ _ tx λ to _. Post-bind-gets _ _ tx (
          Post-bind-lift _ _ tx
            λ existing _. finish_unless-Ended session current input now existing tx)))

  -- What a retry reads from the log does not concern a finish that is none.
  pub after_transaction-anew :
      (P : Finished → Tx → Type 0) (retry : Bool) (outcome : Finished) (tx : Tx)
      → outcome.retry ≡ retry
      → (outcome.retry ≡ false → P outcome tx)
      → Post
          (after_transaction receipt_id fresh retry outcome)
          tx
          (λ done s. done.retry ≡ false → P done s)
  unfolding after_transaction
  after_transaction-anew P false outcome tx e i = Post-pure _ tx i
  after_transaction-anew P true outcome tx e i =
      Post-bind-gets _ _ tx (Post-bind-lift _ _ tx λ released _. Post-pure _ tx (λ f. cc))

  finish_session-Ended :
      (session : Session) (input : FinishInput) (now : ℕ) (tx : Tx)
      → Post (finish_session receipt_id fresh session input now) tx (Ended session now tx)
  unfolding finish_session
  finish_session-Ended session input now tx =
      Post-bind _ _ tx (finish_in_transaction-Ended session input now tx)
        λ outcome s i. after_transaction-anew _ outcome.retry outcome s refl i

  none_left :
      (session_id : Text) (tx s : Tx) (k : Text) (c : Claim)
      → IsKeyed tx.claims
      → LessIds (ids_of (claims_of session_id tx)) tx.claims s.claims
      → lookup k s.claims ≡ some c
      → c.owner_session_id ≢ session_id
  unfolding claims_of
  none_left session_id tx s k c keyed less h e = ground (
    arith,
    less k,
    keyed k c,
    listed (λ (d : Claim). d.owner_session_id == session_id) tx.claims k c,
    (eq_iff c.owner_session_id session_id).1 e,
  )

  -- Where every claim is stored under its own id, a finish that is no retry leaves the session
  -- closed, and leaves no claim of the session; the claims that it returns are those the session
  -- had, and every other claim stands as it did.
  pub finish_session_ends :
      (session : Session) (input : FinishInput) (now : ℕ) (tx tx' : Tx) (done : Finished)
      → IsKeyed tx.claims
      → finish_session receipt_id fresh session input now tx ≡ ok (done, tx')
      → done.retry ≡ false
      → IsClosed session now tx'.sessions done.session
        × ((k : Text) (c : Claim)
            → lookup k tx'.claims ≡ some c
            → c.owner_session_id ≢ session.session_id)
        × (done.released ≡ map project_released_claim (claims_of session.session_id tx))
        × LessIds (ids_of (claims_of session.session_id tx)) tx.claims tx'.claims
  finish_session_ends session input now tx tx' done keyed h new =
      let (same, less, shut) = (finish_session-Ended session input now tx).holds done tx' h new in
      (shut, λ k c found. none_left session.session_id tx tx' k c keyed less found, same, less)
