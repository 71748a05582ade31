-- ===== src/Core/Intents/Clearing.antt =====
-- An intent that is cleared is done, and is kept.
use agents_can_communicate.Base.{
  ℕ, ◌≡◌, refl, true, false, Option, none, some, arith, Text, ◌==◌, eq_iff, ok,
}
use agents_can_communicate.Base.Table.{lookup, insert, lookup-insert}
use agents_can_communicate.Core.Records.{Session, Intent, Happening, Tx, is_open}
use agents_can_communicate.Core.Transaction.{append}
use agents_can_communicate.Core.Transaction.Posts.{
  Post, Post-bind-lift, Post-bind-gets, Post-bind-modify, Post-pure, Post-weaken,
}
use agents_can_communicate.Core.Intents.{
  is_current_intent, require_owner, done, clear_found, clear_intent,
}

-- What clearing leaves of the intents: nothing current of the session, nothing lost of it, and the
-- others as they were.
pub record Cleared (session_id : Text) (tx t : Tx) : Type 0 where
  pub ended : (i : Intent) → lookup session_id t.intents ≡ some i → is_current_intent i ≡ false
  pub kept :
      (i : Intent)
      → lookup session_id tx.intents ≡ some i
      → (j : Intent) × (lookup session_id t.intents ≡ some j) × (j.summary ≡ i.summary)
  pub others : (k : Text) → session_id == k ≡ false → lookup k t.intents ≡ lookup k tx.intents

-- The stored session is open, and of this generation.
abbrev pub IsOwner : Option Session → (generation : Text) → Type 0
IsOwner o generation =
    (s : Session) × (o ≡ some s) × (s.generation ≡ generation) × (is_open s.state ≡ true)

require_owner-IsOwner :
    (o : Option Session) (generation : Text) (s : Session)
    → require_owner o generation ≡ ok s
    → IsOwner o generation
unfolding require_owner
require_owner-IsOwner none generation s h = absurd (cc)
require_owner-IsOwner (some r) generation s h =
    (r, refl, (eq_iff r.generation generation).0 (ground arith), ground arith)

module _ (fresh : Text → ℕ → Text) (session_id : Text) (now : ℕ) (tx : Tx) where
  append-intents :
      (workspace actor : Text) (h : Happening) (t : Tx)
      → Post (append fresh workspace actor now h) t (λ _ s. s.intents ≡ t.intents)
  unfolding append
  append-intents workspace actor h t = record { holds = λ u s e. ground arith }

  absent-Cleared : lookup session_id tx.intents ≡ none → Cleared session_id tx tx
  absent-Cleared gone = record {
    ended = λ i h. absurd (cc);
    kept = λ i h. absurd (cc);
    others = λ k other. refl;
  }

  done-Cleared :
      (i : Intent) (t : Tx)
      → lookup session_id tx.intents ≡ some i
      → t.intents ≡ insert session_id (done now i) tx.intents
      → Cleared session_id tx t
  unfolding done is_current_intent
  done-Cleared i t was e = record {
    ended = λ j h. ground (
      arith,
      lookup-insert session_id session_id (done now i) tx.intents,
      eq_iff session_id session_id,
      e,
    );
    kept = λ j h. (
      done now i,
      rw e (
          ground (
            arith,
            lookup-insert session_id session_id (done now i) tx.intents,
            eq_iff session_id session_id,
          )),
      ground arith,
    );
    others = λ k other. rw e (ground (arith, lookup-insert session_id k (done now i) tx.intents));
  }

  clear_found-Post :
      (workspace : Text) (o : Option Intent)
      → lookup session_id tx.intents ≡ o
      → Post (clear_found fresh workspace session_id now o) tx (λ _ t. Cleared session_id tx t)
  unfolding clear_found
  clear_found-Post workspace none was = Post-pure tt tx (absent-Cleared was)
  clear_found-Post workspace (some i) was = Post-bind-modify _ _ tx (
      Post-weaken _ _ (append-intents workspace session_id Happening.intent_cleared _)
        (λ u t e. done-Cleared i t was e))

  clear_intent-Post :
      (located : Option Session) (generation : Text)
      → Post
          (clear_intent fresh located session_id generation now)
          tx
          (λ _ t. IsOwner (lookup session_id tx.sessions) generation × Cleared session_id tx t)
  unfolding clear_intent
  clear_intent-Post located generation = Post-bind-lift _ _ tx (λ found _. Post-bind-gets _ _ tx (
      Post-bind-lift _ _ tx (λ owner h. Post-bind-gets _ _ tx (
        Post-weaken _ tx (clear_found-Post found.workspace_id _ refl)
          (λ u t c. (require_owner-IsOwner _ generation owner h, c))))))

  -- A clearing that returns was asked for by the generation of the stored session, which is open; the
  -- session's intent, where it had one, is kept with its summary and is not current any more; and no
  -- other intent has changed.
  pub clear_intent-Cleared :
      (located : Option Session) (generation : Text) (u : Unit {0}) (t : Tx)
      → clear_intent fresh located session_id generation now tx ≡ ok (u, t)
      → IsOwner (lookup session_id tx.sessions) generation × Cleared session_id tx t
  clear_intent-Cleared located generation u t h = (clear_intent-Post located generation).holds u t h
