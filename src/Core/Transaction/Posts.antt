-- ===== src/Core/Transaction/Posts.antt =====
-- What holds after a transaction body that returns: one rule for each way to build a body.
use mathlib.Core.Path.{subst₂}
use agents_can_communicate.Base.{◌≡◌, refl, List, [], ◌∷◌, All, Result, ok, err}
use agents_can_communicate.Core.Records.{Tx}
use agents_can_communicate.Core.Transaction.{M, pure, lift, gets, modify, ◌>>=◌, for_each}

-- If the body returns from this state, then its result and its last state are as stated.
pub record Post {ℓ κ} {A : Type ℓ} (m : M A) (tx : Tx) (Q : A → Tx → Type κ) : Type (ℓ ⊔ κ) where
  pub holds : (a : A) (tx' : Tx) → m tx ≡ ok (a, tx') → Q a tx'

module _ {ℓ} {A : Type ℓ} where
  ok_parts :
      {a b : A} {s t : Tx} → Path (Result (A × Tx)) (ok (a, s)) (ok (b, t)) → (a ≡ b) × (s ≡ t)
  ok_parts h = (cc, cc)

  from_ok {κ} :
      (Q : A → Tx → Type κ) {a b : A} {s t : Tx}
      → Q a s
      → Path (Result (A × Tx)) (ok (a, s)) (ok (b, t))
      → Q b t
  from_ok Q q h = let (e, f) = ok_parts h in subst₂ Q e f q

module _ {ℓ κ μ} {A : Type ℓ} {B : Type κ} {Q : B → Tx → Type μ} where
  after :
      (f : A → M B) (r : Result (A × Tx))
      → ((a : A) (tx : Tx) → r ≡ ok (a, tx) → Post (f a) tx Q)
      → (b : B) (tx' : Tx) → (elim r [ err e ↦ err e | ok (a, s) ↦ f a s ]) ≡ ok (b, tx')
      → Q b tx'
  after f (ok (a, s)) k b tx' h = (k a s refl).holds b tx' h
  after f (err e) k b tx' h = cc

  pub Post-bind {ν} :
      {R : A → Tx → Type ν} (m : M A) (f : A → M B) (tx : Tx)
      → Post m tx R
      → ((a : A) (s : Tx) → R a s → Post (f a) s Q)
      → Post (m >>= f) tx Q
  unfolding ◌>>=◌
  Post-bind m f tx p k = record { holds = after f (m tx) (λ a s e. k a s (p.holds a s e)) }

  pub Post-bind-lift :
      (r : Result A) (f : A → M B) (tx : Tx)
      → ((a : A) → r ≡ ok a → Post (f a) tx Q)
      → Post (lift r >>= f) tx Q
  unfolding ◌>>=◌
  Post-bind-lift (ok a) f tx k = record { holds = (k a refl).holds }
  Post-bind-lift (err e) f tx k = record { holds = λ b t h. cc }

  pub Post-bind-gets :
      (g : Tx → A) (f : A → M B) (tx : Tx) → Post (f (g tx)) tx Q → Post (gets g >>= f) tx Q
  unfolding ◌>>=◌
  Post-bind-gets g f tx p = record { holds = p.holds }

module _ {κ μ} {B : Type κ} {Q : B → Tx → Type μ} where
  pub Post-bind-modify :
      (g : Tx → Tx) (f : Unit {0} → M B) (tx : Tx)
      → Post (f tt) (g tx) Q
      → Post (modify g >>= f) tx Q
  unfolding ◌>>=◌
  Post-bind-modify g f tx p = record { holds = p.holds }

module _ {ℓ κ} {A : Type ℓ} {Q : A → Tx → Type κ} where
  pub Post-pure : (a : A) (tx : Tx) → Q a tx → Post (pure a) tx Q
  unfolding pure
  Post-pure a tx q = record { holds = λ b t h. from_ok Q q h }

  pub Post-gets : (f : Tx → A) (tx : Tx) → Q (f tx) tx → Post (gets f) tx Q
  unfolding gets
  Post-gets f tx q = record { holds = λ b t h. from_ok Q q h }

  pub Post-lift : (r : Result A) (tx : Tx) → ((a : A) → r ≡ ok a → Q a tx) → Post (lift r) tx Q
  unfolding lift pure
  Post-lift (ok a) tx q = Post-pure a tx (q a refl)
  Post-lift (err e) tx q = record { holds = λ b t h. cc }

  pub Post-weaken {μ} :
      {R : A → Tx → Type μ} (m : M A) (tx : Tx)
      → Post m tx R
      → ((a : A) (s : Tx) → R a s → Q a s)
      → Post m tx Q
  Post-weaken m tx p k = record { holds = λ a s e. k a s (p.holds a s e) }

module _ {κ} {Q : Unit {0} → Tx → Type κ} where
  pub Post-modify : (f : Tx → Tx) (tx : Tx) → Q tt (f tx) → Post (modify f) tx Q
  unfolding modify
  Post-modify f tx q = record { holds = λ b t h. from_ok Q q h }

-- A condition that every round of a loop keeps.
pub Post-for_each {ℓ κ μ} :
    {A : Type ℓ} (P : A → Type κ) (I : Tx → Type μ) (f : A → M (Unit {0}))
    → ((a : A) (tx : Tx) → P a → I tx → Post (f a) tx (λ _ s. I s))
    → (xs : List A) (tx : Tx) → All P xs
    → I tx
    → Post (for_each f xs) tx (λ _ s. I s)
unfolding for_each ◌>>=◌
Post-for_each P I f k [] tx a i = record { holds = λ u s h. from_ok (λ _ t. I t) i h }
Post-for_each P I f k (x ∷ xs) tx a i = record {
  holds = λ u s h.
      (Post-bind (f x) (λ _. for_each f xs) tx (k x tx a.0 i)
          (λ _ t j. Post-for_each P I f k xs t a.1 j)).holds
        u s h;
}

-- A loop is its first round, and then the loop over the others.
pub Post-for_each_cons {ℓ κ μ} :
    {A : Type ℓ} {R : Tx → Type κ} {Q : Tx → Type μ} (f : A → M (Unit {0})) (x : A) (xs : List A)
    (tx : Tx)
    → Post (f x) tx (λ _ s. R s)
    → ((s : Tx) → R s → Post (for_each f xs) s (λ _ t. Q t))
    → Post (for_each f (x ∷ xs)) tx (λ _ t. Q t)
unfolding for_each ◌>>=◌
Post-for_each_cons f x xs tx p k = record {
  holds = λ u s h. (Post-bind (f x) (λ _. for_each f xs) tx p (λ _ t r. k t r)).holds u s h;
}

pub Post-for_each_nil {ℓ κ} :
    {A : Type ℓ} {Q : Tx → Type κ} (f : A → M (Unit {0})) (tx : Tx)
    → Q tx
    → Post (for_each f []) tx (λ _ t. Q t)
unfolding for_each
Post-for_each_nil {Q = Q} f tx q = record { holds = λ u s h. from_ok (λ _ t. Q t) q h }
