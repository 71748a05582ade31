-- ===== src/Core/Prune/Order.antt =====
-- The entries of a plan: which there are, in which order they go, and what is left when a pass stops.
use agents_can_communicate.Base.{
  ℕ, ◌≤◌, ◌<◌, ◌≡◌, refl, Bool, true, false, ◌&&◌, ◌||◌, List, [], ◌∷◌, ◌++◌, arith, Text, ◌==◌,
  eq_iff, includes, All, eqb,
}
use agents_can_communicate.Base.Table.{Table}
use agents_can_communicate.Core.Prune.{Kind, Entry, Named, entries, ids, in_order}

-- What holds a reference goes before what it refers to.
unfoldable pub rank : Kind → ℕ
rank Kind.receipt = 0
rank Kind.message = 1
rank Kind.intent = 2
rank Kind.claim = 3
rank Kind.session = 4
rank Kind.participant = 5

unfoldable pub has : Kind → Text → List Entry → Bool
unfolding rank
has kind id [] = false
has kind id (e ∷ es) = (eqb (rank e.kind) (rank kind) && e.id == id) || has kind id es

pub has-append :
    (kind : Kind) (id : Text) (xs ys : List Entry)
    → has kind id (xs ++ ys) ≡ (has kind id xs || has kind id ys)
unfolding has
has-append kind id [] ys = refl
has-append kind id (x ∷ xs) ys = ground (arith, has-append kind id xs ys)

has-entries {ℓ} :
    {A : Type ℓ} (kind k : Kind) (id : Text) (t : Table A)
    → has kind id (entries k t) ≡ (eqb (rank k) (rank kind) && includes id (ids t))
unfolding has entries ids includes
has-entries kind k id [] = ground arith
has-entries kind k id ((j, a) ∷ t) =
    ground (arith, has-entries kind k id t, eq_iff j id, eq_iff id j)

-- The ids of a kind.
unfoldable pub ids_of : Named → Kind → List Text
unfolding ids
ids_of n Kind.receipt = ids n.receipts
ids_of n Kind.message = ids n.messages
ids_of n Kind.intent = ids n.intents
ids_of n Kind.claim = ids n.claims
ids_of n Kind.session = ids n.sessions
ids_of n Kind.participant = ids n.participants

-- The plan has exactly what is named.
pub has-in_order :
    (n : Named) (kind : Kind) (id : Text) → has kind id (in_order n) ≡ includes id (ids_of n kind)
unfolding in_order ids_of rank
has-in_order n kind id =
    rw
      (
        has-append kind id (entries Kind.receipt n.receipts) _,
        has-append kind id (entries Kind.message n.messages) _,
        has-append kind id (entries Kind.intent n.intents) _,
        has-append kind id (entries Kind.claim n.claims) _,
        has-append kind id (entries Kind.session n.sessions) _,
        has-entries kind Kind.receipt id n.receipts,
        has-entries kind Kind.message id n.messages,
        has-entries kind Kind.intent id n.intents,
        has-entries kind Kind.claim id n.claims,
        has-entries kind Kind.session id n.sessions,
        has-entries kind Kind.participant id n.participants,
      )
      (by_kind n kind id)
  where
    by_kind :
        (n : Named) (kind : Kind) (id : Text)
        → ((eqb 0 (rank kind) && includes id (ids n.receipts))
            || ((eqb 1 (rank kind) && includes id (ids n.messages))
                || ((eqb 2 (rank kind) && includes id (ids n.intents))
                    || ((eqb 3 (rank kind) && includes id (ids n.claims))
                        || ((eqb 4 (rank kind) && includes id (ids n.sessions))
                            || (eqb 5 (rank kind) && includes id (ids n.participants)))))))
          ≡ includes id (ids_of n kind)
    by_kind n kind id = ground arith

-- From one rank on, and in the order of the ranks.
abbrev Sorted : List Entry → Type 0
Sorted [] = Unit
Sorted (e ∷ es) = All (λ (f : Entry). rank e.kind ≤ rank f.kind) es × Sorted es

abbrev From : ℕ → List Entry → Type 0
From r es = All (λ (f : Entry). r ≤ rank f.kind) es × Sorted es

All-later :
    (r s : ℕ) (es : List Entry)
    → r ≤ s
    → All (λ (f : Entry). s ≤ rank f.kind) es
    → All (λ (f : Entry). r ≤ rank f.kind) es
All-later r s [] le a = tt
All-later r s (e ∷ es) le a = (omega arith, All-later r s es le a.1)

From-earlier : (r s : ℕ) (es : List Entry) → r ≤ s → From s es → From r es
From-earlier r s es le (a, sorted) = (All-later r s es le a, sorted)

From-entries {ℓ} :
    {A : Type ℓ} (k : Kind) (t : Table A) (es : List Entry)
    → From (rank k) es
    → From (rank k) (entries k t ++ es)
unfolding entries
From-entries k [] es f = f
From-entries k ((id, a) ∷ t) es f =
    let (all, sorted) = From-entries k t es f in ((omega arith, all), (all, sorted))

From-last {ℓ} : {A : Type ℓ} (k : Kind) (t : Table A) → From (rank k) (entries k t)
unfolding entries
From-last k [] = (tt, tt)
From-last k ((id, a) ∷ t) = let (all, sorted) = From-last k t in ((omega arith, all), (all, sorted))

-- The whole plan is in order.
pub in_order-Sorted : (n : Named) → Sorted (in_order n)
unfolding in_order rank
in_order-Sorted n =
    let f5 = From-last Kind.participant n.participants in
    let f4 = From-entries Kind.session n.sessions _ (From-earlier 4 5 _ (omega arith) f5) in
    let f3 = From-entries Kind.claim n.claims _ (From-earlier 3 4 _ (omega arith) f4) in
    let f2 = From-entries Kind.intent n.intents _ (From-earlier 2 3 _ (omega arith) f3) in
    let f1 = From-entries Kind.message n.messages _ (From-earlier 1 2 _ (omega arith) f2) in
    let f0 = From-entries Kind.receipt n.receipts _ (From-earlier 0 1 _ (omega arith) f1) in f0.1

has-All :
    (r : ℕ) (kind : Kind) (id : Text) (es : List Entry)
    → All (λ (f : Entry). r ≤ rank f.kind) es
    → has kind id es ≡ true
    → r ≤ rank kind
unfolding has
has-All r kind id [] a h = cc
has-All r kind id (e ∷ es) a h = ground (arith, has-All r kind id es)

has-All-append :
    (e : Entry) (kind : Kind) (id : Text) (done rest : List Entry)
    → All (λ (f : Entry). rank e.kind ≤ rank f.kind) (done ++ rest)
    → has kind id rest ≡ true
    → rank e.kind ≤ rank kind
has-All-append e kind id done rest a h =
    has-All (rank e.kind) kind id (done ++ rest) a (ground (arith, has-append kind id done rest))

-- What is done goes before what is left.
done-le-rest :
    (k1 k2 : Kind) (i j : Text) (done rest : List Entry)
    → Sorted (done ++ rest)
    → has k1 i done ≡ true
    → has k2 j rest ≡ true
    → rank k1 ≤ rank k2
unfolding has
done-le-rest k1 k2 i j [] rest s h g = cc
done-le-rest k1 k2 i j (e ∷ done) rest s h g =
    ground (arith, done-le-rest k1 k2 i j done rest s.1, has-All-append e k2 j done rest s.0 g)

-- What is of an earlier kind than something that is done is done.
pub done_before :
    (k1 k2 : Kind) (i j : Text) (done rest : List Entry)
    → Sorted (done ++ rest)
    → has k1 i done ≡ true
    → has k2 j (done ++ rest) ≡ true
    → rank k2 < rank k1
    → has k2 j done ≡ true
done_before k1 k2 i j done rest s h g lt =
    ground (arith, has-append k2 j done rest, done-le-rest k1 k2 i j done rest s)
