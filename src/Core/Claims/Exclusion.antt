-- ===== src/Core/Claims/Exclusion.antt =====
-- Mutual exclusion: no operation on claims lets two sessions hold overlapping resources at once,
-- unless both hold them shared.
use agents_can_communicate.Base.{
  ℕ, ◌≤◌, ◌≡◌, Bool, true, false, not, ◌&&◌, ◌||◌, some, arith, Text, ◌==◌, eq_iff, eq_comm,
}
use agents_can_communicate.Base.Table.{Table, lookup, insert, remove, lookup-insert, lookup-remove}
use agents_can_communicate.Core.Overlaps.{overlaps, overlaps_comm}
use agents_can_communicate.Core.Records.{Claim, ClaimMode, is_exclusive}
use agents_can_communicate.Core.Claims.{is_live, blocks}

-- Two claims that may not stand beside one another at a time.
unfoldable pub clash : ℕ → Claim → Claim → Bool
unfolding is_live is_exclusive
clash now a b =
    is_live a now
    && is_live b now
    && not (a.owner_session_id == b.owner_session_id)
    && overlaps a.resource b.resource
    && (is_exclusive a.mode || is_exclusive b.mode)

pub record IsExclusive (now : ℕ) (claims : Table Claim) : Type 0 where
  pub apart :
      (i j : Text) (a b : Claim)
      → lookup i claims ≡ some a
      → lookup j claims ≡ some b
      → clash now a b ≡ false

-- No claim of the table stands in the way of a request.
pub record IsClear (now : ℕ) (owner : Text) (mode : ClaimMode) (resource : Text)
    (claims : Table Claim) : Type 0 where
  pub free :
      (k : Text) (a : Claim) → lookup k claims ≡ some a → blocks now owner mode resource a ≡ false

clash_comm : (now : ℕ) (a b : Claim) → clash now a b ≡ clash now b a
unfolding clash
clash_comm now a b =
    ground
      (arith, overlaps_comm a.resource b.resource, eq_comm a.owner_session_id b.owner_session_id)

-- A claim of the requested owner, mode and resource clashes only with what blocks the request.
clash_of_blocks :
    (now : ℕ) (a c : Claim)
    → blocks now c.owner_session_id c.mode c.resource a ≡ false
    → clash now a c ≡ false
unfolding clash blocks
clash_of_blocks now a c h = ground arith

clash_self :
    (now : ℕ) (a b : Claim) → a.owner_session_id ≡ b.owner_session_id → clash now a b ≡ false
unfolding clash
clash_self now a b h = ground (arith, eq_iff a.owner_session_id b.owner_session_id)

-- A claim that nothing blocks can be written.
pub IsExclusive-insert :
    (now : ℕ) (k : Text) (c : Claim) (claims : Table Claim)
    → IsClear now c.owner_session_id c.mode c.resource claims
    → IsExclusive now claims
    → IsExclusive now (insert k c claims)
IsExclusive-insert now k c claims clear x = record {
  apart = λ i j a b p q. ground (
    arith,
    lookup-insert k i c claims,
    lookup-insert k j c claims,
    x.apart i j a b,
    clear.free i a,
    clear.free j b,
    clash_of_blocks now a c,
    clash_of_blocks now b c,
    clash_self now a b,
    clash_comm now c b,
    clash_comm now a c,
  );
}

-- A claim that is removed leaves the others as they stand to one another.
pub IsExclusive-remove :
    (now : ℕ) (k : Text) (claims : Table Claim)
    → IsExclusive now claims
    → IsExclusive now (remove k claims)
IsExclusive-remove now k claims x = record {
  apart = λ i j a b p q.
      ground (arith, lookup-remove k i claims, lookup-remove k j claims, x.apart i j a b);
}

-- A live claim that is renewed clashes with no more than it did.
clash_renewed :
    (now expires : ℕ) (generation : Text) (a c : Claim)
    → is_live c now ≡ true
    → clash now a c ≡ false
    → clash now a (record c { expires_at = expires; generation = generation }) ≡ false
unfolding clash
clash_renewed now expires generation a c live h = ground arith

pub IsExclusive-renew :
    (now expires : ℕ) (generation k : Text) (c : Claim) (claims : Table Claim)
    → lookup k claims ≡ some c
    → is_live c now ≡ true
    → IsExclusive now claims
    → IsExclusive now (insert k (record c { expires_at = expires; generation = generation }) claims)
IsExclusive-renew now expires generation k c claims found live x =
    let renewed : Claim = record c { expires_at = expires; generation = generation } in
    record {
      apart = λ i j a b p q. ground (
        arith,
        lookup-insert k i renewed claims,
        lookup-insert k j renewed claims,
        x.apart i j a b,
        x.apart i k a c,
        x.apart j k b c,
        clash_renewed now expires generation a c,
        clash_renewed now expires generation b c,
        clash_self now renewed renewed,
        clash_comm now renewed b,
      );
    }

-- As time goes on claims lapse, and no clash begins.
clash_later :
    (now later : ℕ) (a b : Claim) → now ≤ later → clash now a b ≡ false → clash later a b ≡ false
unfolding clash
clash_later now later a b t h = ground arith

pub IsExclusive-later :
    (now later : ℕ) (claims : Table Claim)
    → now ≤ later
    → IsExclusive now claims
    → IsExclusive later claims
IsExclusive-later now later claims t x = record {
  apart = λ i j a b p q. clash_later now later a b t (x.apart i j a b p q);
}
