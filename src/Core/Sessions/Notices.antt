-- ===== src/Core/Sessions/Notices.antt =====
-- What a session remembers of the messages that it was told about.
use agents_can_communicate.Base.{
  ℕ, ◌-◌, ◌≤◌, ◌≡◌, zero, suc, true, not, Option, List, [], ◌∷◌, ◌++◌, arith, Text, length,
  length-append, includes, filter,
}
use agents_can_communicate.Core.Sessions.{
  drop, keep_last, noticed_left_limit, noticed_after, noticed_before,
}

length-drop : (n : ℕ) (xs : List Text) → length (drop n xs) ≡ length xs - n
unfolding drop
length-drop zero xs = omega arith
length-drop (suc n) [] = omega arith
length-drop (suc n) (x ∷ xs) = omega (arith, length-drop n xs)

length-keep_last : (n : ℕ) (xs : List Text) → length (keep_last n xs) ≤ n
unfolding keep_last
length-keep_last n xs = omega (arith, length-drop (length xs - n) xs)

-- Dropping less than the first list drops of it alone.
includes-drop-append :
    (n : ℕ) (xs ys : List Text) (a : Text)
    → n ≤ length xs
    → includes a ys ≡ true
    → includes a (drop n (xs ++ ys)) ≡ true
unfolding drop includes
includes-drop-append zero [] ys a le h = h
includes-drop-append zero (x ∷ xs) ys a le h =
    ground (arith, includes-drop-append zero xs ys a (omega arith) h)
includes-drop-append (suc n) [] ys a le h = ground arith
includes-drop-append (suc n) (x ∷ xs) ys a le h =
    includes-drop-append n xs ys a (omega (arith, le)) h

includes-keep_last :
    (n : ℕ) (xs ys : List Text) (a : Text)
    → length ys ≤ n
    → includes a ys ≡ true
    → includes a (keep_last n (xs ++ ys)) ≡ true
unfolding keep_last
includes-keep_last n xs ys a le h =
    includes-drop-append (length (xs ++ ys) - n) xs ys a (omega (arith, length-append xs ys, le)) h

-- What was noticed before and is not told again.
abbrev kept : Option (List Text) → List Text → List Text
kept prior message_ids =
    filter (λ (id : Text). not (includes id message_ids)) (noticed_before prior)

-- A session remembers at most 64 messages, and of up to 64 new ones it forgets none.
pub noticed_after-bounds :
    (prior : Option (List Text)) (message_ids : List Text)
    → (length (noticed_after prior message_ids) ≤ noticed_left_limit)
      × (length message_ids ≤ noticed_left_limit
          → (a : Text) → includes a message_ids ≡ true
          → includes a (noticed_after prior message_ids) ≡ true)
unfolding noticed_after
noticed_after-bounds prior message_ids = (
  length-keep_last noticed_left_limit (kept prior message_ids ++ message_ids),
  λ le a h. includes-keep_last noticed_left_limit (kept prior message_ids) message_ids a le h,
)
