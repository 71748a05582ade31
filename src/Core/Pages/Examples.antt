-- ===== src/Core/Pages/Examples.antt =====
-- Three messages in pages of two.
use agents_can_communicate.Base.{
  ℕ, suc, ◌≡◌, refl, Bool, true, false, none, some, List, [], ◌∷◌, map, arith, Text, codes, ◌==◌,
  filter, find, length, leb, ltb, eqb, ok, ◌||◌, ◌&&◌, All,
}
use agents_can_communicate.Base.Sorting.{sort_by}
use agents_can_communicate.Protocol.Fields.{
  is_portable_id, matches_portable, ends_with_dot, windows_device,
}
use agents_can_communicate.Protocol.Messages.{Message, MessageKind, Obligation}
use agents_can_communicate.Core.Pages.{
  PageInput, limit_of, is_limit, of_kind, newest_first, is_after, selected, fill, next_of, nth,
  page_of, anchor_of, message_page,
}
use agents_can_communicate.Core.Pages.Listing.{IsOrder, HaveOwnIds}
use agents_can_communicate.Core.Pages.Whole.{read, read-whole}

abbrev note_at : Text → ℕ → Message
note_at id sent_at = record {
  message_id = id;
  thread_id = id;
  client_message_id = id;
  workspace_id = codes "w";
  from_participant_id = codes "ana";
  from_session_id = codes "s1";
  to_participant_ids = [];
  kind = MessageKind.note;
  obligation = Obligation.nothing;
  subject = codes "Port";
  body = codes "8080";
  in_reply_to = none;
  artifacts = [];
  handoff_payload = none;
  decision_change = none;
  sent_at = sent_at;
}

abbrev messages : List Message
messages = note_at (codes "m1") 1000 ∷ note_at (codes "m2") 3000 ∷ note_at (codes "m3") 2000 ∷ []

abbrev input : PageInput
input = record { limit = some 2; kind = none; cursor = none }

-- An order of ids by their code units, for the order of the language.
text_before : Text → Text → Bool
text_before [] [] = false
text_before [] (y ∷ ys) = true
text_before (x ∷ xs) [] = false
text_before (x ∷ xs) (y ∷ ys) = ltb x y || (eqb x y && text_before xs ys)

text_before_trans :
    (a b c : Text) → text_before a b ≡ true → text_before b c ≡ true → text_before a c ≡ true
unfolding text_before
text_before_trans [] [] c g h = absurd (cc)
text_before_trans [] (y ∷ ys) [] g h = absurd (cc)
text_before_trans [] (y ∷ ys) (z ∷ zs) g h = refl
text_before_trans (x ∷ xs) [] c g h = absurd (cc)
text_before_trans (x ∷ xs) (y ∷ ys) [] g h = absurd (cc)
text_before_trans (x ∷ xs) (y ∷ ys) (z ∷ zs) g h = ground (arith, text_before_trans xs ys zs)

text_before_asym : (a b : Text) → text_before a b ≡ true → text_before b a ≡ false
unfolding text_before
text_before_asym [] [] h = refl
text_before_asym [] (y ∷ ys) h = refl
text_before_asym (x ∷ xs) [] h = absurd (cc)
text_before_asym (x ∷ xs) (y ∷ ys) h = ground (arith, text_before_asym xs ys)

text_before_total : (a b : Text) → a == b ≡ false → (text_before a b || text_before b a) ≡ true
unfolding text_before ◌==◌
text_before_total [] [] h = absurd (cc)
text_before_total [] (y ∷ ys) h = refl
text_before_total (x ∷ xs) [] h = refl
text_before_total (x ∷ xs) (y ∷ ys) h = ground (arith, text_before_total xs ys)

IsOrder-text_before : IsOrder text_before
IsOrder-text_before = record {
  trans = text_before_trans;
  asym = text_before_asym;
  total = text_before_total;
}

abbrev two_fit : List Text → Text → Bool
two_fit items id = leb (length items) 2

abbrev id_of : Message → Text
id_of m = m.message_id

abbrev all : Message → Bool
all m = true

-- The first page, and the second.
pages :
    (message_page text_before two_fit id_of all input messages
      ≡ ok (record { items = codes "m2" ∷ codes "m3" ∷ []; next_cursor = some (codes "m3") }))
    × (message_page text_before two_fit id_of all
          (record input { cursor = some (codes "m3") })
          messages
        ≡ ok (record { items = codes "m1" ∷ []; next_cursor = none }))
unfolding message_page anchor_of page_of fill next_of nth selected of_kind is_after newest_first
    sort_by is_limit limit_of text_before is_portable_id matches_portable ends_with_dot
    windows_device filter find ◌==◌
pages = (refl, refl)

own_ids : HaveOwnIds messages
unfolding ◌==◌
own_ids = ((refl, (refl, tt)), ((refl, tt), (tt, tt)))

portable_ids : All (λ (m : Message). is_portable_id m.message_id ≡ true) messages
unfolding is_portable_id matches_portable ends_with_dot windows_device
portable_ids = (refl, (refl, (refl, tt)))

allowed : is_limit (limit_of input.limit) ≡ true
unfolding is_limit limit_of
allowed = refl

read-whole_example :
    read text_before two_fit id_of all input messages
      (suc (length (selected text_before two_fit id_of all none none messages)))
      none
    ≡ ok (map id_of (selected text_before two_fit id_of all none none messages))
read-whole_example =
    read-whole text_before two_fit id_of IsOrder-text_before all input messages own_ids portable_ids
      (refl, (refl, (refl, tt))) allowed
