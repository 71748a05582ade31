-- ===== src/Core/Pages/Whole.antt =====
-- A reader that follows the cursors is shown every message of the listing once, in order.
use mathlib.Core.List.{Memᴰ}
use mathlib.Core.List.Memᴰ
use agents_can_communicate.Base.{
  ℕ, zero, suc, ◌<◌, ◌≡◌, refl, sym, ap, ◌∙◌, Bool, true, false, ◌&&◌, Option, none, some, List, [],
  ◌∷◌, ◌++◌, map, arith, Text, ◌==◌, eq_iff, length, length-append, filter, find, All, Result, ok,
  err, Exit, ◌>>=◌, inl, inr,
}
use agents_can_communicate.Base.Sorting.{
  sort_by, IsSorted, All-sort_by, sort_by-IsSorted, sort_by-filter,
}
use agents_can_communicate.Protocol.Fields.{is_portable_id}
use agents_can_communicate.Protocol.Messages.{Message}
use agents_can_communicate.Core.Pages.{
  Page, PageInput, limit_of, is_limit, of_kind, is_after, selected, page_of, anchor_of,
  message_page,
}
use agents_can_communicate.Core.Pages.Runs.{page_of-runs, next_after}
use agents_can_communicate.Core.Pages.Listing.{
  IsOrder, HaveOwnIds, filter-fuse, All-filter, filter-cong, All_at, nf, nf_trans, own_ids-AllApart,
  AllApart-filter, after_it,
}

All-Memᴰ {ℓ κ} : {A : Type ℓ} (P : A → Type κ) (y : A) (xs : List A) → All P xs → Memᴰ y xs → P y
All-Memᴰ P y [] all i = absurd (Memᴰ.not-nil i)
All-Memᴰ P y (x ∷ xs) (h, all) i = elim (Memᴰ.cases_cons i) [
  | inl e ↦ rw e h
  | inr j ↦ All-Memᴰ P y xs all j
]

find_own :
    (y : Message) (ms : List Message)
    → HaveOwnIds ms
    → Memᴰ y ms
    → find (λ (m : Message). m.message_id == y.message_id) ms ≡ some y
unfolding find
find_own y [] own i = absurd (Memᴰ.not-nil i)
find_own y (m ∷ ms) (h, own) i = elim (Memᴰ.cases_cons i) [
  | inl e ↦ rw (e, (eq_iff m.message_id m.message_id).1 refl) refl
  | inr j ↦
      let other = All-Memᴰ (λ (n : Message). m.message_id == n.message_id ≡ false) y ms h j in
      rw (other, find_own y ms own j) refl
]

append_assoc {ℓ} : {A : Type ℓ} (xs ys zs : List A) → (xs ++ ys) ++ zs ≡ xs ++ (ys ++ zs)
append_assoc [] ys zs = refl
append_assoc (x ∷ xs) ys zs = ap (λ ts. x ∷ ts) (append_assoc xs ys zs)

map-append {ℓ κ} :
    {A : Type ℓ} {B : Type κ} (f : A → B) (xs ys : List A) → map f (xs ++ ys) ≡ map f xs ++ map f ys
map-append f [] ys = refl
map-append f (x ∷ xs) ys = ap (λ ts. f x ∷ ts) (map-append f xs ys)

-- A limit that is allowed lets a message pass.
limit_suc : (n : ℕ) → is_limit n ≡ true → (l : ℕ) × (n ≡ suc l)
unfolding is_limit
limit_suc zero h = absurd (ground arith)
limit_suc (suc l) h = (l, refl)

module _ {ℓ} {A : Type ℓ} (id_before : Text → Text → Bool) (fits : List A → Text → Bool)
    (project : Message → A) (include : Message → Bool) (input : PageInput)
    (messages : List Message) where
  abbrev page_at : Option Text → Result (Page A)
  page_at cursor =
      message_page id_before fits project include (record input { cursor = cursor }) messages

  -- A reader that follows the cursors, of a listing that stays as it is, for so many pages.
  unfoldable pub read : (pages : ℕ) → (cursor : Option Text) → Result (List A)
  unfolding message_page
  read zero cursor = err Exit.timeout
  read (suc pages) cursor = page_at cursor >>= λ p. elim p.next_cursor [
    | none ↦ ok p.items
    | some next ↦ read pages (some next) >>= λ rest. ok (p.items ++ rest)
  ]

module _ {ℓ} {A : Type ℓ} (id_before : Text → Text → Bool) (fits : List A → Text → Bool)
    (project : Message → A) (order : IsOrder id_before) where
  module _ (include : Message → Bool) (input : PageInput) (messages : List Message)
      (own : HaveOwnIds messages)
      (portable : All (λ (m : Message). is_portable_id m.message_id ≡ true) messages)
      (alone : All (λ (m : Message). fits (project m ∷ []) m.message_id ≡ true) messages)
      (allowed : is_limit (limit_of input.limit) ≡ true) where
    -- The whole listing.
    abbrev whole : List Message
    whole = selected id_before fits project include input.kind none messages

    abbrev is_shown : Message → Bool
    is_shown m = include m && (of_kind input.kind m && true)

    abbrev IsListed : Message → Type 0
    IsListed m = Memᴰ m messages × (of_kind input.kind m ≡ true)

    whole-IsListed : All IsListed whole
    unfolding selected is_after
    whole-IsListed =
        All-sort_by (nf id_before fits project order) IsListed _
          (All-filter is_shown IsListed messages (λ m i h. (i, ground arith)))

    whole-IsSorted : IsSorted (nf id_before fits project order) whole
    unfolding selected is_after
    whole-IsSorted =
        sort_by-IsSorted (nf id_before fits project order) (nf_trans id_before fits project order) _
          (AllApart-filter id_before fits project order is_shown messages
            (own_ids-AllApart id_before fits project order messages own))

    selected_after :
        (anchor : Message)
        → selected id_before fits project include input.kind (some anchor) messages
          ≡ filter (nf id_before fits project order anchor) whole
    unfolding selected is_after
    selected_after anchor =
        ap (sort_by (nf id_before fits project order)) (
          filter-cong _ (λ m. is_shown m && nf id_before fits project order anchor m) messages
            (λ m. ground arith)
          ∙ sym (filter-fuse is_shown (nf id_before fits project order anchor) messages))
        ∙ sort_by-filter (nf id_before fits project order) (nf_trans id_before fits project order)
            (nf id_before fits project order anchor) (filter is_shown messages)
            (AllApart-filter id_before fits project order is_shown messages
              (own_ids-AllApart id_before fits project order messages own))

    selected_rest :
        (pre : List Message) (y : Message) (rest : List Message)
        → whole ≡ pre ++ y ∷ rest
        → selected id_before fits project include input.kind (some y) messages ≡ rest
    selected_rest pre y rest split =
        selected_after y
        ∙ ap (filter (nf id_before fits project order y)) split
        ∙ after_it id_before fits project order pre y rest (rw split at whole-IsSorted)

    page_at_start :
        page_at id_before fits project include input messages none
        ≡ page_of id_before fits project (limit_of input.limit) whole
    unfolding message_page anchor_of
    page_at_start = rw allowed refl

    page_at_cursor :
        (y : Message)
        → IsListed y
        → page_at id_before fits project include input messages (some y.message_id)
          ≡ page_of id_before fits project
              (limit_of input.limit)
              (selected id_before fits project include input.kind (some y) messages)
    unfolding message_page anchor_of
    page_at_cursor y (i, kind) =
        let named =
          All-Memᴰ (λ (m : Message). is_portable_id m.message_id ≡ true) y messages portable i in
        rw (allowed, named, find_own y messages own i, kind) refl

    read_last :
        (pages : ℕ) (cursor : Option Text) (items : List A)
        → page_at id_before fits project include input messages cursor
          ≡ ok (record { items = items; next_cursor = none })
        → read id_before fits project include input messages (suc pages) cursor ≡ ok items
    unfolding read
    read_last pages cursor items h = rw h refl

    read_more :
        (pages : ℕ) (cursor : Option Text) (items rest : List A) (next : Text)
        → page_at id_before fits project include input messages cursor
          ≡ ok (record { items = items; next_cursor = some next })
        → read id_before fits project include input messages pages (some next) ≡ ok rest
        → read id_before fits project include input messages (suc pages) cursor ≡ ok (items ++ rest)
    unfolding read
    read_more pages cursor items rest next h g = rw (h, g) refl

    abbrev l : ℕ
    l = (limit_suc (limit_of input.limit) allowed).0

    page_of_rest :
        (chosen : List Message)
        → page_of id_before fits project (limit_of input.limit) chosen
          ≡ page_of id_before fits project (suc l) chosen
    page_of_rest chosen =
        ap (λ n. page_of id_before fits project n chosen)
          (limit_suc (limit_of input.limit) allowed).1

    -- With so many pages the rest of the listing is read, from wherever the reader has come.
    abbrev Reads : (pages : ℕ) → Type ℓ
    Reads pages =
        (cursor : Option Text) (pre chosen : List Message)
        → whole ≡ pre ++ chosen
        → page_at id_before fits project include input messages cursor
          ≡ page_of id_before fits project (suc l) chosen
        → length chosen < pages
        → read id_before fits project include input messages pages cursor ≡ ok (map project chosen)

    read_page :
        (pages : ℕ) (cursor : Option Text) (pre init : List Message) (y : Message)
        (rest : List Message)
        → Reads pages
        → whole ≡ pre ++ (init ++ y ∷ rest)
        → page_at id_before fits project include input messages cursor
          ≡ ok (record { items = map project (init ++ y ∷ []); next_cursor = next_after y rest })
        → length (init ++ y ∷ rest) < suc pages
        → read id_before fits project include input messages (suc pages) cursor
          ≡ ok (map project (init ++ y ∷ rest))
    read_page pages cursor pre init y [] later split here lt = read_last pages cursor _ here
    read_page pages cursor pre init y (r ∷ rest) later split here lt =
        let far : whole ≡ (pre ++ init) ++ y ∷ r ∷ rest =
          split ∙ sym (append_assoc pre init (y ∷ r ∷ rest)) in
        let on : whole ≡ ((pre ++ init) ++ y ∷ []) ++ r ∷ rest =
          far ∙ sym (append_assoc (pre ++ init) (y ∷ []) (r ∷ rest)) in
        let listed : IsListed y =
          All_at IsListed (pre ++ init) y (r ∷ rest) (rw far at whole-IsListed) in
        let there =
          page_at_cursor y listed
          ∙ ap (page_of id_before fits project (limit_of input.limit))
              (selected_rest (pre ++ init) y (r ∷ rest) far)
          ∙ page_of_rest (r ∷ rest) in
        let shorter : length (r ∷ rest) < pages =
          omega (arith, lt, length-append init (y ∷ r ∷ rest)) in
        read_more pages cursor _ (map project (r ∷ rest)) y.message_id here
          (later (some y.message_id) ((pre ++ init) ++ y ∷ []) (r ∷ rest) on there shorter)
        ∙ ap ok (
            sym (map-append project (init ++ y ∷ []) (r ∷ rest))
            ∙ ap (map project) (append_assoc init (y ∷ []) (r ∷ rest)))

    read_from : (pages : ℕ) → Reads pages
    read_from zero cursor pre chosen split here lt = absurd (omega (arith, lt))
    read_from (suc pages) cursor pre [] split here lt =
        read_last pages cursor [] (here ∙ unfold page_of in refl)
    read_from (suc pages) cursor pre (x ∷ ms) split here lt =
        let (i, _) = All_at IsListed pre x ms (rw split at whole-IsListed) in
        let fit =
          All-Memᴰ (λ (m : Message). fits (project m ∷ []) m.message_id ≡ true) x messages alone
            i in
        let (init, y, rest, runs, page) = page_of-runs id_before fits project l x ms fit in
        read_page pages cursor pre init y rest (read_from pages) (split ∙ ap (λ ts. pre ++ ts) runs)
          (here ∙ page) (omega (arith, lt, ap length runs))
        ∙ ap (λ ts. ok (map project ts)) (sym runs)

    -- Of a listing that stays as it is, whose messages have ids of their own that are portable, where
    -- every summary fits a page alone, the limit is allowed and the language orders the ids: a reader
    -- that starts without a cursor and follows the cursors comes to an end within one page more than
    -- there are messages to show, and has been shown every one of them once, in order.
    pub read-whole :
        read id_before fits project include input messages (suc (length whole)) none
        ≡ ok (map project whole)
    read-whole =
        read_from (suc (length whole)) none [] whole refl (page_at_start ∙ page_of_rest whole)
          (omega arith)
