-- ===== src/Core/Pages.antt =====
-- `messagePage` of packages/core/src/message-pages.mjs: a page of a listing of messages, the newest
-- first, from after a message that the last page named.
pub mod Runs
pub mod Listing
pub mod Whole
mod Examples
use agents_can_communicate.Base.{
  ℕ, zero, suc, ◌-◌, Bool, true, false, not, ◌&&◌, ◌||◌, Option, none, some, List, [], ◌∷◌, ◌++◌,
  Text, ◌==◌, if◌then◌else◌, filter, find, length, ltb, leb, eqb, Result, ok, err, Exit, require,
  present, ◌>>=◌, ◌>>◌, is_empty,
}
use agents_can_communicate.Base.Sorting.{sort_by}
use agents_can_communicate.Protocol.Fields.{is_portable_id}
use agents_can_communicate.Protocol.Messages.{Message, MessageKind}
use agents_can_communicate.Core.Conversations.Content.{kind_code}

-- DEFAULT_LIMIT
abbrev pub default_limit : ℕ
default_limit = 20

pub record PageInput : Type 0 where
  pub limit : Option ℕ
  pub kind : Option MessageKind
  pub cursor : Option Text

pub record Page {ℓ} (A : Type ℓ) : Type ℓ where
  pub items : List A
  pub next_cursor : Option Text

unfoldable pub limit_of : Option ℕ → ℕ
limit_of none = default_limit
limit_of (some limit) = limit

-- `input.kind === undefined || message.kind === input.kind`
unfoldable pub of_kind : Option MessageKind → Message → Bool
of_kind none m = true
of_kind (some kind) m = eqb (kind_code m.kind) (kind_code kind)

-- The place in a list, where there is one.
unfoldable pub nth {ℓ} : {A : Type ℓ} → ℕ → List A → Option A
nth n [] = none
nth zero (x ∷ xs) = some x
nth (suc n) (x ∷ xs) = nth n xs

id_of : Option Message → Option Text
id_of none = none
id_of (some m) = some m.message_id

-- `message list limit must be an integer from 1 to 500`
unfoldable pub is_limit : ℕ → Bool
is_limit limit = leb 1 limit && leb limit 500

-- `id_before a b` says that `a.localeCompare(b)` is negative; `fits` that the page with these items
-- and this cursor stays within PAGE_BYTES; `project` is `messageSummary` or another projection.
module _ {ℓ} {A : Type ℓ} (id_before : Text → Text → Bool) (fits : List A → Text → Bool)
    (project : Message → A) where
  -- `newestFirst(a, b) < 0`
  unfoldable pub newest_first : Message → Message → Bool
  newest_first a b =
      ltb b.sent_at a.sent_at || (eqb a.sent_at b.sent_at && id_before b.message_id a.message_id)

  -- `anchor === null || newestFirst(message, anchor) > 0`
  unfoldable pub is_after : Option Message → Message → Bool
  unfolding newest_first
  is_after none m = true
  is_after (some anchor) m = newest_first anchor m

  unfoldable pub selected :
      (include : Message → Bool)
      → Option MessageKind
      → (anchor : Option Message) → List Message
      → List Message
  unfolding sort_by newest_first is_after of_kind filter
  selected include kind anchor messages =
      sort_by newest_first
        (filter (λ (m : Message). include m && (of_kind kind m && is_after anchor m)) messages)

  -- `for (const message of selected.slice(0, limit))`
  unfoldable pub fill : (limit : ℕ) → (items : List A) → List Message → List A
  fill zero items ms = items
  fill (suc limit) items [] = items
  fill (suc limit) items (m ∷ ms) =
      let rest = fill limit (items ++ project m ∷ []) ms in
      if fits (items ++ project m ∷ []) m.message_id then rest else items

  -- `items.length < selected.length ? selected[items.length - 1].messageId : null`
  unfoldable pub next_of : (items : List A) → List Message → Option Text
  unfolding nth id_of
  next_of items chosen =
      if ltb (length items) (length chosen) then id_of (nth (length items - 1) chosen) else none

  -- The page of what is selected; an item that does not fit alone is an error.
  unfoldable pub page_of : (limit : ℕ) → List Message → Result (Page A)
  unfolding fill next_of
  page_of limit chosen =
      let items = fill limit [] chosen in
      require (is_empty chosen || not (is_empty items)) Exit.invalid
      >> ok (record { items = items; next_cursor = next_of items chosen })

  -- The message that the cursor names, in the kind that is asked for.
  unfoldable pub anchor_of : PageInput → List Message → Result (Option Message)
  unfolding find of_kind
  anchor_of input messages = elim input.cursor [
    | none ↦ ok none
    | some cursor ↦
        require (is_portable_id cursor) Exit.usage
        >> (present (find (λ (m : Message). m.message_id == cursor) messages) Exit.usage
            >>= λ anchor. require (of_kind input.kind anchor) Exit.usage >> ok (some anchor))
  ]

  -- `messagePage`
  unfoldable pub message_page :
      (include : Message → Bool) → PageInput → List Message → Result (Page A)
  unfolding anchor_of page_of selected is_limit limit_of
  message_page include input messages =
      require (is_limit (limit_of input.limit)) Exit.usage
      >> (anchor_of input messages >>= λ anchor.
          page_of (limit_of input.limit) (selected include input.kind anchor messages))
