-- ===== src/Lib.antt =====
-- A verification library of agents-can-communicate (ACC), the local control plane by which
-- independently opened coding agents exchange messages and claim resources.
--
-- The program's parts (docs/ARCHITECTURE.md). `packages/protocol` owns identifiers, closed record
-- schemas, the meaning of a message and the moves of a receipt. `packages/core` owns sessions,
-- claims, conversations, receipts and what is derived from them; it runs on ports (a store with
-- transactions, a clock, a source of ids). `packages/storage-filesystem` implements the store,
-- `packages/delivery-router` offers a recorded message to a live session through an adapter, and
-- the clients (`packages/cli`, `packages/mcp-server`, `packages/hook-runner`, the adapters) call
-- core. This library models the protocol, the core and the router.
--
-- Which file models which part:
--   Base          tests, lists, texts, results; Base/Table is the records of one kind in a
--                 transaction (packages/storage-filesystem/src/transaction-view.mjs)
--   Protocol      packages/protocol/src: States (states.mjs), Messages (conversations.mjs,
--                 decision-changes.mjs, the message record of schema.mjs), Fields (ids.mjs,
--                 fields.mjs), Resources (resources.mjs)
--   Core/Records      the durable records of packages/protocol/src/schema.mjs and the events
--   Core/Transaction  the body of `store.transaction` as a state and error monad; Posts has the
--                     rules by which its results are proved
--   Core/Overlaps     `overlaps` of packages/core/src/claims.mjs
--   Core/Claims       packages/core/src/claims.mjs and claim-selectors.mjs: `acquire`; Release has
--                     `renewClaim` and `removeClaims`
--   Core/Receipts     packages/core/src/receipts.mjs
--   Core/Conversations  `recordMessageInTransaction` of packages/core/src/conversations.mjs, with
--                     message-retry.mjs (Content, Recording) and decision-changes.mjs (Changes);
--                     Finish is `finishSession`
--   Core/Inbox        packages/core/src/inbox.mjs: read one message, acknowledge, reply
--   Core/Snapshot     the records outside a transaction, and the numbered log
--   Core/Decisions    packages/core/src/decision-state.mjs: `decisionView`
--   Core/Prune        packages/core/src/prune.mjs: `planPrune`, and a pass that removes its entries
--   Core/Bindings     packages/core/src/delivery-bindings.mjs
--   Core/Pages        packages/core/src/message-pages.mjs: `messagePage`
--   Core/Opening      packages/core/src/session-opening.mjs: the records, the checks, `openDurable`
--   Core/NextTurn     packages/core/src/next-turn-delivery.mjs
--   Core/FinishRetry  packages/core/src/finish-retries.mjs: `reconstructFinishRetry`
--   Core/Intents      packages/core/src/intents.mjs, once a workspace is durable
--   Core/Sessions     packages/core/src/sessions.mjs: presence, heartbeat, notices, resume, close
--   Router            packages/delivery-router/src: router.mjs; Offering has `offerTo`, in stages
--                     from its end to its beginning, and `offer`; Refresh is refresh-binding.mjs; Reasons has the
--                     vocabularies of packages/adapter-sdk/src
--
-- How the model corresponds to the code. A JavaScript string is the list of its UTF-16 code units.
-- A time is a number of milliseconds (`Date.parse` of a canonical timestamp), a number of seconds or
-- a pid is a natural number. A field that is one of a few strings is a data type. An `AccError` is
-- its exit code: the message and the details of an error are left out. A transaction body is a
-- function from the state of the transaction to an error, which discards its writes, or to a result
-- and the new state. What a handler reads before its transaction (the located session) is an
-- argument of its own, any session at all, so other transactions may have come between. `exactKinds`
-- and `tx.load` only say which records are read and are left out; every record is at hand. The
-- generations of storage envelopes are left out: core puts a record under the generation that it
-- has just read in the same transaction. Two extensions of a session record and two of a receipt
-- record are fields.
--
-- Parameters, for code that is not in the repository: `fresh` for the ids that `ids.next` and
-- `createId` hand out, `receipt_id` for the SHA-256 digest of `receiptId`, `pid_is_alive`, a port,
-- for the probe of a process, `before` and `id_before` for `localeCompare`, and `fits` for the size
-- of a page in bytes. What the services, an adapter and the clock answer the router is a record of
-- answers, any answers at all, and `version_rule` is what `evaluateVersionContract` says of the
-- version of a client.
--
-- Every recursion is structural, on a list or on a bound that is given with a proof, but for the
-- walk of `decisionView`: it runs on fuel, as much as there are decisions, which is enough since
-- every round takes one known decision off the stack and none is put there twice. The reader of
-- Core/Pages, who follows cursors, reads so many pages, and one page more than there are messages
-- is enough.
--
-- Not modelled: the file system (locks, journals, recovery, index trees), the clients and adapters,
-- which are glue around vendor tools, the other read models over a snapshot, and the texts of errors.
pub mod Base
pub mod Protocol
pub mod Core
pub mod Router
