-- ===== src/Lib.antt =====
-- CosmosVote: its governance contract, its off-chain services and the logic of its frontend, modelled and
-- proved.
--
-- The program has these parts. Contracts on Stellar Soroban (contracts/) keep proposals, votes and tokens and
-- publish events. The notification service (notification-service/src) polls an event server and
-- sends each relevant event to the subscribers who asked for it, by e-mail or webhook. The backend
-- (backend/src) is a simpler poller that posts every event to one webhook and reports failures. The
-- frontend (frontend/src) reads the contracts over RPC, keeps stores for the wallet and the proposals,
-- shows them and takes votes, delegations and new proposals. Two scripts (scripts/) watch the events
-- and print the contract's state. The parts meet only in the contracts: in the topics of events, in
-- the codes of errors and in the checks of what is sent.
--
-- Prelude: strings as lists of UTF-16 units with the operations of JavaScript that the source uses,
--   one string in another, lengths in UTF-8, decimal texts, integers with BigInt and parseInt, lists, a log
--   that is read in pages, Boolean tests, and Result for code that throws.
-- Notification: notification-service/src.
--   Types (types.ts); Auth (auth.ts: readKeys, resolveRole, hasRole, requireRole); Subscriptions
--   (subscriptions.ts: addSubscriber, removeSubscriber, getMatchingSubscribers, the cursor; the file
--   is the value that it parses to, or missing, broken or not writable); Channels (channels.ts: the
--   registry and each channel's message); Notifier (notifier.ts: notify); Watcher (watcher.ts:
--   parseEvent, fetchNewEvents, processEvents, poll, startWatcher); Cli (index.ts: main and the
--   commands).
-- Backend: backend/src.
--   Service (notificationService.ts: pollEvents, deliverWebhook, runOnce; errorTracking.ts:
--   captureError); Lifecycle (start, stop and tick as steps over ticks in flight and timers).
-- Frontend: frontend/src.
--   Toasts (components/ToastContext.tsx); Toast (components/Toast.tsx); Search (App.tsx: the search and
--   its query); Dashboard (components/UserDashboard.tsx); Menu (components/Header.tsx); Pages
--   (components/Pagination.tsx and the paging of App.tsx);
--   Analytics (analytics.ts); Polling (hooks/usePolling.ts); Wallet (store/walletStore.ts);
--   Proposals (store/proposalStore.ts with the readers of api.ts); Access (config.ts and the calls
--   of api.ts); Events (events.ts); Errors (errors.ts, against contracts/governance/src/types.rs);
--   Theme (useTheme.ts); Language (i18n.ts); Delegation (components/DelegationPanel.tsx); Format
--   (utils.ts); Quorum (components/ProposalCard.tsx); Forms (Create with components/
--   CreateProposalForm.tsx: fieldError, the handlers, the submission and the wait for its
--   confirmation; New with components/NewProposalForm.tsx: validateField and the handlers;
--   Contract with the input checks of create_proposal in contracts/governance/src/lib.rs).
-- Scripts: scripts.
--   Monitor (monitor.js: detectAnomalies, fetchEvents, main); AdminMonitor (admin_monitor.js:
--   startMonitor, sendSlackAlert); Inspect (inspect-state.js: parseFlags,
--   invokeView, fetchProposals and the commands).
-- Contracts: contracts.
--   Governance (governance/src/lib.rs, with types.rs and storage.rs): Voting (cast_vote, retract_vote,
--   change_vote), Proposing (create_proposal, amend_proposal, finalise, execute, cancel), Admin (initialize
--   and the calls of the administrator), History (all calls, and lists of them). Calls, Ends and Configured
--   show what a call that succeeds has found and stored, Accepting what a vote requires and leaves; Tally,
--   Kept and Invariant what the storage keeps; LifeCycle how a proposal moves.
--
-- How code is modelled. A class, store or hook is a record, and each method or handler a function on
-- it, with the source's guards and early returns. What throws returns a Result. Code that waits is
-- cut at its waits: what may happen between them is an inductive relation of steps, and
-- invariants are proved by induction on it. The children of a module hold its theorems, and its
-- Examples the tests and the instances at concrete inputs.
--
-- Bounds and fuel. Loops run over lists or over a number of rounds that the source computes. The only
-- fuel is that of to_decimal, one more than the number: of_decimal-to_decimal shows that it is
-- enough. The wait for a confirmation runs over the attempts that are left, twenty at first, as the
-- source's does, and the monitor's endless loop over a list of turns. Numbers are natural numbers, exact as
-- JavaScript's are below 2 ^ 53 and as its bigints are, and the contract's i128 where checked_add keeps its
-- bound; the doubles of the forms are an interface (Forms.Doubles) with the laws of Math.round that are
-- used; timers are numbered, and time passes only as steps.
--
-- Parameters. What is not under the repository's sources is an argument: the event server, the mailer and
-- the HTTP client, the RPC server with the Stellar library, the wallet extensions, the browser's
-- storage and language, the Stellar command line, the build's variables, and for the governance contract
-- the ledger, the token's answers and the treasury.
--
-- Not modelled: of the governance contract the choices of a proposal, whose fields types.rs does not declare,
-- the two functions upgrade, the listing of proposals, the authorisation of callers, the overflow of times
-- and the time to live of entries, which has_voted extends even for a flag that is missing, so that a vote can
-- succeed in the model where the contract's call is aborted; texts other than digits that Number reads; the
-- token and treasury contracts, the contracts' logging (notification/), the markup and styles of the components, the rest of App.tsx, which declares the same
-- constants several times, and the shell scripts and deployment.
pub mod Prelude
pub mod Notification
pub mod Backend
pub mod Frontend
pub mod Scripts
pub mod Contracts
