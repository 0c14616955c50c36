-- ===== src/Lib.antt =====
-- KBO Workbench: the compiler that turns a relayed game ledger into states, plays and a box score.
--
-- The program. packages/contracts describes a game document: the metadata, the rosters and a ledger
-- of relay rows (half-inning starts, batters, pitches, plate results, runner movements,
-- substitutions, reviews, administrative and unresolved rows). packages/game-core compiles it.
-- buildPlayIndex links the rows that make one play; then each row is applied to a copy of the state
-- and of the context (findings, completed plate appearances, player lines), and the copy is kept
-- only when the row adds no blocking finding. A play moves its runners as one transition, which
-- either succeeds as a whole or changes nothing. Behind a row the state is compared with what the
-- source observed, and behind the last row the open half inning is closed. Pitch facts and
-- baserunner lines are derived from the frames and plays, the tracking candidates are checked against
-- the facts and the official records against the lines, and the output is sorted. A document is
-- compiled only when the semantic check of packages/contracts finds no issue in it.
-- packages/correction edits a document by batches of commands on its rows, tracking candidates,
-- rosters and official records. The correction sessions of apps/server keep a working copy of a
-- document with an undo and a redo history, compile it after each change, and hand it to the
-- workspace when it is committed; a store keeps at most 64 of them.
--
-- The files.
--   Prelude, Collections    tests on numbers, lists, maps as association lists, stable sorting
--   Contracts/Event         packages/contracts/src/game-document/{primitives,identity,events}.ts
--   Contracts/Document      packages/contracts/src/game-document/document.ts
--   Contracts/Records, Contracts/Tracking
--                           packages/contracts/src/game-document/records.ts
--   Contracts/Text, Contracts/Semantics
--                           packages/contracts/src/game-document.ts
--   Rules/Counts            packages/game-core/src/rules.ts: applyPitchCall,
--                           isWalkTransferredToPreviousPitcher
--   Rules/Results           packages/game-core/src/rules.ts: isAtBat, isHit,
--                           requiredBatterDestination, thirdOutCancelsEveryRun
--   Rules/Terminal          packages/game-core/src/rules.ts: findTerminalPitchForPlateResult
--   Game                    packages/game-core/src/types.ts, packages/game-core/src/compiler/model.ts
--   Movement/Order          packages/game-core/src/compiler/movement-engine.ts: orderPlayMovements
--   Movement/Placement, Movement/Transition
--                           packages/game-core/src/compiler/movement-engine.ts: transitionMovements
--   Compiler/Context, State, Statistics
--                           findings.ts, state.ts and statistics.ts of
--                           packages/game-core/src/compiler
--   Compiler/Responsibility, PlayMovements, PlatePlay, IndependentPlay
--                           packages/game-core/src/compiler/plate-play.ts
--   Compiler/EventHandlers, EventTransition
--                           packages/game-core/src/compiler/event-transition.ts
--   Compiler/PlayIndex, Reviews, Headers
--                           packages/game-core/src/compiler/play-index.ts
--   Compiler/Observed, Compiler/FinalScore
--                           packages/game-core/src/compiler/observed-state-validation.ts
--   Compiler/Replay, RowChecks, Ledger, Finish
--                           packages/game-core/src/reducer.ts
--   Facts/Pitch, Facts/Baserunner
--                           packages/game-core/src/compiler/derived-facts.ts
--   Compiler/Official       packages/game-core/src/compiler/official-record-validation.ts
--   Reducer/Order           compareFindings, comparePlayerLine, compareCanonicalStrings
--   Reducer/Compile         packages/game-core/src/reducer.ts: compileStagingGameDocumentV2
--   Validation/Tracking, Validation/Linked
--                           packages/game-core/src/compiler/validation.ts
--   Correction/Rows, Correction/Rosters, Correction/Commands
--                           packages/correction/src/commands.ts, and the decoding of a draft of
--                           packages/contracts/src/game-document.ts
--   Correction/Tracking, Correction/Contexts
--                           packages/correction/src/tracking-commands.ts
--   Correction/Preview      packages/correction/src/preview.ts
--   Server/StoredFindings   apps/server/src/correction-snapshot.ts
--   Server/Session, Server/Commit, Server/Calls
--                           apps/server/src/correction-session-state.ts and the calls on one session
--                           of apps/server/src/correction-session-manager.ts
--   Server/Store            apps/server/src/correction-session-store.ts
--   The other files hold proofs: Canonical and Validated of Contracts; OrderLaws, OrderRunner,
--   TransitionLaws, Failures, Runs, Occupancy and Conservation of Movement; Validity, ValidPlays,
--   HitBases, Sums, Books, Appearances, Balance, BalancedPlays, Walk, Timeline, Outcome,
--   SameDocument and the ConflictFree files of Compiler; PitchLaws, Numbering and Numbers of Facts;
--   Adds, Settled, Single, Official and OfficialAgreement of Validation; Accepted and Output of
--   Reducer; RowLaws, Links, Preserve, Batch, Resolutions, Numbered, Structure, RosterLaws,
--   StructuredCommands, Accepted and Decoded of Correction; Merged, Consistency, Served, History
--   and Capacity of Server.
--   Tests holds sample documents and runs.
--
-- How the code is read. A mutable object is a record that is passed on and returned; cloneState,
-- cloneContext and snapshot copy such an object and are identities of values. Identifiers are
-- strings that the code only compares, and are numbers here. The code of a finding is a
-- constructor and its message is left out. A Map is an association list in the order of insertion,
-- a Set a list without repetition, and Array.sort a stable insertion sort. A function that returns
-- a failure returns `err`. An operation that would throw on an impossible state (a partial plate
-- appearance without an active one) returns `none` and is called only under its guard, as in the
-- source. Numbers are naturals without a bound; where the source subtracts, the minuend is shown
-- or tested not to be the smaller one.
--
-- The preview of a correction compares findings and resolutions by canonicalStringify: the model
-- takes the numbers of those texts, and the hashes, as arguments.
--
-- A call on a session holds its lock, so it is one step; the answers of the workspace, the time and
-- the hashes are arguments of it.
--
-- Bounds. The loop of orderPlayMovements runs on a counter that starts with the number of movements:
-- each round appends one movement or ends the loop, so the counter is the length that is left.
-- Every other loop is recursion on a list.
--
-- Not modelled: the schema checks (a library's), whose shapes are in the types; the source, the
-- planned time and the stadium of a document, the speed and type of a pitch and the strike zone of
-- a tracking candidate, which are copied; the contexts of the rows and the calculated records in
-- the snapshot of a session, which are copied from the result; the record correction proposals; the
-- source evidence of a session; and all other packages. Identifiers are numbered in the order of
-- compareCanonicalStrings.
pub mod Prelude
pub mod Collections
pub mod Contracts
pub mod Rules
pub mod Game
pub mod Movement
pub mod Compiler
pub mod Facts
pub mod Validation
pub mod Reducer
pub mod Correction
pub mod Server
pub mod Tests
