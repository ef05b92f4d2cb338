-- ===== src/Lib.antt =====
-- The SQL editor of the web client of sqlwarden, the part of frontend/src/components/ide that keeps
-- state and decides, without its rendering.
--
-- The editor shows panes in a tree of splits, and tabs in the panes (Layout, of ideLayout.ts). A
-- store keeps the open tabs, one layout for each workspace, the database sessions and the runs of
-- each tab with their results (Store, of useIdeStore.ts, with the records of lib/api/types.ts in
-- Api; what is persisted of it, and the migration of an older version, in Store/Persist, and
-- consoles in Store/Consoles). Running statements goes through the store: a run is begun and old
-- ones evicted (Execution/History, of useBeginRun.ts and resultRunHistory.ts), the statements of a
-- batch run in order (Execution/Batch, of runStatementBatch.ts), each over a session that is made
-- again once if it is gone (Execution/Session, of sessionErrors.ts), further pages of a result are
-- added (Execution/Paging, of cursorPaging.ts), and the file of a tab is saved (Execution/Saving, of
-- filePersistence.ts). Statements, of sqlStatements.ts, cuts a text into statements, and Csv, of
-- csv/parseCsv.ts, parses a table; Statements/Snippets marks the matches in an excerpt
-- (searchSnippetHighlight.ts). Completion, of sqlCompletion.ts, scans the text before the cursor to
-- decide whether the completion opens by itself, ranks suggestions, merges two lists of them, and
-- decides which answers of the server come too late. Two windows of one user tell each other which
-- tabs and sessions change (Sync, of storeSync.ts), and a browser may keep the history and the
-- favorites itself (Execution/LocalQueries, of localQueryStore.ts).
--
-- Beside the editor stand the schema browser (Directory, of schemaDirectory.ts), the diagram of
-- tables (Diagram, of schema-diagram/diagramModel.ts, on the keys of lib/api/scope.ts in Scope), the
-- gates of schema edits (Capability, of schemaEditCapability.ts and generateStatementCapability.ts),
-- what views show while they load (Execution/Views, of the two files viewState.ts), and the form of
-- an organization's runtime settings (Settings, of lib/api/runtime-settings-form.ts).
--
-- Values has the units of settings (lib/units.ts), the moves of the selected cell
-- (resultGridNav.ts), result cells (resultValues.ts, object-detail/previewData.ts) and checks of
-- permissions (lib/permissions.ts). Common has the shared notation, lists, arrays and dictionaries,
-- and Tests the theorems at concrete inputs.
--
-- Names are those of the source in snake case: closeTab is close_tab, and a helper of an operation
-- stands above it. A dictionary is an association list that is read by lookup alone. An action takes
-- the state and gives the next one; `none` is the TypeError of an action that reads `.id` of the
-- first pane of a layout that has none, or, of an operation on layouts, the answer that nothing
-- changed, which the source gives by returning its argument itself. New ids, the time, and what a
-- request answers are arguments. An abort controller is its identity, and the calls of abort are a
-- log in the state.
--
-- The loops are structural. The loop of ensureSession has no bound in the source; here it has fuel
-- for two rounds, which is enough, as is proved. While a request is awaited, nothing else changes
-- the store; the session that useEnsureSession finds is that of the last rendering. A batch is the
-- sequence of the calls it makes, which are then played on a store in that order. The search of the
-- diagram has fuel for the room below its bound and for its queue, since each round takes one table
-- off the queue and queues only those it adds; the highlighting of an excerpt has fuel for its
-- length, since each match moves the cursor.
--
-- Built-in functions that depend on Unicode or on a locale (toLowerCase, localeCompare,
-- encodeURIComponent) are arguments; numbers are printed and read in Common/Numerals, with fuel for
-- as many digits as the number is large, and where no more than the text of a number is needed, its
-- printing is an argument.
--
-- The scan before a completion has fuel for the units of the text, since each turn reads one. Scores
-- of suggestions are natural numbers.
--
-- Not modelled: the key bindings, dialects and cached vocabularies of the completion, the labels of
-- kinds in the schema browser, the JSON signature of a table's details, the lock that makes a window
-- primary, sizes of panes beyond storing them, formatting for a locale, React components and
-- effects, and the server. `results[index] = result` at an index that leaves a hole in the array
-- changes nothing here.
mod Common
pub mod Api
pub mod Layout
pub mod Store
pub mod Execution
pub mod Values
pub mod Statements
pub mod Tests
pub mod Completion
pub mod Csv
pub mod Settings
pub mod Capability
pub mod Directory
pub mod Sync
pub mod Scope
pub mod Diagram
