-- ===== src/Lib.antt =====
-- The workflow builder of LangOrch, modelled from frontend/src/builder-v2, with the parts of the
-- frontend around it that show its runs, call its backend and compare its workflows.
--
-- The builder edits a draft: a document of nodes with transitions. The registry gives each kind of
-- node its title, its transition keys and its first configuration. The store has the operations on
-- a draft, the history wraps them with undo and redo, the validation reports errors and warnings,
-- the export turns the draft into the workflow that the backend runs, and the overlay shows a run
-- of it on the canvas. The components call the store only through the history's `applyDraftChange`,
-- and the validation, the export and the overlay read what it holds.
--
-- Files and code (paths from frontend/src):
--   Draft, Draft/Registry: builder-v2/reference-contract.ts and
--     builder-v2/registry/node-definitions.ts;
--   Store: builder-v2/store/builder-store.ts, one function per exported function and the same
--     names in snake case; Store/Ids has the facts on new identifiers, Store/Closed the
--     well-formed drafts and the calls as a data type of edits, Store/Legacy and Store/Normal the
--     loading of older documents;
--   History: builder-v2/state/use-draft-history.ts; the hook's three lists and the base of a drag
--     are the record `DraftHistoryState`, each callback is a function on it; History/Timeline is
--     what the hook promises, a line of revisions with a cursor;
--   Validate: builder-v2/validation/validate-draft.ts; Validate/Nodes has the rules of a node,
--     Validate/Reach the breadth-first walk, Validate/Cycles the depth-first search for cycles,
--     Validate/Document the whole report;
--   Export: builder-v2/transforms/draft-to-ckp.ts; Export/Convert reads untyped values,
--     Export/Normalize makes lists and texts of them, Export/Kinds has what each kind assigns, in
--     order;
--   Inspector: builder-v2/inspector/editor-schema.ts, the reading, writing and checking of form
--     values;
--   Access: lib/auth.ts (roles) and proxy.ts (which requests go to the login page);
--   Redact: lib/redact.ts, the hiding of secrets in displayed values;
--   Overlay: builder-v2/execution/run-overlay.ts; Overlay/Traversals counts the steps between
--     nodes, Overlay/States folds the events to a state for each node;
--   Import: builder-v2/transforms/ckp-to-draft.ts and ckpToRf of builder-v2/legacy/transforms.ts;
--     Import/Edges has the edges, Import/Nodes the data of a node, Import/Plain the way of a draft
--     there and back;
--   Diff: app/procedures/[id]/[version]/page.tsx, the comparison of two versions line by line;
--   Gateway: app/api/[...path]/route.ts, the requests passed on to the first backend that answers;
--   Client: lib/api.ts; Client/Request has `request`, one module for each group of calls has their
--     paths, queries and bodies, Client/Steps the two functions that do more; Client/Routes has
--     the routes of the backend, from backend/app, Client/Urls what is known of encoding and URLs,
--     Client/Delivery and Client/Forwarding the way of a call to its handler;
--   Editors: builder-v2/inspector/shared/structured-editors.tsx, the editing of objects and lists;
--   RunPage: app/runs/[id]/page.tsx, the states and summaries that the page of a run shows;
--   Shell: builder-v2/components/BuilderShell.tsx and
--     builder-v2/state/use-builder-keyboard-shortcuts.ts, what the shell does with the history,
--     the validation and the export, and the two steps of a save; Shell/Sessions has the sequences
--     of changes and saves;
--   Cases: app/cases/page.tsx, the analytics of the queue of cases;
--   Base: Boolean tests, lists, integers, texts, objects and tables.
--
-- Parameters stand for code of the platform and of packages: `parse_json` (JSON.parse, `none` where
-- it throws), `print_json`, `print_draft` and `print_workflow` (JSON.stringify), `decode_atob` and
-- `decode_buffer` (base 64 and JSON), `ceil_product` (Math.ceil of a product), `parse_number` (Number of a text), `dagre` (the layout engine), `time`, `precedes` and
-- `event_number` (dates, localeCompare, the number of an identifier), `encode`, `decode`, `fetch`,
-- `print_query`, `read` and `construct` (encodeURIComponent, the decoding of it, the request,
-- URLSearchParams, the decoded segments of a URL, the constructor of a response), `dispatch` (the web
-- framework of the backend). Numbers, coordinates and times are whole. A text is the list of its
-- code points. The fields of an object stay in the order of insertion, so keys that read as array
-- indices are not moved to the front, and no identifier is a name that every object inherits.
-- Errors that the code pushes to a list are that list, in order.
--
-- Fuel: the search for a free identifier tries as many indices as the draft has nodes, plus one,
-- and one of them is free; the walk has as much as there are transitions, plus one, and every step
-- takes one entry off a queue that gets each transition once at most; the cycle search has one step
-- per node and one more, and each call enters a node that no earlier call entered. The theorems are
-- stated for the fuel that the code's definitions give.
--
-- Not modelled: the React components and pages (rendering and event wiring), the event stream, the
-- session storage, `rfToCkp`, which nothing calls, the rendering of the inspector, and the backend
-- but for its table of routes: it is written in Python.
mod Base
pub mod Draft
pub mod Store
pub mod Client
pub mod Gateway
pub mod Import
pub mod History
pub mod Cases
pub mod Diff
pub mod Editors
pub mod Export
pub mod Overlay
pub mod RunPage
pub mod Access
pub mod Inspector
pub mod Redact
pub mod Shell
pub mod Validate
