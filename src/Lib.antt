-- ===== src/Lib.antt =====
-- Headtower is an operator's console for a Headscale tailnet. This library models the part of
-- it that decides something: the access policy (reading, checking, writing and evaluating it),
-- the roles and the gate of every mutation, the accounts and their sessions, the configuration,
-- the approval of routes, the notes on machines, and how a machine is shown and found. Paths
-- below start at the repository's root.
--
-- How the program's parts interact: the policy page parses a HuJSON document into an editable
-- model, evaluates reachability questions on the model and writes the model back over the
-- parsed root. Every server action first passes the gate, which takes the session and the
-- capability map, then reads and writes either the local database (members) or Headscale's REST
-- interface (routes), and ends with one audit entry.
--
-- Which file models what:
--
-- - Prelude and its children: lists, JavaScript strings as lists of UTF-16 code units (`Text`;
--   `lit` is a literal of the source), sets of strings in insertion order, sorting by code
--   units, the string methods that the source calls, the 32-bit operators and the doubles that
--   a port comparison meets.
-- - Json: the values of `JSON.parse` and plain objects with the order of their own keys. A
--   write puts array indices first and makes no key `__proto__`, as the language does.
--   Json/Objects has the laws.
-- - Language: what JavaScript's `toLowerCase`, `Number` and `String` answer, as a record that
--   the policy code takes as a parameter; Language/Sample is an instance for the examples.
-- - Policy/Tokens, for src/lib/policy/tokens.ts: `classifyToken`, `splitDstPorts`,
--   `portMatches`, `parseIpv4Range`, `ipv4RangesOverlap`.
-- - Policy/Model, for src/lib/policy/model.ts: the types here, `parse*` in Policy/Model/Parse,
--   `build*`, `emit`, `serialize*` in Policy/Model/Write. Policy/Model/Canonical says what a
--   document in the editor's shape is. Policy/Document has `parsePolicy`, `serializePolicy` and
--   `roundTripPolicy`, with JSON.parse and JSON.stringify as parameters.
-- - Policy/Hujson, for src/lib/policy/hujson.ts: `stripHujson` as a loop over the characters
--   whose place in a string or a comment is a mode, then the trailing commas; `validateHujson`.
-- - Policy/Lint, for src/lib/policy/lint.ts: the reference sites in Policy/Lint, the loop over
--   the references in Policy/Lint/References, the three-valued coverage of Taildrive in
--   Policy/Lint/Coverage, the remaining findings in Policy/Lint/Sections and `lintPolicy` in
--   Policy/Lint/Report. An error that is thrown is the answer `none`.
-- - Policy/Eval, for src/lib/policy/eval.ts: `expand`, `covers`, `normalizeProto`,
--   `ipEntryAllows` and `evaluateReachability`, whose question and answer are in
--   Policy/Eval/Query. The notes are the state of a computation. The recursion of `expand` runs
--   on fuel, which is the depth of the call stack: twice the number of groups and two more are
--   enough where no host alias stands for an alias, and where one stands for itself the call
--   does not end, which the answer `none` shows. Policy/Eval/Spec says when a policy lets a
--   question through, independently of the search.
-- - Rbac and Authz, for src/lib/rbac/index.ts, src/lib/auth/index.ts, src/lib/authz/index.ts
--   and the writing half of src/lib/audit/index.ts: `can`, `getSession`, `authorize`, `audit`.
--   A missing session is an outcome of its own, for the error that `requireSession` throws.
--   Whether the store takes an audit row is an argument, since the code swallows a failure.
-- - Sessions, for src/lib/auth/session.ts and src/lib/auth/session-token.ts: the rows of the
--   session table with their expiry, `createSession`, `loadSession`, `endSession`,
--   `purgeExpiredSessions`. The token library is two parameters.
-- - Members, for src/app/(app)/settings/members/actions.ts and `upsertOidcUser` of
--   src/lib/auth/session.ts: the table of accounts is a list, each SQL statement a function on
--   it. The two writes take the account as it was read, so that they can also be run on a table
--   that has changed since: Members/Interleavings has the step relation of the statements of
--   concurrent requests.
-- - Settings and Config, for src/lib/db/settings.ts, src/lib/config/index.ts and the actions
--   that write the configuration (src/app/setup/actions.ts, the connection and agent settings,
--   the dashboard's switch): the store is an association list; `setConfig` is a computation on
--   it that an error ends, with what has been written kept. What Node gives (the environment,
--   the URL parser, hashing, the cipher, Base64, UTF-8) is a record, and Config/Lawful states
--   what the code relies on in it; random bytes are an argument. Config/Overlay says what an
--   update is meant to give. A database that cannot be opened is the empty store.
-- - Revisions, for src/lib/db/policy-revisions.ts, src/lib/db/policy-revision-types.ts and, in
--   Revisions/Actions, the actions of src/app/(app)/access: the table with the id that comes
--   next, which is never used again; the digest and the control plane are parameters, and a
--   step of an action is atomic.
-- - Snapshots, for src/lib/sampler/index.ts, src/lib/db/snapshots.ts and
--   `captureTailnetSnapshot` of src/app/(app)/dashboard/actions.ts: the table of samples in the
--   order of its inserts; a tick takes the times at its three looks at the clock (before it
--   asks, at the check and at the stamp of the write), and the visits that come in while it
--   asks; a write by itself is not interrupted, and the store may throw at each of its
--   statements.
-- - Access, for `testReachability` of src/app/(app)/access/actions.ts: the reader of documents
--   and the evaluator one after the other, twice. The call depth is the one that is enough for
--   the policy at hand.
-- - Routes, for src/lib/routes.ts, src/lib/headscale/routes.ts and, in Routes/Batch and
--   Routes/Actions, src/app/(app)/routes: the control plane is a record with a state of any
--   type, a read and a write that may fail with a text. Routes/Plane has the step relation of
--   that state.
-- - Metadata, for src/lib/db/node-metadata-types.ts, src/lib/db/node-metadata.ts and, in
--   Metadata/Actions, src/app/(app)/machines/[id]/metadata-actions.ts: the table of notes,
--   environments and labels is a list of rows; a value of the wrong type is `none`, a store
--   that cannot be read is `none`, and whether it takes a write is an argument.
-- - Machines, for src/lib/machines.ts: `nodeTags`, `splitAddresses`, `relativeTime` and the
--   lists of routes here, `toNodeView` with its flags in Machines/View, `nodeDot`, `hasIssue`
--   and `matchesStatus` in Machines/Status; `Date.parse` is a parameter. Machines/Filter has
--   `matchesQuery` and src/components/machines/use-machines-filter.ts: the filters, and the
--   parameters that the hook writes to the URL and reads from it. A `URLSearchParams` is its
--   list of pairs, whose `set` replaces lone surrogates (Prelude/Scalars); its text, and what
--   `useSearchParams` gives on the page at a URL, are parameters.
-- - Charts, for src/components/charts/series.ts: `runsOfPresent`, whose loop has the index and
--   the start of the open run as arguments.
--
-- Not modelled: the pages and components, the other actions on machines, those on users, keys
-- and the other settings, the effects of the hooks, the check for updates, the database schema
-- beyond the accounts, the REST client, sign-in against an identity provider, the session
-- secret and the cookie's attributes, the rest of the charts, and the agent; and creation times
-- of rows.
pub mod Access
pub mod Authz
pub mod Charts
pub mod Config
pub mod Json
pub mod Language
pub mod Machines
pub mod Members
pub mod Metadata
pub mod Policy
pub mod Prelude
pub mod Rbac
pub mod Revisions
pub mod Routes
pub mod Sessions
pub mod Settings
pub mod Snapshots
