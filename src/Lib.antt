-- ===== src/Lib.antt =====
-- Nest Graph Inspector, the parts that decide: who may read an inspected application's endpoints, and
-- what the graph that they serve says.
--
-- lib/src/access-attempt-limiter.ts is Limiter: the tracker of clients that fail to present a token.
--   The class's fields are the record Limiter, `check`, `recordFailure`, `recordSuccess`, `evict` and
--   `evictionCandidate` are check, record_failure, record_success, evict and eviction_candidate.
--   Limiter/Evict, Bounds, Blocks and Eviction prove what is listed below.
-- lib/src/access-token.service.ts is Token: `mint`, `verify`, `current` and the guard that
--   `createHttpGuard` returns, which asks the limiter before it looks at the token. HMAC, JSON,
--   base64url and random bytes are the record Platform and arguments; what is relied on is named in
--   Digests (Token/Verify) and RoundTrips (Token/Current).
-- lib/src/graph-output.builder.ts is Builder: the tree of modules that the discovery returns is
--   flattened (`flattenModuleTree`), its dependency texts become references (`enrichDependency`), and
--   cycles are searched (Builder/Output: `findGraphCycles`; Builder/Injections says what its edges are).
--   The search itself is in Graph (`findReachableKeys`, `findPath`) and Cycles (`findCycles`,
--   `getCanonicalCycleKey`).
--   lib/src/types/graph-output.type.ts and module.type.ts are the records.
--   Builder/TypeCode renders the types of parameters within a length (`typeToTypeScriptCode`); the
--   compiler's answers are parameters.
-- lib/src/adapters/http-serve.adapter.ts is Serve: `register` fills a table of routes, and
--   `handleRequest` (Serve/Handle) finds a route, asks its `authorize`, which for the inspector's
--   endpoints is Token's guard, runs its callback and answers. Serve/Registry is the map of servers by
--   origin (`serverState`, `close`, `resolveDynamicPort`). Callbacks, the URL class and what `writeHead`
--   refuses are parameters; Serve/Access, Rejected, Candidates, Wildcards and Origins prove what is
--   listed. A state is filed once, so what is assigned to its URL is seen where it is filed.
-- lib/src/runtime-trace.recorder.ts is Recorder: the class's three maps are the record Recorder, its
--   methods keep their names. `finishTrace` is mark_pending_spans_not_awaited before its wait and
--   complete after it. Recorder/Run is `recordSpan` in code that does not wait, Recorder/Resumes is a run
--   whose code goes on after a wait; Recorder/Steps lets all calls interleave.
-- lib/src/adapters/direct-run-output.adapter.ts is DirectRun: Methods resolves a method, Body reads the
--   body, its target and its arguments, and Route is the callback of `createRoute`, which hands the run
--   to Recorder. The request's stream, JSON, the lookups and the called method are parameters.
-- site/app/utils/architecture-issues.ts is Issues, and circular-dependency-issues.ts beside it is
--   Issues/Circular: what the viewer reports about a graph output of Builder.
-- site/app/utils/trace-waterfall.ts is Waterfall: the rows in which the viewer shows a trace of Recorder.
-- site/app/utils/graph-file.ts, with graph-output-support.ts beside it, is GraphFile: the checks of a
--   graph file that a visitor opens, up to the result. JSON.parse and JSON.stringify are parameters.
-- site/app/utils/graph-viewer-edges.ts is Edges: kinds, visibility and redrawing of the viewer's edges.
-- Prelude holds JavaScript's own data: Map and Set as lists in the order of insertion, string methods,
--   a stable sort, Boolean tests on numbers.
--
-- Numbers are natural numbers: the source's times, counts and ids are. An option, which may be any
-- JavaScript number, is a Number of the limiter. The clock is an argument of each operation.
-- Loops: both graph searches run on fuel, one round for each edge and one more, since a key is expanded
-- once; the theorems on them need no fuel condition. The `while` loop of `evict` gets a round for each
-- client, and each round deletes one, and so does that of `persistCompletedTrace`. The walk of
-- `reachableModules` gets a round for each import and one more. The levels of `typeToTypeScriptCode`
-- count down from MAX_TYPE_RENDER_DEPTH. `visit` of the waterfall gets a round for each span of its two
-- loops and each child. All other loops are structural.
--
-- Not modelled: the discovery of modules from the container and of metadata from sources, both by
-- reflection; the rest of the builder, which collects Direct Run metadata; the logs; the HTTP server's
-- sockets; floating-point positions; the rest of the viewer under site/. Object keys are a list in
-- the order of insertion: that a plain object moves integer-like names to the front and inherits names such as `constructor` is not
-- modelled. A callback that never settles is not modelled. A request's several readings of the clock
-- are one number. A fraction in maxBodySizeBytes or in a token's payload is not modelled. Of localeCompare
-- only a preorder is relied on, which may find different texts equal.
pub mod Builder
pub mod Cycles
pub mod DirectRun
pub mod Edges
pub mod Graph
pub mod GraphFile
pub mod Issues
pub mod Limiter
pub mod Prelude
pub mod Recorder
pub mod Serve
pub mod Token
pub mod Waterfall
