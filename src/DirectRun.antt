-- ===== src/DirectRun.antt =====
-- lib/src/adapters/direct-run-output.adapter.ts and lib/src/direct-run.constants.ts: how a Direct Run
-- request is answered.
--
-- Parameters are what the runtime and the application supply: the decoded chunks of the request,
-- `JSON.parse` and `JSON.stringify`, the two lookups, what the called method does, what happens while
-- `finishTrace` waits, and the callback of a finished trace.
pub mod Methods
pub mod Body
pub mod Route
pub mod Callable
pub mod Resolve
pub mod Limits
pub mod Traces
mod Tests
