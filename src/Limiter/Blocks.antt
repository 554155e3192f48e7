-- ===== src/Limiter/Blocks.antt =====
-- lib/src/access-attempt-limiter.ts: when a client is blocked, and what lifts a block.
use nest_graph_inspector.Prelude.{
  ℕ, suc, ◌+◌, ◌≤◌, ◌<◌, String, ◌==◌, ◌≡◌, refl, ap, ◌∙◌, ◌↔◌, ◌⊎◌, inl, inr, true, ◌&&◌, none,
  some, List, [], ◌∷◌, arith, ltb, leb, length, if◌then◌else◌, eq_refl, All, Option-cases,
}
use nest_graph_inspector.Prelude.Sets.{has}
use nest_graph_inspector.Prelude.Maps.{
  get, keys, length-set-le, length-set_of_has, is_some-get, get-set,
}
use nest_graph_inspector.Limiter.{
  ClientRecord, Clients, Limiter, is_blocked, check, counted, record_failure, size, is_blocked_at,
}
use native.Mathlib.Nat.{zero-add}
use nest_graph_inspector.Limiter.Bounds.{IsValid, record_failure-IsValid}

-- An enabled limiter turns a client away exactly while its record names a later end of a block.
pub check-blocked_iff :
    (now : ℕ) (c : String) (l : Limiter)
    → l.enabled ≡ true
    → (is_blocked (check now c l).0 ≡ true)
      ↔ ((r : ClientRecord) × (get c l.clients ≡ some r) × (is_blocked_at r now ≡ true))
unfolding check
check-blocked_iff now c l h = elim (Option-cases (get c l.clients)) [
  | inl missing ↦ ground arith
  | inr (r, e) ↦ (λ b. (r, e, ground arith), λ (r', e', b). ground arith)
]

-- The client has a record or there is room for one.
abbrev pub HasRoom : String → Limiter → Type 0
HasRoom c l =
    (has c (keys l.clients) ≡ true) × (size l ≤ l.max_tracked_clients)
    ⊎ (size l < l.max_tracked_clients)

pub get-record_failure :
    (now : ℕ) (c k : String) (l : Limiter)
    → l.enabled ≡ true
    → HasRoom c l
    → get k (record_failure now c l).clients
      ≡ (if c == k then some (counted l now (get c l.clients)) else get k l.clients)
unfolding record_failure
get-record_failure now c k l on room = ground (
  arith,
  get-set c k (counted l now (get c l.clients)) l.clients,
  length-set_of_has c (counted l now (get c l.clients)) l.clients,
  length-set-le c (counted l now (get c l.clients)) l.clients,
)

-- What no operation changes.
pub record SameSettings (l m : Limiter) : Type 0 where
  pub enabled : l.enabled ≡ m.enabled
  pub max_failures : l.max_failures ≡ m.max_failures
  pub window_ms : l.window_ms ≡ m.window_ms
  pub block_ms : l.block_ms ≡ m.block_ms
  pub max_tracked_clients : l.max_tracked_clients ≡ m.max_tracked_clients

record_failure-SameSettings :
    (now : ℕ) (c : String) (l : Limiter) → SameSettings (record_failure now c l) l
unfolding record_failure
record_failure-SameSettings now c l = ground arith

-- failures of one client at the listed times
unfoldable pub record_failures : String → List ℕ → Limiter → Limiter
record_failures c [] l = l
record_failures c (t ∷ ts) l = record_failures c ts (record_failure t c l)

abbrev pub last_of : ℕ → List ℕ → ℕ
last_of t [] = t
last_of t (u ∷ us) = last_of u us

-- The record after `n` failures of one window, the last of them at `last`.
abbrev pub after_failures : ℕ → ℕ → ℕ → ℕ → ℕ → ClientRecord
after_failures most block start n last = record {
  failures = n;
  window_started_at = start;
  last_seen_at = last;
  blocked_until = if leb most n then some (last + block) else none;
}

pub counted_first :
    (l : Limiter) (t : ℕ) → counted l t none ≡ after_failures l.max_failures l.block_ms t 1 t
unfolding counted
counted_first l t = ground arith

counted_again :
    (l : Limiter) (t start n last : ℕ)
    → t < start + l.window_ms
    → counted l t (some (after_failures l.max_failures l.block_ms start n last))
      ≡ after_failures l.max_failures l.block_ms start (suc n) t
unfolding counted
counted_again l t start n last h = ground arith

has_of_get :
    (c : String) (clients : Clients) (r : ClientRecord)
    → get c clients ≡ some r
    → has c (keys clients) ≡ true
has_of_get c clients r e = ground (arith, is_some-get c clients)

-- The settings that the failures are counted by.
pub record Counts (l : Limiter) (most span penalty : ℕ) : Type 0 where
  pub valid : IsValid l
  pub on : l.enabled ≡ true
  pub limit : l.max_failures ≡ most
  pub window : l.window_ms ≡ span
  pub block : l.block_ms ≡ penalty

pub record_failure-Counts :
    (t : ℕ) (c : String) {l : Limiter} {most window block : ℕ}
    → Counts l most window block
    → Counts (record_failure t c l) most window block
record_failure-Counts t c {l} h =
    let same = record_failure-SameSettings t c l in
    record {
      valid = record_failure-IsValid t c l h.valid;
      on = same.enabled ∙ h.on;
      limit = same.max_failures ∙ h.limit;
      window = same.window_ms ∙ h.window;
      block = same.block_ms ∙ h.block;
    }

pub get-record_failure_again :
    (c : String) (t : ℕ) (l : Limiter) (most window block start n last : ℕ)
    → Counts l most window block
    → get c l.clients ≡ some (after_failures most block start n last)
    → t < start + window
    → get c (record_failure t c l).clients ≡ some (after_failures most block start (suc n) t)
get-record_failure_again c t l most window block start n last h e lt =
    let room = inl (has_of_get c l.clients _ e, h.valid.bounded) in
    let again : counted l t (get c l.clients) ≡ after_failures most block start (suc n) t =
      rw (e, ← h.limit, ← h.block) (counted_again l t start n last (omega (arith, h.window))) in
    rw (get-record_failure t c c l h.on room, eq_refl c) (ap some again)

pub get-record_failures :
    (c : String) (ts : List ℕ) (l : Limiter) (most window block start n last : ℕ)
    → Counts l most window block
    → get c l.clients ≡ some (after_failures most block start n last)
    → All (λ t. t < start + window) ts
    → get c (record_failures c ts l).clients
      ≡ some (after_failures most block start (length ts + n) (last_of last ts))
unfolding record_failures
get-record_failures c [] l most window block start n last h e _ = rw zero-add e
get-record_failures c (t ∷ ts) l most window block start n last h e (lt, lts) =
    let next =
      get-record_failures c ts (record_failure t c l) most window block start (suc n) t
        (record_failure-Counts t c h)
        (get-record_failure_again c t l most window block start n last h e lt) lts in
    let sum : length ts + suc n ≡ suc (length ts) + n = omega arith in rw (← sum) next

record_failures-Counts :
    (c : String) (ts : List ℕ) {l : Limiter} {most window block : ℕ}
    → Counts l most window block
    → Counts (record_failures c ts l) most window block
unfolding record_failures
record_failures-Counts c [] h = h
record_failures-Counts c (t ∷ ts) h = record_failures-Counts c ts (record_failure-Counts t c h)

check_after :
    (l : Limiter) (now : ℕ) (c : String) (most block start n last : ℕ)
    → l.enabled ≡ true
    → get c l.clients ≡ some (after_failures most block start n last)
    → is_blocked (check now c l).0 ≡ (leb most n && ltb now (last + block))
unfolding check
check_after l now c most block start n last on e = ground arith

-- A client that was not tracked, for whom there is room, fails at `t` and then at the times `ts`, all
-- inside the window that `t` starts. It is turned away from then on if it failed `maxFailures` times
-- or more, until `blockMs` after the last failure, and not otherwise.
pub check-record_failures :
    (c : String) (t : ℕ) (ts : List ℕ) (now : ℕ) (l : Limiter)
    → IsValid l
    → l.enabled ≡ true
    → get c l.clients ≡ none
    → size l < l.max_tracked_clients
    → All (λ u. u < t + l.window_ms) ts
    → is_blocked (check now c (record_failures c (t ∷ ts) l)).0
      ≡ (leb l.max_failures (length ts + 1) && ltb now (last_of t ts + l.block_ms))
unfolding record_failures check
check-record_failures c t ts now l v on new room inside =
    let h : Counts l l.max_failures l.window_ms l.block_ms = record {
      valid = v;
      on = on;
      limit = refl;
      window = refl;
      block = refl;
    } in
    let first : counted l t (get c l.clients) ≡ after_failures l.max_failures l.block_ms t 1 t =
      rw new (counted_first l t) in
    let found =
      get-record_failures c ts (record_failure t c l) l.max_failures l.window_ms l.block_ms t 1 t
        (record_failure-Counts t c h)
        (rw (get-record_failure t c c l on (inr room), eq_refl c) (ap some first)) inside in
    check_after (record_failures c ts (record_failure t c l)) now c l.max_failures l.block_ms t
      (length ts + 1) (last_of t ts) (record_failures-Counts c ts (record_failure-Counts t c h)).on
      found
