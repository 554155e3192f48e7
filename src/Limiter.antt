-- ===== src/Limiter.antt =====
-- lib/src/access-attempt-limiter.ts: the lockout of clients that guess access tokens.
-- Times are milliseconds, and the clock's reading `now` is an argument of each operation. The source
-- tests `now - start < window`, where the difference may be negative; here that is
-- `now < start + window`, which is the same over the integers.
pub mod Evict
pub mod Bounds
pub mod Blocks
pub mod Eviction
mod Tests
use nest_graph_inspector.Prelude.{
  ℕ, zero, suc, ◌+◌, ◌-◌, ◌/◌, String, ◌==◌, Bool, true, false, not, ◌&&◌, ◌||◌, Option, none, some,
  List, [], ◌∷◌, ltb, leb, if◌then◌else◌, get_or, length,
}
use nest_graph_inspector.Prelude.Maps.{get, set, delete}

-- A JavaScript number as an option may hold it: `ratio p q` is p / (q + 1), and `not_finite` stands
-- for NaN and the infinities.
pub data Number : Type 0 where
  not_finite below_zero : Number
  ratio : ℕ → ℕ → Number

-- `positive`
unfoldable pub positive : Option Number → ℕ → ℕ
positive none fallback = fallback
positive (some not_finite) fallback = fallback
positive (some below_zero) fallback = fallback
positive (some (ratio p q)) fallback = if ltb 0 p then p / (q + 1) else fallback

pub record Options : Type 0 where
  pub enabled : Option Bool
  pub max_failures : Option Number
  pub window_ms : Option Number
  pub block_ms : Option Number
  pub max_tracked_clients : Option Number

abbrev pub default_max_failures : ℕ
default_max_failures = 10

abbrev pub default_failure_window_ms : ℕ
default_failure_window_ms = 60_000

abbrev pub default_block_ms : ℕ
default_block_ms = 900_000

abbrev pub default_max_tracked_clients : ℕ
default_max_tracked_clients = 1_000

pub record ClientRecord : Type 0 where
  pub failures : ℕ
  pub window_started_at : ℕ
  pub last_seen_at : ℕ
  pub blocked_until : Option ℕ

abbrev pub Clients : Type 0
Clients = List (String × ClientRecord)

-- The instance's fields. `clients` alone changes.
pub record Limiter : Type 0 where
  pub enabled : Bool
  pub max_failures : ℕ
  pub window_ms : ℕ
  pub block_ms : ℕ
  pub max_tracked_clients : ℕ
  pub clients : Clients

-- the constructor
unfoldable pub create : Options → Limiter
unfolding positive
create options = record {
  enabled = get_or options.enabled true;
  max_failures = positive options.max_failures default_max_failures;
  window_ms = positive options.window_ms default_failure_window_ms;
  block_ms = positive options.block_ms default_block_ms;
  max_tracked_clients = positive options.max_tracked_clients default_max_tracked_clients;
  clients = [];
}

pub data Decision : Type 0 where
  free : Decision
  blocked : (retry_after_ms : ℕ) → Decision

abbrev pub is_blocked : Decision → Bool
is_blocked free = false
is_blocked (blocked _) = true

-- `check`: the second part is the limiter after it. A `blockedUntil` of 0 is falsy, so it is read as
-- absent.
check_record : ℕ → String → ClientRecord → Limiter → Option ℕ → Decision × Limiter
check_record now client r l none = (free, l)
check_record now client r l (some zero) = (free, l)
check_record now client r l (some (suc t)) =
    if ltb now (suc t)
    then (blocked (suc t - now), l)
    else (free, record l { clients = delete client l.clients })

check_found : ℕ → String → Option ClientRecord → Limiter → Decision × Limiter
unfolding check_record
check_found now client none l = (free, l)
check_found now client (some r) l = check_record now client r l r.blocked_until

unfoldable pub check : ℕ → String → Limiter → Decision × Limiter
unfolding check_found
check now client l =
    if l.enabled then check_found now client (get client l.clients) l else (free, l)

-- `isBlockedAt`
abbrev pub is_later : Option ℕ → ℕ → Bool
is_later none now = false
is_later (some t) now = ltb now t

abbrev pub is_blocked_at : ClientRecord → ℕ → Bool
is_blocked_at r now = is_later r.blocked_until now

-- The variables of the loop in `evictionCandidate`; a rank of `none` is +Infinity.
pub record Search : Type 0 where
  pub candidate : Option String
  pub rank : Option ℕ
  pub is_blocked : Bool

abbrev pub below_rank : ℕ → Option ℕ → Bool
below_rank n none = true
below_rank n (some m) = ltb n m

abbrev pub victim_rank : ClientRecord → Bool → ℕ
victim_rank r active = if active then get_or r.blocked_until 0 else r.last_seen_at

-- `a !== b` on two flags
abbrev pub differ : Bool → Bool → Bool
differ true b = not b
differ false b = b

-- one round of that loop
unfoldable pub consider : ℕ → Search → String → ClientRecord → Search
consider now s client r =
    let active = is_blocked_at r now in
    if s.is_blocked && not active
    then record { candidate = some client; rank = some r.last_seen_at; is_blocked = false }
    else (if differ active s.is_blocked
        then s
        else (if below_rank (victim_rank r active) s.rank
            then record s { candidate = some client; rank = some (victim_rank r active) }
            else s))

unfoldable pub search_from : ℕ → Search → Clients → Search
search_from now s [] = s
search_from now s ((client, r) ∷ rest) = search_from now (consider now s client r) rest

-- `evictionCandidate`
unfoldable pub eviction_candidate : ℕ → Clients → Option String
unfolding search_from consider
eviction_candidate now clients =
    (search_from now (record { candidate = none; rank = none; is_blocked = true })
      clients).candidate

-- the first loop of `evict`: records that are neither blocked nor inside their window are dropped
unfoldable pub drop_stale : ℕ → ℕ → Clients → Clients
drop_stale window now [] = []
drop_stale window now ((client, r) ∷ rest) =
    let kept = drop_stale window now rest in
    if not (is_blocked_at r now) && leb (r.window_started_at + window) now
    then kept
    else (client, r) ∷ kept

-- The `while` loop of `evict`, on fuel. A round deletes one client, so the number of clients is
-- fuel enough.
unfoldable pub drop_victims : ℕ → ℕ → ℕ → Clients → Clients
drop_victims zero most now clients = clients
drop_victims (suc fuel) most now clients = elim (ltb most (length clients)) [
  | false ↦ clients
  | true ↦ elim (eviction_candidate now clients) [
    | none ↦ clients
    | some victim ↦ drop_victims fuel most now (delete victim clients)
  ]
]

-- `evict`
unfoldable pub evict : ℕ → Limiter → Clients → Clients
unfolding drop_stale drop_victims
evict now l clients =
    let left = drop_stale l.window_ms now clients in
    drop_victims (length left) l.max_tracked_clients now left

-- `withinWindow`
abbrev pub within_window : ℕ → ℕ → Option ClientRecord → Bool
within_window window now none = false
within_window window now (some r) = ltb now (r.window_started_at + window)

-- the record that the failure is counted in
abbrev pub window_record : ℕ → Bool → Option ClientRecord → ClientRecord
window_record now within none = record {
  failures = 0;
  window_started_at = now;
  last_seen_at = now;
  blocked_until = none;
}
window_record now true (some r) = r
window_record now false (some r) = record {
  failures = 0;
  window_started_at = now;
  last_seen_at = now;
  blocked_until = r.blocked_until;
}

-- the three assignments to it
abbrev pub count_failure : Limiter → ℕ → ClientRecord → ClientRecord
count_failure l now r = record {
  failures = r.failures + 1;
  window_started_at = r.window_started_at;
  last_seen_at = now;
  blocked_until =
      if leb l.max_failures (r.failures + 1) then some (now + l.block_ms) else r.blocked_until;
}

unfoldable pub counted : Limiter → ℕ → Option ClientRecord → ClientRecord
counted l now existing =
    count_failure l now (window_record now (within_window l.window_ms now existing) existing)

-- the end of `recordFailure`: only a fresh window can bring the tracker past its bound
abbrev pub make_room : ℕ → Limiter → Bool → Clients → Clients
make_room now l true clients = clients
make_room now l false clients =
    if ltb l.max_tracked_clients (length clients) then evict now l clients else clients

-- `recordFailure`. Inside its window the record is changed in place, so its entry keeps its place.
unfoldable pub record_failure : ℕ → String → Limiter → Limiter
record_failure now client l =
    let existing = get client l.clients in
    let within = within_window l.window_ms now existing in
    let clients = set client (counted l now existing) l.clients in
    if l.enabled then record l { clients = make_room now l within clients } else l

-- `recordSuccess`
unfoldable pub record_success : String → Limiter → Limiter
record_success client l = record l { clients = delete client l.clients }

-- `size`
abbrev pub size : Limiter → ℕ
size l = length l.clients
