-- ===== src/Limiter/Bounds.antt =====
-- lib/src/access-attempt-limiter.ts: the tracker stays bounded, whatever is called in what order.
use nest_graph_inspector.Prelude.{
  ℕ, zero, suc, ◌≤◌, String, ◌≡◌, refl, ◌∙◌, true, false, List, [], ◌∷◌, arith, length,
}
use nest_graph_inspector.Prelude.Sets.{has, IsDistinct}
use nest_graph_inspector.Prelude.Maps.{
  get, set, keys, length-set_of_has, length-delete-le, is_some-get, IsDistinct-keys-set,
  IsDistinct-keys-delete,
}
use nest_graph_inspector.Limiter.{
  Options, Clients, Limiter, create, check, drop_stale, drop_victims, evict, within_window, counted,
  record_failure, record_success, size,
}
use nest_graph_inspector.Limiter.Evict.{length-drop_victims-le}

-- The calls that a limiter receives, each at the clock's reading.
pub data Call : Type 0 where
  check_at failure_at : ℕ → String → Call
  success_of : String → Call

unfoldable pub step : Limiter → Call → Limiter
step l (check_at now client) = (check now client l).1
step l (failure_at now client) = record_failure now client l
step l (success_of client) = record_success client l

unfoldable pub run : Limiter → List Call → Limiter
unfolding step
run l [] = l
run l (c ∷ cs) = run (step l c) cs

-- No more clients than the bound, and one record for each.
pub record IsValid (l : Limiter) : Type 0 where
  pub bounded : size l ≤ l.max_tracked_clients
  pub distinct : IsDistinct (keys l.clients)

create-IsValid : (options : Options) → IsValid (create options)
unfolding create
create-IsValid options = record { bounded = omega arith; distinct = tt }

has-drop_stale :
    (c : String) (window now : ℕ) (clients : Clients)
    → has c (keys clients) ≡ false
    → has c (keys (drop_stale window now clients)) ≡ false
unfolding drop_stale
has-drop_stale c window now [] h = refl
has-drop_stale c window now ((k, r) ∷ rest) h = ground (arith, has-drop_stale c window now rest)

pub IsDistinct-drop_stale :
    (window now : ℕ) (clients : Clients)
    → IsDistinct (keys clients)
    → IsDistinct (keys (drop_stale window now clients))
unfolding drop_stale
IsDistinct-drop_stale window now [] h = h
IsDistinct-drop_stale window now ((k, r) ∷ rest) (new, h) =
    ground (arith, has-drop_stale k window now rest, IsDistinct-drop_stale window now rest)

pub IsDistinct-drop_victims :
    (fuel most now : ℕ) (clients : Clients)
    → IsDistinct (keys clients)
    → IsDistinct (keys (drop_victims fuel most now clients))
unfolding drop_victims
IsDistinct-drop_victims zero most now clients h = h
IsDistinct-drop_victims (suc fuel) most now clients h =
    grind (arith, IsDistinct-drop_victims fuel most now, IsDistinct-keys-delete)

evict_bounds :
    (now : ℕ) (l : Limiter) (clients : Clients)
    → IsDistinct (keys clients)
    → (length (evict now l clients) ≤ l.max_tracked_clients)
      × IsDistinct (keys (evict now l clients))
unfolding evict
evict_bounds now l clients h = (
  length-drop_victims-le now (length (drop_stale l.window_ms now clients)) l.max_tracked_clients
      (drop_stale l.window_ms now clients) (omega arith),
  IsDistinct-drop_victims _ _ now _ (IsDistinct-drop_stale l.window_ms now clients h),
)

within_has :
    (c : String) (window now : ℕ) (clients : Clients)
    → within_window window now (get c clients) ≡ true
    → has c (keys clients) ≡ true
within_has c window now clients h = ground (arith, is_some-get c clients)

pub record_failure-IsValid :
    (now : ℕ) (c : String) (l : Limiter) → IsValid l → IsValid (record_failure now c l)
unfolding record_failure
record_failure-IsValid now c l v =
    let stored = set c (counted l now (get c l.clients)) l.clients in
    ground (
      arith,
      length-set_of_has c (counted l now (get c l.clients)) l.clients,
      within_has c l.window_ms now l.clients,
      IsDistinct-keys-set c (counted l now (get c l.clients)) l.clients,
      evict_bounds now l stored,
    )

record_success-IsValid : (c : String) (l : Limiter) → IsValid l → IsValid (record_success c l)
unfolding record_success
record_success-IsValid c l v =
    ground (arith, length-delete-le c l.clients, IsDistinct-keys-delete c l.clients)

check-IsValid : (now : ℕ) (c : String) (l : Limiter) → IsValid l → IsValid (check now c l).1
unfolding check
check-IsValid now c l v =
    ground (arith, length-delete-le c l.clients, IsDistinct-keys-delete c l.clients)

step-IsValid : (l : Limiter) (c : Call) → IsValid l → IsValid (step l c)
unfolding step
step-IsValid l (check_at now client) v = check-IsValid now client l v
step-IsValid l (failure_at now client) v = record_failure-IsValid now client l v
step-IsValid l (success_of client) v = record_success-IsValid client l v

pub run-IsValid : (l : Limiter) (cs : List Call) → IsValid l → IsValid (run l cs)
unfolding run
run-IsValid l [] v = v
run-IsValid l (c ∷ cs) v = run-IsValid (step l c) cs (step-IsValid l c v)

step-max_tracked_clients :
    (l : Limiter) (c : Call) → (step l c).max_tracked_clients ≡ l.max_tracked_clients
unfolding step check record_failure record_success
step-max_tracked_clients l (check_at now client) = ground arith
step-max_tracked_clients l (failure_at now client) = ground arith
step-max_tracked_clients l (success_of client) = refl

run-max_tracked_clients :
    (l : Limiter) (cs : List Call) → (run l cs).max_tracked_clients ≡ l.max_tracked_clients
unfolding run
run-max_tracked_clients l [] = refl
run-max_tracked_clients l (c ∷ cs) =
    run-max_tracked_clients (step l c) cs ∙ step-max_tracked_clients l c

-- Whatever calls a new limiter receives, in whatever order and at whatever times, it tracks at most
-- as many clients as the `maxTrackedClients` that it was created with, and no client twice.
pub run-create_bounds :
    (options : Options) (cs : List Call)
    → (size (run (create options) cs) ≤ (create options).max_tracked_clients)
      × IsDistinct (keys (run (create options) cs).clients)
run-create_bounds options cs =
    let valid = run-IsValid (create options) cs (create-IsValid options) in
    (omega (arith, valid.bounded, run-max_tracked_clients (create options) cs), valid.distinct)
