-- ===== src/Limiter/Tests.antt =====
-- lib/src/access-attempt-limiter.ts: the limiter on two clients.
use nest_graph_inspector.Prelude.{
  ℕ, String, true, false, ◌≡◌, refl, ◌≢◌, none, some, [], ◌∷◌, ◌⊎◌, arith, length, eq_iff, ◌≤◌,
}
use nest_graph_inspector.Prelude.Maps.{get, keys, set}
use nest_graph_inspector.Prelude.Sets.{IsDistinct}
use nest_graph_inspector.Limiter.{
  Limiter, Options, ClientRecord, Clients, create, check, is_blocked, record_failure, size, counted,
  ratio, eviction_candidate, drop_victims,
}
use nest_graph_inspector.Limiter.Evict.{
  IsVictim, eviction_candidate-IsVictim, length-drop_victims-le,
}
use nest_graph_inspector.Limiter.Bounds.{
  check_at, failure_at, success_of, run, IsValid, run-create_bounds,
}
use nest_graph_inspector.Limiter.Blocks.{record_failures, check-record_failures}
use nest_graph_inspector.Limiter.Eviction.{
  AllBlocked, record_failure-keeps_block, record_failure_forgotten,
}

abbrev waiting : ℕ → ClientRecord
waiting t = record { failures = 1; window_started_at = t; last_seen_at = t; blocked_until = none }

abbrev shut : ℕ → ClientRecord
shut t = record { failures = 3; window_started_at = 5; last_seen_at = 7; blocked_until = some t }

abbrev limiter_of : Clients → Limiter
limiter_of clients = record {
  enabled = true;
  max_failures = 2;
  window_ms = 100;
  block_ms = 50;
  max_tracked_clients = 2;
  clients = clients;
}

abbrev mixed : Clients
mixed = ("a", shut 80) ∷ ("b", waiting 3) ∷ []

abbrev both_shut : Clients
both_shut = ("a", shut 80) ∷ ("b", shut 90) ∷ []

abbrev options : Options
options = record {
  enabled = none;
  max_failures = some (ratio 5 1);
  window_ms = none;
  block_ms = none;
  max_tracked_clients = some (ratio 1 0);
}

get-none : get {V = ClientRecord} "c" [] ≡ none
unfolding get
get-none = refl

get_a : get "a" mixed ≡ some (shut 80)
unfolding get
get_a = refl

true-ne-false : false ≡ true → ⊥
true-ne-false h = cc

c-ne-a : ◌≢◌ {A = String} "c" "a"
c-ne-a e = true-ne-false ((eq_iff "c" "a").1 e)

mixed-IsValid : IsValid (limiter_of mixed)
mixed-IsValid = record { bounded = omega arith; distinct = (refl, (refl, tt)) }

eviction_candidate_test : eviction_candidate 10 mixed ≡ some "b"
unfolding eviction_candidate
eviction_candidate_test = refl

record_failure_test :
    get "c" (record_failure 12 "c" (record_failure 11 "c" (limiter_of []))).clients
    ≡ some (record {
      failures = 2;
      window_started_at = 11;
      last_seen_at = 12;
      blocked_until = some 62;
    })
unfolding record_failure counted get set
record_failure_test = refl

eviction_candidate-IsVictim_example :
    (v : String) × (eviction_candidate 10 mixed ≡ some v) × IsVictim 10 v mixed
eviction_candidate-IsVictim_example =
    eviction_candidate-IsVictim 10 "a" (shut 80) (("b", waiting 3) ∷ [])

length-drop_victims-le_example : length (drop_victims 2 1 10 mixed) ≤ 1
length-drop_victims-le_example = length-drop_victims-le 10 2 1 mixed (omega arith)

run-create_bounds_example :
    (size (
        run
          (create options)
          (failure_at 1 "a" ∷ failure_at 2 "b" ∷ check_at 3 "a" ∷ success_of "b" ∷ []))
      ≤ (create options).max_tracked_clients)
    × IsDistinct (
        keys
          (run
            (create options)
            (failure_at 1 "a" ∷ failure_at 2 "b" ∷ check_at 3 "a" ∷ success_of "b" ∷ [])).clients)
run-create_bounds_example =
    run-create_bounds options
      (failure_at 1 "a" ∷ failure_at 2 "b" ∷ check_at 3 "a" ∷ success_of "b" ∷ [])

check-record_failures_example :
    is_blocked (check 70 "c" (record_failures "c" (20 ∷ 30 ∷ []) (limiter_of []))).0 ≡ true
check-record_failures_example =
    check-record_failures "c" 20 (30 ∷ []) 70 (limiter_of [])
      (record { bounded = omega arith; distinct = tt }) refl get-none (omega arith)
      (omega arith, tt)

record_failure-keeps_block_example :
    (get "a" (record_failure 10 "c" (limiter_of mixed)).clients ≡ some (shut 80))
    ⊎ AllBlocked 10 (record_failure 10 "c" (limiter_of mixed)).clients
record_failure-keeps_block_example =
    record_failure-keeps_block 10 "c" "a" (limiter_of mixed) (shut 80) mixed-IsValid c-ne-a get_a
      refl

record_failure_forgotten_example :
    record_failure 10 "c" (limiter_of both_shut) ≡ limiter_of both_shut
record_failure_forgotten_example =
    record_failure_forgotten 10 "c" (limiter_of both_shut) refl (refl, (refl, tt)) refl
      (omega arith)
