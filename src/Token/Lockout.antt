-- ===== src/Token/Lockout.antt =====
-- lib/src/access-token.service.ts, `createHttpGuard`: a run of guesses locks the client out.
use nest_graph_inspector.Prelude.{
  ℕ, suc, ◌+◌, ◌≤◌, ◌<◌, String, true, ◌≡◌, refl, ap, ◌∙◌, sym, subst, Option, none, some, List, [],
  ◌∷◌, inr, arith, ltb, leb, length, length-map, ◌&&◌, All, map, eq_refl,
}
use nest_graph_inspector.Prelude.Maps.{get}
use nest_graph_inspector.Limiter.{
  Limiter, Decision, free, blocked, is_blocked, check, record_failure, size, counted,
}
use nest_graph_inspector.Limiter.Bounds.{IsValid}
use nest_graph_inspector.Limiter.Blocks.{
  record_failures, after_failures, Counts, record_failure-Counts, get-record_failure_again, last_of,
  check-record_failures, get-record_failure, counted_first,
}
use nest_graph_inspector.Token.{
  Platform, Service, Request, Rejection, too_many, is_guess, rejected, verify, verify_split,
  verify_parts, read_token, client_id, guard, guard_decided, Verification,
}
use nest_graph_inspector.Token.Guard.{guard_on}

check_unchanged :
    (l : Limiter) (now : ℕ) (c : String) (most block start n last : ℕ)
    → now < last + block
    → get c l.clients ≡ some (after_failures most block start n last)
    → (check now c l).1 ≡ l
unfolding check
check_unchanged l now c most block start n last later e = ground arith

check_free :
    (l : Limiter) (now : ℕ) (c : String) (most block start n last : ℕ)
    → n < most
    → get c l.clients ≡ some (after_failures most block start n last)
    → check now c l ≡ (free, l)
unfolding check
check_free l now c most block start n last few e = ground arith

check_untracked :
    (l : Limiter) (now : ℕ) (c : String) → get c l.clients ≡ none → check now c l ≡ (free, l)
unfolding check
check_untracked l now c e = ground arith

get-first :
    (t : ℕ) (c : String) (l : Limiter)
    → l.enabled ≡ true
    → get c l.clients ≡ none
    → size l < l.max_tracked_clients
    → get c (record_failure t c l).clients ≡ some (after_failures l.max_failures l.block_ms t 1 t)
get-first t c l on new room =
    let first : counted l t (get c l.clients) ≡ after_failures l.max_failures l.block_ms t 1 t =
      rw new (counted_first l t) in
    rw (get-record_failure t c c l on (inr room), eq_refl c) (ap some first)

module _ (P : Platform) where
  -- requests one after the other, each with its time
  unfoldable pub attempts : List (ℕ × Request) → Service → Service
  attempts [] s = s
  attempts ((now, req) ∷ rest) s = attempts rest (guard P now req s).1

  verify-limiter :
      (s : Service) (l : Limiter) (now : ℕ) (token : Option String)
      → verify P (record s { limiter = l }) now token ≡ verify P s now token
  unfolding verify verify_split verify_parts
  verify-limiter s l now none = refl
  verify-limiter s l now (some token) = refl

  -- A request of a client, before a time, whose token is malformed or wrongly signed
  pub record IsGuess (s : Service) (c : String) (end : ℕ) (a : ℕ × Request) : Type 0 where
    pub early : a.0 < end
    pub client : client_id a.1 ≡ c
    pub reason : Rejection
    pub verdict : verify P s a.0 (read_token a.1) ≡ rejected reason
    pub counts : is_guess reason ≡ true

  IsGuess-limiter :
      (s : Service) (l : Limiter) (c : String) (end : ℕ) (xs : List (ℕ × Request))
      → All (IsGuess s c end) xs
      → All (IsGuess (record s { limiter = l }) c end) xs
  IsGuess-limiter s l c end [] _ = tt
  IsGuess-limiter s l c end (a ∷ xs) (g, gs) = (
    record {
      early = g.early;
      client = g.client;
      reason = g.reason;
      verdict = verify-limiter s l a.0 (read_token a.1) ∙ g.verdict;
      counts = g.counts;
    },
    IsGuess-limiter s l c end xs gs,
  )

  guard-guess :
      (s : Service) (c : String) (end : ℕ) (a : ℕ × Request)
      → s.enabled ≡ true
      → IsGuess s c end a
      → check a.0 c s.limiter ≡ (free, s.limiter)
      → (check a.0 c (record_failure a.0 c s.limiter)).1 ≡ record_failure a.0 c s.limiter
      → (guard P a.0 a.1 s).1 ≡ record s { limiter = record_failure a.0 c s.limiter }
  guard-guess s c end (now, req) on g allowed kept =
      rw (guard_on P now req s on)
        (rw (g.client, allowed, g.verdict, g.counts, g.client, kept) refl)

  attempts-record_failures :
      (c : String) (xs : List (ℕ × Request)) (s : Service) (most window block start n last : ℕ)
      → Counts s.limiter most window block
      → s.enabled ≡ true
      → 0 < block
      → n + length xs ≤ most
      → get c s.limiter.clients ≡ some (after_failures most block start n last)
      → All (IsGuess s c (start + window)) xs
      → attempts xs s ≡ record s { limiter = record_failures c (map (λ a. a.0) xs) s.limiter }
  unfolding attempts record_failures
  attempts-record_failures c [] s most window block start n last h on pause few e _ = refl
  attempts-record_failures c (a ∷ xs) s most window block start n last h on pause few e (g, gs) =
      let l = record_failure a.0 c s.limiter in
      let e_next =
        get-record_failure_again c a.0 s.limiter most window block start n last h e g.early in
      let next =
        guard-guess s c (start + window) a on g
          (check_free s.limiter a.0 c most block start n last (omega arith) e)
          (check_unchanged l a.0 c most block start (suc n) a.0 (omega arith) e_next) in
      let rest =
        attempts-record_failures c xs (record s { limiter = l }) most window block start (suc n) a.0
          (record_failure-Counts a.0 c h) on pause (omega arith) e_next
          (IsGuess-limiter s l c (start + window) xs gs) in
      ap (attempts xs) next ∙ rest

  decided-too_many :
      (now : ℕ) (req : Request) (s : Service) (v : Verification) (d : Decision)
      → is_blocked d ≡ true
      → (seconds : ℕ) × ((guard_decided P now req s v d).0 ≡ some (too_many seconds))
  decided-too_many now req s v free h = cc
  decided-too_many now req s v (blocked ms) h = (_, refl)

  denied_of_blocked :
      (now : ℕ) (req : Request) (s : Service)
      → s.enabled ≡ true
      → is_blocked (check now (client_id req) s.limiter).0 ≡ true
      → (seconds : ℕ) × ((guard P now req s).0 ≡ some (too_many seconds))
  denied_of_blocked now req s on h =
      let (seconds, e) =
        decided-too_many now req (record s { limiter = (check now (client_id req) s.limiter).1 })
          (verify P s now (read_token req)) (check now (client_id req) s.limiter).0 h in
      (seconds, ap (λ r. r.0) (guard_on P now req s on) ∙ e)

  times-early :
      (s : Service) (c : String) (end : ℕ) (xs : List (ℕ × Request))
      → All (IsGuess s c end) xs
      → All (λ u. u < end) (map (λ b. b.0) xs)
  times-early s c end [] _ = tt
  times-early s c end (a ∷ xs) (g, gs) = (g.early, times-early s c end xs gs)

  due :
      (most : ℕ) (times : List ℕ) (xs : List (ℕ × Request)) {now end : ℕ}
      → length times ≡ length xs
      → length xs + 1 ≡ most
      → now < end
      → leb most (length times + 1) && ltb now end ≡ true
  due most times xs {now} {end} same many early = ground arith

  -- A service with protection and limiter on does not track a client, and has room for it. The client
  -- sends `maxFailures` requests with malformed or wrongly signed tokens within one window. Then until
  -- `blockMs`, which is positive, after the last of them every request of the client, whatever its token,
  -- is answered 429.
  pub attempts-lockout :
      (c : String) (a : ℕ × Request) (xs : List (ℕ × Request)) (now : ℕ) (req : Request)
      (s : Service)
      → s.enabled ≡ true
      → s.limiter.enabled ≡ true
      → IsValid s.limiter
      → get c s.limiter.clients ≡ none
      → size s.limiter < s.limiter.max_tracked_clients
      → 0 < s.limiter.block_ms
      → length xs + 1 ≡ s.limiter.max_failures
      → All (IsGuess s c (a.0 + s.limiter.window_ms)) (a ∷ xs)
      → client_id req ≡ c
      → now < last_of a.0 (map (λ b. b.0) xs) + s.limiter.block_ms
      → (seconds : ℕ) × ((guard P now req (attempts (a ∷ xs) s)).0 ≡ some (too_many seconds))
  unfolding attempts record_failures
  attempts-lockout c a xs now req s on tracking v new room pause many (g, gs) same early =
      let l = record_failure a.0 c s.limiter in
      let h : Counts s.limiter s.limiter.max_failures s.limiter.window_ms s.limiter.block_ms =
        record { valid = v; on = tracking; limit = refl; window = refl; block = refl } in
      let e_first = get-first a.0 c s.limiter tracking new room in
      let first =
        guard-guess s c (a.0 + s.limiter.window_ms) a on g (check_untracked s.limiter a.0 c new) (
          check_unchanged l a.0 c s.limiter.max_failures s.limiter.block_ms a.0 1 a.0 (omega arith)
            e_first) in
      let ran =
        attempts-record_failures c xs (record s { limiter = l }) s.limiter.max_failures
          s.limiter.window_ms s.limiter.block_ms a.0 1 a.0 (record_failure-Counts a.0 c h) on pause
          (omega arith) e_first (IsGuess-limiter s l c (a.0 + s.limiter.window_ms) xs gs) in
      let times = map (λ b. b.0) xs in
      let last = record s { limiter = record_failures c (a.0 ∷ times) s.limiter } in
      let run : attempts (a ∷ xs) s ≡ last = ap (attempts xs) first ∙ ran in
      let blocked_now =
        check-record_failures c a.0 times now s.limiter v tracking new room
          (times-early s c (a.0 + s.limiter.window_ms) xs gs)
        ∙ due s.limiter.max_failures times xs (length-map (λ b. b.0) xs) many early in
      subst (λ t. (seconds : ℕ) × ((guard P now req t).0 ≡ some (too_many seconds))) (sym run)
        (denied_of_blocked now req last on (rw same blocked_now))
