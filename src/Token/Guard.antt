-- ===== src/Token/Guard.antt =====
-- lib/src/access-token.service.ts, `createHttpGuard`: which requests pass, and what counts as a guess.
use nest_graph_inspector.Prelude.{
  ℕ, true, false, ◌≡◌, refl, ap, ◌∙◌, sym, Option, none, inl, inr, ◌⊎◌, ◌↔◌, if◌then◌else◌,
  Bool-cases,
}
use nest_graph_inspector.Limiter.{Limiter, Decision, free, blocked, is_blocked, check}
use nest_graph_inspector.Token.{
  Platform, Payload, Service, Request, Denial, Verification, accepted, rejected, verify, read_token,
  client_id, guard, guard_decided,
}

module _ (P : Platform) (now : ℕ) (req : Request) (s : Service) where
  abbrev pub verdict : Verification
  verdict = verify P s now (read_token req)

  abbrev pub decision : Decision × Limiter
  decision = check now (client_id req) s.limiter

  true-ne-false : true ≡ false → ⊥
  true-ne-false h = cc

  decided-passes_iff :
      (t : Service) (v : Verification) (d : Decision)
      → ((guard_decided P now req t v d).0 ≡ none)
        ↔ ((is_blocked d ≡ false) × ((p : Payload) × (v ≡ accepted p)))
  decided-passes_iff t v (blocked ms) = (λ h. cc, λ (h, _). cc)
  decided-passes_iff t (accepted p) free = (λ _. (refl, (p, refl)), λ _. refl)
  decided-passes_iff t (rejected r) free = (λ h. cc, λ (_, (q, h)). cc)

  abbrev guarded : Option Denial × Service
  guarded = guard_decided P now req (record s { limiter = decision.1 }) verdict decision.0

  pub guard_on : s.enabled ≡ true → guard P now req s ≡ guarded
  unfolding guard
  guard_on on = ap (λ b. if b then guarded else (none, s)) on

  guard_off : s.enabled ≡ false → guard P now req s ≡ (none, s)
  unfolding guard
  guard_off off = ap (λ b. if b then guarded else (none, s)) off

  passes_on :
      s.enabled ≡ true
      → (s.enabled ≡ false)
        ⊎ ((is_blocked decision.0 ≡ false) × ((p : Payload) × (verdict ≡ accepted p)))
      → guarded.0 ≡ none
  passes_on on (inl off) = absurd (true-ne-false (sym on ∙ off))
  passes_on on (inr passed) =
      (decided-passes_iff (record s { limiter = decision.1 }) verdict decision.0).1 passed

  -- A request passes exactly if protection is off, or the client is not blocked and its token is
  -- accepted: a right token does not lift a block.
  pub guard-passes_iff : ((guard P now req s).0 ≡ none) ↔ (
      (s.enabled ≡ false)
      ⊎ ((is_blocked decision.0 ≡ false) × ((p : Payload) × (verdict ≡ accepted p))))
  guard-passes_iff = elim (Bool-cases s.enabled) [
    | inl on ↦ (
      λ h. inr (
          (decided-passes_iff (record s { limiter = decision.1 }) verdict decision.0).0
            (ap (λ r. r.0) (sym (guard_on on)) ∙ h)),
      λ h. ap (λ r. r.0) (guard_on on) ∙ passes_on on h,
    )
    | inr off ↦ (λ _. inl off, λ _. ap (λ r. r.0) (guard_off off))
  ]
