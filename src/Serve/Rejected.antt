-- ===== src/Serve/Rejected.antt =====
-- lib/src/adapters/http-serve.adapter.ts, `handleRequest`: when the promise that it returns is rejected.
use nest_graph_inspector.Prelude.{
  ℕ, String, Bool, true, false, ◌≡◌, ◌≢◌, refl, sym, ap, ◌∙◌, subst, Option, none, some, ◌↔◌, ◌⊎◌,
  inl, inr, if◌then◌else◌, get_or,
}
use nest_graph_inspector.Serve.{
  OutHeaders, Request, undefined, Response, Returned, response, value, thrown, RawReturned, ended,
  raw_thrown, Authorization, allowed, denied, authorize_thrown, Route, Routes,
  is_cors_preflight_request, plain_route,
}
use nest_graph_inspector.Serve.Handle.{
  Sent, sent, rejected, SendResult, sent_as, send_thrown, caught, uncaught, run_found,
  run_authorized, run_route, authorization_of, ask, route_at, handle_at, handle_request,
  send_result, after_callback, after_raw, plain_response,
}

caught-ne-rejected : (x : SendResult) → caught x ≢ rejected
caught-ne-rejected (sent_as s) = λ e. cc
caught-ne-rejected (send_thrown message) = λ e. cc

thrown_of :
    (x : SendResult) → (uncaught x ≡ rejected) ↔ ((message : String) × (x ≡ send_thrown message))
thrown_of (sent_as s) = (λ e. cc, λ (_, e). cc)
thrown_of (send_thrown message) = (λ _. (message, refl), λ _. refl)

after_raw-ne-rejected : (x : RawReturned) → after_raw x ≢ rejected
after_raw-ne-rejected ended = λ e. cc
after_raw-ne-rejected (raw_thrown true m) = λ e. cc
after_raw-ne-rejected (raw_thrown false m) = λ e. cc

if-ne : (b : Bool) (x y : Sent) → (if b then sent x else sent y) ≢ rejected
if-ne true x y = λ e. cc
if-ne false x y = λ e. cc

some_inj : (p q : Route) → some p ≡ some q → p ≡ q
some_inj p q e = cc

text_inj : (p q : String) → some p ≡ some q → p ≡ q
text_inj p q e = cc

denied_inj : (p q : Response) → denied p ≡ denied q → p ≡ q
denied_inj p q e = cc

module _ (write_head : ℕ → OutHeaders → Option String) where
  -- The decision ends the request outside the `try`: `authorize` throws, or what it answers cannot be
  -- sent, since its body cannot be serialized or Node.js refuses its status or a header.
  abbrev pub Stops : Route → Authorization → Type 0
  Stops r a =
      (a ≡ authorize_thrown)
      ⊎ ((q : Response) × (message : String) × (a ≡ denied q)
          × (send_result write_head (plain_route r.type r.path) q ≡ send_thrown message))

  after_callback-ne-rejected : (r : Route) (x : Returned) → after_callback write_head r x ≢ rejected
  after_callback-ne-rejected r (thrown m) = λ e. cc
  after_callback-ne-rejected r (response p) = caught-ne-rejected (send_result write_head r p)
  after_callback-ne-rejected r (value b) =
      caught-ne-rejected (send_result write_head r (plain_response b))

  module _ (req : Request) where
    run_route-ne-rejected :
        (r : Route) (a : Option (Request → RawReturned)) (b : Option (Request → Returned))
        → (run_route write_head r req a b).reply ≢ rejected
    unfolding run_route
    run_route-ne-rejected r (some f) b = after_raw-ne-rejected (f req)
    run_route-ne-rejected r none (some f) = after_callback-ne-rejected r (f req)
    run_route-ne-rejected r none none =
        caught-ne-rejected (send_result write_head r (plain_response undefined))

    run_authorized-rejected_iff :
        (r : Route) (a : Authorization)
        → ((run_authorized write_head r req a).reply ≡ rejected) ↔ Stops r a
    run_authorized-rejected_iff r (denied q) =
        let (to, from) = thrown_of (send_result write_head (plain_route r.type r.path) q) in
        (
          λ e. let (message, s) = to e in inr (q, message, refl, s),
          λ h. elim h [
            | inl e ↦ cc
            | inr (p, message, e, s) ↦ from (
              message,
              ap (send_result write_head (plain_route r.type r.path)) (denied_inj q p e) ∙ s,
            )
          ],
        )
    run_authorized-rejected_iff r authorize_thrown = (λ _. inl refl, λ _. refl)
    run_authorized-rejected_iff r allowed = (
      λ e. absurd (run_route-ne-rejected r r.raw_callback r.callback e),
      λ h. elim h [ inl e ↦ cc | inr (p, message, e, s) ↦ cc ],
    )

    -- a preflight is not asked
    Stops-authorization :
        (r : Route) (b : Bool) (a : Authorization)
        → Stops r (if b then allowed else a) ↔ ((b ≡ false) × Stops r a)
    Stops-authorization r true a =
        (λ h. elim h [ inl e ↦ cc | inr (p, message, e, s) ↦ cc ], λ (e, _). cc)
    Stops-authorization r false a = (λ h. (refl, h), λ (_, h). h)

    -- The promise that `handleRequest` returns, whose rejection nothing handles, is rejected exactly when
    -- the request's URL does not parse, or when the route that is found is one whose `authorize`, asked
    -- since the request is no CORS preflight, throws or answers with a response that cannot be sent.
    -- Nothing that a callback or raw callback returns or throws leads to that, an answer of a callback
    -- that cannot be sent included.
    pub handle_request-rejected_iff :
        (parse_path : String → Option String) (t : Routes)
        → ((handle_request write_head parse_path t req).reply ≡ rejected) ↔ (
            (parse_path (get_or req.url "/") ≡ none)
            ⊎ ((path : String) × (r : Route) × (parse_path (get_or req.url "/") ≡ some path)
                × (route_at parse_path t req path ≡ some r)
                × (is_cors_preflight_request req ≡ false)
                × Stops r (ask r.authorize req)))
    unfolding handle_request
    handle_request-rejected_iff parse_path t = at (parse_path (get_or req.url "/"))
      where
        found :
            (o : Option Route)
            → ((run_found write_head req o).reply ≡ rejected) ↔ (
                (r : Route) × (o ≡ some r)
                × (is_cors_preflight_request req ≡ false)
                × Stops r (ask r.authorize req))
        found none = (λ e. absurd (if-ne (is_cors_preflight_request req) _ _ e), λ (r, e, _, _). cc)
        found (some r) =
            let (to, from) = run_authorized-rejected_iff r (authorization_of r req) in
            let asked =
              Stops-authorization r (is_cors_preflight_request req) (ask r.authorize req) in
            (
              λ e. let (other, stops) = asked.0 (to e) in (r, refl, other, stops),
              λ (x, e, other, stops).
                  let same : r ≡ x = some_inj r x e in
                  from
                    (asked.1 (other, subst (λ y. Stops y (ask y.authorize req)) (sym same) stops)),
            )

        at :
            (o : Option String)
            → ((handle_at write_head parse_path t req o).reply ≡ rejected) ↔ (
                (o ≡ none)
                ⊎ ((path : String) × (r : Route) × (o ≡ some path)
                    × (route_at parse_path t req path ≡ some r)
                    × (is_cors_preflight_request req ≡ false)
                    × Stops r (ask r.authorize req)))
        at none = (λ _. inl refl, λ _. refl)
        at (some path) =
            let (to, from) = found (route_at parse_path t req path) in
            (
              λ e.
                  let (r, found_r, other, stops) = to e in
                  inr (path, r, refl, found_r, other, stops),
              λ h. elim h [
                | inl e ↦ cc
                | inr (p, r, e, found_r, other, stops) ↦ from (
                  r,
                  subst (λ x. route_at parse_path t req x ≡ some r) (sym (text_inj path p e))
                      found_r,
                  other,
                  stops,
                )
              ],
            )
