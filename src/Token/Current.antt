-- ===== src/Token/Current.antt =====
-- lib/src/access-token.service.ts, `mint` and `current`: the tokens handed out are the tokens accepted.
use Prim.Native.String
use package.text.Mathlib.TextLemmas.{cons-append, nil-append}
use nest_graph_inspector.Prelude.{
  ℕ, ◌+◌, ◌<◌, String, false, ◌≡◌, refl, ap, ◌∙◌, Option, none, some, inl, inr, ◌⊎◌, leb, arith,
  if◌then◌else◌, Bool-cases,
}
use nest_graph_inspector.Prelude.Maps.{get}
use nest_graph_inspector.Token.{
  object, text, Platform, Payload, Service, accepted, rejected, expired, verify, verify_payload,
  payload_of_json, mint, current, fields_of, token_prefix, dot, has_expired,
}
use nest_graph_inspector.Token.Verify.{Digests, verify_signed}

-- What JSON and base64url promise: an encoded payload is read back.
abbrev pub RoundTrips : Platform → Type 0
RoundTrips P =
    (i e : ℕ) (j : String) → P.parse (P.encode (fields_of i e j)) ≡ some (object (fields_of i e j))

module _ (P : Platform) where
  payload-fields :
      (i e : ℕ) (j : String)
      → payload_of_json (some (object (fields_of i e j)))
        ≡ some (record { iat = i; exp = e; jti = some (text j) })
  unfolding get
  payload-fields i e j = refl

  -- If digests are dotless and encoded objects are read back, a token that a service mints at `t` is
  -- accepted by it, with the payload it was minted with, before `t` plus its lifetime, and is rejected
  -- as expired from then on.
  pub verify-mint :
      (digests : Digests P) (codec : RoundTrips P) (s : Service) (t now : ℕ) (random : String)
      → verify P s now (some (mint P s t random).0)
        ≡ (if leb (t + s.ttl_ms) now then rejected expired else accepted (mint P s t random).1)
  unfolding mint
  verify-mint digests codec s t now random =
      let fields = fields_of t (t + s.ttl_ms) random in
      let signed_part = String.◌++◌ token_prefix (P.encode fields) in
      ap (λ u. verify P s now (some (String.◌++◌ signed_part u)))
        (cons-append dot "" (P.hmac s.secret signed_part) ∙ ap (String.◌∷◌ dot) (nil-append _))
      ∙ verify_signed P s now digests (P.encode fields)
      ∙ ap (λ j. verify_payload P now (payload_of_json j)) (codec t (t + s.ttl_ms) random)
      ∙ ap (verify_payload P now) (payload-fields t (t + s.ttl_ms) random)

  -- the state of `issued`: absent, or a token that this service has minted
  abbrev pub IsOwn : Service → Type 0
  IsOwn s =
      (s.issued ≡ none) ⊎ ((t : ℕ) × (random : String) × (s.issued ≡ some (mint P s t random)))

  pub record IsCurrent (s : Service) (now : ℕ) : Type 0 where
    pub token : String
    pub payload : Payload
    pub issued : s.issued ≡ some (token, payload)
    pub valid : verify P s now (some token) ≡ accepted payload
    pub own : IsOwn s

  never : (o : Option (String × Payload)) (now : ℕ) → has_expired P now o ≡ false → o ≡ none → ⊥
  never o now h e = ground (arith, h, e)

  unexpired :
      (s : Service) (t now : ℕ) (random : String)
      → has_expired P now s.issued ≡ false
      → s.issued ≡ some (mint P s t random)
      → (if leb (t + s.ttl_ms) now then rejected expired else accepted (mint P s t random).1)
        ≡ accepted (mint P s t random).1
  unfolding mint
  unexpired s t now random h e = ground (arith, h, e)

  -- With a positive lifetime, dotless digests and a codec that reads back: after `current`, from any
  -- service that holds no token or one of its own, the token handed out is accepted at that moment, and
  -- the service holds a token of its own again.
  pub current-IsCurrent :
      (digests : Digests P) (codec : RoundTrips P) (s : Service) (now : ℕ) (random : String)
      → 0 < s.ttl_ms
      → IsOwn s
      → IsCurrent (current P s now random) now
  unfolding current mint
  current-IsCurrent digests codec s now random alive own =
      elim (Bool-cases (has_expired P now s.issued)) [
        | inl old ↦
            let again = record s { issued = some (mint P s now random) } in
            rw old (record {
              token = (mint P s now random).0;
              payload = (mint P s now random).1;
              issued = refl;
              valid = verify-mint digests codec again now now random ∙ ground arith;
              own = inr (now, random, refl);
            })
        | inr fresh ↦ rw fresh (elim own [
          | inl none_yet ↦ absurd (never s.issued now fresh none_yet)
          | inr (t, r, e) ↦ record {
            token = (mint P s t r).0;
            payload = (mint P s t r).1;
            issued = e;
            valid = verify-mint digests codec s t now r ∙ unexpired s t now r fresh e;
            own = inr (t, r, e);
          }
        ])
      ]
