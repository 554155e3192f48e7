-- ===== src/Token/Verify.antt =====
-- lib/src/access-token.service.ts, `verify`: which tokens are accepted.
use Prim.Native.String
use text.Mathlib.TextLemmas.{append-eq-nil_iff, cons-ne-nil}
use nest_graph_inspector.Prelude.{
  ℕ, ◌<◌, String, ◌==◌, Bool, true, false, ◌≡◌, refl, ◌≢◌, ap, ◌∙◌, sym, subst, Option, none, some,
  ◌↔◌, arith, eq_iff, eq_refl, if◌then◌else◌, strip_prefix,
}
use nest_graph_inspector.Prelude.Texts.{
  split_last, Lacks, split_last-append, append_of_split_last, strip_prefix-append,
  append_of_strip_prefix,
}
use nest_graph_inspector.Token.{
  Platform, Payload, Service, Verification, accepted, rejected, signature, verify, verify_split,
  verify_parts, verify_payload, payload_of_json, token_prefix, dot, non_empty,
}

-- What base64url promises of a digest: it has characters, and none of them is a dot.
pub record Digests (P : Platform) : Type 0 where
  pub no_dot : (secret signed_part : String) → Lacks dot (P.hmac secret signed_part)
  pub not_empty : (secret signed_part : String) → P.hmac secret signed_part ≢ ""

-- a signed text with its signature
abbrev pub with_signature : Platform → String → String → String
with_signature P secret signed_part =
    String.◌++◌ signed_part (String.◌∷◌ dot (P.hmac secret signed_part))

pub record IsSigned (P : Platform) (s : Service) (now : ℕ) (token : String) (p : Payload)
    : Type 0 where
  pub encoded : String
  pub signed : token ≡ with_signature P s.secret (String.◌++◌ token_prefix encoded)
  pub decoded : payload_of_json (P.parse encoded) ≡ some p
  pub alive : now < p.exp

module _ (P : Platform) (s : Service) (now : ℕ) where
  verify_payload-alive :
      (o : Option Payload) (p : Payload)
      → verify_payload P now o ≡ accepted p
      → (o ≡ some p) × (now < p.exp)
  verify_payload-alive none p h = cc
  verify_payload-alive (some q) p h = ground arith

  if-accepted :
      (b : Bool) (v : Verification) (p : Payload)
      → (if b then v else rejected signature) ≡ accepted p
      → (b ≡ true) × (v ≡ accepted p)
  if-accepted true v p h = (refl, h)
  if-accepted false v p h = cc

  verify_parts-IsSigned :
      (signed_part given : String) (o : Option String) (p : Payload)
      → strip_prefix token_prefix signed_part ≡ o
      → verify_parts P s now signed_part given o ≡ accepted p
      → IsSigned P s now (String.◌++◌ signed_part (String.◌∷◌ dot given)) p
  unfolding verify_parts
  verify_parts-IsSigned signed_part String.[] o p e h = cc
  verify_parts-IsSigned signed_part (String.◌∷◌ c rest) none p e h = cc
  verify_parts-IsSigned signed_part (String.◌∷◌ c rest) (some encoded) p e h =
      let (same, payload) = if-accepted (P.hmac s.secret signed_part == String.◌∷◌ c rest) _ p h in
      let (decoded, alive) = verify_payload-alive (payload_of_json (P.parse encoded)) p payload in
      let digest = (eq_iff (P.hmac s.secret signed_part) (String.◌∷◌ c rest)).0 same in
      let prefixed = append_of_strip_prefix token_prefix signed_part encoded e in
      record {
        encoded = encoded;
        signed = rw (← prefixed, digest) refl;
        decoded = decoded;
        alive = alive;
      }

  verify_split-IsSigned :
      (token : String) (o : Option (String × String)) (p : Payload)
      → split_last dot token ≡ o
      → verify_split P s now o ≡ accepted p
      → IsSigned P s now token p
  unfolding verify_split
  verify_split-IsSigned token none p e h = cc
  verify_split-IsSigned token (some (signed_part, given)) p e h =
      subst (λ t. IsSigned P s now t p) (sym (append_of_split_last dot token signed_part given e))
        (verify_parts-IsSigned signed_part given (strip_prefix token_prefix signed_part) p refl h)

  verify_sound :
      (token : String) (p : Payload)
      → verify P s now (some token) ≡ accepted p
      → IsSigned P s now token p
  unfolding verify
  verify_sound String.[] p h = cc
  verify_sound (String.◌∷◌ c t) p h =
      verify_split-IsSigned (String.◌∷◌ c t) (split_last dot (String.◌∷◌ c t)) p refl h

  non_empty-some : (t : String) → t ≢ "" → non_empty t ≡ some t
  non_empty-some String.[] h = absurd (h refl)
  non_empty-some (String.◌∷◌ c t) h = refl

  verify_parts_lem :
      (signed_part given encoded : String)
      → given ≢ ""
      → P.hmac s.secret signed_part ≡ given
      → verify_parts P s now signed_part given (some encoded)
        ≡ verify_payload P now (payload_of_json (P.parse encoded))
  unfolding verify_parts
  verify_parts_lem signed_part String.[] encoded ne e = absurd (ne refl)
  verify_parts_lem signed_part (String.◌∷◌ c rest) encoded ne e =
      rw (e, eq_refl (String.◌∷◌ c rest)) refl

  -- A text signed under the service's secret is decided by what it decodes to.
  pub verify_signed :
      Digests P
      → (encoded : String)
      → verify P s now (some (with_signature P s.secret (String.◌++◌ token_prefix encoded)))
        ≡ verify_payload P now (payload_of_json (P.parse encoded))
  unfolding verify verify_split
  verify_signed digests encoded =
      let signed_part = String.◌++◌ token_prefix encoded in
      let digest = P.hmac s.secret signed_part in
      let not_empty : with_signature P s.secret signed_part ≢ "" =
        λ e. cons-ne-nil _ _ (append-eq-nil_iff.0 e).1 in
      let split = split_last-append dot signed_part digest (digests.no_dot s.secret signed_part) in
      rw (non_empty-some _ not_empty, verify)
        (rw (split, verify_split)
          (rw (strip_prefix-append token_prefix encoded) (
            verify_parts_lem signed_part digest encoded (digests.not_empty s.secret signed_part)
              refl)))

  verify_complete :
      Digests P
      → (token : String) (p : Payload) → IsSigned P s now token p
      → verify P s now (some token) ≡ accepted p
  verify_complete digests token p h =
      let lt = h.alive in
      rw (h.signed)
        (verify_signed digests h.encoded ∙ ap (verify_payload P now) h.decoded ∙ ground (arith, lt))

  -- If digests are non-empty and have no dot, a token is accepted, with a payload, exactly if it is the
  -- prefix and some text, a dot and the digest of both under the service's secret, where the text
  -- decodes to the payload and the payload's expiry is later than now.
  pub verify_iff :
      Digests P
      → (token : String) (p : Payload)
      → (verify P s now (some token) ≡ accepted p) ↔ IsSigned P s now token p
  verify_iff digests token p = (verify_sound token p, verify_complete digests token p)
