-- ===== src/Token.antt =====
-- lib/src/access-token.service.ts: the tokens that gate every endpoint, and the guard that reads them.
-- Parameters: the digest, the JSON and base64url codecs (`Platform`), the random bytes (`jti`, `random`)
-- and the clock `now`, of which the guard's several readings are one number. A request is what the
-- guard reads of it: `query_token` is the URL class's `searchParams.get`. The log is not modelled.
pub mod Verify
pub mod Current
pub mod Guard
pub mod Lockout
mod Tests
use Prim.Native.String
use Prim.Native.Char.{Char, char}
use nest_graph_inspector.Prelude.{
  ℕ, ◌+◌, ◌/◌, String, ◌==◌, Bool, true, false, not, ◌&&◌, Option, none, some, List, [], ◌∷◌, ltb,
  leb, if◌then◌else◌, get_or, head?, strip_prefix, is_some,
}
use nest_graph_inspector.Prelude.Maps.{get}
use nest_graph_inspector.Prelude.Texts.{split_last, trim, lower, drop_chars}
use mathlib.Core.Option
use nest_graph_inspector.Limiter
use nest_graph_inspector.Limiter.{
  Number, not_finite, below_zero, ratio, Limiter, Decision, free, blocked, check, record_failure,
  record_success,
}

-- a field of a parsed object: a number, which is a natural one as the times of a payload are, a text or
-- anything else
pub data Field : Type 0 where
  number : ℕ → Field
  text : String → Field
  other : Field

-- what `JSON.parse` may return; an array's `typeof` is "object" too
pub data Json : Type 0 where
  object : List (String × Field) → Json
  array null scalar : Json

pub record Platform : Type 0 where
  -- `createHmac("sha256", secret).update(text).digest()`, in base64url
  pub hmac : String → String → String
  -- `Buffer.from(JSON.stringify(object)).toString("base64url")`
  pub encode : List (String × Field) → String
  -- `JSON.parse(Buffer.from(text, "base64url").toString("utf8"))`, `none` if it throws
  pub parse : String → Option Json

-- `AccessTokenPayload`; the source checks the first two fields alone
pub record Payload : Type 0 where
  pub iat : ℕ
  pub exp : ℕ
  pub jti : Option Field

pub data Rejection : Type 0 where
  missing malformed signature expired : Rejection

pub data Verification : Type 0 where
  accepted : Payload → Verification
  rejected : Rejection → Verification

abbrev pub default_access_token_ttl_ms : ℕ
default_access_token_ttl_ms = 10_800_000

abbrev pub dot : Char
dot = char 46 tt

abbrev pub token_prefix : String
token_prefix = "ngi1."

-- `normalizeTtlMs`
unfoldable pub normalize_ttl_ms : Option Number → ℕ
normalize_ttl_ms none = default_access_token_ttl_ms
normalize_ttl_ms (some not_finite) = default_access_token_ttl_ms
normalize_ttl_ms (some below_zero) = default_access_token_ttl_ms
normalize_ttl_ms (some (ratio p q)) = if ltb 0 p then p / (q + 1) else default_access_token_ttl_ms

-- `text || undefined`
abbrev pub non_empty : String → Option String
non_empty String.[] = none
non_empty (String.◌∷◌ c s) = some (String.◌∷◌ c s)

-- `resolveSecret`: the configured secret or the environment's, if not empty
unfoldable pub resolve_secret : Option String → Option String → String → String
resolve_secret (some secret) environment random = get_or (non_empty secret) random
resolve_secret none (some secret) random = get_or (non_empty secret) random
resolve_secret none none random = random

-- `accessToken` of the module's options
pub record AccessTokenOptions : Type 0 where
  pub enabled : Option Bool
  pub log_token : Option Bool
  pub ttl_ms : Option Number
  pub secret : Option String
  pub brute_force : Limiter.Options

pub record Service : Type 0 where
  pub enabled : Bool
  pub log_token : Bool
  pub ttl_ms : ℕ
  pub secret : String
  pub limiter : Limiter
  pub issued : Option (String × Payload)

-- the constructor
unfoldable pub create : Option String → String → AccessTokenOptions → Service
unfolding normalize_ttl_ms resolve_secret
create environment random options = record {
  enabled = get_or options.enabled true;
  log_token = get_or options.log_token true;
  ttl_ms = normalize_ttl_ms options.ttl_ms;
  secret = resolve_secret options.secret environment random;
  limiter = Limiter.create options.brute_force;
  issued = none;
}

-- `isTokenLoggable`
abbrev pub is_token_loggable : Service → Bool
is_token_loggable s = s.enabled && s.log_token

-- the fields of `decodePayload` and its checks of them
abbrev pub payload_of_fields : Option Field → Option Field → Option Field → Option Payload
payload_of_fields (some (number i)) (some (number e)) j =
    some (record { iat = i; exp = e; jti = j })
payload_of_fields _ _ _ = none

abbrev pub payload_of_json : Option Json → Option Payload
payload_of_json (some (object fields)) =
    payload_of_fields (get "iat" fields) (get "exp" fields) (get "jti" fields)
payload_of_json _ = none

abbrev pub fields_of : ℕ → ℕ → String → List (String × Field)
fields_of i e j = ("iat", number i) ∷ ("exp", number e) ∷ ("jti", text j) ∷ []

-- the fields of a request that the guard reads
pub data HeaderValue : Type 0 where
  one : String → HeaderValue
  many : List String → HeaderValue

pub record Request : Type 0 where
  pub remote_address : Option String
  pub authorization : Option HeaderValue
  pub token_header : Option HeaderValue
  pub query_token : Option String

-- `headerValue`
unfoldable pub header_value : Option HeaderValue → Option String
header_value none = none
header_value (some (one s)) = non_empty (trim s)
header_value (some (many [])) = none
header_value (some (many (s ∷ _))) = non_empty (trim s)

abbrev pub dedicated_token : Option String → Option String → Option String
dedicated_token (some t) query = some t
dedicated_token none query = query

-- `readToken`
unfoldable pub read_token : Request → Option String
unfolding header_value
read_token req = elim (header_value req.authorization) [
  | none ↦ dedicated_token (header_value req.token_header) req.query_token
  | some a ↦
      if is_some (strip_prefix "bearer " (lower a))
      then non_empty (trim (drop_chars 7 a))
      else dedicated_token (header_value req.token_header) req.query_token
]

abbrev pub strip_mapped : String → Option String → String
strip_mapped address none = address
strip_mapped address (some rest) = rest

-- `clientId`
unfoldable pub client_id : Request → String
client_id req =
    let address = get_or req.remote_address "unknown" in
    strip_mapped address (strip_prefix "::ffff:" address)

-- the responses of the guard: 429 with `retry-after`, and 401 with the reason
pub data Denial : Type 0 where
  too_many : (retry_after_seconds : ℕ) → Denial
  unauthorized : Rejection → Denial

abbrev pub status_code : Denial → ℕ
status_code (too_many _) = 429
status_code (unauthorized _) = 401

-- `GUESS_REJECTIONS`
abbrev pub is_guess : Rejection → Bool
is_guess missing = false
is_guess malformed = true
is_guess signature = true
is_guess expired = false

module _ (P : Platform) where
  -- `mint`
  unfoldable pub mint : Service → ℕ → String → String × Payload
  mint s now random =
      let signed_part =
        String.◌++◌ token_prefix (P.encode (fields_of now (now + s.ttl_ms) random)) in
      (
        String.◌++◌ signed_part (String.◌++◌ "." (P.hmac s.secret signed_part)),
        record { iat = now; exp = now + s.ttl_ms; jti = some (text random) },
      )

  -- the end of `verify`, the signature being right
  abbrev pub verify_payload : ℕ → Option Payload → Verification
  verify_payload now none = rejected malformed
  verify_payload now (some p) = if leb p.exp now then rejected expired else accepted p

  unfoldable pub verify_parts : Service → ℕ → String → String → Option String → Verification
  verify_parts s now signed_part String.[] _ = rejected malformed
  verify_parts s now signed_part (String.◌∷◌ c rest) none = rejected malformed
  verify_parts s now signed_part (String.◌∷◌ c rest) (some encoded) =
      if P.hmac s.secret signed_part == String.◌∷◌ c rest
      then verify_payload now (payload_of_json (P.parse encoded))
      else rejected signature

  unfoldable pub verify_split : Service → ℕ → Option (String × String) → Verification
  unfolding verify_parts
  verify_split s now none = rejected malformed
  verify_split s now (some p) = verify_parts s now p.0 p.1 (strip_prefix token_prefix p.0)

  -- `verify`
  unfoldable pub verify : Service → ℕ → Option String → Verification
  unfolding verify_split
  verify s now none = rejected missing
  verify s now (some token) = elim (non_empty token) [
    | none ↦ rejected missing
    | some t ↦ verify_split s now (split_last dot t)
  ]

  abbrev has_expired : ℕ → Option (String × Payload) → Bool
  has_expired now none = true
  has_expired now (some t) = leb t.1.exp now

  -- `current`, with the service after it
  unfoldable pub current : Service → ℕ → String → Service
  unfolding mint
  current s now random =
      if has_expired now s.issued then record s { issued = some (mint s now random) } else s

  -- `currentExpiresAt`: the expiry of the token that `current` leaves
  unfoldable pub current_expires_at : Service → ℕ → String → Option ℕ × Service
  current_expires_at s now random =
      let after = current s now random in (Option.map (λ t. t.1.exp) after.issued, after)

  -- `authorizeRequest`; `none` is the untouched `{ ok: true }`
  unfoldable pub authorize_request : Service → ℕ → Request → Option Verification
  authorize_request s now req = if s.enabled then some (verify s now (read_token req)) else none

  -- `appendToUrl`: what the query parameter is set to, if it is, and the service after it
  unfoldable pub append_to_url : Service → ℕ → String → Option String × Service
  append_to_url s now random =
      let after = current s now random in
      if is_token_loggable s then (Option.map (λ t. t.0) after.issued, after) else (none, s)

  abbrev pub settle : ℕ → String → Service → Verification → Option Denial × Service
  settle now client s (accepted _) = (none, record s { limiter = record_success client s.limiter })
  settle now client s (rejected reason) = (
    some (unauthorized reason),
    if is_guess reason
        then record s { limiter = (check now client (record_failure now client s.limiter)).1 }
        else s,
  )

  abbrev pub guard_decided :
      ℕ → Request → Service → Verification → Decision → Option Denial × Service
  guard_decided now req s v (blocked ms) = (some (too_many ((ms + 999) / 1000)), s)
  guard_decided now req s v free = settle now (client_id req) s v

  -- `createHttpGuard`: the denial, if there is one, and the service after the request
  unfoldable pub guard : ℕ → Request → Service → Option Denial × Service
  guard now req s =
      let d = check now (client_id req) s.limiter in
      if s.enabled
      then guard_decided now req (record s { limiter = d.1 }) (verify s now (read_token req)) d.0
      else (none, s)
