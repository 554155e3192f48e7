-- ===== src/Token/Tests.antt =====
-- lib/src/access-token.service.ts: a service whose platform is a toy one. Its digest is the letter d, and
-- it writes a payload as its two numbers in unary and its id.
use Prim.Native.Char.{char, code}
use nest_graph_inspector.Prelude.{
  ℕ, zero, suc, eqb, if◌then◌else◌, String, Bool, true, false, ◌≡◌, refl, ◌≢◌, Option, none, some,
  List, [], ◌∷◌, ◌↔◌, ◌⊎◌, arith, eq_iff, inl,
}
use nest_graph_inspector.Prelude.Maps.{get}
use nest_graph_inspector.Prelude.Texts.{
  strip_prefix, split_last, trim, trim_start, trim_end, lower, drop_chars,
}
use nest_graph_inspector.Limiter.{ClientRecord, is_blocked}
use nest_graph_inspector.Token.{
  Platform, Field, number, Json, object, fields_of, Payload, text, Service, Request, one, accepted,
  rejected, expired, signature, verify, verify_split, verify_parts, read_token, header_value,
  client_id, mint, current, guard, too_many,
}
use nest_graph_inspector.Token.Verify.{Digests, IsSigned, verify_iff}
use nest_graph_inspector.Token.Current.{RoundTrips, IsCurrent, verify-mint, current-IsCurrent}
use nest_graph_inspector.Token.Guard.{verdict, decision, guard-passes_iff}
use nest_graph_inspector.Token.Lockout.{attempts, IsGuess, attempts-lockout}

unfoldable bars : ℕ → String → String
bars zero s = String.◌∷◌ (char 48 tt) s
bars (suc n) s = String.◌∷◌ (char 49 tt) (bars n s)

unfoldable read_bars : String → Option (ℕ × String)
read_bars String.[] = none
read_bars (String.◌∷◌ c s) = elim (read_bars s) [
  | none ↦ if eqb (code c) 48 then some (0, s) else none
  | some r ↦ if eqb (code c) 48 then some (0, s) else some (suc r.0, r.1)
]

read_bars-bars : (n : ℕ) (s : String) → read_bars (bars n s) ≡ some (n, s)
unfolding read_bars bars
read_bars-bars zero s = ground arith
read_bars-bars (suc n) s = rw (read_bars-bars n s) refl

unfoldable encode_toy : List (String × Field) → String
encode_toy ((_, number i) ∷ (_, number e) ∷ (_, text j) ∷ []) = bars i (bars e j)
encode_toy _ = ""

abbrev json_of_bars : ℕ → Option (ℕ × String) → Option Json
json_of_bars i none = none
json_of_bars i (some (e, j)) = some (object (fields_of i e j))

unfoldable parse_toy : String → Option Json
parse_toy s = elim (read_bars s) [ none ↦ none | some r ↦ json_of_bars r.0 (read_bars r.1) ]

abbrev toy : Platform
toy = record { hmac = λ _ _. "d"; encode = encode_toy; parse = parse_toy }

false-ne-true : false ≡ true → ⊥
false-ne-true h = cc

d-ne-empty : ◌≢◌ {A = String} "d" ""
d-ne-empty e = false-ne-true ((eq_iff "d" "").1 e)

toy-Digests : Digests toy
toy-Digests = record { no_dot = λ _ _. (refl, tt); not_empty = λ _ _. d-ne-empty }

parse_bars :
    (i e : ℕ) (j : String) → parse_toy (bars i (bars e j)) ≡ some (object (fields_of i e j))
unfolding parse_toy
parse_bars i e j = rw (read_bars-bars i (bars e j), parse_toy) (rw (read_bars-bars e j) refl)

toy-RoundTrips : RoundTrips toy
unfolding encode_toy
toy-RoundTrips i e j = parse_bars i e j

abbrev sample : Service
sample = record {
  enabled = true;
  log_token = true;
  ttl_ms = 3;
  secret = "k";
  limiter = record {
    enabled = true;
    max_failures = 2;
    window_ms = 100;
    block_ms = 50;
    max_tracked_clients = 2;
    clients = [];
  };
  issued = none;
}

-- a request from an IPv4 peer with a token in its `authorization` header
abbrev request : String → Request
request token = record {
  remote_address = some "::ffff:10.0.0.1";
  authorization = some (one token);
  token_header = none;
  query_token = none;
}

client_test : client_id (request "Bearer x") ≡ "10.0.0.1"
unfolding client_id strip_prefix
client_test = refl

verify_test : verify toy sample 21 (some "ngi1.1010j.d") ≡ rejected expired
unfolding verify verify_split split_last verify_parts parse_toy read_bars get strip_prefix
verify_test = refl

guess : verify toy sample 5 (read_token (request "Bearer ngi1.10j.x")) ≡ rejected signature
unfolding verify verify_split split_last verify_parts read_token header_value trim trim_start
    trim_end lower strip_prefix drop_chars
guess = refl

verify_iff_example :
    (verify toy sample 0 (some "ngi1.1010j.d")
      ≡ accepted (record { iat = 1; exp = 1; jti = some (text "j") }))
    ↔ IsSigned toy sample 0 "ngi1.1010j.d" (record { iat = 1; exp = 1; jti = some (text "j") })
verify_iff_example =
    verify_iff toy sample 0 toy-Digests "ngi1.1010j.d"
      (record { iat = 1; exp = 1; jti = some (text "j") })

verify-mint_example :
    verify toy sample 6 (some (mint toy sample 5 "j").0) ≡ accepted (mint toy sample 5 "j").1
verify-mint_example = verify-mint toy toy-Digests toy-RoundTrips sample 5 6 "j"

current-IsCurrent_example : IsCurrent toy (current toy sample 5 "j") 5
current-IsCurrent_example =
    current-IsCurrent toy toy-Digests toy-RoundTrips sample 5 "j" (omega arith) (inl refl)

guard-passes_iff_example : ((guard toy 5 (request "Bearer ngi1.10j.x") sample).0 ≡ none) ↔ (
    (◌≡◌ {A = Bool} true false)
    ⊎ ((is_blocked (decision toy 5 (request "Bearer ngi1.10j.x") sample).0 ≡ false)
        × ((p : Payload) × (verdict toy 5 (request "Bearer ngi1.10j.x") sample ≡ accepted p))))
guard-passes_iff_example = guard-passes_iff toy 5 (request "Bearer ngi1.10j.x") sample

abbrev guess_at : ℕ × Request
guess_at = (5, request "Bearer ngi1.10j.x")

same_client : client_id (request "Bearer ngi1.10j.x") ≡ "10.0.0.1"
unfolding client_id strip_prefix
same_client = refl

right_client : client_id (request "Bearer ngi1.10j.d") ≡ "10.0.0.1"
unfolding client_id strip_prefix
right_client = refl

untracked : get {V = ClientRecord} "10.0.0.1" [] ≡ none
unfolding get
untracked = refl

guess_at-IsGuess : IsGuess toy sample "10.0.0.1" 105 guess_at
guess_at-IsGuess = record {
  early = omega arith;
  client = same_client;
  reason = signature;
  verdict = guess;
  counts = refl;
}

attempts-lockout_example :
    (seconds : ℕ) × ((guard toy 8
        (request "Bearer ngi1.10j.d")
        (attempts toy (guess_at ∷ guess_at ∷ []) sample)).0
      ≡ some (too_many seconds))
attempts-lockout_example =
    attempts-lockout toy "10.0.0.1" guess_at (guess_at ∷ []) 8 (request "Bearer ngi1.10j.d") sample
      refl refl (record { bounded = omega arith; distinct = tt }) untracked (omega arith)
      (omega arith) refl (guess_at-IsGuess, (guess_at-IsGuess, tt)) right_client (omega arith)
