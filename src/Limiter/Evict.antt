-- ===== src/Limiter/Evict.antt =====
-- lib/src/access-attempt-limiter.ts, `evictionCandidate` and `evict`: whom a full tracker gives up.

use nest_graph_inspector.Prelude.{
  Option, Option-cases, ℕ, zero, suc, ◌≤◌, String, ◌≡◌, refl, subst, ◌∙◌, sym, ap, ◌⊎◌, inl, inr,
  Bool, true, false, none, some, [], ◌∷◌, arith, length, eq_refl, All, In,
}
use nest_graph_inspector.Prelude.Sets.{has}
use nest_graph_inspector.Prelude.Maps.{delete, keys, length-delete-lt}
use nest_graph_inspector.Limiter.{
  ClientRecord, Clients, Search, is_blocked_at, victim_rank, consider, search_from,
  eviction_candidate, drop_victims,
}

-- The order in which clients are given up, by whether they are blocked and by rank: unblocked ones
-- first, and among equals the lower rank, which is the older sighting or the sooner end of a block.
abbrev pub Precedes : Bool → ℕ → Bool → ℕ → Type 0
Precedes false m true n = Unit
Precedes true m false n = ⊥
Precedes true m true n = m ≤ n
Precedes false m false n = m ≤ n

Precedes-trans : (a b c : Bool) (l m n : ℕ) → Precedes a l b m → Precedes b m c n → Precedes a l c n
Precedes-trans false false false l m n p q = omega arith
Precedes-trans false false true l m n p q = tt
Precedes-trans false true true l m n p q = tt
Precedes-trans true true true l m n p q = omega arith
Precedes-trans a b c l m n p q = ground arith

Precedes-refl : (a : Bool) (n : ℕ) → Precedes a n a n
Precedes-refl true n = omega arith
Precedes-refl false n = omega arith

-- when a client's turn comes: a blocked one's when its block ends, another's by when it was last seen
abbrev pub turn : Bool → Option ℕ → ℕ → ℕ
turn true none last_seen_at = 0
turn true (some end) last_seen_at = end
turn false blocked_until last_seen_at = last_seen_at

turn_of_rank :
    (r : ClientRecord) (active : Bool)
    → victim_rank r active ≡ turn active r.blocked_until r.last_seen_at
turn_of_rank r true = elim (Option-cases r.blocked_until) [
  | inl e ↦ rw e refl
  | inr (end, e) ↦ rw e refl
]
turn_of_rank r false = refl

module _ (now : ℕ) where
  abbrev pub rank_of : ClientRecord → ℕ
  rank_of r = turn (is_blocked_at r now) r.blocked_until r.last_seen_at

  abbrev pub IsLeast : Bool → ℕ → Clients → Type 0
  IsLeast active rank = All (λ e. Precedes active rank (is_blocked_at e.1 now) (rank_of e.1))

  abbrev at_client : String → ClientRecord → Search
  at_client k r = record {
    candidate = some k;
    rank = some (rank_of r);
    is_blocked = is_blocked_at r now;
  }

  -- A round keeps the candidate or takes the client, whichever is given up first.
  consider-cases :
      (v k : String) (b : Bool) (n : ℕ) (r : ClientRecord)
      → let s : Search = record { candidate = some v; rank = some n; is_blocked = b } in
        ((consider now s k r ≡ s) × Precedes b n (is_blocked_at r now) (rank_of r))
        ⊎ ((consider now s k r ≡ at_client k r) × Precedes (is_blocked_at r now) (rank_of r) b n)
  unfolding consider
  consider-cases v k b n r = rw (← turn_of_rank r (is_blocked_at r now)) (ground arith)

  -- What a search that began with a candidate ends with: that candidate, or a client after it, given
  -- up no later than the first candidate and than every client after it.
  record Ends (s : Search) (v : String) (b : Bool) (n : ℕ) (rest : Clients) : Type 0 where
    name : String
    active : Bool
    rank : ℕ
    found : s ≡ record { candidate = some name; rank = some rank; is_blocked = active }
    among :
        ((name ≡ v) × (active ≡ b) × (rank ≡ n))
        ⊎ ((r : ClientRecord) × In (name, r) rest
            × (is_blocked_at r now ≡ active)
            × (rank_of r ≡ rank))
    first : Precedes active rank b n
    least : IsLeast active rank rest

  search_from-Ends :
      (v : String) (b : Bool) (n : ℕ) (rest : Clients)
      → Ends
          (search_from now (record { candidate = some v; rank = some n; is_blocked = b }) rest)
          v
          b
          n
          rest
  unfolding search_from
  search_from-Ends v b n [] = record {
    name = v;
    active = b;
    rank = n;
    found = refl;
    among = inl (refl, refl, refl);
    first = Precedes-refl b n;
    least = tt;
  }
  search_from-Ends v b n ((k, r) ∷ rest) = elim (consider-cases v k b n r) [
    | inl (same, before) ↦
        let e = search_from-Ends v b n rest in
        record {
          name = e.name;
          active = e.active;
          rank = e.rank;
          found = rw same e.found;
          among = ground (arith, e.among);
          first = e.first;
          least = (Precedes-trans _ _ _ _ _ _ e.first before, e.least);
        }
    | inr (taken, before) ↦
        let e = search_from-Ends k (is_blocked_at r now) (rank_of r) rest in
        record {
          name = e.name;
          active = e.active;
          rank = e.rank;
          found = rw taken e.found;
          among = elim e.among [
            | inl (p, q, s) ↦ inr (r, inl (cc), sym q, sym s)
            | inr (r', m, q, s) ↦ inr (r', inr m, q, s)
          ];
          first = Precedes-trans _ _ _ _ _ _ e.first before;
          least = (e.first, e.least);
        }
  ]

  -- The search over a tracker that is not empty names a tracked client that precedes every other.
  pub record IsVictim (v : String) (clients : Clients) : Type 0 where
    pub client : ClientRecord
    pub tracked : In (v, client) clients
    pub least : IsLeast (is_blocked_at client now) (rank_of client) clients

  consider_first :
      (k : String) (r : ClientRecord)
      → consider now (record { candidate = none; rank = none; is_blocked = true }) k r
        ≡ at_client k r
  unfolding consider
  consider_first k r = rw (← turn_of_rank r (is_blocked_at r now)) (ground arith)

  IsVictim-of_Ends :
      {s : Search} {k : String} {r : ClientRecord} {rest : Clients}
      → (e : Ends s k (is_blocked_at r now) (rank_of r) rest) → IsVictim e.name ((k, r) ∷ rest)
  IsVictim-of_Ends {k} {r} {rest} e = elim e.among [
    | inl (p, q, s) ↦ record {
      client = r;
      tracked = inl (cc);
      least = (
        Precedes-refl _ _,
        subst (λ b. IsLeast b (rank_of r) rest) q (subst (λ n. IsLeast e.active n rest) s e.least),
      );
    }
    | inr (r', m, q, s) ↦ record {
      client = r';
      tracked = inr m;
      least =
          subst (λ b. IsLeast b (rank_of r') ((k, r) ∷ rest)) (sym q)
            (subst (λ n. IsLeast e.active n ((k, r) ∷ rest)) (sym s) (e.first, e.least));
    }
  ]

  -- A tracker that holds a client has a client to give up, and the one that is chosen precedes every
  -- tracked client: an unblocked one while there is one, then the one seen longest ago, and among
  -- blocked ones the one whose block ends soonest.
  pub eviction_candidate-IsVictim :
      (k : String) (r : ClientRecord) (rest : Clients)
      → (v : String) × (eviction_candidate now ((k, r) ∷ rest) ≡ some v)
        × IsVictim v ((k, r) ∷ rest)
  unfolding eviction_candidate
  eviction_candidate-IsVictim k r rest =
      let e = search_from-Ends k (is_blocked_at r now) (rank_of r) rest in
      (
        e.name,
        ap (λ s. (search_from now s rest).candidate) (consider_first k r)
            ∙ ap (λ s. s.candidate) e.found,
        IsVictim-of_Ends e,
      )

pub has-keys_of_In :
    (v : String) (r : ClientRecord) (clients : Clients)
    → In (v, r) clients
    → has v (keys clients) ≡ true
has-keys_of_In v r [] m = absurd m
has-keys_of_In v r ((k, q) ∷ rest) (inl e) =
    let s : v ≡ k = ap (λ p. p.0) e in rw s (ground (arith, eq_refl k))
has-keys_of_In v r ((k, q) ∷ rest) (inr m) = ground (arith, has-keys_of_In v r rest m)

-- A property of tracked clients that says nothing of others survives the eviction.
pub All-delete {κ} :
    (P : String × ClientRecord → Type κ) (v : String) (clients : Clients)
    → All P clients
    → All P (delete v clients)
unfolding delete
All-delete P v [] h = h
All-delete P v ((k, r) ∷ rest) (p, h) = ground (arith, All-delete P v rest h)

module _ (now : ℕ) where
  -- Given a round for each client, the loop of `evict` ends with no more than `most` clients.
  pub length-drop_victims-le :
      (fuel most : ℕ) (clients : Clients)
      → length clients ≤ fuel
      → length (drop_victims fuel most now clients) ≤ most
  unfolding drop_victims
  length-drop_victims-le zero most clients h = omega arith
  length-drop_victims-le (suc fuel) most [] h = ground arith
  length-drop_victims-le (suc fuel) most ((k, r) ∷ rest) h =
      let (v, e, victim) = eviction_candidate-IsVictim now k r rest in
      let there = has-keys_of_In v victim.client ((k, r) ∷ rest) victim.tracked in
      ground (
        arith,
        e,
        length-delete-lt v ((k, r) ∷ rest) there,
        length-drop_victims-le fuel most (delete v ((k, r) ∷ rest)),
      )
