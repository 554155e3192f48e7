-- ===== src/Limiter/Eviction.antt =====
-- lib/src/access-attempt-limiter.ts: what a full tracker does to blocks and to newcomers.
use nest_graph_inspector.Prelude.{
  ℕ, zero, suc, ◌≤◌, ◌<◌, String, ◌==◌, ◌≡◌, refl, sym, ap, subst, ◌∙◌, ◌≢◌, ◌⊎◌, inl, inr, true,
  false, none, some, [], ◌∷◌, ◌++◌, arith, ltb, length, if◌then◌else◌, eq_iff, eq_refl, All, In,
  Bool-cases, All-In, In-append_right, length-append,
}
use native.Mathlib.Numerals.{add-one}
use nest_graph_inspector.Prelude.Sets.{has, IsDistinct}
use nest_graph_inspector.Prelude.Maps.{
  get, set, delete, keys, is_some-get, get-set, get-delete, IsDistinct-keys-set,
  IsDistinct-keys-delete,
}
use nest_graph_inspector.Limiter.{
  ClientRecord, Clients, Limiter, drop_stale, drop_victims, evict, eviction_candidate, counted,
  record_failure, size, is_blocked_at,
}
use nest_graph_inspector.Limiter.Bounds.{IsValid, IsDistinct-drop_stale}
use nest_graph_inspector.Limiter.Evict.{
  eviction_candidate-IsVictim, IsVictim, IsLeast, rank_of, Precedes, All-delete, has-keys_of_In,
}

get_of_In :
    (c : String) (r : ClientRecord) (clients : Clients)
    → IsDistinct (keys clients)
    → In (c, r) clients
    → get c clients ≡ some r
unfolding get
get_of_In c r [] d m = absurd m
get_of_In c r ((k, q) ∷ rest) (new, d) (inl e) =
    let s : k ≡ c = ap (λ p. p.0) (sym e) in
    let s' : q ≡ r = ap (λ p. p.1) (sym e) in rw (s, s', eq_refl c)
get_of_In c r ((k, q) ∷ rest) (new, d) (inr m) =
    ground (arith, eq_iff k c, has-keys_of_In c r rest m, get_of_In c r rest d m)

abbrev pub AllBlocked : ℕ → Clients → Type 0
AllBlocked now = All (λ e. is_blocked_at e.1 now ≡ true)

All-of_IsVictim :
    (now : ℕ) (r : ClientRecord) (n : ℕ) (rest : Clients)
    → All (λ e. Precedes true n (is_blocked_at e.1 now) (rank_of now e.1)) rest
    → AllBlocked now rest
All-of_IsVictim now r n [] h = tt
All-of_IsVictim now r n ((k, q) ∷ rest) (p, h) = (ground arith, All-of_IsVictim now r n rest h)

In-of_get :
    (c : String) (r : ClientRecord) (clients : Clients) → get c clients ≡ some r → In (c, r) clients
unfolding get
In-of_get c r [] e = cc
In-of_get c r ((k, q) ∷ rest) e = elim (Bool-cases (k == c)) [
  | inl same ↦ let s : k ≡ c = (eq_iff k c).0 same in inl (ground arith)
  | inr other ↦ inr (In-of_get c r rest (rw (other, get) at e))
]

IsVictim-AllBlocked :
    (now : ℕ) (v : String) (clients : Clients) (victim : IsVictim now v clients)
    → is_blocked_at victim.client now ≡ true
    → AllBlocked now clients
IsVictim-AllBlocked now v clients victim b =
    All-of_IsVictim now victim.client (rank_of now victim.client) clients
      (subst (λ x. IsLeast now x (rank_of now victim.client) clients) b victim.least)

drop_victims_round :
    (fuel most now : ℕ) (clients : Clients) (v : String)
    → eviction_candidate now clients ≡ some v
    → drop_victims (suc fuel) most now clients ≡ (
        if ltb most (length clients)
        then drop_victims fuel most now (delete v clients)
        else clients)
unfolding drop_victims
drop_victims_round fuel most now clients v e = ground arith

AllBlocked-drop_victims :
    (fuel most now : ℕ) (clients : Clients)
    → AllBlocked now clients
    → AllBlocked now (drop_victims fuel most now clients)
AllBlocked-drop_victims zero most now clients h = unfold drop_victims in h
AllBlocked-drop_victims (suc fuel) most now [] h = unfold drop_victims in ground arith
AllBlocked-drop_victims (suc fuel) most now ((k, q) ∷ rest) h =
    let (v, ev, _) = eviction_candidate-IsVictim now k q rest in
    let kept = All-delete (λ e. is_blocked_at e.1 now ≡ true) v ((k, q) ∷ rest) h in
    rw (drop_victims_round fuel most now ((k, q) ∷ rest) v ev)
      (elim (Bool-cases (ltb most (length ((k, q) ∷ rest)))) [
        | inl more ↦ rw more (AllBlocked-drop_victims fuel most now _ kept)
        | inr few ↦ rw few h
      ])

-- One round: either another client goes, or every client is blocked.
delete_victim :
    (now : ℕ) (v c : String) (r : ClientRecord) (clients : Clients)
    → IsDistinct (keys clients)
    → get c clients ≡ some r
    → is_blocked_at r now ≡ true
    → IsVictim now v clients
    → (get c (delete v clients) ≡ some r) ⊎ AllBlocked now (delete v clients)
delete_victim now v c r clients d e b victim = elim (Bool-cases (v == c)) [
  | inl same ↦
      let found : get c clients ≡ some victim.client =
        subst (λ x. get x clients ≡ some victim.client) ((eq_iff v c).0 same)
          (get_of_In v victim.client clients d victim.tracked) in
      let is_r : victim.client ≡ r = cc in
      let active = ap (λ x. is_blocked_at x now) is_r ∙ b in
      inr (All-delete _ v clients (IsVictim-AllBlocked now v clients victim active))
  | inr other ↦ inl (rw (get-delete v c clients, other) e)
]

-- The loop of `evict` gives a blocked client up only when every tracked client is blocked.
drop_victims-keeps :
    (fuel most now : ℕ) (clients : Clients) (c : String) (r : ClientRecord)
    → IsDistinct (keys clients)
    → get c clients ≡ some r
    → is_blocked_at r now ≡ true
    → (get c (drop_victims fuel most now clients) ≡ some r)
      ⊎ AllBlocked now (drop_victims fuel most now clients)
drop_victims-keeps zero most now clients c r d e b = inl (unfold drop_victims in e)
drop_victims-keeps (suc fuel) most now [] c r d e b = absurd (unfold get in cc)
drop_victims-keeps (suc fuel) most now ((k, q) ∷ rest) c r d e b =
    let clients = (k, q) ∷ rest in
    let (v, ev, victim) = eviction_candidate-IsVictim now k q rest in
    rw (drop_victims_round fuel most now clients v ev)
      (elim (Bool-cases (ltb most (length clients))) [
        | inl more ↦ rw more (elim (delete_victim now v c r clients d e b victim) [
          | inl kept ↦
              drop_victims-keeps fuel most now (delete v clients) c r
                (IsDistinct-keys-delete v clients d) kept b
          | inr all ↦ inr (AllBlocked-drop_victims fuel most now (delete v clients) all)
        ])
        | inr few ↦ rw few (inl e)
      ])

drop_stale-keeps :
    (window now : ℕ) (clients : Clients) (c : String) (r : ClientRecord)
    → get c clients ≡ some r
    → is_blocked_at r now ≡ true
    → get c (drop_stale window now clients) ≡ some r
unfolding drop_stale get
drop_stale-keeps window now [] c r e b = cc
drop_stale-keeps window now ((k, q) ∷ rest) c r e b =
    ground (arith, drop_stale-keeps window now rest c r)

evict-keeps :
    (now : ℕ) (l : Limiter) (clients : Clients) (c : String) (r : ClientRecord)
    → IsDistinct (keys clients)
    → get c clients ≡ some r
    → is_blocked_at r now ≡ true
    → (get c (evict now l clients) ≡ some r) ⊎ AllBlocked now (evict now l clients)
unfolding evict
evict-keeps now l clients c r d e b =
    let left = drop_stale l.window_ms now clients in
    drop_victims-keeps (length left) l.max_tracked_clients now left c r
      (IsDistinct-drop_stale l.window_ms now clients d)
      (drop_stale-keeps l.window_ms now clients c r e b) b

-- what the tracker holds after a failure
abbrev stored : ℕ → String → Limiter → Clients
stored now k l = set k (counted l now (get k l.clients)) l.clients

record_failure-clients :
    (now : ℕ) (k : String) (l : Limiter)
    → let after = (record_failure now k l).clients in
      (after ≡ l.clients) ⊎ (after ≡ stored now k l) ⊎ (after ≡ evict now l (stored now k l))
unfolding record_failure
record_failure-clients now k l = ground arith

-- A failure of one client ends the active block of another only if every client that is tracked
-- afterwards is itself blocked.
pub record_failure-keeps_block :
    (now : ℕ) (k c : String) (l : Limiter) (r : ClientRecord)
    → IsValid l
    → k ≢ c
    → get c l.clients ≡ some r
    → is_blocked_at r now ≡ true
    → (get c (record_failure now k l).clients ≡ some r)
      ⊎ AllBlocked now (record_failure now k l).clients
record_failure-keeps_block now k c l r v ne e b =
    let next = counted l now (get k l.clients) in
    let there : get c (stored now k l) ≡ some r =
      ground (arith, get-set k c next l.clients, eq_iff k c) in
    let d = IsDistinct-keys-set k next l.clients v.distinct in
    elim (record_failure-clients now k l) [
      | inl same ↦ inl (rw same e)
      | inr (inl kept) ↦ inl (rw kept there)
      | inr (inr evicted) ↦ rw evicted (evict-keeps now l (stored now k l) c r d there b)
    ]

-- While the tracker is full of active blocks, a newcomer's failures are not remembered.

has-snoc_fresh :
    (c : String) (r : ClientRecord) (m : Clients)
    → has c (keys m) ≡ false
    → set c r m ≡ m ++ (c, r) ∷ []
unfolding set
has-snoc_fresh c r [] h = refl
has-snoc_fresh c r ((k, q) ∷ m) h = ground (arith, has-snoc_fresh c r m)

delete-snoc_fresh :
    (c : String) (r : ClientRecord) (m : Clients)
    → has c (keys m) ≡ false
    → delete c (m ++ (c, r) ∷ []) ≡ m
unfolding delete
delete-snoc_fresh c r [] h = ground (arith, eq_refl c)
delete-snoc_fresh c r ((k, q) ∷ m) h = ground (arith, delete-snoc_fresh c r m)

drop_stale-AllBlocked :
    (window now : ℕ) (m : Clients) (c : String) (r : ClientRecord)
    → AllBlocked now m
    → (drop_stale window now (m ++ (c, r) ∷ []) ≡ m ++ (c, r) ∷ [])
      ⊎ (drop_stale window now (m ++ (c, r) ∷ []) ≡ m)
unfolding drop_stale
drop_stale-AllBlocked window now [] c r h = ground arith
drop_stale-AllBlocked window now ((k, q) ∷ m) c r (b, h) =
    ground (arith, drop_stale-AllBlocked window now m c r h)

In-concat-cases :
    (a x : String × ClientRecord) (m : Clients) → In a (m ++ x ∷ []) → In a m ⊎ (a ≡ x)
In-concat-cases a x [] (inl e) = inr e
In-concat-cases a x [] (inr h) = absurd h
In-concat-cases a x (y ∷ m) (inl e) = inl (inl e)
In-concat-cases a x (y ∷ m) (inr h) = elim (In-concat-cases a x m h) [
  | inl i ↦ inl (inr i)
  | inr e ↦ inr e
]

-- Beside blocked clients alone, a client that is not blocked is the one given up.
candidate_newcomer :
    (now : ℕ) (m : Clients) (c v : String) (r : ClientRecord)
    → AllBlocked now m
    → is_blocked_at r now ≡ false
    → IsVictim now v (m ++ (c, r) ∷ [])
    → v ≡ c
candidate_newcomer now m c v r h u victim =
    let last = In-append_right (c, r) m ((c, r) ∷ []) (inl refl) in
    let before = All-In _ (c, r) (m ++ (c, r) ∷ []) victim.least last in
    let free : is_blocked_at victim.client now ≡ false = ground arith in
    elim (In-concat-cases (v, victim.client) (c, r) m victim.tracked) [
      | inl inside ↦ absurd (cc (All-In _ (v, victim.client) m h inside))
      | inr same ↦ ap (λ p. p.0) same
    ]

candidate-concat :
    (now : ℕ) (m : Clients) (c : String) (r : ClientRecord)
    → let clients = m ++ (c, r) ∷ [] in
      (v : String) × (eviction_candidate now clients ≡ some v) × IsVictim now v clients
candidate-concat now [] c r = eviction_candidate-IsVictim now c r []
candidate-concat now ((k, q) ∷ m) c r = eviction_candidate-IsVictim now k q (m ++ (c, r) ∷ [])

drop_victims_fits :
    (fuel most now : ℕ) (m : Clients) → length m ≤ most → drop_victims fuel most now m ≡ m
unfolding drop_victims
drop_victims_fits zero most now m h = refl
drop_victims_fits (suc fuel) most now m h = ground arith

drop_victims_newcomer :
    (fuel now : ℕ) (m : Clients) (c : String) (r : ClientRecord)
    → AllBlocked now m
    → is_blocked_at r now ≡ false
    → has c (keys m) ≡ false
    → drop_victims (suc fuel) (length m) now (m ++ (c, r) ∷ []) ≡ m
drop_victims_newcomer fuel now m c r h u new =
    let (v, ev, victim) = candidate-concat now m c r in
    let is_c = candidate_newcomer now m c v r h u victim in
    let gone : delete v (m ++ (c, r) ∷ []) ≡ m = rw is_c (delete-snoc_fresh c r m new) in
    let size = length-append m ((c, r) ∷ []) in
    let over : ltb (length m) (length (m ++ (c, r) ∷ [])) ≡ true = rw size (ground arith) in
    rw (drop_victims_round fuel (length m) now (m ++ (c, r) ∷ []) v ev, over, gone)
      (drop_victims_fits fuel (length m) now m (omega arith))

evict_newcomer :
    (now : ℕ) (l : Limiter) (m : Clients) (c : String) (r : ClientRecord)
    → l.max_tracked_clients ≡ length m
    → AllBlocked now m
    → is_blocked_at r now ≡ false
    → has c (keys m) ≡ false
    → evict now l (m ++ (c, r) ∷ []) ≡ m
unfolding evict
evict_newcomer now l m c r full h u new = elim (drop_stale-AllBlocked l.window_ms now m c r h) [
  | inl kept ↦
      rw (kept, full, length-append m ((c, r) ∷ []), add-one)
        (drop_victims_newcomer (length m) now m c r h u new)
  | inr gone ↦ rw (gone, full) (drop_victims_fits (length m) (length m) now m (omega arith))
]

counted_newcomer :
    (l : Limiter) (now : ℕ) → 1 < l.max_failures → is_blocked_at (counted l now none) now ≡ false
unfolding counted
counted_newcomer l now h = ground arith

-- A tracker that is full of active blocks forgets the failure of a client that it does not track,
-- if one failure does not block at once: the limiter is left as it was, so that such a client may
-- guess without limit.
pub record_failure_forgotten :
    (now : ℕ) (c : String) (l : Limiter)
    → size l ≡ l.max_tracked_clients
    → AllBlocked now l.clients
    → has c (keys l.clients) ≡ false
    → 1 < l.max_failures
    → record_failure now c l ≡ l
unfolding record_failure
record_failure_forgotten now c l full h new limit =
    let r = counted l now none in
    let missing : get c l.clients ≡ none = ground (arith, is_some-get c l.clients) in
    let appended = has-snoc_fresh c r l.clients new in
    let evicted =
      evict_newcomer now l l.clients c r (sym full) h (counted_newcomer l now limit) new in
    let over = length-append l.clients ((c, r) ∷ []) in
    ground (arith, missing, appended, evicted, over)
