-- ===== src/Builder/Keys.antt =====
-- lib/src/graph-output.builder.ts, `dependencyNodeKey` and `enrichDependency`: the key of a node and
-- the reference read back from it.
use Prim.Native.String
use Prim.Native.Char.{code}
use text.Mathlib.TextLemmas.{cons-append, nil-append, append-eq-nil_iff, cons-ne-nil}
use nest_graph_inspector.Prelude.{String, false, ◌≡◌, refl, ◌≢◌, none, some, eqb}
use nest_graph_inspector.Builder.{split_colon, dependency_node_key, enrich_dependency}

abbrev pub HasNoColon : String → Type 0
HasNoColon String.[] = Unit
HasNoColon (String.◌∷◌ c s) = (eqb (code c) b':' ≡ false) × HasNoColon s

split_colon-append :
    (m n : String) → HasNoColon m → split_colon (String.◌++◌ m (String.◌++◌ ":" n)) ≡ some (m, n)
unfolding split_colon
split_colon-append String.[] n h = rw nil-append (rw cons-append (rw nil-append refl))
split_colon-append (String.◌∷◌ c m) n (h, hs) =
    rw (cons-append c m _) (rw (h, split_colon-append m n hs) refl)

-- A reference written as `Module:token`, where the module's name has no colon, is read back as that
-- module and token, whatever colons the token has and whatever module it is read in.
pub enrich_dependency-node_key :
    (m token current : String)
    → HasNoColon m
    → enrich_dependency (dependency_node_key m token) current
      ≡ record { provided_by_type = "module"; provided_by = m; token = token }
unfolding enrich_dependency dependency_node_key
enrich_dependency-node_key m token current h =
    rw (split_colon-append m token h, enrich_dependency) refl

no_colon : (s : String) → HasNoColon s → split_colon s ≡ none
unfolding split_colon
no_colon String.[] h = refl
no_colon (String.◌∷◌ c s) (h, hs) = rw (h, no_colon s hs) refl

-- A reference with no colon is a token of the module that it is read in.
pub enrich_dependency_local :
    (token current : String)
    → HasNoColon token
    → enrich_dependency token current
      ≡ record { provided_by_type = "module"; provided_by = current; token = token }
unfolding enrich_dependency
enrich_dependency_local token current h = rw (no_colon token h, enrich_dependency) refl

-- No node has the empty key.
pub node_key-ne-empty : (m n : String) → dependency_node_key m n ≢ ""
unfolding dependency_node_key
node_key-ne-empty m n e =
    let (_, tail) = append-eq-nil_iff.0 e in
    let (colon, _) = append-eq-nil_iff.0 tail in cons-ne-nil _ _ colon
