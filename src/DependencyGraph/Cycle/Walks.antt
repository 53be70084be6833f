-- ===== src/DependencyGraph/Cycle/Walks.antt =====
-- Walks along the edges, which say what a cycle is without any search.
use say_hi.Prelude.{String, str_eq_iff, inl, inr, List, [], ◌∷◌, arith, In, All, ap}
use say_hi.DependencyGraph.Cycle.{DirectedEdge, outgoing}

abbrev pub HasEdge : List DirectedEdge → String → String → Type 0
HasEdge es u v = In (record { from = u; to = v }) es

pub data Walk (es : List DirectedEdge) (u : String) : String → Type 0 where
  edge : {v : String} → HasEdge es u v → Walk es u v
  step : {v w : String} → Walk es u v → HasEdge es v w → Walk es u w

-- Both ends of every edge are declared nodes.
abbrev pub AreDeclared : List String → List DirectedEdge → Type 0
AreDeclared order es = All (λ e. In e.from order × In e.to order) es

pub HasEdge-AreDeclared :
    (order : List String) (es : List DirectedEdge) (u v : String)
    → AreDeclared order es
    → HasEdge es u v
    → In u order × In v order
HasEdge-AreDeclared order (e ∷ es) u v d (inl p) =
    rw (ap (λ (x : DirectedEdge). x.from) p, ap (λ (x : DirectedEdge). x.to) p) d.0
HasEdge-AreDeclared order (e ∷ es) u v d (inr p) = HasEdge-AreDeclared order es u v d.1 p
HasEdge-AreDeclared order [] u v d p = elim p [ ]

pub outgoing-HasEdge :
    (es : List DirectedEdge) (u v : String) → In v (outgoing es u) → HasEdge es u v
unfolding outgoing
outgoing-HasEdge [] u v h = h
outgoing-HasEdge (e ∷ es) u v h = ground (arith, str_eq_iff e.from u, outgoing-HasEdge es u v)

pub HasEdge-outgoing :
    (es : List DirectedEdge) (u v : String) → HasEdge es u v → In v (outgoing es u)
unfolding outgoing
HasEdge-outgoing [] u v h = h
HasEdge-outgoing (e ∷ es) u v h = ground (arith, str_eq_iff e.from u, HasEdge-outgoing es u v)

pub walk_join : {es : List DirectedEdge} {u v w : String} → Walk es u v → Walk es v w → Walk es u w
walk_join p (edge h) = step p h
walk_join p (step q h) = step (walk_join p q) h
