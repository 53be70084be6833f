-- ===== src/DependencyGraph/Cycle/Invariant.antt =====
-- What holds between two rounds of the search.
use say_hi.Prelude.{
  ℕ, ◌<◌, String, str_eq_iff, ◌≡◌, refl, ◌≢◌, ◌⊎◌, inl, inr, Option, none, some, List, [], ◌∷◌,
  arith, In, map, get_elem?, ap, true,
}
use say_hi.DependencyGraph.Cycle.{
  DirectedEdge, outgoing, contains, initial_marks, Mark, Marks, unvisited, on_stack, finished,
  Frame, mark,
}
use say_hi.DependencyGraph.Cycle.Walks.{HasEdge, Walk, edge, step}

pub mark_self : (st : Marks) (u : String) (m : Mark) → mark st u m u ≡ some m
unfolding mark
mark_self st u m = ground (arith, str_eq_iff u u)

pub mark-ne : (st : Marks) (u v : String) (m : Mark) → v ≢ u → mark st u m v ≡ st v
unfolding mark
mark-ne st u v m h = ground (arith, str_eq_iff v u)

abbrev pub task_ids : List Frame → List String
task_ids stack = map (λ f. f.task_id) stack

module _ (es : List DirectedEdge) where
  -- The targets that a frame has passed are finished, or are the frame above it.
  abbrev pub HasPassed : Marks → Option String → Frame → Type 0
  HasPassed st above f =
      (j : ℕ) (v : String)
      → j < f.next_index
      → get_elem? (outgoing es f.task_id) j ≡ some v
      → (st v ≡ some finished) ⊎ (above ≡ some v)

  -- The stack is a path along the edges, its top first, of distinct nodes.
  abbrev pub IsPath : Marks → Option String → List Frame → Type 0
  IsPath st above [] = Unit
  IsPath st above (f ∷ rest) =
      (st f.task_id ≡ some on_stack)
      × HasPassed st above f
      × ((a : String) → above ≡ some a → HasEdge es f.task_id a)
      × ¬ In f.task_id (task_ids rest)
      × IsPath st (some f.task_id) rest

  pub record Inv (st : Marks) (stack : List Frame) : Type 0 where
    pub path : IsPath st none stack
    pub stacked : (v : String) → st v ≡ some on_stack → In v (task_ids stack)
    pub closed : (u v : String) → st u ≡ some finished → HasEdge es u v → st v ≡ some finished
    pub tame : (u : String) → st u ≡ some finished → ¬ Walk es u u

  -- A path stays one while its nodes stay on the stack and what is finished stays so.
  pub IsPath-mono :
      (st st' : Marks) (above : Option String) (stack : List Frame)
      → ((v : String) → In v (task_ids stack) → st v ≡ some on_stack → st' v ≡ some on_stack)
      → ((v : String) → st v ≡ some finished → st' v ≡ some finished)
      → IsPath st above stack
      → IsPath st' above stack
  IsPath-mono st st' above [] keep fin p = tt
  IsPath-mono st st' above (f ∷ rest) keep fin (on, passed, link, fresh, path) = (
    keep f.task_id (inl refl) on,
    λ j v lt at. ground (arith, passed j v lt at, fin v),
    link,
    fresh,
    IsPath-mono st st' (some f.task_id) rest (λ v h. keep v (inr h)) fin path,
  )

  -- When the frame above is finished, a path stands by itself.
  pub IsPath-pop :
      (st : Marks) (a : String) (stack : List Frame)
      → st a ≡ some finished
      → IsPath st (some a) stack
      → IsPath st none stack
  IsPath-pop st a [] h p = tt
  IsPath-pop st a (f ∷ rest) h (on, passed, link, fresh, path) = (
    on,
    λ j v lt at. ground (arith, passed j v lt at, h, ap st {x = a} {y = v}),
    λ b e. cc,
    fresh,
    path,
  )

  -- A node of the stack leads to the frame above it.
  pub IsPath-Walk :
      (st : Marks) (a v : String) (stack : List Frame)
      → IsPath st (some a) stack
      → In v (task_ids stack)
      → Walk es v a
  IsPath-Walk st a v [] p h = elim h [ ]
  IsPath-Walk st a v (f ∷ rest) p (inl e) = rw e (edge (p.2 a refl))
  IsPath-Walk st a v (f ∷ rest) p (inr h) =
      step (IsPath-Walk st f.task_id v rest p.4 h) (p.2 a refl)

  -- Everything that a node with finished targets leads to is finished.
  pub Walk-finished :
      (st : Marks) (u : String)
      → ((v : String) → HasEdge es u v → st v ≡ some finished)
      → ((v w : String) → st v ≡ some finished → HasEdge es v w → st w ≡ some finished)
      → (w : String) → Walk es u w
      → st w ≡ some finished
  Walk-finished st u first closed w (edge h) = first w h
  Walk-finished st u first closed w (step {v} p h) =
      closed v w (Walk-finished st u first closed v p) h

-- The initial marks: the declared nodes are unvisited.
pub contains-In : (order : List String) (v : String) → contains order v ≡ true → In v order
unfolding contains
contains-In [] v h = cc
contains-In (x ∷ order) v h = ground (arith, str_eq_iff x v, contains-In order v)

pub In-contains : (order : List String) (v : String) → In v order → contains order v ≡ true
unfolding contains
In-contains [] v h = elim h [ ]
In-contains (x ∷ order) v h = ground (arith, str_eq_iff x v, In-contains order v)

pub initial_marks-In :
    (order : List String) (v : String) → In v order → initial_marks order v ≡ some unvisited
unfolding initial_marks
initial_marks-In order v h = ground (arith, In-contains order v h)

pub initial_marks-only :
    (order : List String) (v : String) (m : Mark) → initial_marks order v ≡ some m → In v order
unfolding initial_marks
initial_marks-only order v m h = ground (arith, contains-In order v)

pub initial_marks-unvisited :
    (order : List String) (v : String) (m : Mark) → initial_marks order v ≡ some m → m ≡ unvisited
unfolding initial_marks
initial_marks-unvisited order v m h = ground arith
