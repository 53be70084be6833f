-- ===== src/Prelude/Lists.antt =====
-- Lists measured and indexed by native numbers, under the library's names.
use Prim.Native.Nat.{ℕ, zero, suc, ◌+◌, ◌≤◌}
use mathlib.Core.Path.{◌≡◌, refl, ap}
use mathlib.Core.Logic.{◌≢◌, ◌⊎◌, inl, inr}
use mathlib.Core.Bool.{Bool, true, false, ◌&&◌, ◌||◌}
use mathlib.Core.List.{List, [], ◌∷◌, ◌++◌, map}
use mathlib.Core.Option.{Option, none, some}
use native.Mathlib.Omega.{arith}
use say_hi.Prelude.Tests.{Bool-cases}

module _ {ℓ} {A : Type ℓ} where
  abbrev pub length : List A → ℕ
  length [] = 0
  length (x ∷ xs) = suc (length xs)

  abbrev pub get_elem? : List A → ℕ → Option A
  get_elem? [] i = none
  get_elem? (x ∷ xs) zero = some x
  get_elem? (x ∷ xs) (suc i) = get_elem? xs i

  -- A write out of bounds changes nothing.
  abbrev pub set : List A → ℕ → A → List A
  set [] i v = []
  set (x ∷ xs) zero v = v ∷ xs
  set (x ∷ xs) (suc i) v = x ∷ set xs i v

  abbrev pub any : (A → Bool) → List A → Bool
  any p [] = false
  any p (x ∷ xs) = p x || any p xs

  abbrev pub all : (A → Bool) → List A → Bool
  all p [] = true
  all p (x ∷ xs) = p x && all p xs

  abbrev pub find : (A → Bool) → List A → Option A
  find p [] = none
  find p (x ∷ xs) = elim (p x) [ true ↦ some x | false ↦ find p xs ]

  -- The sum of a weight over a list.
  abbrev pub weigh : (A → ℕ) → List A → ℕ
  weigh w [] = 0
  weigh w (x ∷ xs) = w x + weigh w xs

  abbrev pub All {κ} : (A → Type κ) → List A → Type κ
  All P [] = Unit
  All P (x ∷ xs) = P x × All P xs

-- Membership by recursion, which computes to a sum.
module _ {A : Type 0} where
  abbrev pub In : A → List A → Type 0
  In a [] = ⊥
  In a (x ∷ xs) = (a ≡ x) ⊎ In a xs

  pub In-append : (a : A) (xs ys : List A) → In a (xs ++ ys) → In a xs ⊎ In a ys
  In-append a [] ys h = inr h
  In-append a (x ∷ xs) ys (inl e) = inl (inl e)
  In-append a (x ∷ xs) ys (inr h) = ground (arith, In-append a xs ys h)

  pub In-get_elem? : (xs : List A) (i : ℕ) {a : A} → get_elem? xs i ≡ some a → In a xs
  In-get_elem? [] i h = cc
  In-get_elem? (x ∷ xs) zero h = ground arith
  In-get_elem? (x ∷ xs) (suc i) h = inr (In-get_elem? xs i h)

module _ {ℓ} {A : Type ℓ} where
  pub weigh-set :
      (w : A → ℕ) (xs : List A) (i : ℕ) (v : A) {x : A}
      → get_elem? xs i ≡ some x
      → weigh w (set xs i v) + w x ≡ weigh w xs + w v
  weigh-set w [] i v h = cc
  weigh-set w (y ∷ xs) zero v h = ground arith
  weigh-set w (y ∷ xs) (suc i) v h = ground (arith, weigh-set w xs i v h)

  pub weigh-map :
      (w : A → ℕ) (f : A → A) (xs : List A)
      → ((x : A) → w (f x) ≡ w x)
      → weigh w (map f xs) ≡ weigh w xs
  weigh-map w f [] h = refl
  weigh-map w f (x ∷ xs) h = ground (arith, weigh-map w f xs h, h x)

  pub get_elem?-le-weigh :
      (w : A → ℕ) (xs : List A) (i : ℕ) {x : A} → get_elem? xs i ≡ some x → w x ≤ weigh w xs
  get_elem?-le-weigh w [] i h = cc
  get_elem?-le-weigh w (y ∷ xs) zero h = ground arith
  get_elem?-le-weigh w (y ∷ xs) (suc i) h = ground (arith, get_elem?-le-weigh w xs i h)

  pub get_elem?-map {κ} :
      {B : Type κ} (f : A → B) (xs : List A) (i : ℕ) {b : B}
      → get_elem? (map f xs) i ≡ some b
      → (x : A) × (get_elem? xs i ≡ some x) × (b ≡ f x)
  get_elem?-map f [] i h = cc
  get_elem?-map f (x ∷ xs) zero h = (x, refl, ground arith)
  get_elem?-map f (x ∷ xs) (suc i) h = get_elem?-map f xs i h

  -- What stands at a place after a write: the new element, or the old one elsewhere.
  pub get_elem?-set :
      (xs : List A) (i j : ℕ) (v : A) {x : A}
      → get_elem? (set xs i v) j ≡ some x
      → ((i ≡ j) × (x ≡ v)) ⊎ ((i ≢ j) × (get_elem? xs j ≡ some x))
  get_elem?-set [] i j v h = cc
  get_elem?-set (y ∷ xs) zero zero v h = inl (refl, ground arith)
  get_elem?-set (y ∷ xs) zero (suc j) v h = inr (ground arith, h)
  get_elem?-set (y ∷ xs) (suc i) zero v h = inr (ground arith, h)
  get_elem?-set (y ∷ xs) (suc i) (suc j) v h = ground (arith, get_elem?-set xs i j v h)

  all_cons :
      (p : A → Bool) (y : A) (xs : List A)
      → p y ≡ true
      → ((i : ℕ) (x : A) → get_elem? xs i ≡ some x → p x ≡ true)
      → (i : ℕ) (x : A) → get_elem? (y ∷ xs) i ≡ some x
      → p x ≡ true
  all_cons p y xs good rest zero x h = ground (arith, good, ap p {x = y} {y = x})
  all_cons p y xs good rest (suc i) x h = rest i x h

  -- A test holds at every place, or it fails at one.
  pub all_or_fails :
      (p : A → Bool) (xs : List A)
      → ((i : ℕ) (x : A) → get_elem? xs i ≡ some x → p x ≡ true)
        ⊎ ((i : ℕ) × (x : A) × (get_elem? xs i ≡ some x) × (p x ≡ false))
  all_or_fails p [] = inl (λ i x h. cc)
  all_or_fails p (y ∷ xs) = elim (Bool-cases (p y)) [
    | inr bad ↦ inr (0, y, refl, bad)
    | inl good ↦ elim (all_or_fails p xs) [
      | inr (i, x, at, bad) ↦ inr (suc i, x, at, bad)
      | inl rest ↦ inl (λ i x h. all_cons p y xs good rest i x h)
    ]
  ]
