-- ===== src/Prelude/Lists.antt =====
-- Lists measured and indexed by native numbers, under the library's names, and the predicates on
-- lists that the components share.
use Prim.Native.Nat.{ℕ, zero, suc, ◌+◌, ◌≤◌}
use mathlib.Core.Path.{◌≡◌, refl, subst}
use mathlib.Core.Bool.{Bool, true, false, ◌&&◌, ◌||◌}
use mathlib.Core.List.{List, [], ◌∷◌, ◌++◌}
use mathlib.Core.Option.{Option, none, some}
use native.Mathlib.Omega.{arith}
use series_factory.Prelude.Tests.{if◌then◌else◌}

module _ {ℓ} {A : Type ℓ} where
  abbrev pub length : List A → ℕ
  length [] = 0
  length (x ∷ xs) = suc (length xs)

  abbrev pub get_elem? : List A → ℕ → Option A
  get_elem? [] i = none
  get_elem? (x ∷ xs) zero = some x
  get_elem? (x ∷ xs) (suc i) = get_elem? xs i

  abbrev pub head? : List A → Option A
  head? [] = none
  head? (x ∷ xs) = some x

  abbrev pub take : ℕ → List A → List A
  take zero xs = []
  take (suc n) [] = []
  take (suc n) (x ∷ xs) = x ∷ take n xs

  abbrev pub drop : ℕ → List A → List A
  drop zero xs = xs
  drop (suc n) [] = []
  drop (suc n) (x ∷ xs) = drop n xs

  abbrev pub last_or : A → List A → A
  last_or d [] = d
  last_or d (x ∷ xs) = last_or x xs

  abbrev pub last? : List A → Option A
  last? [] = none
  last? (x ∷ xs) = some (last_or x xs)

  abbrev pub is_empty : List A → Bool
  is_empty [] = true
  is_empty (x ∷ xs) = false

  -- The library's `filter` takes a decision; the code's takes a Boolean test.
  abbrev pub filter : (A → Bool) → List A → List A
  filter p [] = []
  filter p (x ∷ xs) = let rest = filter p xs in if p x then x ∷ rest else rest

  abbrev pub any : (A → Bool) → List A → Bool
  any p [] = false
  any p (x ∷ xs) = p x || any p xs

  abbrev pub all : (A → Bool) → List A → Bool
  all p [] = true
  all p (x ∷ xs) = p x && all p xs

  abbrev pub find? : (A → Bool) → List A → Option A
  find? p [] = none
  find? p (x ∷ xs) = let rest = find? p xs in if p x then some x else rest

  abbrev pub All {κ} : (A → Type κ) → List A → Type κ
  All P [] = Unit
  All P (x ∷ xs) = P x × All P xs

  pub length-append : (xs ys : List A) → length (xs ++ ys) ≡ length xs + length ys
  length-append [] ys = omega arith
  length-append (x ∷ xs) ys = omega (arith, length-append xs ys)

  pub length-filter : (p : A → Bool) (xs : List A) → length (filter p xs) ≤ length xs
  length-filter p [] = omega arith
  length-filter p (x ∷ xs) = ground (arith, length-filter p xs)

  if-cons :
      (b : Bool) (x : A) (xs ys : List A)
      → (if b then x ∷ (xs ++ ys) else xs ++ ys) ≡ (if b then x ∷ xs else xs) ++ ys
  if-cons true x xs ys = refl
  if-cons false x xs ys = refl

  pub filter-append :
      (p : A → Bool) (xs ys : List A) → filter p (xs ++ ys) ≡ filter p xs ++ filter p ys
  filter-append p [] ys = refl
  filter-append p (x ∷ xs) ys =
      rw (filter-append p xs ys) (if-cons (p x) x (filter p xs) (filter p ys))

module _ {ℓ κ} {A : Type ℓ} (P : A → Type κ) where
  pub All-append : (xs ys : List A) → All P xs → All P ys → All P (xs ++ ys)
  All-append [] ys h k = k
  All-append (x ∷ xs) ys h k = (h.0, All-append xs ys h.1 k)

  pub All-choice : (b : Bool) (xs ys : List A) → All P xs → All P ys → All P (if b then xs else ys)
  All-choice true xs ys h k = h
  All-choice false xs ys h k = k

  All-if : (b : Bool) (x : A) (xs : List A) → P x → All P xs → All P (if b then x ∷ xs else xs)
  All-if true x xs p h = (p, h)
  All-if false x xs p h = h

  pub All-filter : (p : A → Bool) (xs : List A) → All P xs → All P (filter p xs)
  All-filter p [] h = h
  All-filter p (x ∷ xs) h = All-if (p x) x (filter p xs) h.0 (All-filter p xs h.1)

module _ {ℓ κ} {A : Type ℓ} (P Q : A → Type κ) where
  pub All-imp : ((x : A) → P x → Q x) → (xs : List A) → All P xs → All Q xs
  All-imp f [] h = tt
  All-imp f (x ∷ xs) h = (f x h.0, All-imp f xs h.1)

module _ {A : Type 0} (P : A → Type 0) (p : A → Bool) where
  find_step :
      (b : Bool) (x a : A) (rest : Option A)
      → P x
      → p x ≡ b
      → (rest ≡ some a → P a × (p a ≡ true))
      → (if b then some x else rest) ≡ some a
      → P a × (p a ≡ true)
  find_step true x a rest px h ih e = subst (λ t. P t × (p t ≡ true)) (cc e) (px, h)
  find_step false x a rest px h ih e = ih e

  -- What is found passes the test.
  pub find?-some : (xs : List A) (a : A) → All P xs → find? p xs ≡ some a → P a × (p a ≡ true)
  find?-some [] a h e = cc e
  find?-some (x ∷ xs) a h e = find_step (p x) x a (find? p xs) h.0 refl (find?-some xs a h.1) e

  none_step :
      (b : Bool) (x : A) (xs : List A)
      → p x ≡ b
      → (find? p xs ≡ none → All (λ y. p y ≡ false) xs)
      → (if b then some x else find? p xs) ≡ none
      → All (λ y. p y ≡ false) (x ∷ xs)
  none_step true x xs h ih e = cc e
  none_step false x xs h ih e = (h, ih e)

  pub find?-fails : (xs : List A) → find? p xs ≡ none → All (λ x. p x ≡ false) xs
  find?-fails [] e = tt
  find?-fails (x ∷ xs) e = none_step (p x) x xs refl (find?-fails xs) e

  filter_step :
      (b : Bool) (x : A) (xs : List A)
      → p x ≡ b
      → All (λ y. p y ≡ true) xs
      → All (λ y. p y ≡ true) (if b then x ∷ xs else xs)
  filter_step true x xs h k = (h, k)
  filter_step false x xs h k = k

  pub filter-All : (xs : List A) → All (λ x. p x ≡ true) (filter p xs)
  filter-All [] = tt
  filter-All (x ∷ xs) = filter_step (p x) x (filter p xs) refl (filter-All xs)
