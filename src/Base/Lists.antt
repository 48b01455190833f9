-- ===== src/Base/Lists.antt =====
-- Lists measured and indexed by native numbers, filtered by Boolean tests, and predicates on them.
use Prim.Native.Nat.{ℕ, zero, suc, ◌+◌, ◌<◌}
use mathlib.Core.Path.{◌≡◌, refl, ap, sym, subst}
use mathlib.Core.Logic.{◌≢◌, ◌⊎◌, inl, inr}
use mathlib.Core.Bool.{Bool, true, false, not, ◌||◌}
use mathlib.Core.List.{List, [], ◌∷◌, ◌++◌, map}
use mathlib.Core.Option.{Option, none, some}
use native.Mathlib.Omega.{arith}
use dungeon_barrage.Base.Tests.{if◌then◌else◌, Bool-cases}

module _ {ℓ} {A : Type ℓ} where
  abbrev pub length : List A → ℕ
  length [] = 0
  length (x ∷ xs) = suc (length xs)

  abbrev pub get_elem? : List A → ℕ → Option A
  get_elem? [] i = none
  get_elem? (x ∷ xs) zero = some x
  get_elem? (x ∷ xs) (suc i) = get_elem? xs i

  abbrev pub get_or : List A → ℕ → A → A
  get_or [] i d = d
  get_or (x ∷ xs) zero d = x
  get_or (x ∷ xs) (suc i) d = get_or xs i d

  -- A write out of bounds changes nothing.
  abbrev pub set : List A → ℕ → A → List A
  set [] i v = []
  set (x ∷ xs) zero v = v ∷ xs
  set (x ∷ xs) (suc i) v = x ∷ set xs i v

  abbrev pub replicate : ℕ → A → List A
  replicate zero a = []
  replicate (suc n) a = a ∷ replicate n a

  -- `Iterator::filter` and `Vec::retain`.
  abbrev pub filter : (A → Bool) → List A → List A
  filter p [] = []
  filter p (x ∷ xs) = if p x then x ∷ filter p xs else filter p xs

  -- `Iterator::any`.
  abbrev pub any : (A → Bool) → List A → Bool
  any p [] = false
  any p (x ∷ xs) = p x || any p xs

  -- `Iterator::find`.
  abbrev pub find : (A → Bool) → List A → Option A
  find p [] = none
  find p (x ∷ xs) = if p x then some x else find p xs

  -- A predicate by recursion computes to tuples, which the tactics read and build.
  abbrev pub All {κ} : (A → Type κ) → List A → Type κ
  All P [] = Unit
  All P (x ∷ xs) = P x × All P xs

module _ {ℓ} {A : Type ℓ} where
  pub length-append : (xs ys : List A) → length (xs ++ ys) ≡ length xs + length ys
  length-append [] ys = omega arith
  length-append (x ∷ xs) ys = omega (arith, length-append xs ys)

  pub length-set : (xs : List A) (i : ℕ) (v : A) → length (set xs i v) ≡ length xs
  length-set [] i v = refl
  length-set (x ∷ xs) zero v = refl
  length-set (x ∷ xs) (suc i) v = ap suc (length-set xs i v)

  pub length-replicate : (n : ℕ) (a : A) → length (replicate n a) ≡ n
  length-replicate zero a = refl
  length-replicate (suc n) a = ap suc (length-replicate n a)

  pub get_or-replicate : (n i : ℕ) (a d : A) → i < n → get_or (replicate n a) i d ≡ a
  get_or-replicate zero i a d h = elim h [ ]
  get_or-replicate (suc n) zero a d h = refl
  get_or-replicate (suc n) (suc i) a d h = get_or-replicate n i a d (omega arith)

  pub get_or-set_self :
      (xs : List A) (i : ℕ) (v d : A) → i < length xs → get_or (set xs i v) i d ≡ v
  get_or-set_self [] i v d h = elim h [ ]
  get_or-set_self (x ∷ xs) zero v d h = refl
  get_or-set_self (x ∷ xs) (suc i) v d h = get_or-set_self xs i v d (omega arith)

  pub get_or-set_ne :
      (xs : List A) (i j : ℕ) (v d : A) → i ≢ j → get_or (set xs i v) j d ≡ get_or xs j d
  get_or-set_ne [] i j v d h = refl
  get_or-set_ne (x ∷ xs) zero zero v d h = absurd (h refl)
  get_or-set_ne (x ∷ xs) zero (suc j) v d h = refl
  get_or-set_ne (x ∷ xs) (suc i) zero v d h = refl
  get_or-set_ne (x ∷ xs) (suc i) (suc j) v d h = get_or-set_ne xs i j v d (λ e. h (ap suc e))

-- Filters.
module _ {ℓ} {A : Type ℓ} where
  pub filter-filter : (p : A → Bool) (xs : List A) → filter p (filter p xs) ≡ filter p xs
  filter-filter p [] = refl
  filter-filter p (x ∷ xs) = elim (Bool-cases (p x)) [
    | inl yes' ↦ rw (yes', yes', filter-filter p xs)
    | inr no' ↦ rw no' (filter-filter p xs)
  ]

  pub filter-filter-not : (p : A → Bool) (xs : List A) → filter p (filter (λ x. not (p x)) xs) ≡ []
  filter-filter-not p [] = refl
  filter-filter-not p (x ∷ xs) = elim (Bool-cases (p x)) [
    | inl yes' ↦ rw yes' (filter-filter-not p xs)
    | inr no' ↦ rw (no', no') (filter-filter-not p xs)
  ]

  pub All-filter_self : (p : A → Bool) (xs : List A) → All (λ x. p x ≡ true) (filter p xs)
  All-filter_self p [] = tt
  All-filter_self p (x ∷ xs) = elim (Bool-cases (p x)) [
    | inl yes' ↦ rw yes' (yes', All-filter_self p xs)
    | inr no' ↦ rw no' (All-filter_self p xs)
  ]

  pub All-filter {κ} :
      (P : A → Type κ) (p : A → Bool) (xs : List A) → All P xs → All P (filter p xs)
  All-filter P p [] h = tt
  All-filter P p (x ∷ xs) h = elim (Bool-cases (p x)) [
    | inl yes' ↦ rw yes' (h.0, All-filter P p xs h.1)
    | inr no' ↦ rw no' (All-filter P p xs h.1)
  ]

  pub All-map {κ ι} :
      {P : A → Type κ} {Q : A → Type ι} (xs : List A) → ((x : A) → P x → Q x) → All P xs → All Q xs
  All-map [] f h = tt
  All-map (x ∷ xs) f h = (f x h.0, All-map xs f h.1)

  pub length-filter-not :
      (p : A → Bool) (xs : List A)
      → length (filter p xs) + length (filter (λ x. not (p x)) xs) ≡ length xs
  length-filter-not p [] = omega arith
  length-filter-not p (x ∷ xs) = elim (Bool-cases (p x)) [
    | inl yes' ↦ rw yes' (omega (arith, length-filter-not p xs))
    | inr no' ↦ rw no' (omega (arith, length-filter-not p xs))
  ]

  pub length-map {κ} : {B : Type κ} (f : A → B) (xs : List A) → length (map f xs) ≡ length xs
  length-map f [] = refl
  length-map f (x ∷ xs) = ap suc (length-map f xs)

-- Membership by recursion, which case splits read.
module _ {A : Type 0} where
  abbrev pub In : A → List A → Type 0
  In a [] = ⊥
  In a (x ∷ xs) = (a ≡ x) ⊎ In a xs

  pub get_elem?-In :
      (xs : List A) (i : ℕ) → i < length xs → (a : A) × (get_elem? xs i ≡ some a) × In a xs
  get_elem?-In [] i h = elim h [ ]
  get_elem?-In (x ∷ xs) zero h = (x, refl, inl refl)
  get_elem?-In (x ∷ xs) (suc i) h = let (a, e, m) = get_elem?-In xs i (omega arith) in (a, e, inr m)

  pub In-All {κ} : (P : A → Type κ) (a : A) (xs : List A) → In a xs → All P xs → P a
  In-All P a [] m h = absurd m
  In-All P a (x ∷ xs) (inl e) h = subst P (sym e) h.0
  In-All P a (x ∷ xs) (inr m) h = In-All P a xs m h.1

-- Two sequences whose elements agree in their places.
abbrev pub AllAgree : {A : Type 0} → (A → A → Type 0) → List A → List A → Type 0
AllAgree Agree [] [] = Unit
AllAgree Agree [] (y ∷ ys) = ⊥
AllAgree Agree (x ∷ xs) [] = ⊥
AllAgree Agree (x ∷ xs) (y ∷ ys) = Agree x y × AllAgree Agree xs ys

module _ {A : Type 0} (R : A → A → Type 0) where
  pub AllAgree-self : ((x : A) → R x x) → (xs : List A) → AllAgree R xs xs
  AllAgree-self h [] = tt
  AllAgree-self h (x ∷ xs) = (h x, AllAgree-self h xs)

  -- A write of a value that agrees with whatever the old value agrees with.
  pub AllAgree-set :
      (xs ys : List A) (i : ℕ) (y z : A)
      → get_elem? ys i ≡ some y
      → ((x : A) → R x y → R x z)
      → AllAgree R xs ys
      → AllAgree R xs (set ys i z)
  AllAgree-set [] [] i y z found h k = tt
  AllAgree-set [] (v ∷ ys) i y z found h k = absurd k
  AllAgree-set (x ∷ xs) [] i y z found h k = absurd k
  AllAgree-set (x ∷ xs) (v ∷ ys) zero y z found h k =
      let e : v ≡ y = ground (arith, found) in (h x (subst (R x) e k.0), k.1)
  AllAgree-set (x ∷ xs) (v ∷ ys) (suc i) y z found h k = (k.0, AllAgree-set xs ys i y z found h k.1)
