-- ===== src/Base/Sort.antt =====
-- A stable sort by a strict test, as Rust's `sort_by` and `sort_by_key`: an insertion from the right.
use mathlib.Core.Path.{◌≡◌, refl, sym, ap, ◌∙◌, subst}
use mathlib.Core.Logic.{◌⊎◌, inl, inr}
use mathlib.Core.Bool.{Bool, true, false}
use mathlib.Core.List.{List, [], ◌∷◌, map, Permᴰ}
use dungeon_barrage.Base.Tests.{if◌then◌else◌, Bool-cases}
use dungeon_barrage.Base.Lists.{All}

module _ {A : Type 0} (before : A → A → Bool) where
  unfoldable pub insert_by : A → List A → List A
  insert_by x [] = x ∷ []
  insert_by x (y ∷ ys) = if before y x then y ∷ insert_by x ys else x ∷ y ∷ ys

  unfoldable pub sort_by : List A → List A
  unfolding insert_by
  sort_by [] = []
  sort_by (x ∷ xs) = insert_by x (sort_by xs)

  -- One of the two is before the other.
  abbrev pub Apart : A → A → Type 0
  Apart x y = (before x y ≡ true) ⊎ (before y x ≡ true)

  abbrev pub AllApart : List A → Type 0
  AllApart [] = Unit
  AllApart (x ∷ xs) = All (Apart x) xs × AllApart xs

All-perm : {A : Type 0} (P : A → Type 0) {xs ys : List A} → Permᴰ xs ys → All P xs → All P ys
All-perm P Permᴰ.nil h = tt
All-perm P (Permᴰ.cons e d) h = (subst P e h.0, All-perm P d h.1)
All-perm P (Permᴰ.swap e f) h = (subst P f h.1.0, (subst P e h.0, h.1.1))
All-perm P (Permᴰ.trans d e) h = All-perm P e (All-perm P d h)

module _ {A : Type 0} (before : A → A → Bool)
    (asym : (x y : A) → before x y ≡ true → before y x ≡ false)
    (trans : (x y z : A) → before x y ≡ true → before y z ≡ true → before x z ≡ true) where
  Apart-sym : (x y : A) → Apart before x y → Apart before y x
  Apart-sym x y (inl h) = inr h
  Apart-sym x y (inr h) = inl h

  AllApart-perm : {xs ys : List A} → Permᴰ xs ys → AllApart before xs → AllApart before ys
  AllApart-perm Permᴰ.nil h = tt
  AllApart-perm (Permᴰ.cons {a = a} {l₂ = l} e d) h =
      (subst (λ z. All (Apart before z) l) e (All-perm (Apart before a) d h.0), AllApart-perm d h.1)
  AllApart-perm (Permᴰ.swap {a = a} {b = b} {a' = c} {b' = d} {l = l} e f) h = (
    (
      subst (λ z. Apart before z d) f (subst (λ z. Apart before b z) e (Apart-sym a b h.0.0)),
      subst (λ z. All (Apart before z) l) f h.1.0,
    ),
    (subst (λ z. All (Apart before z) l) e h.0.1, h.1.1),
  )
  AllApart-perm (Permᴰ.trans d e) h = AllApart-perm e (AllApart-perm d h)

  insert_later :
      (x y : A) (ys : List A)
      → before y x ≡ true
      → insert_by before x (y ∷ ys) ≡ y ∷ insert_by before x ys
  unfolding insert_by
  insert_later x y ys h = rw h refl

  insert_here :
      (x y : A) (ys : List A) → before y x ≡ false → insert_by before x (y ∷ ys) ≡ x ∷ y ∷ ys
  unfolding insert_by
  insert_here x y ys h = rw h refl

  insert_swap :
      (x y : A) (zs : List A)
      → before x y ≡ true
      → insert_by before x (insert_by before y zs) ≡ insert_by before y (insert_by before x zs)
  unfolding insert_by
  insert_swap x y [] h = insert_here x y [] (asym x y h) ∙ sym (insert_later y x [] h)
  insert_swap x y (z ∷ zs) h = elim (Bool-cases (before z x)) [
    | inl zx ↦
        let zy = trans z x y zx h in
        ap (insert_by before x) (insert_later y z zs zy)
        ∙ insert_later x z (insert_by before y zs) zx
        ∙ ap (λ l. z ∷ l) (insert_swap x y zs h)
        ∙ sym (insert_later y z (insert_by before x zs) zy)
        ∙ ap (insert_by before y) (sym (insert_later x z zs zx))
    | inr zx ↦
        let right : insert_by before y (insert_by before x (z ∷ zs))
            ≡ x ∷ insert_by before y (z ∷ zs) =
          ap (insert_by before y) (insert_here x z zs zx) ∙ insert_later y x (z ∷ zs) h in
        elim (Bool-cases (before z y)) [
          | inl zy ↦
              ap (insert_by before x) (insert_later y z zs zy)
              ∙ insert_here x z (insert_by before y zs) zx
              ∙ ap (λ l. x ∷ l) (sym (insert_later y z zs zy))
              ∙ sym right
          | inr zy ↦
              ap (insert_by before x) (insert_here y z zs zy)
              ∙ insert_here x y (z ∷ zs) (asym x y h)
              ∙ ap (λ l. x ∷ l) (sym (insert_here y z zs zy))
              ∙ sym right
        ]
  ]

  insert-Apart :
      (x y : A) (zs : List A)
      → Apart before x y
      → insert_by before x (insert_by before y zs) ≡ insert_by before y (insert_by before x zs)
  insert-Apart x y zs (inl h) = insert_swap x y zs h
  insert-Apart x y zs (inr h) = sym (insert_swap y x zs h)

  -- The order of a list whose elements are apart does not matter to the sort.
  pub sort_by_perm :
      {xs ys : List A} → Permᴰ xs ys → AllApart before xs → sort_by before xs ≡ sort_by before ys
  unfolding sort_by
  sort_by_perm Permᴰ.nil h = refl
  sort_by_perm (Permᴰ.cons {a = a} {l₂ = l} e d) h =
      ap (insert_by before a) (sort_by_perm d h.1)
      ∙ ap (λ z. insert_by before z (sort_by before l)) e
  sort_by_perm (Permᴰ.swap {a = a} {b = b} {a' = c} {l = l} e f) h =
      insert-Apart a b (sort_by before l) h.0.0
      ∙ ap (λ z. insert_by before z (insert_by before a (sort_by before l))) f
      ∙ ap (λ z. insert_by before c (insert_by before z (sort_by before l))) e
  sort_by_perm (Permᴰ.trans d e) h = sort_by_perm d h ∙ sort_by_perm e (AllApart-perm d h)

-- A map that keeps the test commutes with the sort.
module _ {A : Type 0} (before : A → A → Bool) (f : A → A)
    (kept : (x y : A) → before (f x) (f y) ≡ before x y) where
  insert_by-map :
      (x : A) (ys : List A) → insert_by before (f x) (map f ys) ≡ map f (insert_by before x ys)
  unfolding insert_by
  insert_by-map x [] = refl
  insert_by-map x (y ∷ ys) = elim (Bool-cases (before y x)) [
    | inl h ↦ rw (kept y x, h) (ap (λ l. f y ∷ l) (insert_by-map x ys))
    | inr h ↦ rw (kept y x, h) refl
  ]

  pub sort_by-map : (xs : List A) → sort_by before (map f xs) ≡ map f (sort_by before xs)
  unfolding sort_by
  sort_by-map [] = refl
  sort_by-map (x ∷ xs) =
      ap (insert_by before (f x)) (sort_by-map xs) ∙ insert_by-map x (sort_by before xs)
