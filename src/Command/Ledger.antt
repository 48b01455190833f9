-- ===== src/Command/Ledger.antt =====
-- The ledger of the commands that were processed, in crates/db-sim-core/src/command.rs: a sorted list
-- that is searched by halves and written in place.
use dungeon_barrage.Base.{
  ℕ, zero, suc, ◌≡◌, ◌↔◌, ◌⊎◌, refl, sym, ap, ◌∙◌, inl, inr, true, false, List, [], ◌∷◌, All, In,
  arith, Bool-cases, if◌then◌else◌, Text, text_eq, text_lt, text_eq→eq, text_eq_self,
  text_lt_irrefl, text_lt_trans, text_lt_total,
}
use dungeon_barrage.Command.{Place, found, missing, after_one, is_found, binary_search}

-- `Vec::insert`.
unfoldable pub insert_at {ℓ} : {A : Type ℓ} → ℕ → A → List A → List A
insert_at zero a xs = a ∷ xs
insert_at (suc i) a [] = a ∷ []
insert_at (suc i) a (x ∷ xs) = x ∷ insert_at i a xs

abbrev pub place_id : Text → List Text → Place → List Text
place_id id ids (found i) = ids
place_id id ids (missing i) = insert_at i id ids

unfoldable pub record_id : Text → List Text → List Text
unfolding binary_search
record_id id ids = place_id id ids (binary_search id ids)

-- The names ascend, none of them twice.
abbrev pub Ascending : List Text → Type 0
Ascending [] = Unit
Ascending (x ∷ xs) = All (λ y. text_lt x y ≡ true) xs × Ascending xs

-- The ledger with a name in its place, as a recursion on the ledger.
abbrev with_id : Text → List Text → List Text
with_id id [] = id ∷ []
with_id id (x ∷ xs) =
    if text_eq x id then x ∷ xs else if text_lt id x then id ∷ x ∷ xs else x ∷ with_id id xs

place_id-after_one :
    (id x : Text) (xs : List Text) (p : Place)
    → place_id id (x ∷ xs) (after_one p) ≡ x ∷ place_id id xs p
unfolding insert_at
place_id-after_one id x xs (found i) = refl
place_id-after_one id x xs (missing i) = refl

record_id_lem : (id : Text) (xs : List Text) → record_id id xs ≡ with_id id xs
unfolding record_id binary_search insert_at
record_id_lem id [] = refl
record_id_lem id (x ∷ xs) = elim (Bool-cases (text_eq x id)) [
  | inl same ↦ rw (same) refl
  | inr other ↦ elim (Bool-cases (text_lt id x)) [
    | inl below ↦ rw (other, below) refl
    | inr above ↦
        rw (other, above)
          (place_id-after_one id x xs (binary_search id xs) ∙ ap (λ r. x ∷ r) (record_id_lem id xs))
  ]
]

All-below :
    (s t : Text) (xs : List Text)
    → text_lt s t ≡ true
    → All (λ y. text_lt t y ≡ true) xs
    → All (λ y. text_lt s y ≡ true) xs
All-below s t [] h k = tt
All-below s t (y ∷ ys) h k = (text_lt_trans s t y h k.0, All-below s t ys h k.1)

All-with_id :
    (s id : Text) (xs : List Text)
    → text_lt s id ≡ true
    → All (λ y. text_lt s y ≡ true) xs
    → All (λ y. text_lt s y ≡ true) (with_id id xs)
All-with_id s id [] h k = (h, tt)
All-with_id s id (x ∷ xs) h k = ground (arith, All-with_id s id xs h k.1)

above_of : (id x : Text) → text_eq x id ≡ false → text_lt id x ≡ false → text_lt x id ≡ true
above_of id x other above = elim (Bool-cases (text_lt x id)) [
  | inl yes' ↦ yes'
  | inr no' ↦ cc (ap (λ k. text_eq k id) (text_lt_total x id no' above), text_eq_self id, other)
]

with_id-Ascending : (id : Text) (xs : List Text) → Ascending xs → Ascending (with_id id xs)
with_id-Ascending id [] h = (tt, tt)
with_id-Ascending id (x ∷ xs) h = elim (Bool-cases (text_eq x id)) [
  | inl same ↦ rw same h
  | inr other ↦ elim (Bool-cases (text_lt id x)) [
    | inl below ↦ rw (other, below) ((below, All-below id x xs below h.0), h)
    | inr above ↦
        rw (other, above)
          (All-with_id x id xs (above_of id x other above) h.0, with_id-Ascending id xs h.1)
  ]
]

is_found-after_one : (p : Place) → is_found (after_one p) ≡ is_found p
is_found-after_one (found i) = refl
is_found-after_one (missing i) = refl

not-In-above : (id : Text) (xs : List Text) → All (λ y. text_lt id y ≡ true) xs → ¬ In id xs
not-In-above id [] h m = m
not-In-above id (x ∷ xs) h (inl e) = cc (ap (λ y. text_lt id y) e, text_lt_irrefl id, h.0)
not-In-above id (x ∷ xs) h (inr m) = not-In-above id xs h.1 m

search→In : (id : Text) (xs : List Text) → is_found (binary_search id xs) ≡ true → In id xs
unfolding binary_search
search→In id [] h = cc
search→In id (x ∷ xs) h = elim (Bool-cases (text_eq x id)) [
  | inl same ↦ inl (sym (text_eq→eq x id same))
  | inr other ↦ elim (Bool-cases (text_lt id x)) [
    | inl below ↦ cc (other, below)
    | inr above ↦
        inr (
          search→In id xs (sym (is_found-after_one (binary_search id xs)) ∙ rw (other, above) at h))
  ]
]

In→search :
    (id : Text) (xs : List Text) → Ascending xs → In id xs → is_found (binary_search id xs) ≡ true
unfolding binary_search
In→search id [] h m = absurd m
In→search id (x ∷ xs) h m = elim (Bool-cases (text_eq x id)) [
  | inl same ↦ rw same refl
  | inr other ↦ elim (Bool-cases (text_lt id x)) [
    | inl below ↦ absurd (not-In-above id (x ∷ xs) (below, All-below id x xs below h.0) m)
    | inr above ↦
        rw (other, above)
          (is_found-after_one (binary_search id xs) ∙ In→search id xs h.1 (after m other))
  ]
]
  where
    after : In id (x ∷ xs) → text_eq x id ≡ false → In id xs
    after (inl e) other = cc (ap (λ y. text_eq y id) e, text_eq_self id, other)
    after (inr m) other = m

In-with_id→ : (a b : Text) (xs : List Text) → In b (with_id a xs) → (b ≡ a) ⊎ In b xs
In-with_id→ a b [] (inl e) = inl e
In-with_id→ a b [] (inr m) = absurd m
In-with_id→ a b (x ∷ xs) m = ground (arith, In-with_id→ a b xs)

In-with_id← : (a b : Text) (xs : List Text) → (b ≡ a) ⊎ In b xs → In b (with_id a xs)
In-with_id← a b [] m = m
In-with_id← a b (x ∷ xs) m = ground (arith, text_eq→eq x a, In-with_id← a b xs)

-- Recording a name in an ascending ledger keeps it ascending, and of all names just that one is found
-- besides those that were.
pub record_id-found :
    (id other_id : Text) (ids : List Text)
    → Ascending ids
    → Ascending (record_id id ids)
      × ((is_found (binary_search other_id (record_id id ids)) ≡ true)
          ↔ ((other_id ≡ id) ⊎ (is_found (binary_search other_id ids) ≡ true)))
record_id-found id other_id ids h = rw (record_id_lem id ids) (sorted, (forth, back))
  where
    sorted : Ascending (with_id id ids)
    sorted = with_id-Ascending id ids h

    forth :
        is_found (binary_search other_id (with_id id ids)) ≡ true
        → (other_id ≡ id) ⊎ (is_found (binary_search other_id ids) ≡ true)
    forth f = elim (In-with_id→ id other_id ids (search→In other_id (with_id id ids) f)) [
      | inl e ↦ inl e
      | inr m ↦ inr (In→search other_id ids h m)
    ]

    before :
        (other_id ≡ id) ⊎ (is_found (binary_search other_id ids) ≡ true)
        → (other_id ≡ id) ⊎ In other_id ids
    before (inl e) = inl e
    before (inr f) = inr (search→In other_id ids f)

    back :
        (other_id ≡ id) ⊎ (is_found (binary_search other_id ids) ≡ true)
        → is_found (binary_search other_id (with_id id ids)) ≡ true
    back k = In→search other_id (with_id id ids) sorted (In-with_id← id other_id ids (before k))
