-- ===== src/Scheduler/Sort.antt =====
-- Sorting the names of living players, as crates/db-sim-core/src/scheduler.rs does.
use dungeon_barrage.Base.{
  ◌≡◌, subst, ◌⊎◌, inl, inr, true, false, List, [], ◌∷◌, In, All, All-map, Bool-cases, Text,
  text_eq, text_lt, text_eq_self, text_lt_irrefl, text_lt_trans, text_lt_total,
}
use dungeon_barrage.Scheduler.{insert_text, sort_texts}

abbrev pub Distinct : List Text → Type 0
Distinct [] = Unit
Distinct (s ∷ ss) = All (λ t. text_eq s t ≡ false) ss × Distinct ss

pub text_lt_asym : (s t : Text) → text_lt s t ≡ true → text_lt t s ≡ false
text_lt_asym s t h = elim (Bool-cases (text_lt t s)) [
  | inr f ↦ f
  | inl k ↦ cc (text_lt_trans s t s h k, text_lt_irrefl s)
]

pub text_lt_of_ne : (t s : Text) → text_eq t s ≡ false → text_lt t s ≡ false → text_lt s t ≡ true
text_lt_of_ne t s d h = elim (Bool-cases (text_lt s t)) [
  | inl k ↦ k
  | inr k ↦
      let e : text_eq t s ≡ true =
        subst (λ u. text_eq t u ≡ true) (text_lt_total t s h k) (text_eq_self t) in
      cc (e, d)
]

text_gt_of_ne : (s t : Text) → text_eq s t ≡ false → text_lt t s ≡ false → text_lt s t ≡ true
text_gt_of_ne s t d h = elim (Bool-cases (text_lt s t)) [
  | inl k ↦ k
  | inr k ↦
      let e : text_eq s t ≡ true =
        subst (λ u. text_eq s u ≡ true) (text_lt_total s t k h) (text_eq_self s) in
      cc (e, d)
]

abbrev pub Strict : List Text → Type 0
Strict [] = Unit
Strict (s ∷ ss) = All (λ t. text_lt s t ≡ true) ss × Strict ss

All-insert :
    (P : Text → Type 0) (s : Text) (ts : List Text) → P s → All P ts → All P (insert_text s ts)
unfolding insert_text
All-insert P s [] p h = (p, tt)
All-insert P s (t ∷ ts) p h = elim (Bool-cases (text_lt t s)) [
  | inl before ↦ rw before (h.0, All-insert P s ts p h.1)
  | inr after ↦ rw after (p, h)
]

All-of_insert :
    (P : Text → Type 0) (s : Text) (ts : List Text) → All P (insert_text s ts) → P s × All P ts
unfolding insert_text
All-of_insert P s [] h = h
All-of_insert P s (t ∷ ts) h = elim (Bool-cases (text_lt t s)) [
  | inl before ↦ let k = rw before at h in let r = All-of_insert P s ts k.1 in (r.0, (k.0, r.1))
  | inr after ↦ rw after at h
]

Strict-insert :
    (s : Text) (ts : List Text)
    → All (λ t. text_eq s t ≡ false) ts
    → Strict ts
    → Strict (insert_text s ts)
unfolding insert_text
Strict-insert s [] d h = (tt, tt)
Strict-insert s (t ∷ ts) d h = elim (Bool-cases (text_lt t s)) [
  | inl before ↦
      rw before (All-insert (λ u. text_lt t u ≡ true) s ts before h.0, Strict-insert s ts d.1 h.1)
  | inr after ↦
      let first = text_gt_of_ne s t d.0 after in
      rw after ((first, All-map ts (λ u k. text_lt_trans s t u first k) h.0), h)
]

pub All-sort : (P : Text → Type 0) (ts : List Text) → All P ts → All P (sort_texts ts)
unfolding sort_texts
All-sort P [] h = tt
All-sort P (t ∷ ts) h = All-insert P t (sort_texts ts) h.0 (All-sort P ts h.1)

pub All-of_sort : (P : Text → Type 0) (ts : List Text) → All P (sort_texts ts) → All P ts
unfolding sort_texts
All-of_sort P [] h = tt
All-of_sort P (t ∷ ts) h =
    let r = All-of_insert P t (sort_texts ts) h in (r.0, All-of_sort P ts r.1)

pub Strict-sort : (ts : List Text) → Distinct ts → Strict (sort_texts ts)
unfolding sort_texts
Strict-sort [] d = tt
Strict-sort (t ∷ ts) d =
    Strict-insert t (sort_texts ts) (All-sort (λ u. text_eq t u ≡ false) ts d.0)
      (Strict-sort ts d.1)

In-of_insert : (a s : Text) (ts : List Text) → In a (insert_text s ts) → (a ≡ s) ⊎ In a ts
unfolding insert_text
In-of_insert a s [] h = h
In-of_insert a s (t ∷ ts) h = elim (Bool-cases (text_lt t s)) [
  | inl before ↦ elim (rw before at h) [
    | inl e ↦ inr (inl e)
    | inr later ↦ elim (In-of_insert a s ts later) [ inl e ↦ inl e | inr m ↦ inr (inr m) ]
  ]
  | inr after ↦ rw after at h
]

pub In-of_sort : (a : Text) (ts : List Text) → In a (sort_texts ts) → In a ts
unfolding sort_texts
In-of_sort a [] h = h
In-of_sort a (t ∷ ts) h = elim (In-of_insert a t (sort_texts ts) h) [
  | inl e ↦ inl e
  | inr m ↦ inr (In-of_sort a ts m)
]
