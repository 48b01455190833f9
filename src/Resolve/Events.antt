-- ===== src/Resolve/Events.antt =====
-- The damage events of crates/db-sim-core/src/resolve/mod.rs, as a map from names.
use dungeon_barrage.Base.{
  ◌≡◌, ◌∙◌, refl, sym, ap, inl, inr, true, false, List, [], ◌∷◌, All, Bool-cases, Text, text_eq,
  text_lt, text_eq→eq, text_eq_self, text_lt_irrefl, text_lt_trans, text_lt_total, if◌then◌else◌,
}
use dungeon_barrage.Types.Outcome.{DamageEvent}
use dungeon_barrage.Resolve.{no_damage, update_entry}

-- What the map says of a name, none of its damage for a name without an entry.
unfoldable pub event_of : Text → List (Text × DamageEvent) → DamageEvent
event_of id [] = no_damage id
event_of id ((key, event) ∷ events) = if text_eq key id then event else event_of id events

abbrev IsAbove : Text → Text × DamageEvent → Type 0
IsAbove id entry = text_lt id entry.0 ≡ true

-- The keys ascend.
abbrev pub Ascending : List (Text × DamageEvent) → Type 0
Ascending [] = Unit
Ascending (e ∷ es) = All (IsAbove e.0) es × Ascending es

eq-lt : (s t : Text) → text_lt s t ≡ true → text_eq t s ≡ false
eq-lt s t h = elim (Bool-cases (text_eq t s)) [
  | inl same ↦ cc (text_lt_irrefl s, ap (λ u. text_lt s u) (text_eq→eq t s same), h)
  | inr other ↦ other
]

event_of-above :
    (id : Text) (es : List (Text × DamageEvent))
    → All (IsAbove id) es
    → event_of id es ≡ no_damage id
unfolding event_of
event_of-above id [] h = refl
event_of-above id ((key, event) ∷ es) h = rw (eq-lt id key h.0) (event_of-above id es h.1)

All-IsAbove :
    (s t : Text) (es : List (Text × DamageEvent))
    → text_lt s t ≡ true
    → All (IsAbove t) es
    → All (IsAbove s) es
All-IsAbove s t [] h k = tt
All-IsAbove s t (e ∷ es) h k = (text_lt_trans s t e.0 h k.0, All-IsAbove s t es h k.1)

-- A write through the map is read back, over what the map said before.
pub event_of-update_entry :
    (id : Text) (f : DamageEvent → DamageEvent) (es : List (Text × DamageEvent))
    → Ascending es
    → event_of id (update_entry id f es) ≡ f (event_of id es)
unfolding event_of update_entry
event_of-update_entry id f [] h = rw (text_eq_self id) refl
event_of-update_entry id f ((key, event) ∷ es) h = elim (Bool-cases (text_eq key id)) [
  | inl same ↦ rw (same, same) refl
  | inr other ↦ elim (Bool-cases (text_lt id key)) [
    | inl below ↦
        rw (other, below, text_eq_self id)
          (ap f (sym (event_of-above id es (All-IsAbove id key es below h.0))))
    | inr above ↦ rw (other, above, other) (event_of-update_entry id f es h.1)
  ]
]

-- The names but the written one keep their events.
pub event_of-update_entry_other :
    (id other_id : Text) (f : DamageEvent → DamageEvent) (es : List (Text × DamageEvent))
    → text_eq id other_id ≡ false
    → event_of other_id (update_entry id f es) ≡ event_of other_id es
unfolding event_of update_entry
event_of-update_entry_other id other_id f [] h = rw h refl
event_of-update_entry_other id other_id f ((key, event) ∷ es) h =
    elim (Bool-cases (text_eq key id)) [
      | inl same ↦
          let e : text_eq key other_id ≡ false =
            ap (λ i. text_eq i other_id) (text_eq→eq key id same) ∙ h in
          rw (same, e) refl
      | inr other ↦ elim (Bool-cases (text_lt id key)) [
        | inl below ↦ rw (other, below, h) refl
        | inr above ↦ rw (other, above, event_of-update_entry_other id other_id f es h) refl
      ]
    ]

All-update_entry :
    (s id : Text) (f : DamageEvent → DamageEvent) (es : List (Text × DamageEvent))
    → text_lt s id ≡ true
    → All (IsAbove s) es
    → All (IsAbove s) (update_entry id f es)
unfolding update_entry
All-update_entry s id f [] h k = (h, tt)
All-update_entry s id f ((key, event) ∷ es) h k = elim (Bool-cases (text_eq key id)) [
  | inl same ↦ rw same k
  | inr other ↦ elim (Bool-cases (text_lt id key)) [
    | inl below ↦ rw (other, below) (h, k)
    | inr above ↦ rw (other, above) (k.0, All-update_entry s id f es h k.1)
  ]
]

-- Writes keep the keys ascending.
pub update_entry-Ascending :
    (id : Text) (f : DamageEvent → DamageEvent) (es : List (Text × DamageEvent))
    → Ascending es
    → Ascending (update_entry id f es)
unfolding update_entry
update_entry-Ascending id f [] h = (tt, tt)
update_entry-Ascending id f ((key, event) ∷ es) h = elim (Bool-cases (text_eq key id)) [
  | inl same ↦ rw same h
  | inr other ↦ elim (Bool-cases (text_lt id key)) [
    | inl below ↦ rw (other, below) ((below, All-IsAbove id key es below h.0), h)
    | inr above ↦
        rw (other, above)
          (
            All-update_entry key id f es (after key above other) h.0,
            update_entry-Ascending id f es h.1,
          )
  ]
]
  where
    after : (key : Text) → text_lt id key ≡ false → text_eq key id ≡ false → text_lt key id ≡ true
    after key above other = elim (Bool-cases (text_lt key id)) [
      | inl yes' ↦ yes'
      | inr no' ↦
          cc (ap (λ k. text_eq k id) (text_lt_total key id no' above), text_eq_self id, other)
    ]
