-- ===== src/Resolve/Objects.antt =====
-- crates/db-sim-core/src/resolve/objects.rs: turrets and embedded knives.
pub mod Turret
use dungeon_barrage.Base.{
  ℕ, zero, suc, Bool, true, false, not, ◌&&◌, List, [], ◌∷◌, ◌++◌, map, filter, find, length,
  Option, none, some, if◌then◌else◌, ltb, ◌==◌, min, ℤ, pos, negsuc, Text, text, text_eq,
}
use dungeon_barrage.Error.{SimResult, ok, err, out_of_range}
use dungeon_barrage.Types.Ability.{SpecialEffect}
use dungeon_barrage.Types.Player.{
  PersistentObject, PersistentObjectKind, turret, embedded_knife, PersistentObjectChange,
  PersistentObjectRemovalCause, replaced, capacity_evicted, spawned, removed,
}
use dungeon_barrage.Resolve.{ResolveContext, next_object_sequence}

abbrev pub emi_turret_health : ℕ
emi_turret_health = 80

abbrev pub embedded_knife_health : ℕ
embedded_knife_health = 1

-- Equality with the two kinds that the file looks for.
unfoldable pub is_turret : PersistentObjectKind → Bool
is_turret turret = true
is_turret _ = false

unfoldable pub is_embedded_knife : PersistentObjectKind → Bool
is_embedded_knife embedded_knife = true
is_embedded_knife _ = false

unfoldable pub owns_turret : Text → PersistentObject → Bool
unfolding is_turret text_eq
owns_turret owner object = is_turret object.kind && text_eq object.owner_id owner

unfoldable pub owns_knife : Text → PersistentObject → Bool
unfolding is_embedded_knife text_eq
owns_knife owner object = is_embedded_knife object.kind && text_eq object.owner_id owner

abbrev pub removed_by : PersistentObjectRemovalCause → PersistentObject → PersistentObjectChange
removed_by cause object = record { object = object; transition = removed cause }

abbrev pub spawned_change : PersistentObject → PersistentObjectChange
spawned_change object = record { object = object; transition = spawned }

-- The objects and the changes of a context.
abbrev pub with_objects :
    ResolveContext → List PersistentObject → List PersistentObjectChange → ResolveContext
with_objects ctx objects changes = record ctx {
  state = record ctx.state { objects = objects };
  object_changes = changes;
}

abbrev pub new_turret : ResolveContext → SpecialEffect → PersistentObject
new_turret ctx effect = record {
  sequence = ctx.state.next_object_sequence;
  owner_id = ctx.actor_id;
  kind = turret;
  position = ctx.impact_point;
  health = emi_turret_health;
  turns_remaining = effect.duration_turns;
}

unfoldable pub spawn_turret : ResolveContext → SpecialEffect → SimResult ResolveContext
unfolding owns_turret next_object_sequence
spawn_turret ctx effect =
    let gone = filter (owns_turret ctx.actor_id) ctx.state.objects in
    let kept = filter (λ object. not (owns_turret ctx.actor_id object)) ctx.state.objects in
    let placed = new_turret ctx effect in
    let (_, advanced) = next_object_sequence ctx in
    ok (
      with_objects advanced (kept ++ placed ∷ [])
        ((ctx.object_changes ++ map (removed_by replaced) gone) ++ spawned_change placed ∷ []))

-- `usize::try_from`.
abbrev pub to_usize : ℤ → Option ℕ
to_usize (pos n) = some n
to_usize (negsuc n) = none

abbrev pub knife_cap : Text
knife_cap = text "EmbedProjectile.magnitude_secondary (embedded knife cap)"

abbrev pub new_knife : ResolveContext → SpecialEffect → PersistentObject
new_knife ctx effect = record {
  sequence = ctx.state.next_object_sequence;
  owner_id = ctx.actor_id;
  kind = embedded_knife;
  position = ctx.impact_point;
  health = embedded_knife_health;
  turns_remaining = effect.duration_turns;
}

-- `Iterator::min` of the sequences.
unfoldable pub oldest : List PersistentObject → Option ℕ
oldest [] = none
oldest (object ∷ objects) = elim (oldest objects) [
  | none ↦ some object.sequence
  | some n ↦ some (min object.sequence n)
]

-- The knife of an owner with a sequence.
unfoldable pub is_knife : Text → ℕ → PersistentObject → Bool
unfolding owns_knife
is_knife owner sequence object = owns_knife owner object && object.sequence == sequence

abbrev pub eviction : Option PersistentObject → List PersistentObjectChange
eviction none = []
eviction (some object) = removed_by capacity_evicted object ∷ []

-- The eviction of the oldest knife of an owner past the cap.
unfoldable pub evict : ResolveContext → ℕ → ResolveContext
unfolding owns_knife oldest is_knife
evict ctx cap =
    let mine = filter (owns_knife ctx.actor_id) ctx.state.objects in
    if ltb cap (length mine)
    then elim (oldest mine) [
      | none ↦ ctx
      | some sequence ↦
          with_objects ctx
            (filter (λ object. not (is_knife ctx.actor_id sequence object)) ctx.state.objects)
            (ctx.object_changes
              ++ eviction (find (is_knife ctx.actor_id sequence) ctx.state.objects))
    ]
    else ctx

unfoldable pub embed_projectile : ResolveContext → SpecialEffect → SimResult ResolveContext
unfolding next_object_sequence evict
embed_projectile ctx effect = elim (to_usize effect.magnitude_secondary) [
  | none ↦ err (out_of_range knife_cap)
  | some cap ↦
      let knife = new_knife ctx effect in
      let (_, advanced) = next_object_sequence ctx in
      let embedded =
        with_objects advanced (ctx.state.objects ++ knife ∷ [])
          (ctx.object_changes ++ spawned_change knife ∷ []) in
      if cap == 0 then err (out_of_range knife_cap) else ok (evict embedded cap)
]
