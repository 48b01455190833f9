-- ===== src/Canonical/Bytes.antt =====
-- The documented bytes of crates/db-sim-core/src/canonical.rs: what each writer streams, and that a
-- reader can tell where a value ends and what it was.
use dungeon_barrage.Base.{
  AllAgree, ℕ, ◌-◌, ◌^◌, ◌<◌, ◌≡◌, refl, ap, ◌∙◌, Bool, List, [], ◌∷◌, ◌++◌, if◌then◌else◌, arith,
  min, length, ℤ, pos, negsuc, IsI32, Text, All,
}
use dungeon_barrage.Canonical.{
  CanonicalHasher, write_u8, write_raw, to_le_bytes, twos_complement, write_u32, write_i32,
  write_u64, write_bool, write_length, write_bytes, write_str, write_domain_separator, write_items,
  write_slice,
}

-- A value put before the bytes that follow it.
unfoldable pub emit_u8 : ℕ → List ℕ → List ℕ
emit_u8 n r = n ∷ r

unfoldable pub emit_u32 : ℕ → List ℕ → List ℕ
emit_u32 n r = to_le_bytes 4 n ++ r

unfoldable pub emit_i32 : ℤ → List ℕ → List ℕ
unfolding emit_u32
emit_i32 z r = emit_u32 (twos_complement 32 z) r

unfoldable pub emit_u64 : ℕ → List ℕ → List ℕ
emit_u64 n r = to_le_bytes 8 n ++ r

unfoldable pub emit_bool : Bool → List ℕ → List ℕ
emit_bool b r = (if b then 1 else 0) ∷ r

unfoldable pub emit_str : Text → List ℕ → List ℕ
emit_str t r = emit_u32 (min (length t) (2 ^ 32 - 1)) (t ++ r)

unfoldable pub emit_separator : ℕ → List ℕ → List ℕ
emit_separator tag r = 255 ∷ tag ∷ r

write_raw-append :
    (xs ys : List ℕ) (h : CanonicalHasher) → write_raw (xs ++ ys) h ≡ write_raw ys (write_raw xs h)
unfolding write_raw
write_raw-append [] ys h = refl
write_raw-append (x ∷ xs) ys h = write_raw-append xs ys (write_u8 x h)

pub streams_u8 :
    (n : ℕ) (r : List ℕ) (h : CanonicalHasher)
    → write_raw (emit_u8 n r) h ≡ write_raw r (write_u8 n h)
unfolding write_raw emit_u8
streams_u8 n r h = refl

pub streams_u32 :
    (n : ℕ) (r : List ℕ) (h : CanonicalHasher)
    → write_raw (emit_u32 n r) h ≡ write_raw r (write_u32 n h)
unfolding write_raw write_u32 emit_u32
streams_u32 n r h = refl

pub streams_i32 :
    (z : ℤ) (r : List ℕ) (h : CanonicalHasher)
    → write_raw (emit_i32 z r) h ≡ write_raw r (write_i32 z h)
unfolding write_raw write_i32 emit_i32
streams_i32 z r h = refl

pub streams_u64 :
    (n : ℕ) (r : List ℕ) (h : CanonicalHasher)
    → write_raw (emit_u64 n r) h ≡ write_raw r (write_u64 n h)
unfolding write_raw write_u64 emit_u64
streams_u64 n r h = refl

pub streams_bool :
    (b : Bool) (r : List ℕ) (h : CanonicalHasher)
    → write_raw (emit_bool b r) h ≡ write_raw r (write_bool b h)
unfolding write_raw write_bool emit_bool
streams_bool b r h = refl

pub streams_separator :
    (tag : ℕ) (r : List ℕ) (h : CanonicalHasher)
    → write_raw (emit_separator tag r) h ≡ write_raw r (write_domain_separator tag h)
unfolding write_raw write_domain_separator emit_separator
streams_separator tag r h = refl

pub streams_length :
    (n : ℕ) (r : List ℕ) (h : CanonicalHasher)
    → write_raw (emit_u32 (min n (2 ^ 32 - 1)) r) h ≡ write_raw r (write_length n h)
unfolding write_raw write_length emit_u32
streams_length n r h = refl

pub streams_bytes :
    (t : List ℕ) (r : List ℕ) (h : CanonicalHasher)
    → write_raw (emit_str t r) h ≡ write_raw r (write_bytes t h)
unfolding write_bytes emit_str
streams_bytes t r h =
    streams_length (length t) (t ++ r) h ∙ write_raw-append t r (write_length (length t) h)

pub streams_str :
    (t : Text) (r : List ℕ) (h : CanonicalHasher)
    → write_raw (emit_str t r) h ≡ write_raw r (write_str t h)
unfolding write_str
streams_str = streams_bytes

-- Two values with the same bytes before any rest are the same, and so are the rests.
pub unique_u32 :
    (a b : ℕ) (r s : List ℕ)
    → a < 2 ^ 32
    → b < 2 ^ 32
    → emit_u32 a r ≡ emit_u32 b s
    → (a ≡ b) × (r ≡ s)
unfolding emit_u32
unique_u32 a b r s h k e = ground (arith, e)

pub unique_u8 : (a b : ℕ) (r s : List ℕ) → emit_u8 a r ≡ emit_u8 b s → (a ≡ b) × (r ≡ s)
unfolding emit_u8
unique_u8 a b r s e = ground (arith, e)

twos_complement-inj :
    (a b : ℤ) → IsI32 a → IsI32 b → twos_complement 32 a ≡ twos_complement 32 b → a ≡ b
twos_complement-inj (pos a) (pos b) h k e = ap pos (omega (arith, h, k, e))
twos_complement-inj (pos a) (negsuc b) h k e = absurd (omega (arith, h, k, e))
twos_complement-inj (negsuc a) (pos b) h k e = absurd (omega (arith, h, k, e))
twos_complement-inj (negsuc a) (negsuc b) h k e = ap negsuc (omega (arith, h, k, e))

twos_complement-lt : (a : ℤ) → twos_complement 32 a < 2 ^ 32
twos_complement-lt (pos a) = omega arith
twos_complement-lt (negsuc a) = omega arith

pub unique_i32 :
    (a b : ℤ) (r s : List ℕ) → IsI32 a → IsI32 b → emit_i32 a r ≡ emit_i32 b s → (a ≡ b) × (r ≡ s)
unfolding emit_i32
unique_i32 a b r s h k e =
    let (same, rest) =
      unique_u32 (twos_complement 32 a) (twos_complement 32 b) r s (twos_complement-lt a)
        (twos_complement-lt b) e in
    (twos_complement-inj a b h k same, rest)

pub unique_u64 :
    (a b : ℕ) (r s : List ℕ)
    → a < 2 ^ 64
    → b < 2 ^ 64
    → emit_u64 a r ≡ emit_u64 b s
    → (a ≡ b) × (r ≡ s)
unfolding emit_u64
unique_u64 a b r s h k e = ground (arith, e)

pub unique_bool : (a b : Bool) (r s : List ℕ) → emit_bool a r ≡ emit_bool b s → (a ≡ b) × (r ≡ s)
unfolding emit_bool
unique_bool a b r s e = ground (arith, e)

pub unique_separator :
    (a b : ℕ) (r s : List ℕ) → emit_separator a r ≡ emit_separator b s → (a ≡ b) × (r ≡ s)
unfolding emit_separator
unique_separator a b r s e = ground (arith, e)

pub unique_cons : (x y : ℕ) (r s : List ℕ) → (x ∷ r) ≡ (y ∷ s) → (x ≡ y) × (r ≡ s)
unique_cons x y r s e = ground (arith, e)

append_unique :
    (xs ys r s : List ℕ) → length xs ≡ length ys → xs ++ r ≡ ys ++ s → (xs ≡ ys) × (r ≡ s)
append_unique [] [] r s l e = (refl, e)
append_unique [] (y ∷ ys) r s l e = absurd (omega (arith, l))
append_unique (x ∷ xs) [] r s l e = absurd (omega (arith, l))
append_unique (x ∷ xs) (y ∷ ys) r s l e =
    let (head, tail) = unique_cons x y (xs ++ r) (ys ++ s) e in
    let (same, rest) = append_unique xs ys r s (omega (arith, l)) tail in
    (rw (head, same) refl, rest)

-- A length that its prefix can tell.
abbrev pub IsShort {ℓ} : {A : Type ℓ} → List A → Type 0
IsShort xs = length xs < 2 ^ 32

pub unique_length :
    (m n : ℕ) (r s : List ℕ)
    → m < 2 ^ 32
    → n < 2 ^ 32
    → emit_u32 (min m (2 ^ 32 - 1)) r ≡ emit_u32 (min n (2 ^ 32 - 1)) s
    → (m ≡ n) × (r ≡ s)
unique_length m n r s h k e =
    let (same, rest) =
      unique_u32 (min m (2 ^ 32 - 1)) (min n (2 ^ 32 - 1)) r s (omega arith) (omega arith) e in
    (omega (arith, h, k, same), rest)

pub unique_str :
    (t u : Text) (r s : List ℕ)
    → IsShort t
    → IsShort u
    → emit_str t r ≡ emit_str u s
    → (t ≡ u) × (r ≡ s)
unfolding emit_str
unique_str t u r s h k e =
    let (same, rest) = unique_length (length t) (length u) (t ++ r) (u ++ s) h k e in
    append_unique t u r s same rest

-- A sequence of values that have bytes of their own.
module _ {A : Type 0} (emit : A → List ℕ → List ℕ) where
  unfoldable pub emit_items : List A → List ℕ → List ℕ
  emit_items [] r = r
  emit_items (x ∷ xs) r = emit x (emit_items xs r)

  unfoldable pub emit_slice : List A → List ℕ → List ℕ
  emit_slice xs r = emit_u32 (min (length xs) (2 ^ 32 - 1)) (emit_items xs r)

  module _ (write : A → CanonicalHasher → CanonicalHasher)
      (streams : (a : A) (r : List ℕ) (h : CanonicalHasher)
        → write_raw (emit a r) h ≡ write_raw r (write a h)) where
    streams_items :
        (xs : List A) (r : List ℕ) (h : CanonicalHasher)
        → write_raw (emit_items xs r) h ≡ write_raw r (write_items write xs h)
    unfolding emit_items write_items
    streams_items [] r h = refl
    streams_items (x ∷ xs) r h = streams x (emit_items xs r) h ∙ streams_items xs r (write x h)

    pub streams_slice :
        (xs : List A) (r : List ℕ) (h : CanonicalHasher)
        → write_raw (emit_slice xs r) h ≡ write_raw r (write_slice write xs h)
    unfolding emit_slice write_slice
    streams_slice xs r h =
        streams_length (length xs) (emit_items xs r) h
        ∙ streams_items xs r (write_length (length xs) h)

  module _ (Valid : A → Type 0) (Agree : A → A → Type 0)
      (unique : (a b : A) (r s : List ℕ)
        → Valid a
        → Valid b
        → emit a r ≡ emit b s
        → Agree a b × (r ≡ s)) where
    unique_items :
        (xs ys : List A) (r s : List ℕ)
        → length xs ≡ length ys
        → All Valid xs
        → All Valid ys
        → emit_items xs r ≡ emit_items ys s
        → AllAgree Agree xs ys × (r ≡ s)
    unfolding emit_items
    unique_items [] [] r s l v w e = (tt, e)
    unique_items [] (y ∷ ys) r s l v w e = absurd (omega (arith, l))
    unique_items (x ∷ xs) [] r s l v w e = absurd (omega (arith, l))
    unique_items (x ∷ xs) (y ∷ ys) r s l v w e =
        let (head, tail) = unique x y (emit_items xs r) (emit_items ys s) v.0 w.0 e in
        let (same, rest) = unique_items xs ys r s (omega (arith, l)) v.1 w.1 tail in
        ((head, same), rest)

    pub unique_slice :
        (xs ys : List A) (r s : List ℕ)
        → IsShort xs
        → IsShort ys
        → All Valid xs
        → All Valid ys
        → emit_slice xs r ≡ emit_slice ys s
        → AllAgree Agree xs ys × (r ≡ s)
    unfolding emit_slice
    unique_slice xs ys r s h k v w e =
        let (same, rest) =
          unique_length (length xs) (length ys) (emit_items xs r) (emit_items ys s) h k e in
        unique_items xs ys r s same v w rest
