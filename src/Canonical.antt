-- ===== src/Canonical.antt =====
-- crates/db-sim-core/src/canonical.rs: the canonical byte stream, folded into a 64-bit FNV-1a hash
-- as it is written. A writer takes the hasher last and returns it; a byte is a number below 256.
pub mod Bytes
pub mod Hex
use Prim.Native.Nat.{bit_xor}
use dungeon_barrage.Base.{
  ℕ, zero, suc, ◌+◌, ◌-◌, ◌*◌, ◌/◌, ◌%◌, ◌^◌, Bool, true, false, List, [], ◌∷◌, if◌then◌else◌, ltb,
  min, length, ℤ, pos, negsuc, Text,
}

abbrev pub canonical_encoding_version : ℕ
canonical_encoding_version = 1

abbrev pub fnv_offset_basis : ℕ
fnv_offset_basis = 14_695_981_039_346_656_037

abbrev pub fnv_prime : ℕ
fnv_prime = 1_099_511_628_211

pub record CanonicalHasher : Type 0 where
  pub state : ℕ

unfoldable pub write_u8 : ℕ → CanonicalHasher → CanonicalHasher
write_u8 value h = record { state = bit_xor h.state value * fnv_prime % 2 ^ 64 }

unfoldable pub write_raw : List ℕ → CanonicalHasher → CanonicalHasher
write_raw [] h = h
write_raw (byte ∷ bytes) h = write_raw bytes (write_u8 byte h)

-- `to_le_bytes` of a number of `n` bytes.
abbrev pub to_le_bytes : ℕ → ℕ → List ℕ
to_le_bytes zero value = []
to_le_bytes (suc n) value = value % 256 ∷ to_le_bytes n (value / 256)

-- The two's complement of `bits` bits.
abbrev pub twos_complement : ℕ → ℤ → ℕ
twos_complement bits (pos n) = n % 2 ^ bits
twos_complement bits (negsuc n) = 2 ^ bits - 1 - n % 2 ^ bits

unfoldable pub write_u32 : ℕ → CanonicalHasher → CanonicalHasher
unfolding write_raw
write_u32 value = write_raw (to_le_bytes 4 value)

unfoldable pub write_i32 : ℤ → CanonicalHasher → CanonicalHasher
unfolding write_raw
write_i32 value = write_raw (to_le_bytes 4 (twos_complement 32 value))

unfoldable pub write_u64 : ℕ → CanonicalHasher → CanonicalHasher
unfolding write_raw
write_u64 value = write_raw (to_le_bytes 8 value)

unfoldable pub write_i64 : ℤ → CanonicalHasher → CanonicalHasher
unfolding write_raw
write_i64 value = write_raw (to_le_bytes 8 (twos_complement 64 value))

unfoldable pub write_bool : Bool → CanonicalHasher → CanonicalHasher
unfolding write_u8
write_bool value = write_u8 (if value then 1 else 0)

-- A `usize` length saturates at the largest u32.
unfoldable pub write_length : ℕ → CanonicalHasher → CanonicalHasher
unfolding write_u32
write_length length = write_u32 (min length (2 ^ 32 - 1))

unfoldable pub write_bytes : List ℕ → CanonicalHasher → CanonicalHasher
unfolding write_length write_raw
write_bytes bytes h = write_raw bytes (write_length (length bytes) h)

unfoldable pub write_str : Text → CanonicalHasher → CanonicalHasher
unfolding write_bytes
write_str value = write_bytes value

unfoldable pub write_domain_separator : ℕ → CanonicalHasher → CanonicalHasher
unfolding write_u8
write_domain_separator tag h = write_u8 tag (write_u8 255 h)

unfoldable pub new : CanonicalHasher
new = write_u32 canonical_encoding_version (record { state = fnv_offset_basis })

unfoldable pub finish : CanonicalHasher → ℕ
finish h = h.state

-- A lowercase hexadecimal digit, and `n` of them from the most significant on.
unfoldable pub hex_digit : ℕ → ℕ
hex_digit d = if ltb d 10 then 48 + d else 87 + d

unfoldable pub hex_digits : ℕ → ℕ → Text
unfolding hex_digit
hex_digits zero value = []
hex_digits (suc n) value = hex_digit (value / 16 ^ n % 16) ∷ hex_digits n value

unfoldable pub finish_hex : CanonicalHasher → Text
unfolding hex_digits
finish_hex h = hex_digits 16 h.state

-- The sections of the state.
abbrev pub metadata_domain : ℕ
metadata_domain = 1

abbrev pub players_domain : ℕ
players_domain = 2

abbrev pub terrain_domain : ℕ
terrain_domain = 3

abbrev pub commands_domain : ℕ
commands_domain = 4

-- A sequence, with the writer of its elements, as an implementation of the trait `Canonical`.
unfoldable pub write_items {ℓ} :
    {A : Type ℓ}
    → (A → CanonicalHasher → CanonicalHasher)
    → List A
    → CanonicalHasher
    → CanonicalHasher
write_items write [] h = h
write_items write (item ∷ items) h = write_items write items (write item h)

unfoldable pub write_slice {ℓ} :
    {A : Type ℓ}
    → (A → CanonicalHasher → CanonicalHasher)
    → List A
    → CanonicalHasher
    → CanonicalHasher
unfolding write_items write_length
write_slice write items h = write_items write items (write_length (length items) h)

unfoldable pub hash_canonical {ℓ} :
    {A : Type ℓ} → (A → CanonicalHasher → CanonicalHasher) → A → Text
hash_canonical write value = finish_hex (write value new)
