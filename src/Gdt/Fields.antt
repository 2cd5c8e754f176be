-- ===== src/Gdt/Fields.antt =====
-- A descriptor as the processor reads it.
use goatos.Base.{ℕ, ◌+◌, ◌*◌, ◌/◌, ◌%◌, ◌^◌, ◌<◌, ◌≡◌, refl, arith}
use goatos.Base.Bits.{bit_or_field}
use goatos.Gdt.{descriptor}

-- The fields of a descriptor, put together from their parts in it.
unfoldable pub base_of : ℕ → ℕ
base_of d = d / 2 ^ 16 % 2 ^ 24 + d / 2 ^ 56 % 2 ^ 8 * 2 ^ 24

unfoldable pub limit_of : ℕ → ℕ
limit_of d = d % 2 ^ 16 + d / 2 ^ 48 % 2 ^ 4 * 2 ^ 16

unfoldable pub access_of : ℕ → ℕ
access_of d = d / 2 ^ 40 % 2 ^ 8

unfoldable pub flags_of : ℕ → ℕ
flags_of d = d / 2 ^ 52 % 2 ^ 4

-- The parts have no bit in common.
descriptor_sum :
    (base limit access flags : ℕ)
    → access < 2 ^ 8
    → descriptor base limit access flags
      ≡ limit % 2 ^ 16
        + base % 2 ^ 16 * 2 ^ 16
        + base / 2 ^ 16 % 2 ^ 8 * 2 ^ 32
        + access * 2 ^ 40
        + limit / 2 ^ 16 % 2 ^ 4 * 2 ^ 48
        + flags % 2 ^ 4 * 2 ^ 52
        + base / 2 ^ 24 % 2 ^ 8 * 2 ^ 56
unfolding descriptor
descriptor_sum base limit access flags lt =
    let b0 = limit % 2 ^ 16 in
    let b1 = b0 + base % 2 ^ 16 * 2 ^ 16 in
    let b2 = b1 + base / 2 ^ 16 % 2 ^ 8 * 2 ^ 32 in
    let b3 = b2 + access * 2 ^ 40 in
    let b4 = b3 + limit / 2 ^ 16 % 2 ^ 4 * 2 ^ 48 in
    let b5 = b4 + flags % 2 ^ 4 * 2 ^ 52 in
    rw
      (
        bit_or_field 16 b0 (base % 2 ^ 16) (omega arith),
        bit_or_field 32 b1 (base / 2 ^ 16 % 2 ^ 8) (omega arith),
        bit_or_field 40 b2 access (omega arith),
        bit_or_field 48 b3 (limit / 2 ^ 16 % 2 ^ 4) (omega arith),
        bit_or_field 52 b4 (flags % 2 ^ 4) (omega arith),
        bit_or_field 56 b5 (base / 2 ^ 24 % 2 ^ 8) (omega arith),
      )
      refl

-- For a 32-bit base, a 20-bit limit, an access byte and four flags, the processor reads each of them
-- back from the descriptor that `Descriptor::new` makes.
pub descriptor-fields :
    (base limit access flags : ℕ)
    → base < 2 ^ 32
    → limit < 2 ^ 20
    → access < 2 ^ 8
    → flags < 2 ^ 4
    → (let d = descriptor base limit access flags in
        (base_of d ≡ base)
        × (limit_of d ≡ limit)
        × (access_of d ≡ access)
        × (flags_of d ≡ flags)
        × (d < 2 ^ 64))
unfolding base_of limit_of access_of flags_of
descriptor-fields base limit access flags b l a f =
    let s = descriptor_sum base limit access flags a in
    (
      omega (arith, s, b, l, a, f),
      omega (arith, s, b, l, a, f),
      omega (arith, s, b, l, a, f),
      omega (arith, s, b, l, a, f),
      omega (arith, s, b, l, a, f),
    )
