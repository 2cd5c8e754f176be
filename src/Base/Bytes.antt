-- ===== src/Base/Bytes.antt =====
-- Facts about the bits of a byte, checked at every byte, and texts as lists of code points.
use Prim.Native.Nat.{ℕ, zero, suc, ◌%◌, ◌<◌, bit_and}
use Prim.Native.Char.{code}
use Prim.Native.String.{String}
use mathlib.Core.Path.{◌≡◌, refl}
use mathlib.Core.Bool.{Bool, true, ◌&&◌}
use mathlib.Core.List.{List, [], ◌∷◌}
use native.Mathlib.Omega.{arith}
use goatos.Base.Tests.{◌==◌, ltb, ==_iff}

-- A text as the list of its code points.
abbrev pub code_points : String → List ℕ
code_points String.[] = []
code_points (String.◌∷◌ first rest) = code first ∷ code_points rest

-- Does the test pass at 0, 1, … up to the bound?
unfoldable pub passes_below : (ℕ → Bool) → ℕ → Bool
passes_below test zero = true
passes_below test (suc k) = passes_below test k && test k

pub passes_below_sound :
    (test : ℕ → Bool) (bound i : ℕ) → i < bound → passes_below test bound ≡ true → test i ≡ true
unfolding passes_below
passes_below_sound test zero i lt p = absurd (omega arith)
passes_below_sound test (suc k) i lt p = ground (arith, passes_below_sound test k i)

top_bit_table :
    passes_below
      (λ x. bit_and x 0x80 == (elim (ltb x 128) [ Bool.true ↦ 0 | Bool.false ↦ 0x80 ]))
      256
    ≡ true
unfolding passes_below
top_bit_table = refl

-- `byte & 0x80`
pub bit_and_top :
    (x : ℕ) → x < 256 → bit_and x 0x80 ≡ (elim (ltb x 128) [ Bool.true ↦ 0 | Bool.false ↦ 0x80 ])
bit_and_top x h = (==_iff _ _).0 (
    passes_below_sound
      (λ x. bit_and x 0x80 == (elim (ltb x 128) [ Bool.true ↦ 0 | Bool.false ↦ 0x80 ])) 256 x h
      top_bit_table)

low_bits_table : passes_below (λ x. bit_and x 0x7f == x % 128) 256 ≡ true
unfolding passes_below
low_bits_table = refl

-- `byte & 0x7f`
pub bit_and_low : (x : ℕ) → x < 256 → bit_and x 0x7f ≡ x % 128
bit_and_low x h =
    (==_iff _ _).0 (passes_below_sound (λ x. bit_and x 0x7f == x % 128) 256 x h low_bits_table)
