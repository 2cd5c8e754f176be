-- ===== src/Gdt.antt =====
-- The global descriptor table, kernel/src/gdt.rs: segment descriptors in the processor's scattered
-- layout, the table that `init` builds and the registers that it loads.
pub mod Fields
use goatos.Base.{ℕ, ◌+◌, ◌-◌, ◌*◌, ◌/◌, ◌%◌, ◌^◌, bit_or, List, [], ◌∷◌, get_or}
use goatos.Idt.{kernel_code_selector}

abbrev pub access_kernel_code : ℕ
access_kernel_code = 0x9a

abbrev pub access_kernel_data : ℕ
access_kernel_data = 0x92

abbrev pub access_tss_available : ℕ
access_tss_available = 0x89

abbrev pub flags_32bit_4k : ℕ
flags_32bit_4k = 12

abbrev pub flags_tss : ℕ
flags_tss = 0

-- `Descriptor::new`: masks are remainders, shifts are products and quotients by powers of two.
unfoldable pub descriptor : ℕ → ℕ → ℕ → ℕ → ℕ
descriptor base limit access flags =
    bit_or
      (bit_or
        (bit_or
          (bit_or
            (bit_or (bit_or (limit % 2 ^ 16) (base % 2 ^ 16 * 2 ^ 16))
              (base / 2 ^ 16 % 2 ^ 8 * 2 ^ 32))
            (access * 2 ^ 40))
          (limit / 2 ^ 16 % 2 ^ 4 * 2 ^ 48))
        (flags % 2 ^ 4 * 2 ^ 52))
      (base / 2 ^ 24 % 2 ^ 8 * 2 ^ 56)

unfoldable pub flat : ℕ → ℕ
unfolding descriptor
flat access = descriptor 0 0xfffff access flags_32bit_4k

-- `tss::Location`: where a task state segment is, and the offset of its last byte.
pub record Location : Type 0 where
  pub base : ℕ
  pub limit : ℕ

unfoldable pub tss_descriptor : Location → ℕ
unfolding descriptor
tss_descriptor location = descriptor location.base location.limit access_tss_available flags_tss

abbrev pub kernel_data_selector : ℕ
kernel_data_selector = 0x10

abbrev pub main_tss_selector : ℕ
main_tss_selector = 0x18

abbrev pub double_fault_tss_selector : ℕ
double_fault_tss_selector = 0x20

-- What the processor has loaded: the table with its base and limit, the code and data selectors, and
-- the task register.
pub record Loaded : Type 0 where
  pub entries : List ℕ
  pub base : ℕ
  pub limit : ℕ
  pub cs : ℕ
  pub ds : ℕ
  pub tr : ℕ

-- The table stands at `address`; loading the registers is what the assembly of `load` and
-- `load_task_register` does.
unfoldable pub init : ℕ → Location → Location → Loaded
unfolding flat tss_descriptor
init address main double_fault = record {
  entries =
      0
      ∷ flat access_kernel_code
      ∷ flat access_kernel_data
      ∷ tss_descriptor main
      ∷ tss_descriptor double_fault
      ∷ [];
  base = address;
  limit = 5 * 8 - 1;
  cs = kernel_code_selector;
  ds = kernel_data_selector;
  tr = main_tss_selector;
}
