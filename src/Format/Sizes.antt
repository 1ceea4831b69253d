-- ===== src/Format/Sizes.antt =====
-- src/format.rs: constants, sizes and offsets. `usize` has 64 bits.
pub mod Align
use frostbit.Base.{ℕ, ◌+◌, ◌-◌, ◌*◌, ◌/◌, ◌%◌, ◌^◌, bit_and, Bool, if◌then◌else◌}

abbrev pub magic : ℕ
magic = 0x46524F5A

abbrev pub version : ℕ
version = 3

abbrev pub h_magic : ℕ
h_magic = 0

abbrev pub h_version : ℕ
h_version = 4

abbrev pub h_flags : ℕ
h_flags = 6

abbrev pub h_num_containers : ℕ
h_num_containers = 8

abbrev pub h_cardinality : ℕ
h_cardinality = 12

abbrev pub header_size : ℕ
header_size = 16

abbrev pub flag_has_runs : ℕ
flag_has_runs = 1

abbrev pub flag_full : ℕ
flag_full = 2

abbrev pub flag_has_bitmap : ℕ
flag_has_bitmap = 4

abbrev pub ct_array : ℕ
ct_array = 0

abbrev pub ct_bitmap : ℕ
ct_bitmap = 1

abbrev pub ct_run : ℕ
ct_run = 2

abbrev pub ct_inline : ℕ
ct_inline = 3

abbrev pub bitmap_words : ℕ
bitmap_words = 1024

abbrev pub bitmap_bytes : ℕ
bitmap_bytes = bitmap_words * 8

abbrev pub array_max_size : ℕ
array_max_size = 4096

abbrev pub max_runs : ℕ
max_runs = (bitmap_bytes - 2) / 4

abbrev pub run_bytes : ℕ → ℕ
run_bytes nr = 2 + nr * 4

abbrev pub buf_align : ℕ
buf_align = 64

abbrev pub word_align : ℕ
word_align = 8

-- `(n + align - 1) & !(align - 1)`
unfoldable pub align_up : ℕ → ℕ → ℕ
align_up n align = bit_and ((n + align - 1) % 2 ^ 64) (2 ^ 64 - 1 - (align - 1))

abbrev pub inline_header_size : ℕ
inline_header_size = 4

abbrev pub inline_count_off : ℕ
inline_count_off = 2

abbrev pub inline_max_count : ℕ
inline_max_count = 65535

abbrev pub inline_size : ℕ → ℕ
inline_size n = align_up (inline_header_size + 4 * n) word_align

abbrev pub full_cardinality : ℕ
full_cardinality = 2 ^ 32

abbrev pub e_type_shift : ℕ
e_type_shift = 30

abbrev pub e_offset_mask : ℕ
e_offset_mask = 2 ^ e_type_shift - 1

abbrev pub index_size : ℕ → ℕ
index_size n = 8 * n

abbrev pub data_section_off : ℕ → Bool → ℕ
data_section_off n has_bitmap =
    align_up (header_size + index_size n) (if has_bitmap then buf_align else word_align)

abbrev pub keys_off : ℕ
keys_off = header_size

abbrev pub cards_off : ℕ → ℕ
cards_off n = header_size + 2 * n

abbrev pub type_offsets_off : ℕ → ℕ
type_offsets_off n = header_size + 4 * n
