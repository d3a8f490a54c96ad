-- ===== src/Entry/Header.antt =====
-- The first word of an entry, `ptr (u48) | padding (u8) | type (u8)`: how
-- include/coldtrace/entries.h packs it and src/entries.c reads it.
use coldtrace.Prelude.{ℕ, ◌-◌, ◌*◌, ◌/◌, ◌%◌, ◌^◌, bit_and, bit_or, if◌then◌else◌}
use coldtrace.Entry.Kind
use coldtrace.Entry.Kind.{is_type_valid}

-- The 64-bit words from a pointer on.
abbrev pub Buf : Type 0
Buf = ℕ → ℕ

abbrev pub type_mask : ℕ
type_mask = 0xff

abbrev pub ptr_mask : ℕ
ptr_mask = 0xffffffffffff0000

-- `ptr64 << PTR_SHIFT_VALUE` and back, on uint64_t.
abbrev pub shift_left : ℕ → ℕ
shift_left ptr = ptr * 2 ^ 16 % 2 ^ 64

abbrev pub shift_right : ℕ → ℕ
shift_right ptr = ptr / 2 ^ 16

-- `coldtrace_make_entry_header`, the word `typed_ptr`
unfoldable pub make_entry_header : ℕ → ℕ → ℕ
make_entry_header type ptr =
    let type_masked_shifted = bit_and type type_mask in
    let ptr_masked_shifted = bit_and (shift_left ptr) ptr_mask in
    bit_or ptr_masked_shifted type_masked_shifted

-- `coldtrace_entry_init`, with the pointer's value
unfoldable pub entry_init : ℕ → ℕ → ℕ
entry_init type ptr = make_entry_header type (ptr % 2 ^ 64)

-- `coldtrace_entry_parse_type`: `ptr & TYPE_MASK & ~ZERO_FLAG`, cast to uint8_t, or
-- `COLDTRACE_END_`.
unfoldable pub parse_type : Buf → ℕ
parse_type buf =
    let type = bit_and (bit_and (buf 0) type_mask) (2 ^ 64 - 1 - Kind.zero_flag) % 2 ^ 8 in
    if is_type_valid type then type else Kind.end

-- `coldtrace_entry_parse_ptr`
unfoldable pub parse_ptr : Buf → ℕ
parse_ptr buf = shift_right (bit_and (buf 0) ptr_mask)
