-- ===== src/Entry/Tests.antt =====
-- Entries read back from concrete words.
use coldtrace.Prelude.{
  ◌+◌, ◌%◌, ◌^◌, ◌≤◌, ◌<◌, ◌≡◌, ◌≢◌, ◌↔◌, refl, true, false, ◌||◌, ◌==◌, arith, if◌then◌else◌,
}
use coldtrace.Entry.Kind
use coldtrace.Entry.Kind.{is_type_valid, entry_type_str, with_stack}
use coldtrace.Entry.Header.{Buf, entry_init, parse_type, parse_ptr}
use coldtrace.Entry.Layout.{
  fixed_size, get_size, diff_bytes, pack_diff, parse_alloc_index, parse_atomic_index, parse_size,
  invalid, is_alloc, is_access,
}
use coldtrace.Entry.RoundTrip.{parse-entry_init}
use coldtrace.Entry.Sizes.{
  fixed_size-lem, get_size-entry_init, parse-end, parse_index_lem, diff_word,
}
use coldtrace.Entry.Names.{entry_type_str-injective}

-- A read of zeros with two frames popped and five kept or pushed
abbrev zero_read : Buf
zero_read i = if i == 0 then entry_init 130 0xabcdef else if i == 3 then pack_diff 2 5 else i

valid_read : is_type_valid 130 ≡ true
unfolding is_type_valid
valid_read = refl

valid_plain : is_type_valid 2 ≡ true
unfolding is_type_valid
valid_plain = refl

abbrev noise : Buf
noise i = 0x7f

parse-entry_init_example :
    (parse_type zero_read ≡ 2)
    × (parse_ptr zero_read ≡ 0xabcdef)
    × (zero_read 0 % 256 ≡ 130)
    × (zero_read 0 < 2 ^ 64)
parse-entry_init_example = parse-entry_init zero_read 130 0xabcdef (omega arith) valid_read refl

fixed_size-lem_example :
    ((0 < fixed_size 130) ↔ (is_type_valid 130 ≡ true))
    × (fixed_size 130 % 8 ≡ 0)
    × (fixed_size 130 ≤ 40)
    × (with_stack 130 ≡ true → 32 ≤ fixed_size 130)
fixed_size-lem_example = fixed_size-lem 130 (omega arith)

get_size-entry_init_example :
    get_size zero_read
    ≡ fixed_size 130 + (if with_stack 130 then diff_bytes (zero_read (diff_word 130)) else 0)
get_size-entry_init_example =
    get_size-entry_init zero_read 130 0xabcdef (omega arith) valid_read refl

parse-end_example :
    (get_size noise ≡ 0)
    × (parse_size noise ≡ invalid)
    × (parse_alloc_index noise ≡ invalid)
    × (parse_atomic_index noise ≡ invalid)
parse-end_example = parse-end noise (omega arith)

parse_index_lem_example :
    ((parse_alloc_index zero_read ≢ invalid) ↔ ((2 == Kind.free || is_alloc 2) ≡ true))
    × ((parse_atomic_index zero_read ≢ invalid)
        ↔ (((2 == Kind.free || is_alloc 2) || (is_access 2 || 2 == Kind.test_marker)) ≡ false))
parse_index_lem_example =
    parse_index_lem zero_read 130 0xabcdef (omega arith) valid_read refl (omega arith) (omega arith)

entry_type_str-injective_example :
    ((entry_type_str 2 ≡ entry_type_str 130) ↔ (2 % 128 ≡ 130 % 128))
    × (entry_type_str 2 ≢ "INVALID_EVENT")
entry_type_str-injective_example =
    entry_type_str-injective 2 130 (omega arith) (omega arith) valid_plain valid_read
