-- ===== src/Entry/RoundTrip.antt =====
-- What src/entries.c reads back from a header that `coldtrace_entry_init` packed.
use coldtrace.Prelude.{
  ℕ, ◌+◌, ◌-◌, ◌*◌, ◌/◌, ◌%◌, ◌^◌, ◌≤◌, ◌<◌, ◌↔◌, if◌then◌else◌, bit_and, ◌≡◌, refl, true, arith,
  ◌==◌, ltb, ==_iff,
}
use coldtrace.Prelude.Bits.{bit_and_low, bit_and_high, bit_or_sum, all_below, of_all_below}
use coldtrace.Entry.Kind
use coldtrace.Entry.Kind.{is_type_valid, unflagged}
use coldtrace.Entry.Header.{Buf, ptr_mask, make_entry_header, entry_init, parse_type, parse_ptr}

-- The flag is the top bit of the type: without it, the type modulo 128.
unflagged_table : all_below 256 (λ t. unflagged t == t % 128) ≡ true
unfolding all_below
unflagged_table = refl

pub unflagged-mod : (t : ℕ) → t < 256 → unflagged t ≡ t % 128
unflagged-mod t h = (==_iff _ _).0 (of_all_below 256 _ t unflagged_table h)

wide_table : all_below 256 (λ t. bit_and t (2 ^ 64 - 1 - Kind.zero_flag) == t % 128) ≡ true
unfolding all_below
wide_table = refl

wide-mod : (t : ℕ) → t < 256 → bit_and t (2 ^ 64 - 1 - Kind.zero_flag) ≡ t % 128
wide-mod t h = (==_iff _ _).0 (of_all_below 256 _ t wide_table h)

-- `& PTR_MASK` clears the low sixteen bits.
pub bit_and-ptr_mask : (x : ℕ) → x < 2 ^ 64 → bit_and x ptr_mask ≡ x / 2 ^ 16 * 2 ^ 16
bit_and-ptr_mask x h = omega (arith, bit_and_high 16 x (2 ^ 48 - 1), bit_and_low 48 (x / 2 ^ 16))

-- A packed header is the pointer's low 48 bits above the sixteen bits of the type.
pub make_entry_header-sum :
    (type ptr : ℕ) → type < 256 → make_entry_header type ptr ≡ ptr % 2 ^ 48 * 2 ^ 16 + type
unfolding make_entry_header
make_entry_header-sum type ptr h =
    let shifted : ℕ = ptr * 2 ^ 16 % 2 ^ 64 in
    let cleared : bit_and shifted ptr_mask ≡ ptr % 2 ^ 48 * 2 ^ 16 =
      omega (arith, bit_and-ptr_mask shifted (omega arith)) in
    let kept : bit_and type 0xff ≡ type = omega (arith, bit_and_low 8 type) in
    rw (cleared, kept) (bit_or_sum 16 (ptr % 2 ^ 48) type (omega arith))

-- The type that is read is the low seven bits of the word, or `COLDTRACE_END_`.
pub parse_type-mod :
    (buf : Buf) → parse_type buf ≡ (if ltb (buf 0 % 128) Kind.end then buf 0 % 128 else Kind.end)
unfolding parse_type is_type_valid
parse_type-mod buf =
    let low : bit_and (buf 0) 0xff ≡ buf 0 % 256 = bit_and_low 8 (buf 0) in
    let seven : bit_and (buf 0 % 256) (2 ^ 64 - 1 - Kind.zero_flag) % 2 ^ 8 ≡ buf 0 % 128 =
      omega (arith, wide-mod (buf 0 % 256) (omega arith)) in
    let plain : unflagged (buf 0 % 128) ≡ buf 0 % 128 =
      omega (arith, unflagged-mod (buf 0 % 128) (omega arith)) in
    rw (low, seven, plain)

pub is_type_valid-lt : (type : ℕ) → type < 256 → is_type_valid type ≡ ltb (type % 128) Kind.end
unfolding is_type_valid
is_type_valid-lt type h = rw (unflagged-mod type h)

-- A header packed for a valid type and any 64-bit pointer reads back as the type without its zero
-- flag and the low 48 bits of the pointer; the word fits 64 bits, and its low byte is the type
-- with the flag.
pub parse-entry_init :
    (buf : Buf) (type ptr : ℕ)
    → type < 256
    → is_type_valid type ≡ true
    → buf 0 ≡ entry_init type ptr
    → (parse_type buf ≡ type % 128)
      × (parse_ptr buf ≡ ptr % 2 ^ 48)
      × (buf 0 % 256 ≡ type)
      × (buf 0 < 2 ^ 64)
unfolding parse_ptr entry_init
parse-entry_init buf type ptr h valid e =
    let packed : buf 0 ≡ ptr % 2 ^ 48 * 2 ^ 16 + type =
      omega (arith, e, make_entry_header-sum type (ptr % 2 ^ 64) h) in
    let masked : bit_and (buf 0) ptr_mask ≡ buf 0 / 2 ^ 16 * 2 ^ 16 =
      bit_and-ptr_mask (buf 0) (omega arith) in
    (
      ground (arith, parse_type-mod buf, is_type_valid-lt type h),
      omega arith,
      omega arith,
      omega arith,
    )

-- A word whose low seven bits are no type is read as `COLDTRACE_END_`, and no other word is.
pub parse_type-eq-end_iff : (buf : Buf) → (parse_type buf ≡ Kind.end) ↔ (Kind.end ≤ buf 0 % 128)
parse_type-eq-end_iff buf = ground (arith, parse_type-mod buf)
