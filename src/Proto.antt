-- ===== src/Proto.antt =====
-- The protobuf wire format of src/mercury.c: the growing output buffer (pb_buf_t, pb_varint_enc,
-- pb_tag, pb_varint, pb_bytes) and the reader (pb_reader_t, pb_read_varint_raw, pb_read_tag,
-- pb_read_ldelim, pb_read_bytes_copy, pb_skip).
-- A buffer keeps the bytes below `size` and its capacity. A write beyond the capacity, which C would
-- leave undefined, is the fault `none`. `size_t` has 64 bits: where the source adds a length that it has
-- read to a position, the sum wraps.
pub mod Varint
pub mod Fields
pub mod Nested
pub mod Skip
pub mod Message
pub mod Messages
mod Tests
use espconnect.Common.{
  ℕ, zero, suc, ◌+◌, ◌-◌, ◌*◌, ◌/◌, ◌^◌, Bool, true, false, List, [], ◌∷◌, ◌++◌, Option, none, some,
  bit_and, bit_or, length, get_or, take, drop, u8, u32, u64, Bytes, ltb, leb, ◌==◌, ◌&&◌,
  if◌then◌else◌, ◌>>=◌,
}

abbrev pub wire_varint : ℕ
wire_varint = 0

abbrev pub wire_length_delim : ℕ
wire_length_delim = 2

pub record Buf : Type 0 where
  pub bytes : Bytes
  pub capacity : ℕ

pub init : ℕ → Buf
init cap = record { bytes = []; capacity = cap }

pub grow : Buf → ℕ → Buf
grow b need =
    if ltb b.capacity (length b.bytes + need)
    then record b { capacity = (length b.bytes + need) * 2 }
    else b

-- Stores at `data + size` and moves `size` on.
pub store : Buf → Bytes → Option Buf
store b xs =
    if leb (length b.bytes + length xs) b.capacity
    then some (record b { bytes = b.bytes ++ xs })
    else none

-- The loop of pb_varint_enc with fuel: ten groups of seven bits hold a uint64_t.
pub varint_groups : ℕ → ℕ → Option Bytes
varint_groups zero v = none
varint_groups (suc fuel) v =
    let more = varint_groups fuel (v / 2 ^ 7) in
    if ltb 0x7F v
    then (do rest ← more; some (u8 (bit_or (bit_and v 0x7F) 0x80) ∷ rest))
    else some (u8 (bit_and v 0x7F) ∷ [])

pub varint_enc : ℕ → Option Bytes
varint_enc v = varint_groups 10 v

pub put_varint : Buf → ℕ → Option Buf
put_varint b v = do xs ← varint_enc v; store b xs

pub tag : Buf → ℕ → ℕ → Option Buf
tag b fn wt = put_varint (grow b 10) (bit_or (u64 (fn * 2 ^ 3)) wt)

pub varint : Buf → ℕ → ℕ → Option Buf
varint b fn val = do b1 ← tag b fn wire_varint; put_varint (grow b1 10) val

pub bytes : Buf → ℕ → Bytes → Option Buf
bytes b fn d = do
  b1 ← tag b fn wire_length_delim
  b2 ← put_varint (grow b1 (10 + length d)) (length d)
  store b2 d

-- pb_enum: an enum has the wire type of a varint.
pub enum : Buf → ℕ → ℕ → Option Buf
enum b fn v = varint b fn v

-- raw_pb_varint and raw_pb_bytes: the tag is one byte that the caller has put together.
pub raw_varint : Buf → ℕ → ℕ → Option Buf
raw_varint b t val = do b1 ← store (grow b 20) (u8 t ∷ []); put_varint b1 val

pub raw_bytes : Buf → ℕ → Bytes → Option Buf
raw_bytes b t d = do
  b1 ← store (grow b (10 + length d)) (u8 t ∷ [])
  b2 ← put_varint b1 (length d)
  store b2 d

pub record Reader : Type 0 where
  pub d : Bytes
  pub p : ℕ
  pub s : ℕ

unfoldable pub reader_init : Bytes → ℕ → Reader
reader_init xs len = record { d = xs; p = 0; s = len }

unfoldable pub reader_init_slice : Bytes → ℕ → ℕ → Reader
reader_init_slice xs off len = record { d = xs; p = off; s = len }

abbrev pub byte_at : Bytes → ℕ → ℕ
byte_at xs i = get_or xs i 0

-- The loop of pb_read_varint_raw, with `s - p` rounds left. A shift by 64 or more, which C leaves
-- undefined, adds nothing here; it takes more than ten bytes with the top bit set.
pub varint_loop : ℕ → Bytes → ℕ → ℕ → ℕ → ℕ × ℕ
varint_loop zero d p v sh = (v, p)
varint_loop (suc left) d p v sh =
    let b = byte_at d p in
    let v' = bit_or v (u64 (bit_and b 0x7F * 2 ^ sh)) in
    let more = varint_loop left d (p + 1) v' (sh + 7) in
    if bit_and b 0x80 == 0 then (v', p + 1) else more

pub read_varint_raw : Reader → ℕ × Reader
read_varint_raw r = let (v, p') = varint_loop (r.s - r.p) r.d r.p 0 0 in (v, record r { p = p' })

-- `none` is the answer `false`: nothing is left.
pub read_tag : Reader → Option (ℕ × ℕ × Reader)
read_tag r =
    let (t, r') = read_varint_raw r in
    if leb r.s r.p then none else some (u32 (t / 2 ^ 3), u32 (bit_and t 7), r')

-- The reader behind the field, and a reader over the field. (`d = NULL` is the empty list.)
pub read_ldelim : Reader → Reader × Reader
read_ldelim r =
    let (len, r') = read_varint_raw r in
    if leb (u64 (r'.p + len)) r'.s
    then (record r' { p = u64 (r'.p + len) }, record { d = drop r'.p r'.d; p = 0; s = len })
    else (record r' { p = r'.s }, record { d = []; p = 0; s = 0 })

-- The bytes copied to `out`, of which there are as many as the function returns.
pub read_bytes_copy : Reader → ℕ → Bytes × Reader
read_bytes_copy r max =
    let (len, r') = read_varint_raw r in
    let n = if ltb max len then max else len in
    if leb (u64 (r'.p + n)) r'.s
    then (take n (drop r'.p r'.d), record r' { p = u64 (r'.p + n) })
    else ([], r')

-- while (p < s && (d[p - 1] & 0x80)) p++, with `s - p` rounds left.
skip_varint : ℕ → Bytes → ℕ → ℕ
skip_varint zero d p = p
skip_varint (suc left) d p =
    let more = skip_varint left d (p + 1) in
    if bit_and (byte_at d (p - 1)) 0x80 == 0 then p else more

pub skip : Reader → ℕ → Reader
skip r wt =
    let (len, r') = read_varint_raw r in
    if wt == wire_varint
    then record r { p = skip_varint (r.s - r.p) r.d r.p }
    else if wt == wire_length_delim
    then record r' { p = if leb (u64 (r'.p + len)) r'.s then u64 (r'.p + len) else r'.s }
    else r
