-- ===== src/Protopuffer/SizeBuilder.antt =====
-- protopuffer/src/encode.rs: `SizeBuilder`. The methods take and return its `inner`, a u64, which
-- wraps around.
use lafere.Base.{ℕ, ◌+◌, ◌*◌, ◌%◌, ◌^◌}
use lafere.Protopuffer.Wire.{WireType}
use lafere.Protopuffer.Varint

-- `self.inner += n` on a u64.
abbrev pub add_u64 : ℕ → ℕ → ℕ
add_u64 inner n = (inner + n) % 2 ^ 64

abbrev pub new : ℕ
new = 0

unfoldable pub write_tag : ℕ → WireType → ℕ → ℕ
write_tag fieldnum wtype inner = add_u64 inner (Varint.size (fieldnum * 8 % 2 ^ 64))

unfoldable pub write_varint : ℕ → ℕ → ℕ
write_varint val inner = add_u64 inner (Varint.size val)

unfoldable pub write_len : ℕ → ℕ → ℕ
write_len len inner = write_varint len inner

unfoldable pub write_i32 : ℕ → ℕ → ℕ
write_i32 val inner = add_u64 inner 4

unfoldable pub write_i64 : ℕ → ℕ → ℕ
write_i64 val inner = add_u64 inner 8

unfoldable pub write_bytes : ℕ → ℕ → ℕ
write_bytes len inner = add_u64 inner len

unfoldable pub write_empty_field : ℕ → ℕ → ℕ
write_empty_field fieldnum inner = write_len 0 (write_tag fieldnum WireType.len inner)
