-- ===== src/Packet.antt =====
-- lafere/src/packet/packet.rs: the interface of packets, on which the handler rests.
pub mod Flags
pub mod Receiver
pub mod PacketBytes
use Prim.Native.String.{String}
use lafere.Base.{ℕ, ◌≡◌}

-- `trait Packet` with its header: what the handler reads and sets. Flags are a u8, ids a u32.
pub record Packet (P : Type 0) : Type 0 where
  pub flags : P → ℕ
  pub id : P → ℕ
  pub set_flags : ℕ → P → P
  pub set_id : ℕ → P → P
  pub empty : P
  pub flags_set_flags : (f : ℕ) (p : P) → flags (set_flags f p) ≡ f
  pub id_set_flags : (f : ℕ) (p : P) → id (set_flags f p) ≡ id p
  pub flags_set_id : (i : ℕ) (p : P) → flags (set_id i p) ≡ flags p
  pub id_set_id : (i : ℕ) (p : P) → id (set_id i p) ≡ i

-- lafere/src/packet/mod.rs. The errors of serde_json and of `std::io` are not told apart.
pub data PacketError : Type 0 where
  header body : String → PacketError
  json io mac_not_equal : PacketError
  body_limit_reached : ℕ → PacketError
