-- ===== src/Packet/PacketBytes.antt =====
-- lafere/src/packet/body_bytes.rs and bytes.rs: the buffer of a packet, of which the header and the body
-- are parts, and what is done to the body.
pub mod Body
pub mod Lawful
pub mod Plain
use lafere.Base.{ℕ, ◌+◌, ◌-◌, ◌≤◌, ◌≡◌, List, [], ◌∷◌, ◌++◌, length, take, drop, replicate}

-- `Offset<Cursor<&mut Vec<u8>>>` of the crate `bytes`: the position counts from the offset.
pub record BodyBytesMut : Type 0 where
  pub contents : List ℕ
  pub offset : ℕ
  pub position : ℕ

-- Its functions. What is written past the end makes the vector grow; `seek` stays within it.
pub record OffsetCursors : Type 0 where
  pub new : (offset : ℕ) → List ℕ → BodyBytesMut
  pub write : List ℕ → BodyBytesMut → BodyBytesMut
  pub seek : ℕ → BodyBytesMut → BodyBytesMut
  pub new_lem :
      (offset : ℕ) (bs : List ℕ)
      → offset ≤ length bs
      → new offset bs ≡ record { contents = bs; offset = offset; position = 0 }
  pub write_lem :
      (bs : List ℕ) (c : BodyBytesMut)
      → c.offset + c.position ≤ length c.contents
      → write bs c ≡ record c {
        contents =
            take (c.offset + c.position) c.contents
            ++ (bs ++ drop (c.offset + c.position + length bs) c.contents);
        position = c.position + length bs;
      }
  pub seek_lem :
      (pos : ℕ) (c : BodyBytesMut)
      → c.offset + pos ≤ length c.contents
      → seek pos c ≡ record c { position = pos }

-- `Vec::resize` with zeros.
abbrev pub resized : ℕ → List ℕ → List ℕ
resized len bs = take len bs ++ replicate (len - length bs) 0

unfoldable pub resize : ℕ → BodyBytesMut → BodyBytesMut
resize len c = record c { contents = resized (c.offset + len) c.contents }

unfoldable pub len : BodyBytesMut → ℕ
len c = length c.contents - c.offset

-- The file's bytes come after all others.
unfoldable pub from_file : List ℕ → BodyBytesMut → BodyBytesMut
from_file file c = record c { contents = c.contents ++ file }

-- What can be done to a body. `serialize` writes the pieces that serde_json gives.
pub data BodyOp : Type 0 where
  writes reads_file : List ℕ → BodyOp
  seeks resizes reserves : ℕ → BodyOp
  serializes : List (List ℕ) → BodyOp

module _ (K : OffsetCursors) where
  unfoldable pub serialize : List (List ℕ) → BodyBytesMut → BodyBytesMut
  serialize [] c = c
  serialize (piece ∷ pieces) c = serialize pieces (K.write piece c)

  unfoldable pub does : BodyOp → BodyBytesMut → BodyBytesMut
  unfolding resize from_file serialize
  does (writes bs) c = K.write bs c
  does (reads_file file) c = from_file file c
  does (seeks pos) c = K.seek pos c
  does (resizes len) c = resize len c
  does (reserves len) c = c
  does (serializes pieces) c = serialize pieces c

  abbrev pub do_all : List BodyOp → BodyBytesMut → BodyBytesMut
  do_all [] c = c
  do_all (op ∷ ops) c = do_all ops (does op c)

-- The trait `PacketBytes`: its parts that are handed out to be changed are changed by a function.
pub record PacketBytes : Type 1 where
  pub Bytes : Type 0
  pub new : (header_len : ℕ) → Bytes
  pub header : Bytes → List ℕ
  pub header_mut : (List ℕ → List ℕ) → Bytes → Bytes
  pub body : Bytes → List ℕ
  pub body_mut : (BodyBytesMut → BodyBytesMut) → Bytes → Bytes
