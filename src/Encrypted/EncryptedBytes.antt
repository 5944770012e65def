-- ===== src/Encrypted/EncryptedBytes.antt =====
-- lafere/src/packet/encrypted_bytes.rs: the header and the body of a packet, each with its mac before
-- it, and how they are enciphered.
pub mod Opens
pub mod Sent
pub mod Lawful
use lafere.Base.{
  ℕ, ◌+◌, ◌*◌, ◌-◌, ◌≡◌, Bool, true, false, Option, none, some, List, [], ◌++◌, length, take, drop,
  replicate, ltb, if◌then◌else◌, Result, ok, err, ◌>>=◌,
}
use lafere.Packet.{PacketError}
use lafere.Packet.PacketBytes.{PacketBytes, BodyBytesMut, OffsetCursors}
use lafere.Encrypted.Cursor.{Cursor, Cursors}

-- `Key` of the crate `crypto`: it enciphers bytes in place, and both directions change the key.
-- What is enciphered with a key is had back with the same key. `refused` is the key after a mac that
-- does not fit.
pub record Cipher : Type 1 where
  pub offset : ℕ
  pub Key : Type 0
  pub encrypt : Key → List ℕ → List ℕ × (List ℕ × Key)
  pub decrypt : Key → List ℕ → List ℕ → Option (List ℕ × Key)
  pub refused : Key → List ℕ → List ℕ → Key
  pub length_encrypt : (k : Key) (bs : List ℕ) → length ((encrypt k bs).0) ≡ length bs
  pub length_mac : (k : Key) (bs : List ℕ) → length ((encrypt k bs).1.0) ≡ offset
  pub decrypt_encrypt :
      (k : Key) (bs : List ℕ)
      → decrypt k ((encrypt k bs).0) ((encrypt k bs).1.0) ≡ some (bs, (encrypt k bs).1.1)

pub record EncryptedBytes : Type 0 where
  pub bytes : List ℕ
  pub header_len : ℕ

-- The slices are within the bytes, which never hold less than both macs and the header.
module _ (C : Cipher) where
  unfoldable pub new : ℕ → EncryptedBytes
  new header_len = record {
    bytes = replicate (C.offset * 2 + header_len) 0;
    header_len = header_len;
  }

  unfoldable pub header : EncryptedBytes → List ℕ
  header b = take b.header_len (drop C.offset b.bytes)

  unfoldable pub full_header : EncryptedBytes → List ℕ
  full_header b = take (C.offset + b.header_len) b.bytes

  unfoldable pub body : EncryptedBytes → List ℕ
  body b = drop b.header_len (drop (C.offset * 2) b.bytes)

  unfoldable pub full_body : EncryptedBytes → List ℕ
  full_body b = drop (C.offset + b.header_len) b.bytes

  unfoldable pub header_mut : (List ℕ → List ℕ) → EncryptedBytes → EncryptedBytes
  header_mut f b = record b {
    bytes =
        take C.offset b.bytes
        ++ (f (take b.header_len (drop C.offset b.bytes))
            ++ drop (C.offset + b.header_len) b.bytes);
  }

  unfoldable pub body_mut :
      OffsetCursors → (BodyBytesMut → BodyBytesMut) → EncryptedBytes → EncryptedBytes
  body_mut N f b = record b { bytes = (f (N.new (b.header_len + C.offset * 2) b.bytes)).contents }

  abbrev pub encrypted_bytes : OffsetCursors → PacketBytes
  encrypted_bytes N = record {
    Bytes = EncryptedBytes;
    new = new;
    header = header;
    header_mut = header_mut;
    body = body;
    body_mut = body_mut N;
  }

  unfoldable pub has_body : EncryptedBytes → Bool
  has_body b = ltb (C.offset * 2 + b.header_len) (length b.bytes)

  unfoldable pub as_slice : EncryptedBytes → List ℕ
  as_slice b = if has_body b then b.bytes else take (length b.bytes - C.offset) b.bytes

  module _ (K : Cursors) where
    -- What `encrypt` does with the header and with the body: the mac takes the first bytes.
    unfoldable pub encrypt_part : C.Key → List ℕ → List ℕ × C.Key
    encrypt_part key part =
        let c = K.seek C.offset (K.new part) in
        let (enciphered, (mac, next)) = C.encrypt key (drop c.position c.contents) in
        let c1 : Cursor = record c { contents = take c.position c.contents ++ enciphered } in
        ((K.write mac (K.seek 0 c1)).contents, next)

    unfoldable pub encrypt : C.Key → EncryptedBytes → EncryptedBytes × C.Key
    encrypt key b =
        let (front, key1) = encrypt_part key (full_header b) in
        let b1 : EncryptedBytes = record b { bytes = front ++ full_body b } in
        let (back, key2) = encrypt_part key1 (full_body b1) in
        if has_body b1 then (record b1 { bytes = full_header b1 ++ back }, key2) else (b1, key1)

    abbrev pub opened : List ℕ → Option (List ℕ × C.Key) → Result PacketError (List ℕ × C.Key)
    opened mac none = err PacketError.mac_not_equal
    opened mac (some (bs, next)) = ok (mac ++ bs, next)

    -- What is done with a part that is deciphered.
    unfoldable pub decrypt_part : C.Key → List ℕ → Result PacketError (List ℕ × C.Key)
    decrypt_part key part =
        let (mac, c) = K.read C.offset (K.new part) in
        opened (take c.position c.contents) (C.decrypt key (drop c.position c.contents) mac)

    abbrev pub key_or : C.Key → Option (List ℕ × C.Key) → C.Key
    key_or refused none = refused
    key_or refused (some (bs, next)) = next

    -- The key after that.
    unfoldable pub key_after : C.Key → List ℕ → C.Key
    key_after key part =
        let (mac, c) = K.read C.offset (K.new part) in
        let enciphered = drop c.position c.contents in
        key_or (C.refused key enciphered mac) (C.decrypt key enciphered mac)

    unfoldable pub decrypt_header :
        C.Key → EncryptedBytes → Result PacketError (EncryptedBytes × C.Key)
    decrypt_header key b = do
      (front, next) ← decrypt_part key (full_header b)
      ok (record b { bytes = front ++ full_body b }, next)

    unfoldable pub decrypt_body :
        C.Key → EncryptedBytes → Result PacketError (EncryptedBytes × C.Key)
    decrypt_body key b = do
      (back, next) ← decrypt_part key (full_body b)
      ok (record b { bytes = full_header b ++ back }, next)
