-- ===== src/Api/Message/Enciphered.antt =====
-- Messages of lafere-api/src/message.rs on the stream of lafere/src/encrypted/stream.rs.
use lafere.Base.{
  ℕ, ◌^◌, ◌%◌, ◌<◌, ◌≡◌, refl, sym, ap, ◌∙◌, arith, not, false, ◌&&◌, some, List, [], ◌++◌, length,
  ok, take, drop, take_to, drop_to, ltb, ◌==◌,
}
use lafere.Timeout.{Sleeps}
use lafere.Packet.PacketBytes.{OffsetCursors, BodyOp}
use lafere.Packet.PacketBytes.Body.{Body, steps}
use lafere.Packet.Receiver
use lafere.Packet.Receiver.{Arrivals, ready}
use lafere.Packet.Receiver.Pieces.{joined_runs, NoEnd}
use lafere.Encrypted.Cursor.{Cursors}
use lafere.Encrypted.EncryptedBytes.{
  Cipher, new, header_mut, body_mut, encrypted_bytes, as_slice, encrypt, header, body,
  EncryptedBytes,
}
use lafere.Encrypted.EncryptedBytes.Lawful.{encrypted_bytes_lawful}
use lafere.Encrypted.Stream.{Packets, receive}
use lafere.Encrypted.Stream.InOrder.{IsSendable, packet_received}
use lafere.Api.Message.{
  Words, Header, Action, Message, header_len, check_limit, from_bytes, into_bytes, to_bytes,
}
use lafere.Api.Message.RoundTrip.{IsHeader, from_bytes-to_bytes, length-to_bytes}
use lafere.Api.Message.Buffered.{
  Buffered, filled, into_buffer, write_body, empty, from_bytes_and_header, message_of,
  into_buffer-filled,
}

module _ {A : Type 0} (Act : Action A) (W : Words) (C : Cipher) (K : Cursors)
    (N : OffsetCursors) where
  -- `Message<A, EncryptedBytes>` as a packet.
  abbrev pub messages : Packets (Header A) (Buffered A (encrypted_bytes C N))
  messages = record {
    header_len = header_len;
    from_bytes = from_bytes Act W;
    body_len = λ h. h.body_len;
    into_bytes = into_buffer (encrypted_bytes C N) Act W;
    from_bytes_and_header = from_bytes_and_header (encrypted_bytes C N);
  }

  abbrev pub seen : Buffered A (encrypted_bytes C N) → Message A
  seen = message_of (encrypted_bytes C N) Act W

  filled_parts :
      (h : Header A) (ops : List BodyOp) (v : Body)
      → steps ops ([], 0) ≡ some v
      → let out : EncryptedBytes =
          into_buffer
            (encrypted_bytes C N)
            Act
            W
            (filled (encrypted_bytes C N) Act W N (encrypted_bytes_lawful C N) h ops) in
        (header C out ≡ to_bytes Act W (record h { body_len = length v.0 % 2 ^ 32 }))
        × (body C out ≡ v.0)
  unfolding into_bytes
  filled_parts h ops v ran =
      let out : EncryptedBytes =
        into_buffer (encrypted_bytes C N) Act W
          (filled (encrypted_bytes C N) Act W N (encrypted_bytes_lawful C N) h ops) in
      let (sized, bytes, len) =
        into_buffer-filled (encrypted_bytes C N) Act W N (encrypted_bytes_lawful C N) h ops v ran in
      let h' : Header A = record h { body_len = length v.0 % 2 ^ 32 } in
      let same : header C out ++ body C out ≡ to_bytes Act W h' ++ v.0 = bytes in
      (
        sym (take_to header_len (header C out) (body C out) len)
            ∙ ap (take header_len) same
            ∙ take_to header_len (to_bytes Act W h') v.0 (length-to_bytes Act W h'),
        sym (drop_to header_len (header C out) (body C out) len)
            ∙ ap (drop header_len) same
            ∙ drop_to header_len (to_bytes Act W h') v.0 (length-to_bytes Act W h'),
      )

  module _ (Z : Sleeps) where
    pub message-IsSendable :
        (h : Header A) (ops : List BodyOp) (v : Body) (limit : ℕ)
        → IsHeader Act h
        → steps ops ([], 0) ≡ some v
        → length v.0 < 2 ^ 32
        → check_limit Act (record h { body_len = length v.0 })
          ≡ ok (record h { body_len = length v.0 })
        → (not (limit == 0) && ltb limit (length v.0)) ≡ false
        → IsSendable C K Z messages seen limit
            (filled (encrypted_bytes C N) Act W N (encrypted_bytes_lawful C N) h ops)
            (record { header = record h { body_len = length v.0 }; body = v.0 })
    unfolding into_buffer write_body empty new header_mut body_mut from_bytes_and_header
    message-IsSendable h ops v limit (hb, hi, ha) ran small allowed under =
        let same : length v.0 % 2 ^ 32 ≡ length v.0 = omega arith in
        let h' : Header A = record h { body_len = length v.0 } in
        let (sized, bytes, len) =
          into_buffer-filled (encrypted_bytes C N) Act W N (encrypted_bytes_lawful C N) h ops v
            ran in
        let (head, content) = filled_parts h ops v ran in
        let head' = head ∙ ap (λ n. to_bytes Act W (record h { body_len = n })) same in
        let size = ap (λ (xs : List ℕ). length xs) content in
        (
          refl,
          sized,
          (
            h',
            ap (from_bytes Act W) head'
                ∙ from_bytes-to_bytes Act W h' (omega arith, hi, ha)
                ∙ allowed,
            sym size,
            ap (λ n. not (limit == 0) && ltb limit n) size ∙ under,
            λ got eh eb. (
              record { header = h'; bytes = got },
              refl,
              ap (λ (xs : List ℕ). record { header = h'; body = xs }) (eb ∙ content),
            ),
          ),
        )

    -- A message whose body is written into an empty `EncryptedBytes` buffer by any operations
    -- within their range, which is turned into bytes and enciphered, and whose bytes have arrived
    -- with others behind them, cut into any runs of at least a byte, is received by a new receiver
    -- with the same key as a message with the same header, `body_len` set to the length of the
    -- body, and that body; the other bytes are left, the receiver is new again, and its key is
    -- then the sender's: for a header within the range of its type, a body of less than 2 ^ 32
    -- bytes that the action allows, and a body limit that is 0 or not exceeded.
    pub enciphered_message :
        (k : C.Key) (h : Header A) (ops : List BodyOp) (v : Body) (limit : ℕ) (more : List ℕ)
        (cs : Arrivals)
        → IsHeader Act h
        → steps ops ([], 0) ≡ some v
        → length v.0 < 2 ^ 32
        → check_limit Act (record h { body_len = length v.0 })
          ≡ ok (record h { body_len = length v.0 })
        → (not (limit == 0) && ltb limit (length v.0)) ≡ false
        → let T = encrypted_bytes C N in
          let out : EncryptedBytes =
            into_buffer T Act W (filled T Act W N (encrypted_bytes_lawful C N) h ops) in
          joined_runs cs ≡ as_slice C (encrypt C K k out).0 ++ more
          → NoEnd cs
          → (m : Buffered A T) × (rest : Arrivals) × (receive C K Z messages k
                (Receiver.new limit)
                cs
              ≡ (ready (Receiver.new limit) rest (ok m), (encrypt C K k out).1))
            × (seen m ≡ record { header = record h { body_len = length v.0 }; body = v.0 })
            × (joined_runs rest ≡ more)
            × NoEnd rest
    enciphered_message k h ops v limit more cs valid ran small allowed under =
        packet_received C K Z messages seen (omega arith) limit k
          (filled (encrypted_bytes C N) Act W N (encrypted_bytes_lawful C N) h ops)
          (record { header = record h { body_len = length v.0 }; body = v.0 }) more cs
          (message-IsSendable h ops v limit valid ran small allowed under)
