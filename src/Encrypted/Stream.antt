-- ===== src/Encrypted/Stream.antt =====
-- lafere/src/encrypted/stream.rs: `EncryptedPacketStream`, a packet receiver behind a timeout, with the
-- keys that each packet changes.
pub mod Received
pub mod InOrder
use lafere.Base.{
  ℕ, zero, suc, ◌+◌, Bool, true, false, Option, none, some, List, [], ◌∷◌, ◌++◌, drop, replicate,
  ◌==◌, if◌then◌else◌, Result, ok, err, ◌>>=◌,
}
use lafere.Packet.{PacketError}
use lafere.Packet.Receiver.{
  Arrivals, Format, Receiver, Progress, waits, panicked, ready, fill, over_limit,
  PacketReceiverError, io,
}
use lafere.Packet.Receiver
use lafere.Timeout.{Sleeps, TimeoutReader, set_timeout, poll_timeout}
use lafere.Timeout
use lafere.Plain.{Config, Wake, weight, read_from}
use lafere.Handler.{TaskError}
use lafere.Encrypted.Cursor.{Cursors}
use lafere.Encrypted.Handshake.{Crypto, Handshake, client_handshake, server_handshake}
use lafere.Encrypted.EncryptedBytes.{
  Cipher, EncryptedBytes, as_slice, encrypt, decrypt_part, key_after,
}

-- The trait `Packet<EncryptedBytes>`, and its header.
pub record Packets (H P : Type 0) : Type 0 where
  pub header_len : ℕ
  pub from_bytes : List ℕ → Result PacketError H
  pub body_len : H → ℕ
  pub into_bytes : P → EncryptedBytes
  pub from_bytes_and_header : EncryptedBytes → H → Result PacketError P

module _ (C : Cipher) (Z : Sleeps) (H : Type 0) where
  pub record EncryptedPacketStream : Type 0 where
    pub stream : TimeoutReader Z
    pub send_key : C.Key
    pub recv_key : C.Key
    pub builder : Receiver H

  -- A new configuration is set.
  unfoldable pub configure : (now : ℕ) → Config → EncryptedPacketStream → EncryptedPacketStream
  configure now cfg me = record me {
    stream = set_timeout Z now cfg.timeout me.stream;
    builder = record me.builder { body_limit = cfg.body_limit };
  }

-- The handshake; `key` is a key of it as one that enciphers.
module _ (Y : Crypto) (C : Cipher) (K : Cursors) (Z : Sleeps) (H : Type 0)
    (key : Y.Key → C.Key) where
  abbrev pub with_keys : (now : ℕ) → Config → Handshake Y → EncryptedPacketStream C Z H
  with_keys now cfg h = record {
    stream = Timeout.new Z now cfg.timeout;
    send_key = key h.send_key;
    recv_key = key h.recv_key;
    builder = Receiver.new cfg.body_limit;
  }

  unfoldable pub client :
      (now : ℕ)
      → Config
      → (taken : Bool) → Y.SignPublicKey
      → Y.EphemeralKeypair
      → (input : List ℕ) → Result TaskError (EncryptedPacketStream C Z H)
  client now cfg taken sign_pk kp input = do
    handshake ← client_handshake Y K taken sign_pk kp input
    ok (with_keys now cfg handshake)

  abbrev pub served :
      (now : ℕ) → Config → Handshake Y × List ℕ → EncryptedPacketStream C Z H × List ℕ
  served now cfg (handshake, sent) = (with_keys now cfg handshake, sent)

  -- With what was sent.
  unfoldable pub server :
      (now : ℕ)
      → Config
      → (taken : Bool) → Y.SignKeypair
      → Y.EphemeralKeypair
      → (send_nonce recv_nonce input : List ℕ)
      → Result TaskError (EncryptedPacketStream C Z H × List ℕ)
  server now cfg taken sign_key kp send_nonce recv_nonce input = do
    r ← server_handshake Y K taken sign_key kp send_nonce recv_nonce input
    ok (served now cfg r)

module _ (C : Cipher) (K : Cursors) (Z : Sleeps) {H P : Type 0} (T : Packets H P) where
  -- What is written, where the stream takes it.
  unfoldable pub send : P → EncryptedPacketStream C Z H → List ℕ × EncryptedPacketStream C Z H
  send packet me =
      let (bytes, next) = encrypt C K me.send_key (T.into_bytes packet) in
      (as_slice C bytes, record me { send_key = next })

  -- The buffer of the receiver by its two parts. A new body is the place of its mac.
  abbrev pub body_part : List ℕ → List ℕ
  body_part [] = replicate C.offset 0
  body_part (b ∷ bs) = b ∷ bs

  abbrev pub buffer : List ℕ → List ℕ → EncryptedBytes
  buffer header_bytes body_bytes = record {
    bytes = header_bytes ++ body_part body_bytes;
    header_len = T.header_len;
  }

  abbrev pub bytes_of : Result PacketError (List ℕ × C.Key) → Result PacketError (List ℕ)
  bytes_of r = r >>= λ opened. ok opened.0

  -- The parts are deciphered with a key: each is its mac and then the header or the body.
  abbrev pub format : C.Key → Format H P
  format key = record {
    full_header_len = C.offset + T.header_len;
    full_body_len = λ len. C.offset + len;
    mutate_header = λ part. bytes_of (decrypt_part C K key part);
    mutate_body = λ part. bytes_of (decrypt_part C K key part);
    from_bytes = λ part. T.from_bytes (drop C.offset part);
    body_len = T.body_len;
    from_bytes_and_header =
        λ header_bytes body_bytes h. T.from_bytes_and_header (buffer header_bytes body_bytes) h;
  }

  -- The key once a part was read, which is deciphered where it is complete.
  abbrev pub key_of : C.Key → Progress (List ℕ) Bool → C.Key
  key_of key (ready part rest true) = key_after C K key part
  key_of key (ready part rest false) = key
  key_of key (waits part) = key
  key_of key panicked = key

  unfoldable pub header_key : C.Key → Receiver H → Arrivals → C.Key
  header_key key b cs = elim b.header [
    | some h ↦ key
    | none ↦ key_of key (fill (C.offset + T.header_len) b.header_bytes cs)
  ]

  unfoldable pub body_key : C.Key → Receiver H → H → Arrivals → C.Key
  body_key key b h cs =
      if T.body_len h == 0
      then key
      else if over_limit (format key) b h
      then key
      else key_of key (fill (C.offset + T.body_len h) b.body_bytes cs)

  abbrev pub Received : Type 0 → Type 0
  Received A = Progress (Receiver H) (Result (PacketReceiverError H) A)

  -- `expect("read the header first")`
  abbrev pub then_body : C.Key → Received Unit → Received P × C.Key
  then_body key (waits b) = (waits b, key)
  then_body key panicked = (panicked, key)
  then_body key (ready b rest (err e)) = (ready b rest (err e), key)
  then_body key (ready b rest (ok u)) = elim b.header [
    | none ↦ (panicked, key)
    | some h ↦ (Receiver.read_body (format key) b h rest, body_key key b h rest)
  ]

  -- With the key that the receiver has then.
  unfoldable pub receive : C.Key → Receiver H → Arrivals → Received P × C.Key
  receive key b cs = then_body (header_key key b cs) (Receiver.read_header (format key) b cs)

  abbrev pub Outcome : Type 0
  Outcome = Progress (EncryptedPacketStream C Z H) (Result (PacketReceiverError H) P)

  -- A read that finds nothing waits, or fails once the timer has ended.
  abbrev pub nothing_read : EncryptedPacketStream C Z H → Bool × TimeoutReader Z → Outcome
  nothing_read me (true, t) = ready (record me { stream = t }) [] (err io)
  nothing_read me (false, t) = waits (record me { stream = t })

  abbrev pub polled : EncryptedPacketStream C Z H → Wake → Received P × C.Key → Outcome
  polled me w (waits b, key) =
      nothing_read (record me { recv_key = key; builder = b })
        (poll_timeout Z w.now w.later (read_from Z w.now (weight w.arrived) 0 me.stream))
  polled me w (panicked, key) = panicked
  polled me w (ready b rest r, key) =
      ready
        (record me {
          stream = read_from Z w.now (weight w.arrived) (weight rest) me.stream;
          recv_key = key;
          builder = b;
        })
        rest r

  -- One poll of `receive`.
  unfoldable pub poll_receive : EncryptedPacketStream C Z H → Wake → Outcome
  poll_receive me w = polled me w (receive me.recv_key me.builder w.arrived)

  -- One packet after the other.
  abbrev pub send_all : List P → EncryptedPacketStream C Z H → List ℕ × EncryptedPacketStream C Z H
  send_all [] me = ([], me)
  send_all (packet ∷ packets) me =
      let (bytes, me1) = send packet me in
      let (rest, me2) = send_all packets me1 in (bytes ++ rest, me2)

  -- As many packets as are asked for, of what has arrived.
  unfoldable pub receive_all :
      ℕ → (now : ℕ) → EncryptedPacketStream C Z H → Arrivals → List P × EncryptedPacketStream C Z H
  receive_all zero now me cs = ([], me)
  receive_all (suc n) now me cs =
      elim (poll_receive me (record { now = now; later = now; arrived = cs })) [
        | waits me' ↦ ([], me')
        | panicked ↦ ([], me)
        | ready me' rest r ↦
            let (more, last) = receive_all n now me' rest in
            elim r [ err e ↦ ([], me') | ok p ↦ (p ∷ more, last) ]
      ]
