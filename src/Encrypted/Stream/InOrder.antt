-- ===== src/Encrypted/Stream/InOrder.antt =====
-- lafere/src/encrypted/stream.rs: packets are received as they were sent, in their order.
use mathlib.Core.Path.{subst}
use mathlib.Core.List.{append_assoc}
use lafere.Base.{ℕ, ◌<◌, ◌≡◌, refl, sym, ap, ◌∙◌, arith, true, List, [], ◌∷◌, ◌++◌, length, ok}
use lafere.Timeout.{Sleeps}
use lafere.Plain.{Config, weight, read_from}
use lafere.Packet.Receiver.{
  Arrivals, Receiver, ready, fill, header_filled, header_complete, body_filled, body_complete,
  take_message, over_limit, read_header, read_body,
}
use lafere.Packet.Receiver
use lafere.Packet.Receiver.Pieces.{joined_runs, NoEnd}
use lafere.Encrypted.Cursor.{Cursors}
use lafere.Encrypted.EncryptedBytes.{Cipher, EncryptedBytes, header, body, as_slice, encrypt}
use lafere.Encrypted.EncryptedBytes.Opens.{
  packet_of, header-packet_of, body-packet_of, encrypt_lem_none, encrypt_lem_some,
}
use lafere.Encrypted.EncryptedBytes.Sent.{IsSized, parts, as_slice_none, as_slice_some}
use lafere.Encrypted.Stream.{
  Packets, EncryptedPacketStream, receive, send, send_all, receive_all, poll_receive,
}
use lafere.Encrypted.Stream.Received.{IsRead, header_received, none_received, some_received}
use lafere.Encrypted.Stream.{client, server, with_keys}
use lafere.Encrypted.Handshake.{Crypto}
use lafere.Encrypted.Handshake.Agree.{handshakes_agree}

both : {A B : Type 0} {a a' : A} {b b' : B} → a ≡ a' → b ≡ b' → ◌≡◌ {A = A × B} (a, b) (a', b')
both {a'} {b} e f = ap (λ x. (x, b)) e ∙ ap (λ y. (a', y)) f

module _ (C : Cipher) (K : Cursors) (Z : Sleeps) {H P : Type 0} (T : Packets H P) {V : Type 0}
    (view : P → V) where
  -- A packet that its receiver can read.
  abbrev pub IsSendable : ℕ → P → V → Type 0
  IsSendable limit p v =
      let b = T.into_bytes p in
      (b.header_len ≡ T.header_len)
      × IsSized C b
      × IsRead C K Z T view limit (header C b) (body C b) v

  abbrev pub AreSendable : ℕ → List P → List V → Type 0
  AreSendable limit [] [] = Unit
  AreSendable limit [] (v ∷ vs) = ⊥
  AreSendable limit (p ∷ ps) [] = ⊥
  AreSendable limit (p ∷ ps) (v ∷ vs) = IsSendable limit p v × AreSendable limit ps vs

  -- The buffer is received, with what follows it left.
  abbrev pub Arrives : ℕ → C.Key → EncryptedBytes → V → List ℕ → Arrivals → Type 0
  Arrives limit k b v more cs =
      joined_runs cs ≡ as_slice C (encrypt C K k b).0 ++ more
      → NoEnd cs
      → (q : P) × (rest : Arrivals) × (receive C K Z T k (Receiver.new limit) cs
          ≡ (ready (Receiver.new limit) rest (ok q), (encrypt C K k b).1))
        × (view q ≡ v)
        × (joined_runs rest ≡ more)
        × NoEnd rest

  module _ (some_header : 0 < T.header_len) where
    bodyless_received :
        (limit : ℕ) (k : C.Key) (m1 hd m2 : List ℕ) (v : V) (more : List ℕ) (cs : Arrivals)
        → length m1 ≡ C.offset
        → length hd ≡ T.header_len
        → length m2 ≡ C.offset
        → IsRead C K Z T view limit hd [] v
        → Arrives limit k (packet_of C T.header_len m1 hd m2 []) v more cs
    bodyless_received limit k m1 hd m2 v more cs e1 eh e2 (h, head, empty, under, reads) bytes
          no_end =
        let ct : List ℕ = (C.encrypt k hd).0 in
        let mac : List ℕ = (C.encrypt k hd).1.0 in
        let enc = encrypt_lem_none C K T.header_len m1 hd m2 e1 eh e2 k in
        let written =
          as_slice_none C T.header_len mac ct m2 (C.length_mac k hd) (C.length_encrypt k hd ∙ eh)
            e2 in
        let bytes' : joined_runs cs ≡ (mac ++ ct) ++ more =
          bytes ∙ ap (λ r. as_slice C r.0 ++ more) enc ∙ ap (λ (xs : List ℕ). xs ++ more) written in
        let (rest, got, left, no_end') =
          header_received C K Z T view some_header limit k hd eh h more cs head bytes' no_end in
        let (q, read, key, seen) =
          none_received C K Z T view some_header limit k hd eh h rest v empty reads in
        (q, rest, got ∙ both read (key ∙ sym (ap (λ r. r.1) enc)), seen, left, no_end')

    bodied_received :
        (limit : ℕ) (k : C.Key) (m1 hd m2 content : List ℕ) (v : V) (more : List ℕ) (cs : Arrivals)
        → length m1 ≡ C.offset
        → length hd ≡ T.header_len
        → length m2 ≡ C.offset
        → 0 < length content
        → IsRead C K Z T view limit hd content v
        → Arrives limit k (packet_of C T.header_len m1 hd m2 content) v more cs
    bodied_received limit k m1 hd m2 content v more cs e1 eh e2 room (h, head, same, under, reads)
          bytes no_end =
        let ct : List ℕ = (C.encrypt k hd).0 in
        let mac : List ℕ = (C.encrypt k hd).1.0 in
        let k1 : C.Key = (C.encrypt k hd).1.1 in
        let mac2 : List ℕ = (C.encrypt k1 content).1.0 in
        let ct2 : List ℕ = (C.encrypt k1 content).0 in
        let enc =
          encrypt_lem_some C K T.header_len m1 hd m2 e1 eh e2 k content (ground (arith, room)) in
        let written =
          as_slice_some C T.header_len mac ct mac2 ct2 (C.length_mac k hd)
            (C.length_encrypt k hd ∙ eh) (C.length_mac k1 content)
            (ground (arith, room, C.length_encrypt k1 content)) in
        let bytes' : joined_runs cs ≡ (mac ++ ct) ++ ((mac2 ++ ct2) ++ more) =
          bytes
          ∙ ap (λ r. as_slice C r.0 ++ more) enc
          ∙ ap (λ (xs : List ℕ). xs ++ more) written
          ∙ append_assoc (mac ++ ct) (mac2 ++ ct2) more in
        let (rest1, got, left1, no_end1) =
          header_received C K Z T view some_header limit k hd eh h ((mac2 ++ ct2) ++ more) cs head
            bytes' no_end in
        let (q, rest, read, key, seen, left, no_end') =
          some_received C K Z T view some_header limit k hd eh h content more rest1 v room same
            under reads left1 no_end1 in
        (q, rest, got ∙ both read (key ∙ sym (ap (λ r. r.1) enc)), seen, left, no_end')

    arrives :
        (limit : ℕ) (k : C.Key) (m1 hd m2 content : List ℕ) (v : V) (more : List ℕ) (cs : Arrivals)
        → length m1 ≡ C.offset
        → length hd ≡ T.header_len
        → length m2 ≡ C.offset
        → IsRead C K Z T view limit hd content v
        → Arrives limit k (packet_of C T.header_len m1 hd m2 content) v more cs
    arrives limit k m1 hd m2 [] v more cs e1 eh e2 =
        bodyless_received limit k m1 hd m2 v more cs e1 eh e2
    arrives limit k m1 hd m2 (x ∷ xs) v more cs e1 eh e2 =
        bodied_received limit k m1 hd m2 (x ∷ xs) v more cs e1 eh e2 (omega arith)

    -- With the lengths of the buffer's parts.
    abbrev ReadsAs : ℕ → C.Key → V → List ℕ → Arrivals → EncryptedBytes → Type 0
    ReadsAs limit k v more cs b =
        b.header_len ≡ T.header_len
        → IsRead C K Z T view limit (header C b) (body C b) v
        → Arrives limit k b v more cs

    cut_buffer_received :
        (limit : ℕ) (k : C.Key) (n : ℕ) (m1 hd m2 content : List ℕ) (v : V) (more : List ℕ)
        (cs : Arrivals)
        → length m1 ≡ C.offset
        → length hd ≡ n
        → length m2 ≡ C.offset
        → n ≡ T.header_len
        → ReadsAs limit k v more cs (packet_of C n m1 hd m2 content)
    cut_buffer_received limit k n m1 hd m2 content v more cs e1 eh e2 e _ read =
        let read' : IsRead C K Z T view limit hd content v =
          subst (λ (xs : List ℕ). IsRead C K Z T view limit xs content v)
            (header-packet_of C n m1 hd m2 content e1 eh e2)
            (subst
              (λ (xs : List ℕ).
                IsRead C K Z T view limit (header C (packet_of C n m1 hd m2 content)) xs v)
              (body-packet_of C n m1 hd m2 content e1 eh e2) read) in
        subst (λ i. Arrives limit k (packet_of C i m1 hd m2 content) v more cs) (sym e)
          (arrives limit k m1 hd m2 content v more cs e1 (eh ∙ e) e2 read')

    pub packet_received :
        (limit : ℕ) (k : C.Key) (p : P) (v : V) (more : List ℕ) (cs : Arrivals)
        → IsSendable limit p v
        → Arrives limit k (T.into_bytes p) v more cs
    packet_received limit k p v more cs (e, sized, read) =
        let (m1, hd, m2, content, same, e1, eh, e2) = parts C (T.into_bytes p) sized in
        subst (ReadsAs limit k v more cs) (sym same)
          (cut_buffer_received limit k (T.into_bytes p).header_len m1 hd m2 content v more cs e1 eh
            e2 e)
          e read

    -- What the packets hold.
    abbrev pub views : List P → List V
    views [] = []
    views (q ∷ qs) = view q ∷ views qs

    -- What has come of a run of packets, and of the two ends.
    abbrev pub AllReceived :
        ℕ
        → List V
        → (from_ me : EncryptedPacketStream C Z H) → List P × EncryptedPacketStream C Z H
        → Type 0
    AllReceived limit vs from_ me r =
        (views r.0 ≡ vs)
        × (r.1.builder ≡ Receiver.new limit)
        × (from_.send_key ≡ r.1.recv_key)
        × (r.1.send_key ≡ me.send_key)

    all_received :
        (now limit : ℕ) (ps : List P) (vs : List V) (from_ me : EncryptedPacketStream C Z H)
        (cs : Arrivals)
        → me.builder ≡ Receiver.new limit
        → from_.send_key ≡ me.recv_key
        → AreSendable limit ps vs
        → joined_runs cs ≡ (send_all C K Z T ps from_).0
        → NoEnd cs
        → AllReceived limit vs
            (send_all C K Z T ps from_).1
            me
            (receive_all C K Z T (length ps) now me cs)
    unfolding receive_all poll_receive send
    all_received now limit [] [] from_ me cs b k valid bytes no_end = (refl, b, k, refl)
    all_received now limit (p ∷ ps) (v ∷ vs) from_ me cs b k (first, valid) bytes no_end =
        let out = encrypt C K from_.send_key (T.into_bytes p) in
        let from1 : EncryptedPacketStream C Z H = record from_ { send_key = out.1 } in
        let (q, rest, got, seen, left, no_end') =
          packet_received limit from_.send_key p v (send_all C K Z T ps from1).0 cs first bytes
            no_end in
        let found : receive C K Z T me.recv_key me.builder cs
            ≡ (ready (Receiver.new limit) rest (ok q), out.1) =
          ap (λ key. receive C K Z T key me.builder cs) (sym k)
          ∙ ap (λ r. receive C K Z T from_.send_key r cs) b
          ∙ got in
        let me1 : EncryptedPacketStream C Z H = record me {
          stream = read_from Z now (weight cs) (weight rest) me.stream;
          recv_key = out.1;
          builder = Receiver.new limit;
        } in
        let (seens, b', k', s') =
          all_received now limit ps vs from1 me1 rest refl refl valid left no_end' in
        rw (found, receive_all)
          (
            ap (λ x. x ∷ views (receive_all C K Z T (length ps) now me1 rest).0) seen
                ∙ ap (λ xs. v ∷ xs) seens,
            b',
            k',
            s',
          )
    all_received now limit [] (v ∷ vs) from_ me cs b k valid bytes no_end = absurd valid
    all_received now limit (p ∷ ps) [] from_ me cs b k valid bytes no_end = absurd valid

    -- Sending changes the key for sending.
    sent_keeps :
        (ps : List P) (me : EncryptedPacketStream C Z H)
        → ((send_all C K Z T ps me).1.recv_key ≡ me.recv_key)
          × ((send_all C K Z T ps me).1.builder ≡ me.builder)
    unfolding send
    sent_keeps [] me = (refl, refl)
    sent_keeps (p ∷ ps) me = sent_keeps ps (send C K Z T p me).1

module _ (Y : Crypto) (C : Cipher) (K : Cursors) (Z : Sleeps) {H P : Type 0} (T : Packets H P)
    {V : Type 0} (view : P → V) (key : Y.Key → C.Key) (some_header : 0 < T.header_len)
    (cut cut' : List ℕ → Arrivals)
    (arrives : (bs : List ℕ) → (joined_runs (cut bs) ≡ bs) × NoEnd (cut bs))
    (arrives' : (bs : List ℕ) → (joined_runs (cut' bs) ≡ bs) × NoEnd (cut' bs)) where
  -- The handshake of a client and a server, over streams that take what they write and with nonces
  -- of the right length, gives both ends of an enciphered stream; and any packets that the client
  -- then sends are received by the server one after the other, in their order, once their bytes
  -- have arrived, cut into any runs of at least a byte, and so are any packets that the server
  -- sends after that by the client: for packets whose headers are not empty, whose buffers have
  -- the length of a header that the type has and hold both macs, and whose header is read as one
  -- with the length of the body, which the body limit allows; where any buffer with that header
  -- and body is read as a packet that holds what is expected.
  pub streams_in_order :
      (sk : Y.SignKeypair) (ckp skp : Y.EphemeralKeypair) (n1 n2 : List ℕ) (now : ℕ)
      (sc cc : Config) (ps rs : List P) (vs ws : List V)
      → length n1 ≡ Y.nonce_len
      → length n2 ≡ Y.nonce_len
      → AreSendable C K Z T view sc.body_limit ps vs
      → AreSendable C K Z T view cc.body_limit rs ws
      → (s : EncryptedPacketStream C Z H) × (c : EncryptedPacketStream C Z H) × (greeting : List ℕ)
        × (server Y C K Z H key now sc true sk skp n1 n2 (Y.public ckp) ≡ ok (s, greeting))
        × (client Y C K Z H key now cc true (Y.sign_public sk) ckp greeting ≡ ok c)
        × (let (asked, c1) = send_all C K Z T ps c in
            let (qs, s1) = receive_all C K Z T (length ps) now s (cut asked) in
            let (answers, s2) = send_all C K Z T rs s1 in
            let (ts, c2) = receive_all C K Z T (length rs) now c1 (cut' answers) in
            (views C K Z T view some_header qs ≡ vs) × (views C K Z T view some_header ts ≡ ws))
  unfolding client server
  streams_in_order sk ckp skp n1 n2 now sc cc ps rs vs ws h1 h2 valid valid' =
      let (s, c, greeting, served, met, to_server, to_client, pk1, pk2) =
        handshakes_agree Y K sk ckp skp n1 n2 h1 h2 in
      let s0 = with_keys Y C K Z H key now sc s in
      let c0 = with_keys Y C K Z H key now cc c in
      let asked = (send_all C K Z T ps c0).0 in
      let c1 = (send_all C K Z T ps c0).1 in
      let (keeps, builds) = sent_keeps C K Z T view some_header ps c0 in
      let (seen, b, k, kept) =
        all_received C K Z T view some_header now sc.body_limit ps vs c0 s0 (cut asked) refl
          (ap key to_server) valid (arrives asked).0 (arrives asked).1 in
      let s1 = (receive_all C K Z T (length ps) now s0 (cut asked)).1 in
      let answers = (send_all C K Z T rs s1).0 in
      let back : s1.send_key ≡ c1.recv_key = kept ∙ ap key (sym to_client) ∙ sym keeps in
      let (seen', b', k', kept') =
        all_received C K Z T view some_header now cc.body_limit rs ws s1 c1 (cut' answers) builds
          back valid' (arrives' answers).0 (arrives' answers).1 in
      (s0, c0, greeting, rw served refl, rw met refl, (seen, seen'))
