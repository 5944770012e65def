-- ===== src/Encrypted/Stream/Received.antt =====
-- lafere/src/encrypted/stream.rs: how the two parts of a packet are received.
use mathlib.Core.List.{append-nil}
use lafere.Base.{
  ℕ, ◌+◌, ◌<◌, ◌≡◌, refl, sym, ap, ◌∙◌, arith, false, not, ◌&&◌, some, List, [], ◌∷◌, ◌++◌, length,
  length-append, length-replicate, replicate, drop, drop_to, ltb, ◌==◌, ok,
}
use lafere.Timeout.{Sleeps}
use lafere.Packet.Receiver.{
  Arrivals, Receiver, ready, fill, header_filled, header_complete, body_filled, body_complete,
  take_message, over_limit, read_header, read_body,
}
use lafere.Packet.Receiver
use lafere.Packet.Receiver.Pieces.{joined_runs, NoEnd}
use lafere.Packet.Receiver.Whole.{fill_part}
use lafere.Encrypted.Cursor.{Cursors}
use lafere.Encrypted.EncryptedBytes.{Cipher, EncryptedBytes, header, body}
use lafere.Encrypted.EncryptedBytes.Opens.{
  packet_of, header-packet_of, body-packet_of, decrypt_part_lem, key_after_lem,
}
use lafere.Encrypted.Stream.{
  Packets, body_part, buffer, format, header_key, body_key, then_body, receive,
}

module _ (C : Cipher) (K : Cursors) (Z : Sleeps) {H P : Type 0} (T : Packets H P) {V : Type 0}
    (view : P → V) where
  -- A buffer that is read as a packet.
  abbrev pub IsRead : ℕ → List ℕ → List ℕ → V → Type 0
  IsRead limit head content v =
      (h : H) × (T.from_bytes head ≡ ok h)
      × (T.body_len h ≡ length content)
      × ((not (limit == 0) && ltb limit (length content)) ≡ false)
      × ((got : EncryptedBytes)
          → header C got ≡ head
          → body C got ≡ content
          → (q : P) × (T.from_bytes_and_header got h ≡ ok q) × (view q ≡ v))

  body_part_lem : (xs : List ℕ) → 0 < length xs → body_part C K Z T xs ≡ xs
  body_part_lem [] h = absurd (omega (arith, h))
  body_part_lem (x ∷ xs) h = refl

  module _ (some_header : 0 < T.header_len) (limit : ℕ) (k : C.Key) (hd : List ℕ)
      (eh : length hd ≡ T.header_len) where
    abbrev pub mac : List ℕ
    mac = (C.encrypt k hd).1.0

    abbrev pub next : C.Key
    next = (C.encrypt k hd).1.1

    abbrev pub with_header : H → Receiver H
    with_header h = record {
      header_bytes = mac ++ hd;
      body_bytes = [];
      header = some h;
      body_limit = limit;
    }

    header_done :
        (h : H) (rest : Arrivals)
        → T.from_bytes hd ≡ ok h
        → header_complete
            (format C K Z T k)
            (record (Receiver.new limit) { header_bytes = mac ++ (C.encrypt k hd).0 })
            rest
          ≡ ready (with_header h) rest (ok tt)
    unfolding Receiver.new header_complete
    header_done h rest e =
        let read : T.from_bytes (drop C.offset (mac ++ hd)) ≡ ok h =
          ap T.from_bytes (drop_to C.offset mac hd (C.length_mac k hd)) ∙ e in
        rw (decrypt_part_lem C K k hd, read, header_complete) refl

    pub header_received :
        (h : H) (more : List ℕ) (cs : Arrivals)
        → T.from_bytes hd ≡ ok h
        → joined_runs cs ≡ (mac ++ (C.encrypt k hd).0) ++ more
        → NoEnd cs
        → (rest : Arrivals) × (receive C K Z T k (Receiver.new limit) cs ≡ (
          read_body (format C K Z T next) (with_header h) h rest,
          body_key C K Z T next (with_header h) h rest,
        ))
          × (joined_runs rest ≡ more)
          × NoEnd rest
    unfolding receive header_key Receiver.new read_header
    header_received h more cs e bytes no_end =
        let part : List ℕ = mac ++ (C.encrypt k hd).0 in
        let len : length part ≡ C.offset + T.header_len = omega (
          arith,
          length-append mac ((C.encrypt k hd).0),
          C.length_mac k hd,
          C.length_encrypt k hd,
          eh,
        ) in
        let (rest, filled, left, no_end') =
          fill_part (C.offset + T.header_len) part more cs (omega (arith, some_header)) len bytes
            no_end in
        (
          rest,
          rw (filled, key_after_lem C K k hd) (ap (then_body C K Z T next) (header_done h rest e)),
          left,
          no_end',
        )

    -- A packet without a body is complete.
    pub none_received :
        (h : H) (rest : Arrivals) (v : V)
        → T.body_len h ≡ 0
        → ((got : EncryptedBytes)
            → header C got ≡ hd
            → body C got ≡ []
            → (q : P) × (T.from_bytes_and_header got h ≡ ok q) × (view q ≡ v))
        → (q : P) × (read_body (format C K Z T next) (with_header h) h rest
            ≡ ready (Receiver.new limit) rest (ok q))
          × (body_key C K Z T next (with_header h) h rest ≡ next)
          × (view q ≡ v)
    unfolding read_body body_key take_message
    none_received h rest v empty reads =
        let zeros : List ℕ = replicate C.offset 0 in
        let ez : length zeros ≡ C.offset = length-replicate C.offset 0 in
        let got : EncryptedBytes = buffer C K Z T (mac ++ hd) [] in
        let same : got ≡ packet_of C T.header_len mac hd zeros [] =
          ap (λ (xs : List ℕ). record { bytes = (mac ++ hd) ++ xs; header_len = T.header_len })
            (sym (append-nil zeros)) in
        let m = C.length_mac k hd in
        let (q, read, seen) =
          reads got (ap (header C) same ∙ header-packet_of C T.header_len mac hd zeros [] m eh ez)
            (ap (body C) same ∙ body-packet_of C T.header_len mac hd zeros [] m eh ez) in
        (q, rw (empty, read) refl, rw empty refl, seen)

    body_done :
        (h : H) (content : List ℕ) (rest : Arrivals) (v : V)
        → 0 < length content
        → ((got : EncryptedBytes)
            → header C got ≡ hd
            → body C got ≡ content
            → (q : P) × (T.from_bytes_and_header got h ≡ ok q) × (view q ≡ v))
        → (q : P) × (body_complete
              (format C K Z T next)
              (record (with_header h) {
                body_bytes = (C.encrypt next content).1.0 ++ (C.encrypt next content).0;
              })
              h
              rest
            ≡ ready (Receiver.new limit) rest (ok q))
          × (view q ≡ v)
    unfolding body_complete take_message
    body_done h content rest v room reads =
        let mac2 : List ℕ = (C.encrypt next content).1.0 in
        let m = C.length_mac k hd in
        let m2 = C.length_mac next content in
        let got : EncryptedBytes = buffer C K Z T (mac ++ hd) (mac2 ++ content) in
        let same : got ≡ packet_of C T.header_len mac hd mac2 content =
          ap (λ (xs : List ℕ). record { bytes = (mac ++ hd) ++ xs; header_len = T.header_len })
            (body_part_lem (mac2 ++ content) (omega (arith, length-append mac2 content, room))) in
        let (q, read, seen) =
          reads got
            (ap (header C) same ∙ header-packet_of C T.header_len mac hd mac2 content m eh m2)
            (ap (body C) same ∙ body-packet_of C T.header_len mac hd mac2 content m eh m2) in
        (q, rw (decrypt_part_lem C K next content, body_complete) (rw read refl), seen)

    -- A body.
    pub some_received :
        (h : H) (content more : List ℕ) (cs : Arrivals) (v : V)
        → 0 < length content
        → T.body_len h ≡ length content
        → (not (limit == 0) && ltb limit (length content)) ≡ false
        → ((got : EncryptedBytes)
            → header C got ≡ hd
            → body C got ≡ content
            → (q : P) × (T.from_bytes_and_header got h ≡ ok q) × (view q ≡ v))
        → joined_runs cs ≡ ((C.encrypt next content).1.0 ++ (C.encrypt next content).0) ++ more
        → NoEnd cs
        → (q : P) × (rest : Arrivals) × (read_body (format C K Z T next) (with_header h) h cs
            ≡ ready (Receiver.new limit) rest (ok q))
          × (body_key C K Z T next (with_header h) h cs ≡ (C.encrypt next content).1.1)
          × (view q ≡ v)
          × (joined_runs rest ≡ more)
          × NoEnd rest
    unfolding read_body body_key over_limit
    some_received h content more cs v room same under reads bytes no_end =
        let mac2 : List ℕ = (C.encrypt next content).1.0 in
        let part : List ℕ = mac2 ++ (C.encrypt next content).0 in
        let len : length part ≡ C.offset + T.body_len h = omega (
          arith,
          length-append mac2 ((C.encrypt next content).0),
          C.length_mac next content,
          C.length_encrypt next content,
          same,
        ) in
        let (rest, filled, left, no_end') =
          fill_part (C.offset + T.body_len h) part more cs (omega (arith, room, same)) len bytes
            no_end in
        let nonempty : (T.body_len h == 0) ≡ false = ground (arith, room, same) in
        let within : (not (limit == 0) && ltb limit (T.body_len h)) ≡ false =
          ap (λ n. not (limit == 0) && ltb limit n) same ∙ under in
        let (q, done, seen) = body_done h content rest v room reads in
        (
          q,
          rest,
          rw (nonempty, within, filled) done,
          rw (nonempty, within, filled) (key_after_lem C K next content),
          seen,
          left,
          no_end',
        )
