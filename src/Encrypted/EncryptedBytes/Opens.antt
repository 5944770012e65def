-- ===== src/Encrypted/EncryptedBytes/Opens.antt =====
-- lafere/src/packet/encrypted_bytes.rs: what is enciphered is had back.
use lafere.Base.{
  take_to, drop_to, ℕ, zero, suc, ◌+◌, ◌*◌, ◌≡◌, refl, sym, ap, ◌∙◌, arith, true, List, [], ◌∷◌,
  ◌++◌, length, length-append, take, drop, take-append_length, drop-append_length, ltb, ok,
}
use mathlib.Core.List.{append_assoc}
use lafere.Encrypted.Cursor.{Cursors, between, write-between, read-between, seek-between}
use lafere.Encrypted.EncryptedBytes.{
  Cipher, EncryptedBytes, header, full_header, body, full_body, has_body, encrypt_part, encrypt,
  decrypt_part, decrypt_header, decrypt_body, key_after,
}

module _ (C : Cipher) where
  -- A packet from its two macs, its header and its body.
  abbrev pub packet_of : (header_len : ℕ) (m1 h m2 b : List ℕ) → EncryptedBytes
  packet_of n m1 h m2 b = record { bytes = (m1 ++ h) ++ (m2 ++ b); header_len = n }

  drop_nil : (k : ℕ) → drop {A = ℕ} k [] ≡ []
  drop_nil zero = refl
  drop_nil (suc k) = refl

  drop_plus : (i j : ℕ) (xs : List ℕ) → drop j (drop i xs) ≡ drop (i + j) xs
  drop_plus zero j xs = ap (λ (m : ℕ). drop m xs) (zero_plus j)
    where
      zero_plus : (j : ℕ) → j ≡ 0 + j
      zero_plus j = omega arith
  drop_plus (suc i) j [] = drop_nil j ∙ sym (drop_nil (suc i + j))
  drop_plus (suc i) j (x ∷ xs) = drop_plus i j xs ∙ ap (λ (m : ℕ). drop m (x ∷ xs)) (suc_plus i j)
    where
      suc_plus : (i j : ℕ) → suc (i + j) ≡ suc i + j
      suc_plus i j = omega arith

  ltb_plus : (k m l : ℕ) → l ≡ k + m → ltb k l ≡ ltb 0 m
  ltb_plus k m l e = ground arith

  module _ (n : ℕ) (m1 h m2 b : List ℕ) (e1 : length m1 ≡ C.offset) (eh : length h ≡ n)
      (e2 : length m2 ≡ C.offset) where
    pub length-front : length (m1 ++ h) ≡ C.offset + n
    length-front = omega (arith, length-append m1 h)

    full_header-packet_of : full_header C (packet_of n m1 h m2 b) ≡ m1 ++ h
    unfolding full_header
    full_header-packet_of = take_to (C.offset + n) (m1 ++ h) (m2 ++ b) length-front

    full_body-packet_of : full_body C (packet_of n m1 h m2 b) ≡ m2 ++ b
    unfolding full_body
    full_body-packet_of = drop_to (C.offset + n) (m1 ++ h) (m2 ++ b) length-front

    pub header-packet_of : header C (packet_of n m1 h m2 b) ≡ h
    unfolding header
    header-packet_of =
        ap (λ (xs : List ℕ). take n (drop C.offset xs)) (append_assoc m1 h (m2 ++ b))
        ∙ ap (take n) (drop_to C.offset m1 (h ++ (m2 ++ b)) e1)
        ∙ take_to n h (m2 ++ b) eh

    pub body-packet_of : body C (packet_of n m1 h m2 b) ≡ b
    unfolding body
    body-packet_of =
        drop_plus (C.offset * 2) n ((m1 ++ h) ++ (m2 ++ b))
        ∙ ap (drop (C.offset * 2 + n)) (sym (append_assoc (m1 ++ h) m2 b))
        ∙ drop_to (C.offset * 2 + n) ((m1 ++ h) ++ m2) b
            (omega (arith, length-front, e2, length-append (m1 ++ h) m2))

    pub length-packet_of : length ((m1 ++ h) ++ (m2 ++ b)) ≡ C.offset * 2 + n + length b
    length-packet_of =
        omega (arith, length-front, e2, length-append (m1 ++ h) (m2 ++ b), length-append m2 b)

    pub has_body-packet_of : has_body C (packet_of n m1 h m2 b) ≡ ltb 0 (length b)
    unfolding has_body
    has_body-packet_of =
        ltb_plus (C.offset * 2 + n) (length b) (length ((m1 ++ h) ++ (m2 ++ b))) length-packet_of

  module _ (K : Cursors) where
    encrypt_part_lem :
        (k : C.Key) (m xs : List ℕ)
        → length m ≡ C.offset
        → encrypt_part C K k (m ++ xs)
          ≡ ((C.encrypt k xs).1.0 ++ (C.encrypt k xs).0, (C.encrypt k xs).1.1)
    unfolding encrypt_part
    encrypt_part_lem k m xs e =
        let start =
          ap (K.seek C.offset) (K.new_lem (m ++ xs))
          ∙ seek-between K C.offset (between [] (m ++ xs)) m xs refl (sym e) in
        let ct : List ℕ = (C.encrypt k xs).0 in
        let mac : List ℕ = (C.encrypt k xs).1.0 in
        let back =
          seek-between K 0 (record { contents = m ++ ct; position = length m }) [] (m ++ ct) refl
            refl in
        let wrote = write-between K [] m ct mac (omega (arith, C.length_mac k xs)) in
        rw (start, drop-append_length m xs, take-append_length m xs, back, wrote, encrypt_part) refl

    pub decrypt_part_lem :
        (k : C.Key) (xs : List ℕ)
        → decrypt_part C K k ((C.encrypt k xs).1.0 ++ (C.encrypt k xs).0)
          ≡ ok ((C.encrypt k xs).1.0 ++ xs, (C.encrypt k xs).1.1)
    unfolding decrypt_part
    decrypt_part_lem k xs =
        let ct : List ℕ = (C.encrypt k xs).0 in
        let mac : List ℕ = (C.encrypt k xs).1.0 in
        let got =
          ap (λ (i : ℕ). K.read i (K.new (mac ++ ct))) (sym (C.length_mac k xs))
          ∙ ap (K.read (length mac)) (K.new_lem (mac ++ ct))
          ∙ read-between K [] mac ct in
        rw
          (
            got,
            drop-append_length mac ct,
            take-append_length mac ct,
            C.decrypt_encrypt k xs,
            decrypt_part,
          )
          refl

    pub key_after_lem :
        (k : C.Key) (xs : List ℕ)
        → key_after C K k ((C.encrypt k xs).1.0 ++ (C.encrypt k xs).0) ≡ (C.encrypt k xs).1.1
    unfolding key_after
    key_after_lem k xs =
        let ct : List ℕ = (C.encrypt k xs).0 in
        let mac : List ℕ = (C.encrypt k xs).1.0 in
        let got =
          ap (λ (i : ℕ). K.read i (K.new (mac ++ ct))) (sym (C.length_mac k xs))
          ∙ ap (K.read (length mac)) (K.new_lem (mac ++ ct))
          ∙ read-between K [] mac ct in
        rw (got, drop-append_length mac ct, C.decrypt_encrypt k xs, key_after) refl

    module _ (n : ℕ) (m1 h m2 : List ℕ) (e1 : length m1 ≡ C.offset) (eh : length h ≡ n)
        (e2 : length m2 ≡ C.offset) where
      -- With the header alone.
      pub encrypt_lem_none :
          (k : C.Key)
          → encrypt C K k (packet_of n m1 h m2 [])
            ≡ (packet_of n ((C.encrypt k h).1.0) ((C.encrypt k h).0) m2 [], (C.encrypt k h).1.1)
      unfolding encrypt
      encrypt_lem_none k =
          rw
            (
              full_header-packet_of n m1 h m2 [] e1 eh e2,
              full_body-packet_of n m1 h m2 [] e1 eh e2,
              encrypt_part_lem k m1 h e1,
              has_body-packet_of n ((C.encrypt k h).1.0) ((C.encrypt k h).0) m2 []
                  (C.length_mac k h) (C.length_encrypt k h ∙ eh) e2,
              encrypt,
            )
            refl

      -- With a body.
      pub encrypt_lem_some :
          (k : C.Key) (b : List ℕ)
          → ltb 0 (length b) ≡ true
          → let first = C.encrypt k h in
            let second = C.encrypt first.1.1 b in
            encrypt C K k (packet_of n m1 h m2 b)
            ≡ (packet_of n first.1.0 first.0 second.1.0 second.0, second.1.1)
      unfolding encrypt
      encrypt_lem_some k b some_b =
          let ct = C.length_encrypt k h ∙ eh in
          let mac = C.length_mac k h in
          let front : List ℕ = (C.encrypt k h).0 in
          rw
            (
              full_header-packet_of n m1 h m2 b e1 eh e2,
              full_body-packet_of n m1 h m2 b e1 eh e2,
              encrypt_part_lem k m1 h e1,
              has_body-packet_of n ((C.encrypt k h).1.0) front m2 b mac ct e2,
              some_b,
              full_header-packet_of n ((C.encrypt k h).1.0) front m2 b mac ct e2,
              full_body-packet_of n ((C.encrypt k h).1.0) front m2 b mac ct e2,
              encrypt_part_lem ((C.encrypt k h).1.1) m2 b e2,
              encrypt,
            )
            refl

      decrypt_header_lem :
          (k : C.Key) (b : List ℕ)
          → let first = C.encrypt k h in
            decrypt_header C K k (packet_of n first.1.0 first.0 m2 b)
            ≡ ok (packet_of n first.1.0 h m2 b, first.1.1)
      unfolding decrypt_header
      decrypt_header_lem k b =
          let ct = C.length_encrypt k h ∙ eh in
          let mac = C.length_mac k h in
          rw
            (
              full_header-packet_of n ((C.encrypt k h).1.0) ((C.encrypt k h).0) m2 b mac ct e2,
              full_body-packet_of n ((C.encrypt k h).1.0) ((C.encrypt k h).0) m2 b mac ct e2,
              decrypt_part_lem k h,
              decrypt_header,
            )
            refl

      decrypt_body_lem :
          (k : C.Key) (b : List ℕ)
          → let second = C.encrypt k b in
            decrypt_body C K k (packet_of n m1 h second.1.0 second.0)
            ≡ ok (packet_of n m1 h second.1.0 b, second.1.1)
      unfolding decrypt_body
      decrypt_body_lem k b =
          let mac = C.length_mac k b in
          rw
            (
              full_header-packet_of n m1 h ((C.encrypt k b).1.0) ((C.encrypt k b).0) e1 eh mac,
              full_body-packet_of n m1 h ((C.encrypt k b).1.0) ((C.encrypt k b).0) e1 eh mac,
              decrypt_part_lem k b,
              decrypt_body,
            )
            refl
