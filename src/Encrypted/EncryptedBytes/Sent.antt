-- ===== src/Encrypted/EncryptedBytes/Sent.antt =====
-- lafere/src/packet/encrypted_bytes.rs: a packet that is enciphered, sent and received.
use lafere.Base.{
  take_to, take-append-drop, ℕ, ◌+◌, ◌*◌, ◌-◌, ◌≤◌, ◌≡◌, refl, sym, ap, ◌∙◌, arith, true, List, [],
  ◌++◌, length, length-replicate, length-take, length-drop, take, drop, ltb,
}
use mathlib.Core.List.{append_assoc}
use lafere.Encrypted.EncryptedBytes.{Cipher, EncryptedBytes, new, as_slice}
use lafere.Encrypted.EncryptedBytes.Opens.{
  packet_of, length-front, length-packet_of, has_body-packet_of,
}

module _ (C : Cipher) where
  -- Both macs and the header are there.
  abbrev pub IsSized : EncryptedBytes → Type 0
  IsSized p = C.offset * 2 + p.header_len ≤ length p.bytes

  pub new-IsSized : (header_len : ℕ) → IsSized (new C header_len)
  unfolding new
  new-IsSized header_len = omega (arith, length-replicate {A = ℕ} (C.offset * 2 + header_len) 0)

  pub parts :
      (p : EncryptedBytes)
      → IsSized p
      → (m1 h m2 b : List ℕ) × (p ≡ packet_of C p.header_len m1 h m2 b)
        × (length m1 ≡ C.offset)
        × (length h ≡ p.header_len)
        × (length m2 ≡ C.offset)
  parts p sized =
      let n = p.header_len in
      let r1 : List ℕ = drop C.offset p.bytes in
      let r2 : List ℕ = drop n r1 in
      let m1 : List ℕ = take C.offset p.bytes in
      let h : List ℕ = take n r1 in
      let m2 : List ℕ = take C.offset r2 in
      let b : List ℕ = drop C.offset r2 in
      let f1 : length r1 ≡ length p.bytes - C.offset = length-drop C.offset p.bytes in
      let f2 : length r2 ≡ length r1 - n = length-drop n r1 in
      let same : p.bytes ≡ (m1 ++ h) ++ (m2 ++ b) =
        sym (take-append-drop C.offset p.bytes)
        ∙ ap (λ (xs : List ℕ). m1 ++ xs) (sym (take-append-drop n r1))
        ∙ sym (append_assoc m1 h r2)
        ∙ ap (λ (xs : List ℕ). (m1 ++ h) ++ xs) (sym (take-append-drop C.offset r2)) in
      (
        m1,
        h,
        m2,
        b,
        ap (λ (xs : List ℕ). record { bytes = xs; header_len = n }) same,
        omega (arith, length-take C.offset p.bytes),
        omega (arith, length-take n r1, f1),
        omega (arith, length-take C.offset r2, f1, f2),
      )

  -- What is written of a packet with a body, and without one.
  pub as_slice_some :
      (n : ℕ) (m1 h m2 b : List ℕ)
      → length m1 ≡ C.offset
      → length h ≡ n
      → length m2 ≡ C.offset
      → ltb 0 (length b) ≡ true
      → as_slice C (packet_of C n m1 h m2 b) ≡ (m1 ++ h) ++ (m2 ++ b)
  unfolding as_slice
  as_slice_some n m1 h m2 b e1 eh e2 some_b =
      rw (has_body-packet_of C n m1 h m2 b e1 eh e2, some_b, as_slice) refl

  pub as_slice_none :
      (n : ℕ) (m1 h m2 : List ℕ)
      → length m1 ≡ C.offset
      → length h ≡ n
      → length m2 ≡ C.offset
      → as_slice C (packet_of C n m1 h m2 []) ≡ m1 ++ h
  unfolding as_slice
  as_slice_none n m1 h m2 e1 eh e2 =
      let whole = length-packet_of C n m1 h m2 [] e1 eh e2 in
      let front = length-front C n m1 h m2 [] e1 eh e2 in
      let cut : take (length ((m1 ++ h) ++ (m2 ++ [])) - C.offset) ((m1 ++ h) ++ (m2 ++ []))
          ≡ m1 ++ h =
        take_to _ (m1 ++ h) (m2 ++ []) (omega (arith, whole, front)) in
      rw (has_body-packet_of C n m1 h m2 [] e1 eh e2, cut, as_slice) refl
