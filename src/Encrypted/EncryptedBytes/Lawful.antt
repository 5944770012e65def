-- ===== src/Encrypted/EncryptedBytes/Lawful.antt =====
-- lafere/src/packet/encrypted_bytes.rs: the buffer keeps its promises as one that is not enciphered does.
use lafere.Base.{
  ℕ, ◌+◌, ◌*◌, ◌≡◌, refl, sym, ap, ◌∙◌, arith, List, [], ◌++◌, length, length-append,
  length-replicate, take, drop, take_to, drop_to, replicate, replicate_plus, some,
}
use mathlib.Core.Path.{subst}
use mathlib.Core.List.{append_assoc, append-nil}
use lafere.Packet.PacketBytes.{OffsetCursors, BodyOp, do_all}
use lafere.Packet.PacketBytes.Body.{Body, steps, body_mut_lem}
use lafere.Packet.PacketBytes.Lawful.{Lawful}
use lafere.Encrypted.EncryptedBytes.{
  Cipher, EncryptedBytes, new, header, header_mut, body, body_mut, encrypted_bytes,
}
use lafere.Encrypted.EncryptedBytes.Opens.{
  packet_of, header-packet_of, body-packet_of, length-packet_of, length-front,
}
use lafere.Encrypted.EncryptedBytes.Sent.{IsSized, new-IsSized, parts}

module _ (C : Cipher) (N : OffsetCursors) where
  abbrev pub IsHeaderChanged : (List ℕ → List ℕ) → EncryptedBytes → Type 0
  IsHeaderChanged f p =
      length (f (header C p)) ≡ length (header C p)
      → IsSized C (header_mut C f p)
        × (header C (header_mut C f p) ≡ f (header C p))
        × (body C (header_mut C f p) ≡ body C p)

  abbrev pub IsBodyChanged : List BodyOp → Body → EncryptedBytes → Type 0
  IsBodyChanged ops v p =
      steps ops (body C p, 0) ≡ some v
      → IsSized C (body_mut C N (do_all N ops) p)
        × (header C (body_mut C N (do_all N ops) p) ≡ header C p)
        × (body C (body_mut C N (do_all N ops) p) ≡ v.0)

  module _ (n : ℕ) (m1 h m2 b : List ℕ) (e1 : length m1 ≡ C.offset) (eh : length h ≡ n)
      (e2 : length m2 ≡ C.offset) where
    packet_of-IsSized : IsSized C (packet_of C n m1 h m2 b)
    packet_of-IsSized = omega (arith, length-packet_of C n m1 h m2 b e1 eh e2)

    header_mut-packet_of :
        (f : List ℕ → List ℕ)
        → header_mut C f (packet_of C n m1 h m2 b) ≡ packet_of C n m1 (f h) m2 b
    unfolding header_mut header
    header_mut-packet_of f =
        let whole : List ℕ = (m1 ++ h) ++ (m2 ++ b) in
        let front : take C.offset whole ≡ m1 =
          ap (take C.offset) (append_assoc m1 h (m2 ++ b))
          ∙ take_to C.offset m1 (h ++ (m2 ++ b)) e1 in
        let found : take n (drop C.offset whole) ≡ h = header-packet_of C n m1 h m2 b e1 eh e2 in
        let rest : drop (C.offset + n) whole ≡ m2 ++ b =
          drop_to (C.offset + n) (m1 ++ h) (m2 ++ b) (length-front C n m1 h m2 b e1 eh e2) in
        ap (λ (xs : List ℕ). record { bytes = xs; header_len = n })
          (ap
              (λ (xs : List ℕ).
                xs ++ (f (take n (drop C.offset whole)) ++ drop (C.offset + n) whole))
              front
            ∙ ap (λ (xs : List ℕ). m1 ++ (f xs ++ drop (C.offset + n) whole)) found
            ∙ ap (λ (xs : List ℕ). m1 ++ (f h ++ xs)) rest
            ∙ sym (append_assoc m1 (f h) (m2 ++ b)))

    body_mut-packet_of :
        (ops : List BodyOp) (v : Body)
        → steps ops (b, 0) ≡ some v
        → body_mut C N (do_all N ops) (packet_of C n m1 h m2 b) ≡ packet_of C n m1 h m2 v.0
    unfolding body_mut
    body_mut-packet_of ops v ran =
        let o : ℕ = n + C.offset * 2 in
        let front : List ℕ = (m1 ++ h) ++ m2 in
        let at_ : o ≡ length front =
          omega (arith, length-append (m1 ++ h) m2, length-front C n m1 h m2 b e1 eh e2) in
        ap (λ (xs : List ℕ). record { bytes = xs; header_len = n })
          (ap (λ (xs : List ℕ). (do_all N ops (N.new o xs)).contents)
              (sym (append_assoc (m1 ++ h) m2 b))
            ∙ body_mut_lem N front ops b o v at_ ran
            ∙ append_assoc (m1 ++ h) m2 v.0)

  module _ (n : ℕ) (m1 h m2 b : List ℕ) (e1 : length m1 ≡ C.offset) (eh : length h ≡ n)
      (e2 : length m2 ≡ C.offset) where
    pub header_changed : (f : List ℕ → List ℕ) → IsHeaderChanged f (packet_of C n m1 h m2 b)
    header_changed f same =
        let found = header-packet_of C n m1 h m2 b e1 eh e2 in
        let fits : length (f h) ≡ n =
          ap (λ (xs : List ℕ). length (f xs)) (sym found)
          ∙ same
          ∙ ap (λ (xs : List ℕ). length xs) found
          ∙ eh in
        let becomes = header_mut-packet_of n m1 h m2 b e1 eh e2 f in
        (
          subst (IsSized C) (sym becomes) (packet_of-IsSized n m1 (f h) m2 b e1 fits e2),
          ap (header C) becomes ∙ header-packet_of C n m1 (f h) m2 b e1 fits e2 ∙ ap f (sym found),
          ap (body C) becomes
              ∙ body-packet_of C n m1 (f h) m2 b e1 fits e2
              ∙ sym (body-packet_of C n m1 h m2 b e1 eh e2),
        )

    pub body_changed :
        (ops : List BodyOp) (v : Body) → IsBodyChanged ops v (packet_of C n m1 h m2 b)
    body_changed ops v ran =
        let ran' : steps ops (b, 0) ≡ some v =
          ap (λ (xs : List ℕ). steps ops (xs, 0)) (sym (body-packet_of C n m1 h m2 b e1 eh e2))
          ∙ ran in
        let becomes = body_mut-packet_of n m1 h m2 b e1 eh e2 ops v ran' in
        (
          subst (IsSized C) (sym becomes) (packet_of-IsSized n m1 h m2 v.0 e1 eh e2),
          ap (header C) becomes
              ∙ header-packet_of C n m1 h m2 v.0 e1 eh e2
              ∙ sym (header-packet_of C n m1 h m2 b e1 eh e2),
          ap (body C) becomes ∙ body-packet_of C n m1 h m2 v.0 e1 eh e2,
        )

  pub new_lem :
      (n : ℕ)
      → new C n ≡ packet_of C n (replicate C.offset 0) (replicate n 0) (replicate C.offset 0) []
  unfolding new
  new_lem n =
      ap (λ (xs : List ℕ). record { bytes = xs; header_len = n })
        (replicate_plus (C.offset * 2 + n) (C.offset + n) C.offset 0 (omega arith)
          ∙ ap (λ (xs : List ℕ). xs ++ replicate C.offset 0)
              (replicate_plus (C.offset + n) C.offset n 0 refl)
          ∙ ap (λ (xs : List ℕ). (replicate C.offset 0 ++ replicate n 0) ++ xs)
              (sym (append-nil (replicate {A = ℕ} C.offset 0))))

  abbrev pub encrypted_bytes_lawful : Lawful N (encrypted_bytes C N)
  encrypted_bytes_lawful = record {
    IsValid = IsSized C;
    new-IsValid = new-IsSized C;
    header-new = λ n.
        ap (header C) (new_lem n)
        ∙ header-packet_of C n (replicate C.offset 0) (replicate n 0) (replicate C.offset 0) []
            (length-replicate C.offset 0) (length-replicate n 0) (length-replicate C.offset 0);
    body-new = λ n.
        ap (body C) (new_lem n)
        ∙ body-packet_of C n (replicate C.offset 0) (replicate n 0) (replicate C.offset 0) []
            (length-replicate C.offset 0) (length-replicate n 0) (length-replicate C.offset 0);
    header_mut_lem = λ f p sized.
        let (m1, h, m2, b, same, e1, eh, e2) = parts C p sized in
        subst (IsHeaderChanged f) (sym same) (header_changed p.header_len m1 h m2 b e1 eh e2 f);
    body_mut_lem = λ ops p v sized.
        let (m1, h, m2, b, same, e1, eh, e2) = parts C p sized in
        subst (IsBodyChanged ops v) (sym same) (body_changed p.header_len m1 h m2 b e1 eh e2 ops v);
  }
