-- ===== src/Packet/PacketBytes/Plain.antt =====
-- lafere/src/packet/bytes.rs: the buffer of a packet that is not enciphered.
use lafere.Base.{
  take_to, drop_to, take-append-drop, ℕ, ◌≤◌, ◌≡◌, sym, ap, ◌∙◌, arith, List, [], ◌++◌, length,
  length-append, length-take, length-replicate, take, drop, replicate, some,
}
use mathlib.Core.Path.{subst}
use mathlib.Core.List.{append-nil}
use lafere.Packet.PacketBytes.{PacketBytes, BodyBytesMut, OffsetCursors, BodyOp, do_all}
use lafere.Packet.PacketBytes.Body.{Body, steps, body_mut_lem}
use lafere.Packet.PacketBytes.Lawful.{Lawful}

pub record PlainBytes : Type 0 where
  pub bytes : List ℕ
  pub header_len : ℕ

unfoldable pub new : ℕ → PlainBytes
new header_len = record { bytes = replicate header_len 0; header_len = header_len }

unfoldable pub header : PlainBytes → List ℕ
header p = take p.header_len p.bytes

unfoldable pub header_mut : (List ℕ → List ℕ) → PlainBytes → PlainBytes
header_mut f p = record p { bytes = f (take p.header_len p.bytes) ++ drop p.header_len p.bytes }

unfoldable pub body : PlainBytes → List ℕ
body p = drop p.header_len p.bytes

unfoldable pub as_slice : PlainBytes → List ℕ
as_slice p = p.bytes

module _ (K : OffsetCursors) where
  unfoldable pub body_mut : (BodyBytesMut → BodyBytesMut) → PlainBytes → PlainBytes
  body_mut f p = record p { bytes = (f (K.new p.header_len p.bytes)).contents }

  abbrev pub plain_bytes : PacketBytes
  plain_bytes = record {
    Bytes = PlainBytes;
    new = new;
    header = header;
    header_mut = header_mut;
    body = body;
    body_mut = body_mut;
  }

  abbrev pub IsValid : PlainBytes → Type 0
  IsValid p = p.header_len ≤ length p.bytes

  abbrev packet_of : ℕ → List ℕ → List ℕ → PlainBytes
  packet_of n h b = record { bytes = h ++ b; header_len = n }

  parts :
      (p : PlainBytes)
      → IsValid p
      → (h b : List ℕ) × (p ≡ packet_of p.header_len h b) × (length h ≡ p.header_len)
  parts p valid =
      let n = p.header_len in
      (
        take n p.bytes,
        drop n p.bytes,
        ap (λ (xs : List ℕ). record { bytes = xs; header_len = n })
            (sym (take-append-drop n p.bytes)),
        omega (arith, length-take n p.bytes),
      )

  new_lem : (n : ℕ) → new n ≡ packet_of n (replicate n 0) []
  unfolding new
  new_lem n =
      ap (λ (xs : List ℕ). record { bytes = xs; header_len = n })
        (sym (append-nil (replicate {A = ℕ} n 0)))

  header-packet_of : (n : ℕ) (h b : List ℕ) → length h ≡ n → header (packet_of n h b) ≡ h
  unfolding header
  header-packet_of n h b e = take_to n h b e

  body-packet_of : (n : ℕ) (h b : List ℕ) → length h ≡ n → body (packet_of n h b) ≡ b
  unfolding body
  body-packet_of n h b e = drop_to n h b e

  abbrev IsHeaderChanged : (List ℕ → List ℕ) → PlainBytes → Type 0
  IsHeaderChanged f p =
      length (f (header p)) ≡ length (header p)
      → IsValid (header_mut f p)
        × (header (header_mut f p) ≡ f (header p))
        × (body (header_mut f p) ≡ body p)

  header_changed :
      (f : List ℕ → List ℕ) (n : ℕ) (h b : List ℕ)
      → length h ≡ n
      → IsHeaderChanged f (packet_of n h b)
  unfolding header_mut
  header_changed f n h b e same =
      let found = header-packet_of n h b e in
      let fits : length (f h) ≡ n =
        ap (λ (xs : List ℕ). length (f xs)) (sym found)
        ∙ same
        ∙ ap (λ (xs : List ℕ). length xs) found
        ∙ e in
      let becomes : header_mut f (packet_of n h b) ≡ packet_of n (f h) b =
        ap (λ (xs : List ℕ). record { bytes = f xs ++ drop n (h ++ b); header_len = n })
          (take_to n h b e)
        ∙ ap (λ (xs : List ℕ). packet_of n (f h) xs) (drop_to n h b e) in
      (
        subst IsValid (sym becomes) (omega (arith, fits, length-append (f h) b)),
        ap header becomes ∙ header-packet_of n (f h) b fits ∙ ap f (sym found),
        ap body becomes ∙ body-packet_of n (f h) b fits ∙ sym (body-packet_of n h b e),
      )

  abbrev IsBodyChanged : List BodyOp → Body → PlainBytes → Type 0
  IsBodyChanged ops v p =
      steps ops (body p, 0) ≡ some v
      → IsValid (body_mut (do_all K ops) p)
        × (header (body_mut (do_all K ops) p) ≡ header p)
        × (body (body_mut (do_all K ops) p) ≡ v.0)

  body_changed :
      (ops : List BodyOp) (v : Body) (n : ℕ) (h b : List ℕ)
      → length h ≡ n
      → IsBodyChanged ops v (packet_of n h b)
  unfolding body_mut
  body_changed ops v n h b e ran =
      let ran' : steps ops (b, 0) ≡ some v =
        ap (λ (xs : List ℕ). steps ops (xs, 0)) (sym (body-packet_of n h b e)) ∙ ran in
      let becomes : body_mut (do_all K ops) (packet_of n h b) ≡ packet_of n h v.0 =
        ap (λ (xs : List ℕ). record { bytes = xs; header_len = n })
          (body_mut_lem K h ops b n v (sym e) ran') in
      (
        subst IsValid (sym becomes) (omega (arith, e, length-append h v.0)),
        ap header becomes ∙ header-packet_of n h v.0 e ∙ sym (header-packet_of n h b e),
        ap body becomes ∙ body-packet_of n h v.0 e,
      )

  -- `PlainBytes` is a header and a body: new, its header has the length that was asked for and is
  -- zero, and its body is empty; a change of the header that keeps its length leaves the body as
  -- it is; and operations of `body_mut` within their range leave the header as it is and do with
  -- the body what they do with a body by itself.
  pub plain_bytes_lawful : Lawful K plain_bytes
  unfolding new header body
  plain_bytes_lawful = record {
    IsValid = IsValid;
    new-IsValid = λ n. omega (arith, length-replicate {A = ℕ} n 0);
    header-new = λ n. ap header (new_lem n) ∙ header-packet_of n _ [] (length-replicate n 0);
    body-new =
        λ n. ap body (new_lem n) ∙ body-packet_of n (replicate n 0) [] (length-replicate n 0);
    header_mut_lem = λ f p valid.
        let (h, b, same, e) = parts p valid in
        subst (IsHeaderChanged f) (sym same) (header_changed f p.header_len h b e);
    body_mut_lem = λ ops p v valid.
        let (h, b, same, e) = parts p valid in
        subst (IsBodyChanged ops v) (sym same) (body_changed ops v p.header_len h b e);
  }
