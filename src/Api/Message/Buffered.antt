-- ===== src/Api/Message/Buffered.antt =====
-- lafere-api/src/message.rs: a message in a buffer, for any buffer that keeps its promises.
use lafere.Base.{
  ℕ, ◌%◌, ◌^◌, ◌≡◌, sym, ap, ◌∙◌, some, List, [], ◌++◌, length, length-replicate, drop, drop_to,
  Result, ok,
}
use mathlib.Core.List.{append-nil}
use lafere.Packet.{PacketError}
use lafere.Packet.PacketBytes.{PacketBytes, OffsetCursors, BodyOp, do_all}
use lafere.Packet.PacketBytes.Body.{Body, steps}
use lafere.Packet.PacketBytes.Lawful.{Lawful}
use lafere.Api.Message.{
  Words, Header, Action, Message, header_len, empty_header, to_bytes, into_bytes,
}
use lafere.Api.Message.RoundTrip.{length-to_bytes}

module _ (A : Type 0) (T : PacketBytes) where
  pub record Buffered : Type 0 where
    pub header : Header A
    pub bytes : T.Bytes

module _ {A : Type 0} (T : PacketBytes) where
  unfoldable pub empty : Buffered A T
  empty = record { header = empty_header; bytes = T.new header_len }

  -- `msg.body_mut()`, of the operations that are done with it.
  unfoldable pub write_body : OffsetCursors → List BodyOp → Buffered A T → Buffered A T
  write_body N ops m = record m { bytes = T.body_mut (do_all N ops) m.bytes }

  unfoldable pub from_bytes_and_header : T.Bytes → Header A → Result PacketError (Buffered A T)
  from_bytes_and_header bytes header = ok (record { header = header; bytes = bytes })

  module _ (Act : Action A) (W : Words) where
    -- The writes of `to_bytes` into the header of the buffer.
    abbrev pub written_over : List ℕ → List ℕ → List ℕ
    written_over bs old = bs ++ drop (length bs) old

    unfoldable pub into_buffer : Buffered A T → T.Bytes
    into_buffer m =
        let header : Header A = record m.header { body_len = length (T.body m.bytes) % 2 ^ 32 } in
        T.header_mut (written_over (to_bytes Act W header)) m.bytes

    -- The message without its buffer.
    abbrev pub message_of : Buffered A T → Message A
    message_of m = record { header = m.header; body = T.body m.bytes }

    module _ (N : OffsetCursors) (L : Lawful N T) where
      abbrev pub IsFilled : Buffered A T → Type 0
      IsFilled m = L.IsValid m.bytes × (length (T.header m.bytes) ≡ header_len)

      empty-IsFilled : IsFilled empty
      unfolding empty
      empty-IsFilled = (
        L.new-IsValid header_len,
        ap (λ (xs : List ℕ). length xs) (L.header-new header_len)
            ∙ length-replicate {A = ℕ} header_len 0,
      )

      drop_whole : (n : ℕ) (xs : List ℕ) → length xs ≡ n → drop n xs ≡ []
      drop_whole n xs e = ap (drop n) (sym (append-nil xs)) ∙ drop_to n xs [] e

      overwritten :
          (bs old : List ℕ)
          → length bs ≡ header_len
          → length old ≡ header_len
          → written_over bs old ≡ bs
      overwritten bs old eb eo =
          ap (λ (xs : List ℕ). bs ++ xs) (drop_whole (length bs) old (eo ∙ sym eb)) ∙ append-nil bs

      into_buffer_lem :
          (m : Buffered A T)
          → IsFilled m
          → let header : Header A = record m.header {
            body_len = length (T.body m.bytes) % 2 ^ 32;
          } in
            L.IsValid (into_buffer m)
            × (T.header (into_buffer m) ≡ to_bytes Act W header)
            × (T.body (into_buffer m) ≡ T.body m.bytes)
      unfolding into_buffer
      into_buffer_lem m (valid, e) =
          let header : Header A = record m.header { body_len = length (T.body m.bytes) % 2 ^ 32 } in
          let bs : List ℕ = to_bytes Act W header in
          let over : written_over bs (T.header m.bytes) ≡ bs =
            overwritten bs (T.header m.bytes) (length-to_bytes Act W header) e in
          let kept = ap (λ (xs : List ℕ). length xs) over ∙ length-to_bytes Act W header ∙ sym e in
          let (still, head, rest) = L.header_mut_lem (written_over bs) m.bytes valid kept in
          (still, head ∙ over, rest)

      -- A message whose body is written into an empty one.
      abbrev pub filled : Header A → List BodyOp → Buffered A T
      filled h ops = record (write_body N ops empty) { header = h }

      filled_lem :
          (h : Header A) (ops : List BodyOp) (v : Body)
          → steps ops ([], 0) ≡ some v
          → IsFilled (filled h ops) × (T.body (filled h ops).bytes ≡ v.0)
      unfolding write_body empty
      filled_lem h ops v ran =
          let p = T.new header_len in
          let ran' : steps ops (T.body p, 0) ≡ some v =
            ap (λ (xs : List ℕ). steps ops (xs, 0)) (L.body-new header_len) ∙ ran in
          let (valid, head, body) = L.body_mut_lem ops p v (L.new-IsValid header_len) ran' in
          ((valid, ap (λ (xs : List ℕ). length xs) head ∙ empty-IsFilled.1), body)

      -- For any buffer that keeps its promises, a message whose body is written into an empty one
      -- by any operations within their range is turned into a buffer that is still valid and
      -- holds, the header of 12 bytes first, the bytes of the message with that body.
      pub into_buffer-filled :
          (h : Header A) (ops : List BodyOp) (v : Body)
          → steps ops ([], 0) ≡ some v
          → let out = into_buffer (filled h ops) in
            L.IsValid out
            × (T.header out ++ T.body out ≡ into_bytes Act W (record { header = h; body = v.0 }))
            × (length (T.header out) ≡ header_len)
      unfolding into_bytes
      into_buffer-filled h ops v ran =
          let (ok_, body) = filled_lem h ops v ran in
          let (valid, head, rest) = into_buffer_lem (filled h ops) ok_ in
          let final : T.body (into_buffer (filled h ops)) ≡ v.0 = rest ∙ body in
          let bytes : List ℕ → List ℕ =
            λ (xs : List ℕ). to_bytes Act W (record h { body_len = length xs % 2 ^ 32 }) in
          let head' = head ∙ ap bytes body in
          (
            valid,
            ap (λ (xs : List ℕ). xs ++ T.body (into_buffer (filled h ops))) head'
                ∙ ap (λ (xs : List ℕ). bytes v.0 ++ xs) final,
            ap (λ (xs : List ℕ). length xs) head'
                ∙ length-to_bytes Act W (record h { body_len = length v.0 % 2 ^ 32 }),
          )
