-- ===== src/Api/EncDec/Sent.antt =====
-- lafere-api: a derived struct as the body of a message, from one side to the other.
use lafere.Base.{
  ℕ, ◌^◌, ◌<◌, ◌≡◌, refl, ap, ◌∙◌, arith, none, some, List, [], length, ok, map_err, ◌>>=◌,
}
use lafere.Bytes.{BytesRead, growing}
use lafere.Protopuffer.Decode.{parse_from_bytes}
use lafere.Packet.Flags.{Kind}
use lafere.Handler.Outgoing.{labelled}
use lafere.Api.Message.{
  Header, action_of, empty_header, Message, message_packet, Action, Words, empty, set_action,
  into_bytes, message_from, check_limit,
}
use lafere.Api.Message.RoundTrip.{message_from-into_bytes}
use lafere.Api.EncDec.{encode, decode}
use lafere.Api.Requests.{encode_error, decode_error}
use lafere.Protopuffer.Wire.{try_unwrap_len}
use lafere.Derive.{FieldAttr, Values, struct_encode, struct_decode}
use lafere.Derive.Items.{Mirrors, IsDistinct, InRange}
use lafere.Derive.Structs.{body, struct-Appends, struct_read}

module _ {A : Type 0} (Act : Action A) (B : Words) where
  -- A message as the handler of the sending side labels it.
  abbrev pub labelled_message : Kind → ℕ → A → Message A → Message A
  labelled_message kind id action msg =
      labelled message_packet kind id (record msg { header = set_action action msg.header })

  -- Its header, once the length of the body is known.
  abbrev pub sent_header : Kind → ℕ → A → ℕ → Header A
  sent_header kind id action len = record (labelled_message kind id action empty).header {
    body_len = len;
  }

  -- A value of a derived struct that is sent as the body of a message, labelled with any kind, an
  -- action and an id that is a u32, is turned into bytes, and what the other side reads from these
  -- bytes is a message with that action, whose body decodes to the value: for fields of different
  -- numbers whose decoders read back what their encoders write, a body of less than 2 ^ 32 bytes,
  -- and an action that allows it.
  pub sent_value :
      (R : BytesRead) (as_ : List FieldAttr) (ms : Mirrors as_)
      → IsDistinct as_
      → (vs : Values as_) → InRange as_ ms vs
      → (kind : Kind) (id : ℕ) (action : A) → id < 2 ^ 32
      → let bs = body as_ ms vs in
        let header = sent_header kind id action (length bs) in
        length bs < 2 ^ 32
        → check_limit Act header ≡ ok header
        → (m : Message A) × (r : Message A) × (encode (struct_encode as_) growing vs ≡ ok m)
          × (message_from Act B (into_bytes Act B (labelled_message kind id action m)) ≡ ok r)
          × (action_of r ≡ some action)
          × (decode (struct_decode R as_) r ≡ ok vs)
  unfolding encode decode labelled set_action empty empty_header parse_from_bytes try_unwrap_len
      action_of
  sent_value R as_ ms distinct vs h kind id action small_id small allowed =
      let bs = body as_ ms vs in
      let m : Message A = record empty { body = bs } in
      let r : Message A = record { header = sent_header kind id action (length bs); body = bs } in
      (
        m,
        r,
        ap (λ w. map_err encode_error w >>= λ body. ok (record (empty {A = A}) { body = body }))
            (struct-Appends as_ ms vs none h growing [] refl),
        message_from-into_bytes Act B (labelled_message kind id action m)
              (omega arith, small_id, tt) small
            ∙ ap (λ checked. checked >>= λ header. ok (record { header = header; body = bs }))
                allowed,
        refl,
        ap (map_err decode_error) (struct_read as_ ms R distinct vs h),
      )
