-- ===== src/Api/Message/Stream.antt =====
-- Messages of lafere-api/src/message.rs that arrive on the stream of lafere/src/plain/mod.rs.
use mathlib.Core.List.{append_assoc}
use lafere.Base.{
  ℕ, ◌-◌, ◌%◌, ◌^◌, ◌<◌, ◌≡◌, refl, ap, ◌∙◌, arith, true, false, not, ◌&&◌, none, some, List, [],
  ◌∷◌, ◌++◌, length, take-append_length, drop-append_length, leb, ltb, ◌==◌, ok,
}
use lafere.Packet.Receiver.{
  Arrivals, Format, Receiver, ready, new, leftover, fill, receive, read_header, read_body,
  header_complete, body_complete, take_message, over_limit, then_body,
}
use lafere.Api.Message.{
  Words, Header, Action, Message, header_len, check_limit, to_bytes, from_bytes, into_bytes,
}
use lafere.Api.Message.RoundTrip.{IsHeader, length-to_bytes, from_bytes-to_bytes}

-- A part that arrives whole, with what follows it.
fill_whole :
    (a r : List ℕ) (len : ℕ) (cs : Arrivals)
    → length a ≡ len
    → fill len [] ((a ++ r) ∷ cs) ≡ ready a (leftover r cs) true
unfolding fill
fill_whole a r len cs e =
    let room : len - 0 ≡ length a = omega (arith, e) in
    let enough : leb len (length a) ≡ true = ground (arith, e) in
    rw (room, take-append_length a r, drop-append_length a r, enough) refl

module _ {A : Type 0} (Act : Action A) (B : Words) where
  abbrev pub plain_format : Format (Header A) (Message A)
  plain_format = record {
    full_header_len = header_len;
    full_body_len = λ len. len;
    mutate_header = ok;
    mutate_body = ok;
    from_bytes = from_bytes Act B;
    body_len = λ h. h.body_len;
    from_bytes_and_header = λ header_bytes body h. ok (record { header = h; body = body });
  }

  header_done :
      (h : Header A) (limit : ℕ) (rest : Arrivals)
      → IsHeader Act h
      → check_limit Act h ≡ ok h
      → let s : Receiver (Header A) = record {
        header_bytes = to_bytes Act B h;
        body_bytes = [];
        header = none;
        body_limit = limit;
      } in
        header_complete plain_format s rest ≡ ready (record s { header = some h }) rest (ok tt)
  unfolding header_complete
  header_done h limit rest valid allowed =
      rw (from_bytes-to_bytes Act B h valid, allowed, header_complete) refl

  header_read :
      (h : Header A) (limit : ℕ) (r : List ℕ)
      → IsHeader Act h
      → check_limit Act h ≡ ok h
      → let s : Receiver (Header A) = record {
        header_bytes = to_bytes Act B h;
        body_bytes = [];
        header = some h;
        body_limit = limit;
      } in
        receive plain_format (new limit) ((to_bytes Act B h ++ r) ∷ [])
        ≡ read_body plain_format s h (leftover r [])
  unfolding receive read_header header_complete new
  header_read h limit r valid allowed =
      rw (fill_whole (to_bytes Act B h) r header_len [] (length-to_bytes Act B h))
        (ap (then_body plain_format) (header_done h limit (leftover r []) valid allowed))

  body_read :
      (h : Header A) (limit : ℕ) (hb body more : List ℕ)
      → h.body_len ≡ length body
      → (not (limit == 0) && ltb limit (length body)) ≡ false
      → let s : Receiver (Header A) = record {
        header_bytes = hb;
        body_bytes = [];
        header = some h;
        body_limit = limit;
      } in
        read_body plain_format s h (leftover (body ++ more) [])
        ≡ ready (new limit) (leftover more []) (ok (record { header = h; body = body }))
  unfolding read_body take_message body_complete over_limit new
  body_read h limit hb [] more same under = rw (same) refl
  body_read h limit hb (b ∷ bs) more same under =
      let nonempty : (length (b ∷ bs) == 0) ≡ false = ground arith in
      rw (same, nonempty, under, fill_whole (b ∷ bs) more (length (b ∷ bs)) [] refl) refl

  -- A new receiver on a plain stream, on which the bytes of a message arrive and then others,
  -- receives the message with `body_len` set to the length of the body, leaves the other bytes,
  -- and is new again: for a header within the range of its type, a body of less than 2 ^ 32 bytes
  -- that the action allows, and a body limit that is 0 or not exceeded.
  pub receive-into_bytes :
      (m : Message A) (limit : ℕ) (more : List ℕ)
      → IsHeader Act m.header
      → length m.body < 2 ^ 32
      → check_limit Act (record m.header { body_len = length m.body })
        ≡ ok (record m.header { body_len = length m.body })
      → (not (limit == 0) && ltb limit (length m.body)) ≡ false
      → receive plain_format (new limit) ((into_bytes Act B m ++ more) ∷ [])
        ≡ ready
            (new limit)
            (leftover more [])
            (ok (record m { header = record m.header { body_len = length m.body } }))
  unfolding into_bytes
  receive-into_bytes m limit more (hb, hi, ha) small allowed under =
      let h : Header A = record m.header { body_len = length m.body } in
      let same : length m.body % 2 ^ 32 ≡ length m.body = omega arith in
      rw (same, append_assoc)
        (header_read h limit (m.body ++ more) (omega arith, hi, ha) allowed
          ∙ body_read h limit (to_bytes Act B h) m.body more refl under)
