-- ===== src/Api/Message/RoundTrip.antt =====
-- lafere-api/src/message.rs: a message that is turned into bytes and read from them again.
use mathlib.Core.List.{append-nil}
use lafere.Base.{
  ◌%◌, ◌^◌, ◌<◌, ◌≡◌, refl, sym, ap, ◌∙◌, arith, false, none, [], ◌∷◌, ◌++◌, length, length-append,
  take, drop, take-append_length, drop-append_length, ◌==◌, ok, ◌>>=◌,
}
use lafere.Api.Message.{
  Words, MaybeAction, Header, Action, Message, header_len, action_num, action_from, check_limit,
  to_bytes, from_bytes, into_bytes, message_from,
}

module _ {A : Type 0} (Act : Action A) where
  -- An unknown action has a number, other than 0, that no action has.
  abbrev pub IsAction : MaybeAction A → Type 0
  IsAction (MaybeAction.action a) = Unit
  IsAction (MaybeAction.unknown num) = (0 < num) × (num < 2 ^ 16) × (Act.from_u16 num ≡ none)
  IsAction MaybeAction.none = Unit

  -- What the Rust types guarantee of a header.
  abbrev pub IsHeader : Header A → Type 0
  IsHeader h = (h.body_len < 2 ^ 32) × (h.id < 2 ^ 32) × IsAction h.action

  pub action_from-action_num :
      (a : MaybeAction A) → IsAction a → action_from Act (action_num Act a) ≡ a
  unfolding action_from action_num
  action_from-action_num (MaybeAction.action a) h =
      let nonzero : (Act.as_u16 a == 0) ≡ false = ground (arith, Act.as_u16_lt a) in
      rw (nonzero, Act.from_u16-as_u16 a) refl
  action_from-action_num (MaybeAction.unknown num) (h, lt, unused) =
      let nonzero : (num == 0) ≡ false = ground arith in rw (nonzero, unused) refl
  action_from-action_num MaybeAction.none h = refl

  action_num-lt : (a : MaybeAction A) → IsAction a → action_num Act a < 2 ^ 16
  unfolding action_num
  action_num-lt (MaybeAction.action a) h = (Act.as_u16_lt a).1
  action_num-lt (MaybeAction.unknown num) h = h.1
  action_num-lt MaybeAction.none h = omega arith

  module _ (B : Words) where
    pub length-to_bytes : (h : Header A) → length (to_bytes Act B h) ≡ header_len
    unfolding to_bytes
    length-to_bytes h = omega (
      arith,
      B.length_u32 h.body_len,
      B.length_u32 h.id,
      B.length_u16 (action_num Act h.action),
      length-append (B.write_u32 h.id) (B.write_u16 (action_num Act h.action)),
      length-append (B.write_u32 h.body_len)
          (h.flags ∷ h.msg_flags ∷ (B.write_u32 h.id ++ B.write_u16 (action_num Act h.action))),
    )

    pub from_bytes-to_bytes :
        (h : Header A) → IsHeader h → from_bytes Act B (to_bytes Act B h) ≡ check_limit Act h
    unfolding to_bytes from_bytes
    from_bytes-to_bytes h (hb, hi, ha) =
        rw
          (
            B.read_u32_lem h.body_len _ hb,
            B.read_u8_lem h.flags,
            B.read_u8_lem h.msg_flags,
            B.read_u32_lem h.id _ hi,
            last_word,
            action_from-action_num h.action ha,
          )
          refl
      where
        last_word :
            B.read_u16 (B.write_u16 (action_num Act h.action)) ≡ (action_num Act h.action, [])
        last_word =
            ap B.read_u16 (sym (append-nil (B.write_u16 (action_num Act h.action))))
            ∙ B.read_u16_lem (action_num Act h.action) [] (action_num-lt h.action ha)

    -- A message that is read from the bytes it was turned into, for a header within the range of
    -- its type and a body of less than 2 ^ 32 bytes, is the message with `body_len` set to the
    -- length of the body, if the action allows a body of that length; otherwise the read fails
    -- with the limit.
    pub message_from-into_bytes :
        (m : Message A)
        → IsHeader m.header
        → length m.body < 2 ^ 32
        → let header = record m.header { body_len = length m.body } in
          message_from Act B (into_bytes Act B m)
          ≡ (check_limit Act header >>= λ checked. ok (record { header = checked; body = m.body }))
    unfolding message_from into_bytes
    message_from-into_bytes m (hb, hi, ha) small =
        let header = record m.header { body_len = length m.body % 2 ^ 32 } in
        let bytes = to_bytes Act B header in
        let same : length m.body % 2 ^ 32 ≡ length m.body = omega arith in
        let first : take header_len (bytes ++ m.body) ≡ bytes =
          ap (λ n. take n (bytes ++ m.body)) (sym (length-to_bytes header))
          ∙ take-append_length bytes m.body in
        let second : drop header_len (bytes ++ m.body) ≡ m.body =
          ap (λ n. drop n (bytes ++ m.body)) (sym (length-to_bytes header))
          ∙ drop-append_length bytes m.body in
        rw (first, second, from_bytes-to_bytes header (omega arith, hi, ha), same) refl
