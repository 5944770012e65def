-- ===== src/Protopuffer/Encode/Options/Laws.antt =====
-- protopuffer/src/encode.rs: the bytes of an `Option<T>`.
use lafere.Protopuffer.Varint.Encoding.{IsU64}
use lafere.Protopuffer.SizeBuilder.{add_u64}
use lafere.Bytes.{BytesWrite}
use lafere.Base.{
  ℕ, Option, none, some, List, [], Bool-cases, inl, inr, if◌then◌else◌, ◌≡◌, length, ok, true,
}
use lafere.Bytes.Writes.{put_nil, put}
use lafere.Protopuffer.Encoder.{buffer_exausted}
use lafere.Protopuffer.Encode.{FieldOpt, field_nested, field_or_one, EncodeMessage}
use lafere.Protopuffer.Encode.Laws.{
  Counts, Appends, Lawful, Counts-nil, nested_bytes, nested_size-Counts, nested_encode-Writes,
}
use lafere.Protopuffer.Encode.Options.{
  option_size_flat, option_encode_flat, option_size, option_encode, option_message,
}

module _ {T : Type 0} {E : EncodeMessage T} (L : Lawful E) where
  abbrev pub ValidOption : Option T → Type 0
  ValidOption none = Unit
  ValidOption (some v) = L.Valid v

  unfoldable pub option_flat_bytes : Option T → ℕ → List ℕ
  option_flat_bytes none num = []
  option_flat_bytes (some v) num = L.bytes v (some (field_nested num))

  unfoldable pub option_bytes : Option T → Option FieldOpt → List ℕ
  option_bytes v field =
      let f = field_or_one field in
      if f.is_nested then nested_bytes f.num (option_flat_bytes v 1) else option_flat_bytes v f.num

  flat-Counts :
      (v : Option T) (num : ℕ)
      → ValidOption v
      → Counts (option_flat_bytes v num) (option_size_flat E v num)
  unfolding option_size_flat option_flat_bytes
  flat-Counts none num h = Counts-nil
  flat-Counts (some v) num h = L.counts v (some (field_nested num)) h

  flat-Appends :
      (v : Option T) (num : ℕ)
      → ValidOption v
      → Appends (option_flat_bytes v num) (λ W. option_encode_flat E W v num)
  unfolding option_encode_flat option_flat_bytes
  flat-Appends none num h W w room = put_nil W buffer_exausted w room
  flat-Appends (some v) num h W w room = L.appends v (some (field_nested num)) h W w room

  -- `encoded_size` of an option whose value, if any, is valid counts, modulo 2 ^ 64, the bytes
  -- that `encode` appends, nested or not.
  pub option_size-Counts :
      (v : Option T) (field : Option FieldOpt)
      → ValidOption v
      → (n : ℕ) → IsU64 n
      → option_size E v field n ≡ ok (add_u64 n (length (option_bytes v field)))
  unfolding option_size option_bytes
  option_size-Counts v field h = elim (Bool-cases (field_or_one field).is_nested) [
    | inl nested ↦ λ n hn. rw nested (
        nested_size-Counts (field_or_one field).num (option_flat_bytes v 1) _ (flat-Counts v 1 h) n
          hn)
    | inr top ↦ λ n hn. rw top (flat-Counts v (field_or_one field).num h n hn)
  ]

  -- `encode` of an option whose value, if any, is valid appends the bytes of the option, nested or
  -- not, to any buffer that is not overfull, or fails where they do not fit.
  pub option_encode-Appends :
      (v : Option T) (field : Option FieldOpt)
      → ValidOption v
      → (W : BytesWrite) (w : List ℕ) → W.has_room (length w) ≡ true
      → option_encode E W v field w ≡ put W buffer_exausted (option_bytes v field) w
  unfolding option_encode option_bytes
  option_encode-Appends v field h W w room = elim (Bool-cases (field_or_one field).is_nested) [
    | inl nested ↦ rw nested (
        nested_encode-Writes W (field_or_one field).num (option_flat_bytes v 1) _ _
          (flat-Counts v 1 h) (flat-Appends v 1 h W) w room)
    | inr top ↦ rw top (flat-Appends v (field_or_one field).num h W w room)
  ]

  unfoldable pub option_lawful : Lawful (option_message E)
  unfolding option_message
  option_lawful = record {
    Valid = ValidOption;
    bytes = option_bytes;
    counts = option_size-Counts;
    appends = option_encode-Appends;
  }
