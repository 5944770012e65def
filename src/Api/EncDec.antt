-- ===== src/Api/EncDec.antt =====
-- lafere-api/src/encdec.rs: values as the bodies of messages, by protopuffer.
pub mod Sent
use lafere.Base.{Option, none, List, [], Result, ok, map_err, ◌>>=◌}
use lafere.Bytes.{BytesWrite}
use lafere.Protopuffer.Encode.{EncodeMessage}
use lafere.Protopuffer.Decode.{DecodeMessage, parse_from_bytes}
use lafere.Api.Message.{Message, empty}
use lafere.Api.Requests.{MessageError, encode_error, decode_error}

-- `W` is the body of a packet, as a buffer that is written to.
unfoldable pub encode :
    {T A : Type 0} → EncodeMessage T → BytesWrite → T → Result MessageError (Message A)
encode {A = A} E W value = do
  body ← map_err encode_error (E.encode W value none (empty {A = A}).body)
  ok (record empty { body = body })

unfoldable pub decode : {T A : Type 0} → DecodeMessage T → Message A → Result MessageError T
decode D msg = map_err decode_error (parse_from_bytes D msg.body)
