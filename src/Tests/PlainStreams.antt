-- ===== src/Tests/PlainStreams.antt =====
-- Runs of the plain stream of lafere/src/plain/mod.rs.
use lafere.Base.{◌≡◌, refl, arith, List, [], ◌∷◌, ◌++◌, take, drop}
use lafere.Packet.Receiver
use lafere.Packet.Receiver.{Arrivals}
use lafere.Api.Message.{into_bytes, to_bytes, check_limit}
use lafere.Api.Message.Stream.{plain_format}
use lafere.Plain.{Wake, new, receive, receive_all}
use lafere.Plain.InTime.{seen, receive-InTime}
use lafere.Plain.InOrder.{all_with_body_len, receive_all-send_all}
use lafere.Tests.Messages.{actions, big_endian, message}
use lafere.Tests.Timing.{sleeps}

-- A message of 14 bytes in three polls; the timeout is 50, and the second poll finds nothing.
abbrev three_polls : List Wake
three_polls =
    record { now = 10; later = 11; arrived = take 7 (into_bytes actions big_endian message) ∷ [] }
    ∷ record { now = 40; later = 40; arrived = [] }
    ∷ record { now = 55; later = 90; arrived = drop 7 (into_bytes actions big_endian message) ∷ [] }
    ∷ []

receive-InTime_example :
    seen sleeps (plain_format actions big_endian) (
      receive sleeps
        (plain_format actions big_endian)
        (new sleeps (plain_format actions big_endian) 0 50 100)
        three_polls)
    ≡ Receiver.receive (plain_format actions big_endian) (Receiver.new 100) (
        take 7 (into_bytes actions big_endian message)
        ∷ drop 7 (into_bytes actions big_endian message)
        ∷ [])
receive-InTime_example =
    receive-InTime sleeps (plain_format actions big_endian) 0 50 100 three_polls
      (omega arith, (omega arith, (omega arith, tt)))

abbrev cut : Arrivals
cut =
    take 7 (into_bytes actions big_endian message)
    ∷ (drop 7 (into_bytes actions big_endian message)
        ++ take 7 (into_bytes actions big_endian message))
    ∷ drop 7 (into_bytes actions big_endian message)
    ∷ []

-- Two messages, cut after 7 and 21 bytes.
receive_all-send_all_example :
    receive_all sleeps
      (plain_format actions big_endian)
      2
      7
      (new sleeps (plain_format actions big_endian) 7 50 100)
      cut
    ≡ all_with_body_len sleeps actions big_endian (message ∷ message ∷ [])
unfolding check_limit into_bytes to_bytes
receive_all-send_all_example =
    receive_all-send_all sleeps actions big_endian 7 50 100 (message ∷ message ∷ []) cut
      (
        ((omega arith, omega arith, tt), omega arith, refl, refl),
        (((omega arith, omega arith, tt), omega arith, refl, refl), tt),
      )
      refl (refl, (refl, (refl, tt)))
