-- ===== src/Packet/PacketBytes/Lawful.antt =====
-- lafere/src/packet/bytes.rs: what a buffer promises to the messages that use it.
use lafere.Base.{ℕ, ◌≡◌, some, List, length, replicate, []}
use lafere.Packet.PacketBytes.{PacketBytes, OffsetCursors, BodyOp, do_all}
use lafere.Packet.PacketBytes.Body.{Body, steps}

-- A buffer is its header and its body: to change the one leaves the other as it is.
pub record Lawful (K : OffsetCursors) (T : PacketBytes) : Type 1 where
  pub IsValid : T.Bytes → Type 0
  pub new-IsValid : (n : ℕ) → IsValid (T.new n)
  pub header-new : (n : ℕ) → T.header (T.new n) ≡ replicate n 0
  pub body-new : (n : ℕ) → T.body (T.new n) ≡ []
  pub header_mut_lem :
      (f : List ℕ → List ℕ) (p : T.Bytes)
      → IsValid p
      → length (f (T.header p)) ≡ length (T.header p)
      → IsValid (T.header_mut f p)
        × (T.header (T.header_mut f p) ≡ f (T.header p))
        × (T.body (T.header_mut f p) ≡ T.body p)
  pub body_mut_lem :
      (ops : List BodyOp) (p : T.Bytes) (v : Body)
      → IsValid p
      → steps ops (T.body p, 0) ≡ some v
      → IsValid (T.body_mut (do_all K ops) p)
        × (T.header (T.body_mut (do_all K ops) p) ≡ T.header p)
        × (T.body (T.body_mut (do_all K ops) p) ≡ v.0)
