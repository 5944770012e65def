-- ===== src/Encrypted/Handshake/Agree.antt =====
-- lafere/src/encrypted/handshake.rs: what each side makes of what the other sent.
use lafere.Base.{
  ℕ, ◌+◌, ◌-◌, ◌≤◌, ◌≡◌, refl, sym, ap, ◌∙◌, arith, true, List, [], ◌++◌, length, length-append,
  take, drop, take-append_length, length-drop, length-replicate, replicate, leb, if◌then◌else◌, ok,
  err,
}
use mathlib.Core.List.{append-nil, append_assoc}
use lafere.Handler.{TaskError}
use lafere.Encrypted.Cursor.{Cursor, Cursors, between, write-within, read-between, seek-between}
use lafere.Encrypted.Handshake.{
  Crypto, Handshake, base_len, to_sign_len, to_send_len, max_len, read_exact, write_all,
  server_message, server_handshake, client_keys, client_receives, client_handshake,
}

module _ (Y : Crypto) (K : Cursors) where
  -- The first part of the message: a public key and two nonces.
  abbrev pub base : List ℕ → List ℕ → List ℕ → List ℕ
  base pk n1 n2 = (pk ++ n1) ++ n2

  length-base :
      (pk n1 n2 : List ℕ)
      → length pk ≡ Y.pk_len
      → length n1 ≡ Y.nonce_len
      → length n2 ≡ Y.nonce_len
      → length (base pk n1 n2) ≡ base_len Y
  length-base pk n1 n2 hp h1 h2 = omega (arith, length-append (pk ++ n1) n2, length-append pk n1)

  enough_room : (to_sign_len Y ≤ max_len Y) × (to_send_len Y ≤ max_len Y)
  enough_room = (ground arith, ground arith)

  -- The four parts that the server writes.
  written :
      (spk n1 n2 cpk zeros : List ℕ)
      → length spk ≡ Y.pk_len
      → length n1 ≡ Y.nonce_len
      → length n2 ≡ Y.nonce_len
      → length cpk ≡ Y.pk_len
      → length zeros ≡ max_len Y
      → (rest : List ℕ) × (K.write cpk (K.write n2 (K.write n1 (K.write spk (K.new zeros))))
          ≡ between (base spk n1 n2 ++ cpk) rest)
        × (to_sign_len Y + length rest ≡ max_len Y)
  written spk n1 n2 cpk zeros hs h1 h2 hc hz =
      let room = enough_room.0 in
      let r1 : List ℕ = drop (length spk) zeros in
      let r2 : List ℕ = drop (length n1) r1 in
      let r3 : List ℕ = drop (length n2) r2 in
      let r4 : List ℕ = drop (length cpk) r3 in
      let f1 : length r1 ≡ length zeros - length spk = length-drop (length spk) zeros in
      let f2 : length r2 ≡ length r1 - length n1 = length-drop (length n1) r1 in
      let f3 : length r3 ≡ length r2 - length n2 = length-drop (length n2) r2 in
      let f4 : length r4 ≡ length r3 - length cpk = length-drop (length cpk) r3 in
      let w1 : K.write spk (K.new zeros) ≡ between spk r1 =
        ap (K.write spk) (K.new_lem zeros) ∙ write-within K [] zeros spk (omega (arith, room)) in
      let w2 : K.write n1 (K.write spk (K.new zeros)) ≡ between (spk ++ n1) r2 =
        ap (K.write n1) w1 ∙ write-within K spk r1 n1 (omega (arith, room, f1)) in
      let w3 : K.write n2 (K.write n1 (K.write spk (K.new zeros))) ≡ between (base spk n1 n2) r3 =
        ap (K.write n2) w2 ∙ write-within K (spk ++ n1) r2 n2 (omega (arith, room, f1, f2)) in
      (
        r4,
        ap (K.write cpk) w3
            ∙ write-within K (base spk n1 n2) r3 cpk (omega (arith, room, f1, f2, f3)),
        omega (arith, room, f1, f2, f3, f4),
      )

  -- Reading from the start gives what stands before the cursor.
  read_back :
      (n : ℕ) (before after : List ℕ) (c : Cursor)
      → c.contents ≡ before ++ after
      → n ≡ length before
      → K.read n (K.seek 0 c) ≡ (before, between before after)
  read_back n before after c same e =
      ap (K.read n) (seek-between K 0 c [] (before ++ after) same refl)
      ∙ ap (λ (m : ℕ). K.read m (between [] (before ++ after))) e
      ∙ read-between K [] before after

  server_message_lem :
      (sk : Y.SignKeypair) (spk n1 n2 cpk : List ℕ)
      → length spk ≡ Y.pk_len
      → length n1 ≡ Y.nonce_len
      → length n2 ≡ Y.nonce_len
      → length cpk ≡ Y.pk_len
      → server_message Y K sk spk n1 n2 cpk ≡ base spk n1 n2 ++ Y.sign sk (base spk n1 n2 ++ cpk)
  unfolding server_message
  server_message_lem sk spk n1 n2 cpk hs h1 h2 hc =
      let zeros : List ℕ = replicate (max_len Y) 0 in
      let (rest, wrote, left) =
        written spk n1 n2 cpk zeros hs h1 h2 hc (length-replicate (max_len Y) 0) in
      let b : List ℕ = base spk n1 n2 in
      let msg : List ℕ = b ++ cpk in
      let sig : List ℕ = Y.sign sk msg in
      let hb = length-base spk n1 n2 hs h1 h2 in
      let hm = length-append b cpk in
      let back =
        read_back (to_sign_len Y) msg rest (between msg rest) refl (omega (arith, hb, hm, hc)) in
      let sought : K.seek (base_len Y) (between msg rest) ≡ between b (cpk ++ rest) =
        seek-between K (base_len Y) (between msg rest) b (cpk ++ rest) (append_assoc b cpk rest)
          (sym hb) in
      let signed : K.write sig (between b (cpk ++ rest))
          ≡ between (b ++ sig) (drop (length sig) (cpk ++ rest)) =
        write-within K b (cpk ++ rest) sig
          (omega (arith, Y.length_sign sk msg, length-append cpk rest, left, enough_room.1, hc)) in
      let last =
        read_back (to_send_len Y) (b ++ sig) (drop (length sig) (cpk ++ rest))
          (between (b ++ sig) (drop (length sig) (cpk ++ rest))) refl
          (omega (arith, hb, Y.length_sign sk msg, length-append b sig)) in
      rw (wrote, back, sought, signed, last, server_message) refl

  regroup : (a b c d e : List ℕ) → (((a ++ b) ++ c) ++ d) ++ e ≡ a ++ (b ++ (c ++ (d ++ e)))
  regroup a b c d e =
      append_assoc ((a ++ b) ++ c) d e
      ∙ append_assoc (a ++ b) c (d ++ e)
      ∙ append_assoc a b (c ++ (d ++ e))

  -- What the client derives from the server's public key and nonces.
  abbrev pub keys_from : Y.EphemeralKeypair → (spk n1 n2 : List ℕ) → Handshake Y
  keys_from kp spk n1 n2 = record {
    send_key = Y.to_key (Y.diffie_hellman kp spk) n2;
    recv_key = Y.to_key (Y.diffie_hellman kp spk) n1;
    public_key = spk;
  }

  read_part :
      (n : ℕ) (before bs after : List ℕ)
      → length bs ≡ n
      → K.read n (between before (bs ++ after)) ≡ (bs, between (before ++ bs) after)
  read_part n before bs after e =
      ap (λ (m : ℕ). K.read m (between before (bs ++ after))) (sym e)
      ∙ read-between K before bs after

  client_keys_lem :
      (kp : Y.EphemeralKeypair) (spk n1 n2 cpk rest : List ℕ) (c : Cursor)
      → length spk ≡ Y.pk_len
      → length n1 ≡ Y.nonce_len
      → length n2 ≡ Y.nonce_len
      → c.contents ≡ (base spk n1 n2 ++ cpk) ++ rest
      → client_keys Y K kp (K.seek 0 c) ≡ keys_from kp spk n1 n2
  unfolding client_keys
  client_keys_lem kp spk n1 n2 cpk rest c hs h1 h2 same =
      let start =
        seek-between K 0 c [] (spk ++ (n1 ++ (n2 ++ (cpk ++ rest))))
          (same ∙ regroup spk n1 n2 cpk rest) refl in
      rw
        (
          start,
          read_part Y.pk_len [] spk (n1 ++ (n2 ++ (cpk ++ rest))) hs,
          read_part Y.nonce_len spk n1 (n2 ++ (cpk ++ rest)) h1,
          read_part Y.nonce_len (spk ++ n1) n2 (cpk ++ rest) h2,
          client_keys,
        )
        refl

  client_receives_lem :
      (pk : Y.SignPublicKey) (kp : Y.EphemeralKeypair) (spk n1 n2 sig : List ℕ)
      → length spk ≡ Y.pk_len
      → length n1 ≡ Y.nonce_len
      → length n2 ≡ Y.nonce_len
      → length sig ≡ Y.sig_len
      → client_receives Y K pk kp (base spk n1 n2 ++ sig) ≡ (
          if Y.verify pk (base spk n1 n2 ++ Y.public kp) sig
          then ok (keys_from kp spk n1 n2)
          else err TaskError.incorrect_signature)
  unfolding client_receives
  client_receives_lem pk kp spk n1 n2 sig hs h1 h2 hg =
      let b : List ℕ = base spk n1 n2 in
      let cpk : List ℕ = Y.public kp in
      let z : List ℕ = drop (to_send_len Y) (replicate (max_len Y) 0) in
      let c : Cursor = record { contents = (b ++ sig) ++ z; position = 0 } in
      let hb = length-base spk n1 n2 hs h1 h2 in
      let hz : length z ≡ max_len Y - to_send_len Y =
        length-drop (to_send_len Y) (replicate (max_len Y) 0)
        ∙ ap (λ (n : ℕ). n - to_send_len Y) (length-replicate (max_len Y) 0) in
      let r : List ℕ = drop (length cpk) (sig ++ z) in
      let sought = seek-between K (base_len Y) c b (sig ++ z) (append_assoc b sig z) (sym hb) in
      let again =
        seek-between K (base_len Y) (between (b ++ sig) z) b (sig ++ z) (append_assoc b sig z)
          (sym hb) in
      let wrote = write-within K b (sig ++ z) cpk (
        omega
          (arith, Y.length_public kp, length-append sig z, hz, hg, enough_room.0, enough_room.1)) in
      let back =
        read_back (to_sign_len Y) (b ++ cpk) r (between (b ++ cpk) r) refl
          (omega (arith, hb, length-append b cpk, Y.length_public kp)) in
      let keys = client_keys_lem kp spk n1 n2 cpk r (between (b ++ cpk) r) hs h1 h2 refl in
      rw
        (
          K.new_lem ((b ++ sig) ++ z),
          sought,
          read_part Y.sig_len b sig z hg,
          again,
          wrote,
          back,
          keys,
          client_receives,
        )
        refl

  read_exact_lem : (n : ℕ) (bs rest : List ℕ) → length bs ≡ n → read_exact n (bs ++ rest) ≡ ok bs
  unfolding read_exact
  read_exact_lem n bs rest e =
      let enough : leb n (length (bs ++ rest)) ≡ true = ground (arith, e, length-append bs rest) in
      let first : take n (bs ++ rest) ≡ bs =
        ap (λ (m : ℕ). take m (bs ++ rest)) (sym e) ∙ take-append_length bs rest in
      rw (enough, first) refl

  -- From a message of a public key, two nonces and a signature, each of its length and whatever
  -- follows them, a client whose own key was taken makes its keys of that public key and these
  -- nonces exactly where the signature is one of these and of its own public key, and else fails
  -- with `incorrect_signature`.
  pub client_handshake_lem :
      (pk : Y.SignPublicKey) (kp : Y.EphemeralKeypair) (spk n1 n2 sig rest : List ℕ)
      → length spk ≡ Y.pk_len
      → length n1 ≡ Y.nonce_len
      → length n2 ≡ Y.nonce_len
      → length sig ≡ Y.sig_len
      → client_handshake Y K true pk kp ((base spk n1 n2 ++ sig) ++ rest) ≡ (
          if Y.verify pk (base spk n1 n2 ++ Y.public kp) sig
          then ok (keys_from kp spk n1 n2)
          else err TaskError.incorrect_signature)
  unfolding client_handshake write_all
  client_handshake_lem pk kp spk n1 n2 sig rest hs h1 h2 hg =
      let all : length (base spk n1 n2 ++ sig) ≡ to_send_len Y =
        omega (arith, length-base spk n1 n2 hs h1 h2, length-append (base spk n1 n2) sig) in
      rw (read_exact_lem (to_send_len Y) (base spk n1 n2 ++ sig) rest all)
        (client_receives_lem pk kp spk n1 n2 sig hs h1 h2 hg)

  -- A server that is given the client's public key, and a client that is given what the server
  -- sent, both over streams that take what they write and with nonces of the right length, end
  -- their handshakes with keys: what the one sends with is what the other receives with, and each
  -- holds the other's public key.
  pub handshakes_agree :
      (sk : Y.SignKeypair) (client server : Y.EphemeralKeypair) (n1 n2 : List ℕ)
      → length n1 ≡ Y.nonce_len
      → length n2 ≡ Y.nonce_len
      → (s : Handshake Y) × (c : Handshake Y) × (sent : List ℕ) × (server_handshake Y K true sk
            server n1 n2
            (Y.public client)
          ≡ ok (s, sent))
        × (client_handshake Y K true (Y.sign_public sk) client sent ≡ ok c)
        × (c.send_key ≡ s.recv_key)
        × (c.recv_key ≡ s.send_key)
        × (c.public_key ≡ Y.public server)
        × (s.public_key ≡ Y.public client)
  unfolding server_handshake write_all
  handshakes_agree sk client server n1 n2 h1 h2 =
      let spk : List ℕ = Y.public server in
      let cpk : List ℕ = Y.public client in
      let b : List ℕ = base spk n1 n2 in
      let sig : List ℕ = Y.sign sk (b ++ cpk) in
      let s : Handshake Y = record {
        send_key = Y.to_key (Y.diffie_hellman server cpk) n1;
        recv_key = Y.to_key (Y.diffie_hellman server cpk) n2;
        public_key = cpk;
      } in
      let first : read_exact Y.pk_len cpk ≡ ok cpk =
        ap (read_exact Y.pk_len) (sym (append-nil cpk))
        ∙ read_exact_lem Y.pk_len cpk [] (Y.length_public client) in
      let sent =
        server_message_lem sk spk n1 n2 cpk (Y.length_public server) h1 h2
          (Y.length_public client) in
      let received =
        client_handshake_lem (Y.sign_public sk) client spk n1 n2 sig [] (Y.length_public server) h1
          h2 (Y.length_sign sk (b ++ cpk)) in
      (
        s,
        keys_from client spk n1 n2,
        b ++ sig,
        rw (first, sent) refl,
        ap (λ (input : List ℕ). client_handshake Y K true (Y.sign_public sk) client input)
              (sym (append-nil (b ++ sig)))
            ∙ received
            ∙ rw (Y.verify_sign sk (b ++ cpk)) refl,
        ap (λ (k : Y.SharedSecret). Y.to_key k n2) (Y.same_secret client server),
        ap (λ (k : Y.SharedSecret). Y.to_key k n1) (Y.same_secret client server),
        refl,
        refl,
      )
