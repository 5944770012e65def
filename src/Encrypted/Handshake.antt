-- ===== src/Encrypted/Handshake.antt =====
-- lafere/src/encrypted/handshake.rs: how both sides come to their keys. Keys, nonces and signatures
-- that are sent are their bytes; new key pairs and nonces are arguments.
pub mod Agree
use lafere.Base.{
  ℕ, ◌+◌, ◌*◌, ◌≡◌, Bool, true, false, List, [], ◌∷◌, ◌++◌, length, take, drop, replicate, leb, ltb,
  if◌then◌else◌, Result, ok, err, ◌>>=◌,
}
use lafere.Handler.{TaskError}
use lafere.Encrypted.Cursor.{Cursor, Cursors}

-- The crate `crypto`: its ciphers and signatures.
pub record Crypto : Type 1 where
  pub pk_len : ℕ
  pub nonce_len : ℕ
  pub sig_len : ℕ
  pub EphemeralKeypair : Type 0
  pub SharedSecret : Type 0
  pub Key : Type 0
  pub SignKeypair : Type 0
  pub SignPublicKey : Type 0
  pub public : EphemeralKeypair → List ℕ
  pub diffie_hellman : EphemeralKeypair → List ℕ → SharedSecret
  pub to_key : SharedSecret → List ℕ → Key
  pub sign_public : SignKeypair → SignPublicKey
  pub sign : SignKeypair → List ℕ → List ℕ
  pub verify : SignPublicKey → List ℕ → List ℕ → Bool
  pub length_public : (kp : EphemeralKeypair) → length (public kp) ≡ pk_len
  pub length_sign : (kp : SignKeypair) (msg : List ℕ) → length (sign kp msg) ≡ sig_len
  pub verify_sign :
      (kp : SignKeypair) (msg : List ℕ) → verify (sign_public kp) msg (sign kp msg) ≡ true
  pub same_secret :
      (a b : EphemeralKeypair) → diffie_hellman a (public b) ≡ diffie_hellman b (public a)

-- `read_exact`, of what the stream has.
unfoldable pub read_exact : ℕ → List ℕ → Result TaskError (List ℕ)
read_exact n input = if leb n (length input) then ok (take n input) else err TaskError.io

-- `write_all`, where the stream takes the bytes or fails.
unfoldable pub write_all : Bool → List ℕ → Result TaskError (List ℕ)
write_all taken bytes = if taken then ok bytes else err TaskError.io

module _ (Y : Crypto) where
  abbrev pub base_len : ℕ
  base_len = Y.pk_len + Y.nonce_len * 2

  abbrev pub to_sign_len : ℕ
  to_sign_len = base_len + Y.pk_len

  abbrev pub to_send_len : ℕ
  to_send_len = base_len + Y.sig_len

  abbrev pub max_len : ℕ
  max_len = if ltb to_send_len to_sign_len then to_sign_len else to_send_len

  pub record Handshake : Type 0 where
    pub send_key : Y.Key
    pub recv_key : Y.Key
    pub public_key : List ℕ

  module _ (K : Cursors) where
    -- What the server sends: its public key, two nonces and the signature of these and the client's
    -- public key.
    unfoldable pub server_message :
        Y.SignKeypair → (server_pk send_nonce recv_nonce client_pk : List ℕ) → List ℕ
    server_message sign_key server_pk send_nonce recv_nonce client_pk =
        let c = K.new (replicate max_len 0) in
        let c1 =
          K.write client_pk (K.write recv_nonce (K.write send_nonce (K.write server_pk c))) in
        let (to_sign, c2) = K.read to_sign_len (K.seek 0 c1) in
        let c3 = K.write (Y.sign sign_key to_sign) (K.seek base_len c2) in
        (K.read to_send_len (K.seek 0 c3)).0

    unfoldable pub server_handshake :
        (taken : Bool)
        → Y.SignKeypair
        → Y.EphemeralKeypair
        → (send_nonce recv_nonce input : List ℕ) → Result TaskError (Handshake × List ℕ)
    server_handshake taken sign_key server_kp send_nonce recv_nonce input = do
      client_pk ← read_exact Y.pk_len input
      sent ←
          write_all taken
            (server_message sign_key (Y.public server_kp) send_nonce recv_nonce client_pk)
      let shared = Y.diffie_hellman server_kp client_pk
      ok (
        record {
          send_key = Y.to_key shared send_nonce;
          recv_key = Y.to_key shared recv_nonce;
          public_key = client_pk;
        },
        sent,
      )

    -- The keys of the client, from the cursor over the message once it is verified.
    unfoldable pub client_keys : Y.EphemeralKeypair → Cursor → Handshake
    client_keys client_kp c =
        let (server_pk, c1) = K.read Y.pk_len c in
        let (recv_nonce, c2) = K.read Y.nonce_len c1 in
        let (send_nonce, c3) = K.read Y.nonce_len c2 in
        let shared = Y.diffie_hellman client_kp server_pk in
        record {
          send_key = Y.to_key shared send_nonce;
          recv_key = Y.to_key shared recv_nonce;
          public_key = server_pk;
        }

    -- What the client makes of the bytes that the server sent.
    unfoldable pub client_receives :
        Y.SignPublicKey → Y.EphemeralKeypair → List ℕ → Result TaskError Handshake
    unfolding client_keys
    client_receives sign_pk client_kp message =
        let c = K.new (message ++ drop to_send_len (replicate max_len 0)) in
        let (sig, c1) = K.read Y.sig_len (K.seek base_len c) in
        let c2 = K.write (Y.public client_kp) (K.seek base_len c1) in
        let (signed, c3) = K.read to_sign_len (K.seek 0 c2) in
        if Y.verify sign_pk signed sig
        then ok (client_keys client_kp (K.seek 0 c3))
        else err TaskError.incorrect_signature

    -- The client's key is sent first.
    unfoldable pub client_handshake :
        (taken : Bool)
        → Y.SignPublicKey
        → Y.EphemeralKeypair
        → (input : List ℕ) → Result TaskError Handshake
    client_handshake taken sign_pk client_kp input = do
      sent ← write_all taken (Y.public client_kp)
      message ← read_exact to_send_len input
      client_receives sign_pk client_kp message
