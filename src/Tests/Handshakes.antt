-- ===== src/Tests/Handshakes.antt =====
-- Runs of the handshake and of an enciphered packet, with ciphers whose keys are numbers.
use lafere.Base.{
  ℕ, ◌+◌, ◌≡◌, refl, arith, Bool, true, false, List, [], ◌∷◌, ◌++◌, length, take, drop, ◌==◌,
  ==-self, ok, err, if◌then◌else◌, suc, ◌-◌, ◌∙◌, Option, none, some, ap,
}
use lafere.Handler.{TaskError}
use lafere.Encrypted.Cursor.{Cursors}
use lafere.Encrypted.Handshake.{Crypto, client_handshake}
use lafere.Encrypted.EncryptedBytes.{Cipher}
use lafere.Encrypted.Handshake.Agree.{keys_from, client_handshake_lem}

abbrev pub cursors : Cursors
cursors = record {
  new = λ bs. record { contents = bs; position = 0 };
  seek = λ pos c. record c { position = pos };
  write = λ bs c. record {
    contents = take c.position c.contents ++ (bs ++ drop (c.position + length bs) c.contents);
    position = c.position + length bs;
  };
  read = λ n c. (take n (drop c.position c.contents), record c { position = c.position + n });
  new_lem = λ bs. refl;
  seek_lem = λ pos c fits. refl;
  write_lem = λ bs c fits. refl;
  read_lem = λ n c fits. refl;
}

abbrev pub secret : ℕ → List ℕ → ℕ
secret k [] = k
secret k (b ∷ bs) = k + b

abbrev pub checks : ℕ → List ℕ → List ℕ → Bool
checks k msg [] = false
checks k msg (b ∷ bs) = b == k + length msg

abbrev pub numbers : Crypto
numbers = record {
  pk_len = 1;
  nonce_len = 1;
  sig_len = 1;
  EphemeralKeypair = ℕ;
  SharedSecret = ℕ;
  Key = ℕ × List ℕ;
  SignKeypair = ℕ;
  SignPublicKey = ℕ;
  public = λ k. k ∷ [];
  diffie_hellman = secret;
  to_key = λ s n. (s, n);
  sign_public = λ k. k;
  sign = λ k msg. (k + length msg) ∷ [];
  verify = checks;
  length_public = λ k. refl;
  length_sign = λ k msg. refl;
  verify_sign = λ k msg. ==-self (k + length msg);
  same_secret = λ a b. omega arith;
}

-- The signature is not the server's.
client_handshake_lem_example : client_handshake numbers cursors true 9 3 (4 ∷ 20 ∷ 30 ∷ 7 ∷ []) ≡ (
    if checks 9 (4 ∷ 20 ∷ 30 ∷ 3 ∷ []) (7 ∷ [])
    then ok (keys_from numbers cursors 3 (4 ∷ []) (20 ∷ []) (30 ∷ []))
    else err TaskError.incorrect_signature)
client_handshake_lem_example =
    client_handshake_lem numbers cursors 9 3 (4 ∷ []) (20 ∷ []) (30 ∷ []) (7 ∷ []) [] refl refl refl
      refl

abbrev pub shift : ℕ → List ℕ → List ℕ
shift k [] = []
shift k (b ∷ bs) = (k + b) ∷ shift k bs

abbrev pub unshift : ℕ → List ℕ → List ℕ
unshift k [] = []
unshift k (b ∷ bs) = (b - k) ∷ unshift k bs

pub length-shift : (k : ℕ) (bs : List ℕ) → length (shift k bs) ≡ length bs
length-shift k [] = refl
length-shift k (b ∷ bs) = ap suc (length-shift k bs)

pub unshift-shift : (k : ℕ) (bs : List ℕ) → unshift k (shift k bs) ≡ bs
unshift-shift k [] = refl
unshift-shift k (b ∷ bs) =
    let back : (k + b) - k ≡ b = omega arith in
    ap (λ (x : ℕ). x ∷ unshift k (shift k bs)) back
    ∙ ap (λ (xs : List ℕ). b ∷ xs) (unshift-shift k bs)

abbrev pub unshifted : ℕ → List ℕ → List ℕ → Option (List ℕ × ℕ)
unshifted k bs [] = none
unshifted k bs (m ∷ mac) = if m == k then some (unshift k bs, suc k) else none

pub unshifted-shift : (k : ℕ) (bs : List ℕ) → unshifted k (shift k bs) (k ∷ []) ≡ some (bs, suc k)
unshifted-shift k bs =
    ap (λ t. if t then some (unshift k (shift k bs), suc k) else none) (==-self k)
    ∙ ap (λ (xs : List ℕ). some (xs, suc k)) (unshift-shift k bs)

abbrev pub shifts : Cipher
shifts = record {
  offset = 1;
  Key = ℕ;
  encrypt = λ k bs. (shift k bs, (k ∷ [], suc k));
  decrypt = unshifted;
  refused = λ k bs mac. k;
  length_encrypt = length-shift;
  length_mac = λ k bs. refl;
  decrypt_encrypt = unshifted-shift;
}
