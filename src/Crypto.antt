-- ===== src/Crypto.antt =====
-- peer/dissycrypto (rsa.go, signature.go, wallet.go, convertions.go) and peer/account/AccountKeys.go:
-- RSA signatures over a hash, and how a key is written as an account name. The hash is a parameter;
-- `big.Int` is the natural numbers, since no value here is negative.
use pokoinpos.Prelude.{
  ℕ, zero, suc, ◌+◌, ◌*◌, ◌/◌, ◌%◌, ◌^◌, Bool, [], ◌∷◌, ◌++◌, ◌==◌, ltb, if◌then◌else◌, length,
  take, drop, Option,
}
use pokoinpos.Prelude.Run.{Run, done, panic}
use pokoinpos.Text.{Text}
use pokoinpos.Base64

from_bytes : ℕ → Text → ℕ
from_bytes acc [] = acc
from_bytes acc (b ∷ s) = from_bytes (acc * 256 + b) s

-- big.Int.SetBytes, on the bytes of a number from its high end.
unfoldable pub bytes_to_big_int : Text → ℕ
unfolding from_bytes
bytes_to_big_int s = from_bytes 0 s

bytes_from : ℕ → ℕ → Text → Text
bytes_from zero n acc = acc
bytes_from (suc f) n acc =
    let more = bytes_from f (n / 256) ((n % 256) ∷ acc) in if n == 0 then acc else more

-- big.Int.Bytes: no leading zero. A number is below 256 ^ n, so n rounds are enough.
unfoldable pub big_int_bytes : ℕ → Text
unfolding bytes_from
big_int_bytes n = bytes_from n n []

-- big.Int.Exp; a modulus of zero means none, as for `%`.
unfoldable pub exp_mod : ℕ → ℕ → ℕ → ℕ
exp_mod m e n = (m ^ e) % n

unfoldable pub encrypt : ℕ → ℕ → ℕ → ℕ
unfolding exp_mod
encrypt m e n = exp_mod m e n

unfoldable pub decrypt : ℕ → ℕ → ℕ → ℕ
unfolding exp_mod
decrypt c d n = exp_mod c d n

abbrev pub wallet_key_size : ℕ
wallet_key_size = 256

pub record Account : Type 0 where
  pub n : ℕ
  pub e : ℕ
  pub d : ℕ

-- The method SafeEncode: the account's name.
unfoldable pub safe_encode : Account → Text
safe_encode a = Base64.encode (big_int_bytes a.n ++ big_int_bytes a.e)

unfoldable pub public_key_from_account_name : Text → Option Text
public_key_from_account_name name = Base64.decode name

module _ (sha256 : Text → Text) where
  unfoldable pub rsa_sign : Text → ℕ → ℕ → ℕ
  unfolding decrypt bytes_to_big_int
  rsa_sign message d n = decrypt (bytes_to_big_int (sha256 message)) d n

  unfoldable pub rsa_verify : Text → ℕ → ℕ → ℕ → Bool
  unfolding encrypt bytes_to_big_int
  rsa_verify message signature e n = encrypt signature e n == bytes_to_big_int (sha256 message)

  -- VerifySignature slices the key at 256 bytes, which panics on a shorter one.
  unfoldable pub verify_signature : Text → Text → Text → Run Bool
  unfolding rsa_verify bytes_to_big_int
  verify_signature msg signature pk =
      if ltb (length pk) wallet_key_size
      then panic
      else done (
          rsa_verify msg (bytes_to_big_int signature) (bytes_to_big_int (drop wallet_key_size pk))
            (bytes_to_big_int (take wallet_key_size pk)))
