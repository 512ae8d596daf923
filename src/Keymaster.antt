-- ===== src/Keymaster.antt =====
-- The key master: the labels of keymaster/keygen.py, and the generation and the deletion of keys in the
-- HSM (keymaster/common.py, keymaster/delete.py, tools/keymaster.py).
pub mod Label
pub mod Templates
pub mod Hardware
pub mod Keys
use Prim.Native.Nat.{bit_or}
use sam_ken_x_dnssec_keytool.Prelude.{
  ℕ, zero, suc, ◌+◌, ◌-◌, ◌*◌, ◌/◌, ◌%◌, ◌^◌, List, [], ◌∷◌, ◌++◌, take, map, ltb, nat_eqb,
  if◌then◌else◌,
}
use sam_ken_x_dnssec_keytool.Outcome.{Result, ok, raise, ◌>>=◌}
use sam_ken_x_dnssec_keytool.Codec.BigEndian.{to_bytes}
use sam_ken_x_dnssec_keytool.Texts.{Text}
use sam_ken_x_dnssec_keytool.Data.{Bytes}
use sam_ken_x_dnssec_keytool.Data.Flags.{sep, zone}

-- "ABCDEFGHIJKLMNOPQRSTUVWXYZ234567", the alphabet of base 32
abbrev pub b32_digit : ℕ → ℕ
b32_digit v = if ltb v 26 then b'A' + v else b'2' + (v - 26)

-- the eight characters of 40 bits
abbrev pub b32_quantum : ℕ → Text
b32_quantum q = map (λ k. b32_digit (q / 32 ^ k % 32)) (7 ∷ 6 ∷ 5 ∷ 4 ∷ 3 ∷ 2 ∷ 1 ∷ 0 ∷ [])

abbrev pub bits_40 : (a b c d e : ℕ) → ℕ
bits_40 a b c d e = (((a * 256 + b) * 256 + c) * 256 + d) * 256 + e

-- `base64.b32encode`: five bytes at a time, the last ones filled up with zeros and `=`
unfoldable pub b32encode : Bytes → Text
b32encode [] = []
b32encode (a ∷ []) =
    take 2 (b32_quantum (bits_40 a 0 0 0 0)) ++ b'=' ∷ b'=' ∷ b'=' ∷ b'=' ∷ b'=' ∷ b'=' ∷ []
b32encode (a ∷ b ∷ []) = take 4 (b32_quantum (bits_40 a b 0 0 0)) ++ b'=' ∷ b'=' ∷ b'=' ∷ b'=' ∷ []
b32encode (a ∷ b ∷ c ∷ []) = take 5 (b32_quantum (bits_40 a b c 0 0)) ++ b'=' ∷ b'=' ∷ b'=' ∷ []
b32encode (a ∷ b ∷ c ∷ d ∷ []) = take 7 (b32_quantum (bits_40 a b c d 0)) ++ b'=' ∷ []
b32encode (a ∷ b ∷ c ∷ d ∷ e ∷ rest) = b32_quantum (bits_40 a b c d e) ++ b32encode rest

-- `bytes.lower`
abbrev pub lower : ℕ → ℕ
lower c = if ltb c b'A' then c else if ltb b'Z' c then c else c + 32

-- A number is never equal to the member FlagsDNSKEY.ZONE, so that this test fails for all flags.
abbrev pub label_prefix : ℕ → ℕ
label_prefix flags =
    if nat_eqb flags (bit_or zone sep) then b'K' else if nat_eqb flags 0 then b'C' else b'U'

-- `now` is the time in seconds; from 2³² on it is an OverflowError.
unfoldable pub generate_key_label : (flags now : ℕ) → Result Text
unfolding b32encode to_bytes
generate_key_label flags now = do
  bytes ← to_bytes 4 now
  ok (label_prefix flags ∷ take 6 (map lower (b32encode bytes)))
