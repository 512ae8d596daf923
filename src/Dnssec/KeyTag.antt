-- ===== src/Dnssec/KeyTag.antt =====
-- The key tag against the reference of RFC 4034, appendix B.
use sam_ken_x_dnssec_keytool.Prelude.{
  ℕ, ◌+◌, ◌*◌, ◌/◌, ◌%◌, ◌<◌, ◌≡◌, ◌≢◌, refl, false, [], ◌∷◌, ◌++◌, arith, ◌∙◌, ap,
}
use sam_ken_x_dnssec_keytool.Outcome.{Result, ok, ◌>>=◌, >>=-eq-ok}
use sam_ken_x_dnssec_keytool.Codec.BigEndian.{pack}
use sam_ken_x_dnssec_keytool.Codec.Base64.{b64decode}
use sam_ken_x_dnssec_keytool.Data.{Bytes, Key}
use sam_ken_x_dnssec_keytool.Data.Flags.{ksk_flags, revoked_ksk_flags}
use sam_ken_x_dnssec_keytool.Data.Algorithm.{algorithm_value}
use sam_ken_x_dnssec_keytool.Dnssec.{key_to_rdata, calculate_key_tag, tag_sum, fold_sum}

-- The RDATA as big-endian 16-bit words, the last one filled up with zero bits, added up.
abbrev pub word_sum : Bytes → ℕ
word_sum [] = 0
word_sum (hi ∷ []) = hi * 256
word_sum (hi ∷ lo ∷ rest) = hi * 256 + lo + word_sum rest

-- `ac += ac >> 16 & 0xFFFF; return ac & 0xFFFF;`
abbrev pub reference_tag : Bytes → ℕ
reference_tag rdata = let ac = word_sum rdata in (ac + ac / 65536 % 65536) % 65536

tag_sum-word_sum : (sum : ℕ) (rdata : Bytes) → tag_sum false sum rdata ≡ sum + word_sum rdata
unfolding tag_sum
tag_sum-word_sum sum [] = omega arith
tag_sum-word_sum sum (hi ∷ []) = refl
tag_sum-word_sum sum (hi ∷ lo ∷ rest) = omega (arith, tag_sum-word_sum (sum + hi * 256 + lo) rest)

fold_sum-reference : (rdata : Bytes) → fold_sum (tag_sum false 0 rdata) ≡ reference_tag rdata
unfolding fold_sum
fold_sum-reference rdata = omega (arith, tag_sum-word_sum 0 rdata)

-- The key tag is the one of the reference code of RFC 4034, and it fits into 16 bits.
pub calculate_key_tag-reference :
    (key : Key) {rdata : Bytes}
    → key_to_rdata key ≡ ok rdata
    → (calculate_key_tag key ≡ ok (reference_tag rdata)) × (reference_tag rdata < 65536)
unfolding calculate_key_tag
calculate_key_tag-reference key {rdata} h = (
  ap (λ r. r >>= λ bytes. ok (fold_sum (tag_sum false 0 bytes))) h
      ∙ ap {B = Result ℕ} ok (fold_sum-reference rdata),
  omega arith,
)

rdata_of :
    (key : Key) {tag : ℕ}
    → calculate_key_tag key ≡ ok tag
    → (rdata : Bytes) × (key_to_rdata key ≡ ok rdata) × (tag ≡ reference_tag rdata)
unfolding calculate_key_tag
rdata_of key e =
    let (rdata, er, et) = >>=-eq-ok (key_to_rdata key) _ e in
    (rdata, er, cc (fold_sum-reference rdata))

-- the record with the REVOKE flag of a key signing key
abbrev pub revoked : Key → Key
revoked key = record key { flags = revoked_ksk_flags }

key_to_rdata-eq :
    (key : Key) {flags protocol algorithm pubkey : Bytes}
    → pack 2 key.flags ≡ ok flags
    → pack 1 key.protocol ≡ ok protocol
    → pack 1 (algorithm_value key.algorithm) ≡ ok algorithm
    → b64decode key.public_key ≡ ok pubkey
    → key_to_rdata key ≡ ok (flags ++ (protocol ++ (algorithm ++ pubkey)))
unfolding key_to_rdata
key_to_rdata-eq key f p a k = rw (f, p, a, k)

key_to_rdata-revoked :
    (key : Key) {rdata : Bytes}
    → key.flags ≡ ksk_flags
    → key_to_rdata key ≡ ok rdata
    → (rest : Bytes) × (rdata ≡ 1 ∷ 1 ∷ rest) × (key_to_rdata (revoked key) ≡ ok (1 ∷ 129 ∷ rest))
unfolding key_to_rdata pack
key_to_rdata-revoked key h e =
    let (flags, e0, e1) = >>=-eq-ok (pack 2 key.flags) _ e in
    let (protocol, ep, e2) = >>=-eq-ok (pack 1 key.protocol) _ e1 in
    let (algorithm, ea, e3) = >>=-eq-ok (pack 1 (algorithm_value key.algorithm)) _ e2 in
    let (pubkey, ek, e4) = >>=-eq-ok (b64decode key.public_key) _ e3 in
    let flag_bytes : flags ≡ 1 ∷ 1 ∷ [] = cc (rw h at e0) in
    (protocol ++ (algorithm ++ pubkey), cc, key_to_rdata-eq (revoked key) refl ep ea ek)

reference_tag-revoked :
    (rest : Bytes) → reference_tag (1 ∷ 129 ∷ rest) ≢ reference_tag (1 ∷ 1 ∷ rest)
reference_tag-revoked rest h = omega arith

-- A key signing key that has a key tag has another one once its REVOKE bit is set, so a revoked key
-- is never taken for the key that it was by its tag.
pub revoke-changes_key_tag :
    (key : Key) {tag : ℕ}
    → key.flags ≡ ksk_flags
    → calculate_key_tag key ≡ ok tag
    → (tag' : ℕ) × (calculate_key_tag (revoked key) ≡ ok tag') × (tag' ≢ tag)
revoke-changes_key_tag key {tag} h e =
    let (rdata, er, et) = rdata_of key e in
    let (rest, front, after) = key_to_rdata-revoked key h er in
    let old = (calculate_key_tag-reference key er).0 in
    (
      reference_tag (1 ∷ 129 ∷ rest),
      (calculate_key_tag-reference (revoked key) after).0,
      λ same. reference_tag-revoked rest (cc),
    )
