-- ===== src/Dnssec/Construction.antt =====
-- What `public_key_to_dnssec_key` constructs.
use sam_ken_x_dnssec_keytool.Prelude.{
  ℕ, ◌*◌, ◌<◌, String, Option, length, ◌≡◌, ◌⊎◌, inl, inr, arith, Bool-cases, true, refl, sym, ◌∙◌,
  ap, subst,
}
use sam_ken_x_dnssec_keytool.Outcome.{Result, raise, value_error, ok, ◌>>=◌, Passes, >>=-eq-ok}
use sam_ken_x_dnssec_keytool.Codec.BigEndian.{IsBytes, byte_length}
use sam_ken_x_dnssec_keytool.Data.{Bytes, Key}
use sam_ken_x_dnssec_keytool.Data.Algorithm.{AlgorithmDnssec, ecdsap256sha256, ecdsap384sha384}
use sam_ken_x_dnssec_keytool.PublicKey.{PublicKey, rsa, ecdsa, EcCurve, p256, p384}
use sam_ken_x_dnssec_keytool.PublicKey.Rsa.Form.{IsRfc3110, encode_rsa_public_key-IsRfc3110}
use sam_ken_x_dnssec_keytool.PublicKey.Ecdsa.{algorithm_to_curve, encode_ecdsa_public_key}
use sam_ken_x_dnssec_keytool.Codec.Base64.{b64encode}
use sam_ken_x_dnssec_keytool.PublicKey.Rsa.{decode_rsa_public_key}
use sam_ken_x_dnssec_keytool.PublicKey.Rsa.RoundTrip.{decode-encode_rsa}
use sam_ken_x_dnssec_keytool.Dnssec.{
  public_key_to_dnssec_key, encode_public_key, calculate_key_tag, key_to_rdata, post_init,
  construct, curve_eqb,
}

-- A key that is constructed has passed its check, and is the key.
pub construct-checked :
    (key key' : Key) → construct key ≡ ok key' → Passes (post_init key) × (key' ≡ key)
unfolding construct
construct-checked key key' h = let (_, p, same) = >>=-eq-ok (post_init key) _ h in (p, cc)

-- The key tag is not a part of the wire form.
pub calculate_key_tag-own :
    (key : Key) (tag : ℕ) → calculate_key_tag (record key { key_tag = tag }) ≡ calculate_key_tag key
unfolding calculate_key_tag key_to_rdata
calculate_key_tag-own key tag = refl

-- the curve of an ECDSA algorithm
abbrev pub IsCurveOf : AlgorithmDnssec → EcCurve → Type 0
IsCurveOf algorithm curve =
    ((algorithm ≡ ecdsap256sha256) × (curve ≡ p256))
    ⊎ ((algorithm ≡ ecdsap384sha384) × (curve ≡ p384))

-- The bytes of a public key in the DNS, in base64: an RSA key in the form of RFC 3110, an ECDSA key, which
-- is on the curve of the algorithm, as its point.
abbrev pub IsFormOf : PublicKey → AlgorithmDnssec → Bytes → Type 0
IsFormOf (rsa bits exponent n) algorithm bytes =
    (raw : Bytes) × IsRfc3110 exponent n raw × (bytes ≡ b64encode raw)
IsFormOf (ecdsa bits q curve) algorithm bytes = IsCurveOf algorithm curve × (bytes ≡ b64encode q)

-- A key in the form of the DNS: it has the public key and what else it was made of, its own key tag, and
-- passed its check.
pub record IsDnssecKey (pubkey : PublicKey) (identifier : Option String)
    (algorithm : AlgorithmDnssec) (ttl flags : ℕ) (key : Key) : Type 0 where
  pub has_public_key : IsFormOf pubkey algorithm key.public_key
  pub tag : calculate_key_tag key ≡ ok key.key_tag
  pub checked : Passes (post_init key)
  pub has_identifier : key.key_identifier ≡ identifier
  pub has_algorithm : key.algorithm ≡ algorithm
  pub has_ttl : key.ttl ≡ ttl
  pub has_flags : key.flags ≡ flags
  pub has_protocol : key.protocol ≡ 3

-- the key before its tag is known
abbrev untagged : Option String → AlgorithmDnssec → (ttl flags : ℕ) → Bytes → Key
untagged identifier algorithm ttl flags pubkey = record {
  key_identifier = identifier;
  key_tag = 0;
  ttl = ttl;
  flags = flags;
  protocol = 3;
  algorithm = algorithm;
  public_key = pubkey;
}

made_of :
    (pubkey : PublicKey) (identifier : Option String) (algorithm : AlgorithmDnssec) (ttl flags : ℕ)
    {key : Key}
    → public_key_to_dnssec_key pubkey identifier algorithm ttl flags ≡ ok key
    → (bytes : Bytes) × (encode_public_key pubkey algorithm ≡ ok bytes)
      × (tag : ℕ) × (calculate_key_tag (untagged identifier algorithm ttl flags bytes) ≡ ok tag)
      × Passes
          (post_init (record (untagged identifier algorithm ttl flags bytes) { key_tag = tag }))
      × (key ≡ record (untagged identifier algorithm ttl flags bytes) { key_tag = tag })
unfolding public_key_to_dnssec_key
made_of pubkey identifier algorithm ttl flags {key} h =
    let (bytes, e0, h0) = >>=-eq-ok (encode_public_key pubkey algorithm) _ h in
    let (k, e1, h1) = >>=-eq-ok (construct (untagged identifier algorithm ttl flags bytes)) _ h0 in
    let (_, same) = construct-checked _ k e1 in
    let (tag, e2, h2) = >>=-eq-ok (calculate_key_tag k) _ h1 in
    let (p, last) = construct-checked (record k { key_tag = tag }) key h2 in
    (
      bytes,
      e0,
      tag,
      ap calculate_key_tag (sym same) ∙ e2,
      subst (λ (x : Key). Passes (post_init (record x { key_tag = tag }))) same p,
      last ∙ ap (λ (x : Key). record x { key_tag = tag }) same,
    )

algorithm_to_curve-IsCurveOf :
    (algorithm : AlgorithmDnssec) (curve : EcCurve)
    → algorithm_to_curve algorithm ≡ ok curve
    → IsCurveOf algorithm curve
unfolding algorithm_to_curve
algorithm_to_curve-IsCurveOf ecdsap256sha256 curve h = ground arith
algorithm_to_curve-IsCurveOf ecdsap384sha384 curve h = ground arith
algorithm_to_curve-IsCurveOf _ curve h = absurd (cc)

curve_eqb-eq : (expected curve : EcCurve) → curve_eqb expected curve ≡ true → expected ≡ curve
unfolding curve_eqb
curve_eqb-eq p256 p256 h = refl
curve_eqb-eq p384 p384 h = refl
curve_eqb-eq p256 p384 h = absurd (cc)
curve_eqb-eq p384 p256 h = absurd (cc)

encode_public_key-IsFormOf :
    (pubkey : PublicKey) (algorithm : AlgorithmDnssec) (bytes : Bytes)
    → encode_public_key pubkey algorithm ≡ ok bytes
    → IsFormOf pubkey algorithm bytes
unfolding encode_public_key encode_ecdsa_public_key
encode_public_key-IsFormOf (rsa bits exponent n) algorithm bytes h =
    encode_rsa_public_key-IsRfc3110 exponent n bytes h
encode_public_key-IsFormOf (ecdsa bits q curve) algorithm bytes h =
    let (expected, e, h1) = >>=-eq-ok (algorithm_to_curve algorithm) _ h in
    elim (Bool-cases (curve_eqb expected curve)) [
      | inl same ↦ (
        subst (IsCurveOf algorithm) (curve_eqb-eq expected curve same)
            (algorithm_to_curve-IsCurveOf algorithm expected e),
        let h2 : Result.ok (b64encode q) ≡ ok bytes = rw same at h1 in cc,
      )
      | inr other ↦
          let h2 : ◌≡◌ {A = Result Bytes} (raise value_error) (ok bytes) = rw other at h1 in
          absurd (cc)
    ]

-- The key that is made of a public key has that key, an RSA key in the form of RFC 3110 and an ECDSA key on
-- the curve of the algorithm as its point, each in base64; it has the identifier, the algorithm, the TTL
-- and the flags, carries its own key tag, and passed the check of its length and flags.
pub public_key_to_dnssec_key-IsDnssecKey :
    (pubkey : PublicKey) (identifier : Option String) (algorithm : AlgorithmDnssec) (ttl flags : ℕ)
    (key : Key)
    → public_key_to_dnssec_key pubkey identifier algorithm ttl flags ≡ ok key
    → IsDnssecKey pubkey identifier algorithm ttl flags key
public_key_to_dnssec_key-IsDnssecKey pubkey identifier algorithm ttl flags key h =
    let (bytes, encoded, tag, e, p, same) = made_of pubkey identifier algorithm ttl flags h in
    subst (IsDnssecKey pubkey identifier algorithm ttl flags) (sym same) (record {
      has_public_key = encode_public_key-IsFormOf pubkey algorithm bytes encoded;
      tag = calculate_key_tag-own (untagged identifier algorithm ttl flags bytes) tag ∙ e;
      checked = p;
      has_identifier = refl;
      has_algorithm = refl;
      has_ttl = refl;
      has_flags = refl;
      has_protocol = refl;
    })

-- The DNS form of an RSA key, whose exponent is not zero and takes at most 65535 bytes, is read back as
-- that key.
pub decode-public_key_to_dnssec_key :
    (bits exponent : ℕ) (n : Bytes) (identifier : Option String) (algorithm : AlgorithmDnssec)
    (ttl flags : ℕ) (key : Key)
    → 0 < exponent
    → byte_length exponent < 65536
    → IsBytes n
    → public_key_to_dnssec_key (rsa bits exponent n) identifier algorithm ttl flags ≡ ok key
    → decode_rsa_public_key key.public_key ≡ ok (rsa (length n * 8) exponent n)
unfolding encode_public_key
decode-public_key_to_dnssec_key bits exponent n identifier algorithm ttl flags key pos_e short
      bytes_n h =
    let (bytes, e, tag, _, _, same) =
      made_of (rsa bits exponent n) identifier algorithm ttl flags h in
    ap (λ (k : Key). decode_rsa_public_key k.public_key) same
    ∙ (sym (ap (λ r. r >>= decode_rsa_public_key) e)
        ∙ decode-encode_rsa exponent n pos_e short bytes_n)
