-- ===== src/Hsm.antt =====
-- src/kskm/misc/hsm.py: finding a key in the hardware security modules, and signing with it. The package
-- PyKCS11 and the hash functions are parameters.
pub mod Padding
pub mod Search
pub mod Settings
use sam_ken_x_dnssec_keytool.Prelude.{
  ℕ, zero, suc, ◌+◌, ◌-◌, ◌*◌, ◌/◌, String, Option, none, some, List, [], ◌∷◌, ◌++◌, length, drop,
  Bool, true, false, ltb, nat_eqb, if◌then◌else◌, ◌||◌,
}
use sam_ken_x_dnssec_keytool.Prelude.Equal.{◌==◌, nat_eq, list_eq}
use sam_ken_x_dnssec_keytool.Outcome.{
  Result, ok, raise, ◌>>=◌, ◌>>◌, refuse, value_error, runtime_error, not_implemented_error,
}
use sam_ken_x_dnssec_keytool.Codec.BigEndian.{from_be}
use sam_ken_x_dnssec_keytool.Data.{Bytes}
use sam_ken_x_dnssec_keytool.Data.Algorithm.{
  AlgorithmDnssec, rsasha1, rsasha256, rsasha512, ecdsap256sha256, ecdsap384sha384,
}
use sam_ken_x_dnssec_keytool.PublicKey.{PublicKey, rsa, ecdsa, EcCurve, p256, p384}

pub data KeyClass : Type 0 where
  public private secret : KeyClass

-- CKA_KEY_TYPE: the four types of KeyType, or another one
pub data KeyType : Type 0 where
  rsa_type ec_type aes_type des3_type other_type : KeyType

pub data Mechanism : Type 0 where
  ckm_rsa_x_509 ckm_ecdsa : Mechanism

-- PyKCS11 and hashlib: the calls of a session, each of which may raise, and the digests. The label
-- that is looked for may be `None`, as a signature's identifier may be.
pub record Pkcs11 : Type 1 where
  pub Session : Type 0
  pub Handle : Type 0
  pub find_objects : Session → Option String → KeyClass → Result (List Handle)
  pub key_type : Session → Handle → Result KeyType
  pub modulus : Session → Handle → Result Bytes
  pub public_exponent : Session → Handle → Result Bytes
  pub ec_point : Session → Handle → Result Bytes
  pub ec_params : Session → Handle → Result Bytes
  pub sign : Session → Handle → Bytes → Mechanism → Result Bytes
  pub sha1 : Bytes → Bytes
  pub sha256 : Bytes → Bytes
  pub sha384 : Bytes → Bytes
  pub sha512 : Bytes → Bytes

-- A handle that is `None` is the empty list.
pub record P11Key (p : Pkcs11) : Type 0 where
  pub label : Option String
  pub key_type : KeyType
  pub key_class : KeyClass
  pub public_key : Option PublicKey
  pub session : p.Session
  pub privkey_handle : List p.Handle
  pub pubkey_handle : List p.Handle

starts_with : Bytes → Bytes → Bool
starts_with [] bs = true
starts_with (x ∷ xs) [] = false
starts_with (x ∷ xs) (b ∷ bs) = if nat_eqb x b then starts_with xs bs else false

-- SoftHSM2 puts 0x04 and the length before the point; `bytes` raises where the length is no byte.
strip_point : Bytes → Result Bytes
unfolding starts_with
strip_point point = do
  refuse (ltb (length point) 2 || ltb 257 (length point)) value_error
  let len = length point - 2
  ok (if starts_with (4 ∷ len ∷ 4 ∷ []) point then drop 2 point else point)

-- the table of object identifiers
curve_of_params : Bytes → Option EcCurve
curve_of_params params =
    if params == (0x06 ∷ 0x08 ∷ 0x2a ∷ 0x86 ∷ 0x48 ∷ 0xce ∷ 0x3d ∷ 0x03 ∷ 0x01 ∷ 0x07 ∷ [])
    then some p256
    else if params == (0x06 ∷ 0x05 ∷ 0x2B ∷ 0x81 ∷ 0x04 ∷ 0x00 ∷ 0x22 ∷ [])
    then some p384
    else none

curve_size : EcCurve → ℕ
curve_size p256 = 256
curve_size p384 = 384

ec_key : Bytes → Option EcCurve → Result (Option PublicKey)
unfolding curve_size
ec_key point none = raise runtime_error
ec_key point (some crv) =
    let ec_len = (length point - 1) * 8 / 2 in
    if nat_eqb ec_len (curve_size crv)
    then ok (some (ecdsa ec_len point crv))
    else raise runtime_error

ec_point_key : Bytes → Result Bytes → Result (Option PublicKey)
unfolding strip_point curve_of_params ec_key
ec_point_key [] params = ok none
ec_point_key (b ∷ bs) params = do
  point ← strip_point (b ∷ bs)
  ec_params ← params
  ec_key point (curve_of_params ec_params)

-- `b"\xff" * n`
unfoldable pub fill : ℕ → Bytes
fill zero = []
fill (suc n) = 0xff ∷ fill n

-- the DER prefixes of the digests, RFC 3447 9.2
abbrev oid_sha1 : Bytes
oid_sha1 =
    0x30 ∷ 0x21 ∷ 0x30 ∷ 0x09 ∷ 0x06 ∷ 0x05 ∷ 0x2b ∷ 0x0e ∷ 0x03 ∷ 0x02 ∷ 0x1a ∷ 0x05 ∷ 0x00 ∷ 0x04
    ∷ 0x14 ∷ []

abbrev oid_sha256 : Bytes
oid_sha256 =
    0x30 ∷ 0x31 ∷ 0x30 ∷ 0x0d ∷ 0x06 ∷ 0x09 ∷ 0x60 ∷ 0x86 ∷ 0x48 ∷ 0x01 ∷ 0x65 ∷ 0x03 ∷ 0x04 ∷ 0x02
    ∷ 0x01 ∷ 0x05 ∷ 0x00 ∷ 0x04 ∷ 0x20 ∷ []

abbrev oid_sha512 : Bytes
oid_sha512 =
    0x30 ∷ 0x51 ∷ 0x30 ∷ 0x0d ∷ 0x06 ∷ 0x09 ∷ 0x60 ∷ 0x86 ∷ 0x48 ∷ 0x01 ∷ 0x65 ∷ 0x03 ∷ 0x04 ∷ 0x02
    ∷ 0x03 ∷ 0x05 ∷ 0x00 ∷ 0x04 ∷ 0x40 ∷ []

-- EMSA-PKCS1-v1_5: a pad that would be negative is empty
unfoldable pub pad_digest : ℕ → Bytes → Bytes
pad_digest bits oid_digest =
    (0x0 ∷ 0x1 ∷ []) ++ (fill (bits / 8 - length oid_digest - 3) ++ (0x0 ∷ oid_digest))

module _ (p : Pkcs11) where
  open p use {
    Session, Handle, find_objects, modulus, public_exponent, ec_point, ec_params, sha1, sha256,
    sha384, sha512,
  }

  -- _p11_object_to_public_key
  unfoldable pub p11_object_to_public_key : Session → Handle → Result (Option PublicKey)
  unfolding ec_point_key
  p11_object_to_public_key session object = do
    cka_type ← p.key_type session object
    elim cka_type [
      | rsa_type ↦ do
        rsa_n ← modulus session object
        exp ← public_exponent session object
        ok (some (rsa (length rsa_n * 8) (from_be 0 exp) rsa_n))
      | ec_type ↦ do point ← ec_point session object; ec_point_key point (ec_params session object)
      | _ ↦ raise not_implemented_error
    ]

  -- `KeyType(_cka_type)`
  known_type : KeyType → Result KeyType
  known_type other_type = raise value_error
  known_type t = ok t

  -- the object that was found, as a key; a secret key has no public key
  found_key : Session → Option String → KeyClass → Handle → List Handle → Result (P11Key p)
  unfolding known_type
  found_key session label secret first res = do
    cka_type ← p.key_type session first
    key_type ← known_type cka_type
    ok (record {
      label = label;
      key_type = key_type;
      key_class = secret;
      public_key = none;
      session = session;
      privkey_handle = first ∷ res;
      pubkey_handle = [];
    })
  found_key session label key_class first res = do
    pubkey ← p11_object_to_public_key session first
    cka_type ← p.key_type session first
    key_type ← known_type cka_type
    ok (record {
      label = label;
      key_type = key_type;
      key_class = key_class;
      public_key = pubkey;
      session = session;
      privkey_handle = elim key_class [ public ↦ [] | _ ↦ first ∷ res ];
      pubkey_handle = first ∷ res;
    })

  -- find_key_by_label: the sessions of a module, in the order of their slots
  unfoldable pub find_key_by_label :
      List Session → Option String → KeyClass → Result (Option (P11Key p))
  unfolding found_key
  find_key_by_label [] label key_class = ok none
  find_key_by_label (session ∷ rest) label key_class = do
    let later = find_key_by_label rest label key_class
    res ← find_objects session label key_class
    elim res [
      | [] ↦ later
      | first ∷ others ↦ found_key session label key_class first others >>= λ key. ok (some key)
    ]

  -- the loop of get_p11_key over the modules, each of which is the list of its sessions
  search_modules : Option String → KeyClass → List (List Session) → Result (Option (P11Key p))
  search_modules label key_class [] = ok none
  search_modules label key_class (sessions ∷ rest) = do
    let later = search_modules label key_class rest
    found ← find_key_by_label sessions label key_class
    elim found [ some key ↦ ok (some key) | none ↦ later ]

  -- get_p11_key
  unfoldable pub get_p11_key :
      Option String → List (List Session) → Bool → Result (Option (P11Key p))
  unfolding search_modules
  get_p11_key label p11modules is_public =
      search_modules label (if is_public then public else private) p11modules

  -- the data for the mechanism CKM_RSA_X_509
  rsa_data : Option PublicKey → Bytes → Result Bytes
  rsa_data (some (rsa bits exponent n)) oid_digest = ok (pad_digest bits oid_digest)
  rsa_data _ oid_digest = raise value_error

  -- the mechanism and the bytes that the session signs
  data_to_sign : AlgorithmDnssec → Option PublicKey → Bytes → Result (Mechanism × Bytes)
  unfolding rsa_data
  data_to_sign ecdsap256sha256 pubkey body = ok (ckm_ecdsa, sha256 body)
  data_to_sign ecdsap384sha384 pubkey body = ok (ckm_ecdsa, sha384 body)
  data_to_sign rsasha1 pubkey body =
      rsa_data pubkey (oid_sha1 ++ sha1 body) >>= λ padded. ok (ckm_rsa_x_509, padded)
  data_to_sign rsasha256 pubkey body =
      rsa_data pubkey (oid_sha256 ++ sha256 body) >>= λ padded. ok (ckm_rsa_x_509, padded)
  data_to_sign rsasha512 pubkey body =
      rsa_data pubkey (oid_sha512 ++ sha512 body) >>= λ padded. ok (ckm_rsa_x_509, padded)
  data_to_sign _ pubkey body = raise runtime_error

  sign_with : P11Key p → Mechanism × Bytes → Result Bytes
  sign_with key (mechanism, bytes) = elim key.privkey_handle [
    | [] ↦ raise runtime_error
    | handle ∷ _ ↦ p.sign key.session handle bytes mechanism
  ]

  -- sign_using_p11
  unfoldable pub sign_using_p11 : P11Key p → Bytes → AlgorithmDnssec → Result Bytes
  unfolding data_to_sign sign_with
  sign_using_p11 key bytes algorithm = do
    prepared ← data_to_sign algorithm key.public_key bytes
    sign_with key prepared
