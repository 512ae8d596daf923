-- ===== src/Keymaster/Keys.antt =====
-- Keys made and deleted in the HSM: keymaster/keygen.py, keymaster/common.py, keymaster/delete.py and
-- keygen of tools/keymaster.py. The calls that change the HSM change a state; what an exception leaves
-- behind stays.
pub mod Generated
use Prim.Native.Nat.{bit_or}
use sam_ken_x_dnssec_keytool.Prelude.{
  ℕ, ◌+◌, ◌/◌, String, Bool, true, false, ◌||◌, Option, none, some, List, [], ◌∷◌, ◌++◌, map,
  nat_eqb, if◌then◌else◌,
}
use sam_ken_x_dnssec_keytool.Prelude.Equal.{nat_eq, option_eq, list_eq, ◌==◌, contains}
use sam_ken_x_dnssec_keytool.Prelude.Dict.{Dict}
use sam_ken_x_dnssec_keytool.Outcome.{
  Exception, Result, ok, raise, runtime_error, index_error, not_implemented_error, value_error,
  argument_error, Checked, done, refuse, require, for_each,
}
use sam_ken_x_dnssec_keytool.Codec.BigEndian.{to_be, byte_length}
use sam_ken_x_dnssec_keytool.Texts.{Text}
use sam_ken_x_dnssec_keytool.Data.{Bytes, Key}
use sam_ken_x_dnssec_keytool.Data.Flags.{sep, zone, revoke, ksk_flags, revoked_ksk_flags}
use sam_ken_x_dnssec_keytool.Data.Algorithm.{
  AlgorithmDnssec, is_algorithm_rsa, is_algorithm_ecdsa, algorithm_of_name,
}
use sam_ken_x_dnssec_keytool.PublicKey.{PublicKey}
use sam_ken_x_dnssec_keytool.Dnssec.{public_key_to_dnssec_key}
use sam_ken_x_dnssec_keytool.Config.{KskKey}
use sam_ken_x_dnssec_keytool.Configuration.{KskmConfig}
use sam_ken_x_dnssec_keytool.Hsm.{
  Pkcs11, P11Key, KeyClass, public, private, KeyType, Mechanism, rsa_type, get_p11_key,
}
use sam_ken_x_dnssec_keytool.Command.{strip_start, strip_end, yes}
use sam_ken_x_dnssec_keytool.Keymaster.Templates.{
  Attribute, Template, public_key_template, private_key_template,
}
use sam_ken_x_dnssec_keytool.Keymaster.Hardware.{
  Run, continue, ◌>>=◌, ◌>>◌, lift, return, fail, Token, at, Found,
}

module _ (t : Token) (p11modules : List (List t.Session)) where
  open t use {State, Session, generate_key_pair, destroy_object}

  abbrev pub to_found : (s : State) → Result (Option (P11Key (at t s))) → Result (Option (Found t))
  to_found s (raise e) = raise e
  to_found s (ok none) = ok none
  to_found s (ok (some key)) = ok (
      some (record {
        label = key.label;
        public_key = key.public_key;
        privkey_handle = key.privkey_handle;
        pubkey_handle = key.pubkey_handle;
      }))

  -- get_p11_key, which changes nothing
  unfoldable pub find_key : String → Bool → Run State (Option (Found t))
  unfolding get_p11_key
  find_key label is_public s =
      (to_found s (get_p11_key (at t s) (some label) p11modules is_public), s)

  -- get_session: the first slot of the first module, whose slots all have sessions
  unfoldable pub get_session : Result Session
  get_session = elim p11modules [
    | [] ↦ raise index_error
    | [] ∷ _ ↦ raise runtime_error
    | (session ∷ _) ∷ _ ↦ ok session
  ]

  generate_if_new : Template → Template → String → Option (Found t) → Run State (Option (Found t))
  unfolding find_key get_session
  generate_if_new public_template private_template label (some key) = return none
  generate_if_new public_template private_template label none = do
    session ← lift get_session
    generate_key_pair session public_template private_template
    find_key label true

  -- `None` if there is a key of that label already
  unfoldable pub generate_key_from_templates :
      Template → Template → String → Run State (Option (Found t))
  unfolding find_key generate_if_new
  generate_key_from_templates public_template private_template label = do
    existing_key ← find_key label true
    generate_if_new public_template private_template label existing_key

  -- the exponent is 65537 where the command generates a key
  unfoldable pub generate_rsa_key : (bits exponent : ℕ) → String → Run State (Option (Found t))
  unfolding generate_key_from_templates public_key_template private_key_template
  generate_rsa_key bits exponent label =
      generate_key_from_templates
        (public_key_template label rsa_type (some bits) (some exponent) none)
        (private_key_template label rsa_type) label

  -- `if existing_key.public_key and existing_key.pubkey_handle:`
  destroy_public : Session → Found t → Run State (Unit {0})
  destroy_public session key = elim key.public_key [
    | none ↦ return tt
    | some public_key ↦ elim key.pubkey_handle [
      | [] ↦ return tt
      | handle ∷ _ ↦ destroy_object session handle
    ]
  ]

  destroy_private : Session → Option (Found t) → Run State Bool
  destroy_private session none = return false
  destroy_private session (some key) = elim key.privkey_handle [
    | [] ↦ return false
    | handle ∷ _ ↦ destroy_object session handle >> return true
  ]

  -- from the confirmation on; the handles are searched again after the first deletion
  delete_key : String → Found t → Run State Bool
  unfolding find_key get_session destroy_public destroy_private
  delete_key label key = do
    session ← lift get_session
    destroy_public session key
    existing_key ← find_key label false
    destroy_private session existing_key

  delete_confirmed : String → Found t → Bool → Run State Bool
  unfolding delete_key
  delete_confirmed label key true = delete_key label key
  delete_confirmed label key false = return true

  delete_existing : Result Text → String → Bool → Option (Found t) → Run State Bool
  unfolding delete_confirmed
  delete_existing answer label force none = return false
  delete_existing answer label force (some key) = do
    ack ← lift (if force then ok yes else answer)
    delete_confirmed label key (strip_end (strip_start ack) == yes)

  -- key_delete, with what the operator types; forced, nothing is asked
  unfoldable pub key_delete : Result Text → String → (force : Bool) → Run State Bool
  unfolding find_key delete_existing
  key_delete answer label force = do
    existing_key ← find_key label true
    delete_existing answer label force existing_key

  generate_sized : Option ℕ → String → Run State (Option (Found t))
  unfolding generate_rsa_key
  generate_sized none label = fail argument_error
  generate_sized (some bits) label = generate_rsa_key bits 65537 label

  -- generate_rsa_key for the algorithms of RSA, with the size that they need; generate_ec_key is not
  -- implemented in the source
  generate : AlgorithmDnssec → Option ℕ → String → Run State (Option (Found t))
  unfolding generate_sized is_algorithm_rsa is_algorithm_ecdsa
  generate dnssec_alg key_size label =
      if is_algorithm_rsa dnssec_alg
      then generate_sized key_size label
      else if is_algorithm_ecdsa dnssec_alg
      then fail not_implemented_error
      else fail value_error

  -- `if not p11key or not p11key.public_key:`
  public_key_of : Option (Found t) → Result PublicKey
  public_key_of none = raise runtime_error
  public_key_of (some key) = require key.public_key runtime_error

  -- `if ksk.key_tag in key_tags`, over the keys of the configuration
  check_collision : List ℕ → Dict String KskKey → Checked
  unfolding contains
  check_collision key_tags ksk_keys =
      for_each
        (λ (entry : String × KskKey). elim entry.1.key_tag [
          | none ↦ done
          | some key_tag ↦ refuse (contains key_tags key_tag) runtime_error
        ])
        ksk_keys

  -- keygen up to the check for collisions: the two key tags of the new key. The DS record that is
  -- logged after it is left out, and the label is the given or the generated one.
  unfoldable pub keygen : KskmConfig → String → Option ℕ → String → Run State (ℕ × ℕ)
  unfolding generate public_key_of check_collision public_key_to_dnssec_key algorithm_of_name
  keygen config key_alg key_size label = do
    dnssec_alg ← lift (algorithm_of_name key_alg)
    p11key ← generate dnssec_alg key_size label
    public_key ← lift (public_key_of p11key)
    key ← lift (
        public_key_to_dnssec_key public_key (some label) dnssec_alg config.ksk_policy.ttl ksk_flags)
    revoked_key ← lift (
        public_key_to_dnssec_key public_key (some label) dnssec_alg config.ksk_policy.ttl
          revoked_ksk_flags)
    lift (check_collision (key.key_tag ∷ revoked_key.key_tag ∷ []) config.ksk_keys)
    return (key.key_tag, revoked_key.key_tag)
