-- ===== src/Tests/Keymaster.antt =====
-- The key master on a toy HSM: the generation of a key, and its label.
use sam_ken_x_dnssec_keytool.Prelude.{
  arith, ◌≡◌, refl, ℕ, Bool, true, false, [], ◌∷◌, if◌then◌else◌,
}
use sam_ken_x_dnssec_keytool.Outcome.{ok, raise, runtime_error}
use sam_ken_x_dnssec_keytool.Codec.BigEndian.{from_be}
use sam_ken_x_dnssec_keytool.Texts.{Text}
use sam_ken_x_dnssec_keytool.Hsm.{
  rsa_type, p11_object_to_public_key, find_key_by_label, get_p11_key,
}
use sam_ken_x_dnssec_keytool.Keymaster.{generate_key_label}
use sam_ken_x_dnssec_keytool.Keymaster.Label.{StandsFor, generate_key_label-StandsFor}
use sam_ken_x_dnssec_keytool.Keymaster.Hardware.{Token}
use sam_ken_x_dnssec_keytool.Keymaster.Keys.{find_key, get_session, key_delete}
use sam_ken_x_dnssec_keytool.Tests.Signing.{modules}
use sam_ken_x_dnssec_keytool.Tests.Ceremony.{answer}

-- The state says whether the HSM has the one key that it can hold.
abbrev token : Token
token = record {
  State = Bool;
  Session = ℕ;
  Handle = ℕ;
  find_objects = λ s session label key_class. ok (if s then 1 ∷ [] else []);
  key_type = λ s session handle. ok rsa_type;
  modulus = λ s session handle. ok (1 ∷ 5 ∷ []);
  public_exponent = λ s session handle. ok (3 ∷ []);
  ec_point = λ s session handle. ok [];
  ec_params = λ s session handle. ok [];
  sign = λ s session handle bytes mechanism. ok [];
  digest = λ bytes. bytes;
  generate_key_pair = λ session public_template private_template s. (ok tt, true);
  destroy_object = λ session handle s. (ok tt, false);
}

-- Without a key there is nothing to delete, and nothing is asked.
nothing_is_deleted :
    key_delete token modules (raise runtime_error) "K1" false false ≡ (ok false, false)
unfolding key_delete find_key get_p11_key find_key_by_label
nothing_is_deleted = refl

-- A key that is deleted is gone before its private half is looked for in this HSM.
key_is_deleted : key_delete token modules answer "K1" false true ≡ (ok false, false)
unfolding key_delete find_key get_session get_p11_key find_key_by_label p11_object_to_public_key
    from_be
key_is_deleted = refl

generate_key_label-StandsFor_example :
    (label : Text) × (generate_key_label 257 1_600_000_000 ≡ ok label)
    × StandsFor label 257 1_600_000_000
generate_key_label-StandsFor_example = generate_key_label-StandsFor 257 1_600_000_000 (omega arith)
