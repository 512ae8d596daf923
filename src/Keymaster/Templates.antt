-- ===== src/Keymaster/Templates.antt =====
-- The templates of keymaster/keygen.py for a key pair.
use sam_ken_x_dnssec_keytool.Prelude.{
  ℕ, String, Bool, true, false, Option, none, some, List, [], ◌∷◌, ◌++◌,
}
use sam_ken_x_dnssec_keytool.Prelude.Equal.{nat_eq, option_eq, list_eq}
use sam_ken_x_dnssec_keytool.Codec.BigEndian.{to_be, byte_length}
use sam_ken_x_dnssec_keytool.Data.{Bytes}
use sam_ken_x_dnssec_keytool.Hsm.{KeyClass, public, private, KeyType}

-- The attributes of a template, with the values that the source gives them
pub data Attribute : Type 0 where
  cka_label : String → Attribute
  cka_class : KeyClass → Attribute
  cka_key_type : KeyType → Attribute
  cka_token cka_encrypt cka_verify cka_wrap cka_decrypt cka_sign : Bool → Attribute
  cka_extractable cka_unwrap cka_derive cka_sensitive cka_private : Bool → Attribute
  cka_modulus_bits : ℕ → Attribute
  cka_public_exponent cka_modulus : Bytes → Attribute

abbrev pub Template : Type 0
Template = List Attribute

abbrev pub optional : {A : Type 0} → Option A → (A → Attribute) → Template
optional none attribute = []
optional (some a) attribute = attribute a ∷ []

unfoldable pub public_key_template :
    String → KeyType → (bits rsa_exponent : Option ℕ) (rsa_modulus : Option Bytes) → Template
unfolding to_be byte_length
public_key_template label key_type bits rsa_exponent rsa_modulus =
    cka_label label
      ∷ cka_class public
      ∷ cka_key_type key_type
      ∷ cka_token true
      ∷ cka_encrypt true
      ∷ cka_verify true
      ∷ cka_wrap false
      ∷ optional bits cka_modulus_bits
    ++ (optional rsa_exponent (λ e. cka_public_exponent (to_be (byte_length e) e))
        ++ optional rsa_modulus cka_modulus)

unfoldable pub private_key_template : String → KeyType → Template
private_key_template label key_type =
    cka_label label
    ∷ cka_class private
    ∷ cka_key_type key_type
    ∷ cka_token true
    ∷ cka_decrypt true
    ∷ cka_sign true
    ∷ cka_extractable true
    ∷ cka_unwrap false
    ∷ cka_derive false
    ∷ cka_sensitive true
    ∷ cka_private true
    ∷ []
