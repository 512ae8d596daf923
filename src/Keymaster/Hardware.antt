-- ===== src/Keymaster/Hardware.antt =====
-- The HSM of the key master as a state: runs that read it, change it and may raise, and the calls of
-- PyKCS11, a parameter. The interface that misc/hsm.py has is the view of one state.
use sam_ken_x_dnssec_keytool.Prelude.{String, Option, List}
use sam_ken_x_dnssec_keytool.Prelude.Equal.{nat_eq, option_eq, list_eq}
use sam_ken_x_dnssec_keytool.Outcome.{Exception, Result, ok, raise}
use sam_ken_x_dnssec_keytool.Data.{Bytes}
use sam_ken_x_dnssec_keytool.PublicKey.{PublicKey}
use sam_ken_x_dnssec_keytool.Hsm.{Pkcs11, KeyClass, KeyType, Mechanism}
use sam_ken_x_dnssec_keytool.Keymaster.Templates.{Template}

-- A run that reads and changes a state, and may raise
abbrev pub Run : Type 0 → Type 0 → Type 0
Run S A = S → Result A × S

abbrev pub continue : {S A B : Type 0} → Result A × S → (A → Run S B) → Result B × S
continue (raise e, s) next = (raise e, s)
continue (ok a, s) next = next a s

infixl 5 ◌>>=◌ ◌>>◌
abbrev pub ◌>>=◌ : {S A B : Type 0} → Run S A → (A → Run S B) → Run S B
(m >>= next) s = continue (m s) next

abbrev pub ◌>>◌ : {S B : Type 0} → Run S (Unit {0}) → Run S B → Run S B
m >> next = m >>= λ _. next

abbrev pub lift : {S A : Type 0} → Result A → Run S A
lift r s = (r, s)

abbrev pub return : {S A : Type 0} → A → Run S A
return a s = (ok a, s)

abbrev pub fail : {S A : Type 0} → Exception → Run S A
fail e s = (raise e, s)

-- The HSM: what its calls read in a state, and how they change it
pub record Token : Type 1 where
  pub State : Type 0
  pub Session : Type 0
  pub Handle : Type 0
  pub find_objects : State → Session → Option String → KeyClass → Result (List Handle)
  pub key_type : State → Session → Handle → Result KeyType
  pub modulus : State → Session → Handle → Result Bytes
  pub public_exponent : State → Session → Handle → Result Bytes
  pub ec_point : State → Session → Handle → Result Bytes
  pub ec_params : State → Session → Handle → Result Bytes
  pub sign : State → Session → Handle → Bytes → Mechanism → Result Bytes
  pub digest : Bytes → Bytes
  pub generate_key_pair : Session → Template → Template → Run State (Unit {0})
  pub destroy_object : Session → Handle → Run State (Unit {0})

-- The interface of misc/hsm.py in one state; nothing is hashed here
abbrev pub at : (t : Token) → t.State → Pkcs11
at t s = record {
  Session = t.Session;
  Handle = t.Handle;
  find_objects = t.find_objects s;
  key_type = t.key_type s;
  modulus = t.modulus s;
  public_exponent = t.public_exponent s;
  ec_point = t.ec_point s;
  ec_params = t.ec_params s;
  sign = t.sign s;
  sha1 = t.digest;
  sha256 = t.digest;
  sha384 = t.digest;
  sha512 = t.digest;
}

-- What is used of a key that was found
pub record Found (t : Token) : Type 0 where
  pub label : Option String
  pub public_key : Option PublicKey
  pub privkey_handle : List t.Handle
  pub pubkey_handle : List t.Handle
