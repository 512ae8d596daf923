-- ===== src/Keymaster/Keys/Generated.antt =====
-- The keys that keygen of tools/keymaster.py generates are new, and their tags are too.
use sam_ken_x_dnssec_keytool.Prelude.{ℕ, ◌≡◌, ◌≢◌, String, true, none, some, List, [], ◌∷◌, All}
use sam_ken_x_dnssec_keytool.Prelude.Equal.{nat_eq}
use sam_ken_x_dnssec_keytool.Prelude.Dict.{Dict}
use sam_ken_x_dnssec_keytool.Outcome.{ok}
use sam_ken_x_dnssec_keytool.Data.{Key}
use sam_ken_x_dnssec_keytool.Data.Flags.{ksk_flags, revoked_ksk_flags}
use sam_ken_x_dnssec_keytool.Data.Algorithm.{AlgorithmDnssec, algorithm_of_name}
use sam_ken_x_dnssec_keytool.PublicKey.{PublicKey}
use sam_ken_x_dnssec_keytool.Dnssec.{public_key_to_dnssec_key}
use sam_ken_x_dnssec_keytool.Config.{KskKey}
use sam_ken_x_dnssec_keytool.Configuration.{KskmConfig}
use sam_ken_x_dnssec_keytool.Keymaster.Hardware.{Token, Found}
use sam_ken_x_dnssec_keytool.Keymaster.Keys.{find_key}

module _ (t : Token) (p11modules : List (List t.Session)) where
  open t use {State, Session}

  abbrev pub MakesKey : String → State → State → Found t → Type 0
  MakesKey label s s' key =
      (find_key t p11modules label true s ≡ (ok none, s))
      × (find_key t p11modules label true s' ≡ (ok (some key), s'))

  -- The key that keygen makes: no key had its label, it is found under it, it has the two tags, and no
  -- key of the configuration has one of them.
  pub record IsNewKey (config : KskmConfig) (key_alg label : String) (s s' : State)
      (tag revoked_tag : ℕ) : Type 0 where
    pub found : Found t
    pub made : MakesKey label s s' found
    pub dnssec_alg : AlgorithmDnssec
    pub named : algorithm_of_name key_alg ≡ ok dnssec_alg
    pub public_key : PublicKey
    pub is_public : found.public_key ≡ some public_key
    pub key : Key
    pub converted :
        public_key_to_dnssec_key public_key (some label) dnssec_alg config.ksk_policy.ttl ksk_flags
        ≡ ok key
    pub tagged : key.key_tag ≡ tag
    pub revoked_key : Key
    pub revoked :
        public_key_to_dnssec_key public_key
          (some label)
          dnssec_alg
          config.ksk_policy.ttl
          revoked_ksk_flags
        ≡ ok revoked_key
    pub revoked_tagged : revoked_key.key_tag ≡ revoked_tag
    pub no_collision :
        All
          (λ (entry : String × KskKey).
            All (λ x. entry.1.key_tag ≢ some x) (tag ∷ revoked_tag ∷ []))
          config.ksk_keys
