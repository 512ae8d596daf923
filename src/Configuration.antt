-- ===== src/Configuration.antt =====
-- KSKMConfig of common/config.py, with the sections of the file as config_misc.py parses them: the
-- names of files, the schemas, and the policy for requests.
pub mod Actions
use sam_ken_x_dnssec_keytool.Prelude.{
  ℕ, zero, suc, String, Option, none, some, List, [], ◌∷◌, nat_eqb, if◌then◌else◌,
}
use sam_ken_x_dnssec_keytool.Prelude.Equal.{nat_eq, string_eq}
use sam_ken_x_dnssec_keytool.Prelude.Dict.{Dict, get, set}
use sam_ken_x_dnssec_keytool.Outcome.{Result, ok, raise, ◌>>=◌, require, key_error, type_error}
use sam_ken_x_dnssec_keytool.Config.{
  RequestPolicy, ResponsePolicy, KskPolicy, KskKey, Schema, SchemaAction,
}

-- A name of a key, or a list of names
pub data KeyList : Type 0 where
  name : String → KeyList
  names : List String → KeyList

-- _parse_keylist
abbrev pub parse_keylist : KeyList → List String
parse_keylist (names list) = list
parse_keylist (name key) = key ∷ []

-- An entry of a schema, which may lack any of its lists
pub record ActionEntry : Type 0 where
  pub publish : Option KeyList
  pub sign : Option KeyList
  pub revoke : Option KeyList

-- A filename that is no text is `none`. `request_section` is what RequestPolicy.from_dict makes of
-- the section `request_policy`, and so with the others.
pub record KskmConfig : Type 0 where
  pub filenames : Option (Dict String (Option String))
  pub schemas : Option (Dict String (Dict ℕ ActionEntry))
  pub request_section : RequestPolicy
  pub response_policy : ResponsePolicy
  pub ksk_policy : KskPolicy
  pub ksk_keys : Dict String KskKey

unfoldable pub get_filename : KskmConfig → String → Option String
unfolding get
get_filename config which = elim config.filenames [
  | none ↦ none
  | some files ↦ elim (get files which) [ none ↦ none | some this ↦ this ]
]

-- The TTL 0 stands for the one that the bundles are signed with.
unfoldable pub request_policy : KskmConfig → RequestPolicy
request_policy config =
    if nat_eqb config.request_section.dns_ttl 0
    then record config.request_section { dns_ttl = config.ksk_policy.ttl }
    else config.request_section

abbrev pub revoke_list : Option KeyList → List String
revoke_list none = []
revoke_list (some list) = parse_keylist list

-- the body of the loop
unfoldable pub parse_action : Dict ℕ ActionEntry → ℕ → Result SchemaAction
unfolding get
parse_action entries num = do
  entry ← require (get entries num) key_error
  publish ← require entry.publish key_error
  sign ← require entry.sign key_error
  ok (record {
    publish = parse_keylist publish;
    sign = parse_keylist sign;
    revoke = revoke_list entry.revoke;
  })

-- `for num in range(num, num + count)`
unfoldable pub parse_actions :
    Dict ℕ ActionEntry → (num count : ℕ) → Dict ℕ SchemaAction → Result (Dict ℕ SchemaAction)
unfolding parse_action set
parse_actions entries num zero actions = ok actions
parse_actions entries num (suc count) actions = do
  this ← parse_action entries num
  parse_actions entries (suc num) count (set actions num this)

-- `None + 1` is a TypeError.
unfoldable pub get_schema : KskmConfig → String → Result Schema
unfolding parse_actions request_policy get
get_schema config schema_name = do
  schemas ← require config.schemas key_error
  entries ← require (get schemas schema_name) key_error
  num_bundles ← require (request_policy config).num_bundles type_error
  actions ← parse_actions entries 1 num_bundles []
  ok (record { name = schema_name; actions = actions })
