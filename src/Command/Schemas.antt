-- ===== src/Command/Schemas.antt =====
-- The schema that the command of tools/ksrsigner.py signs a request with.
use sam_ken_x_dnssec_keytool.Prelude.{ℕ, suc, ◌≡◌, ◌<◌, String, some, length, arith, inl, inr}
use mathlib.Core.Option.{some-injective}
use sam_ken_x_dnssec_keytool.Prelude.Dict.{get}
use sam_ken_x_dnssec_keytool.Prelude.Equal.{nat_eq}
use sam_ken_x_dnssec_keytool.Outcome.{ok}
use sam_ken_x_dnssec_keytool.Data.{Datetime, Request}
use sam_ken_x_dnssec_keytool.Config.{Schema, SchemaAction}
use sam_ken_x_dnssec_keytool.Configuration.{KskmConfig, get_schema, request_policy}
use sam_ken_x_dnssec_keytool.Configuration.Actions.{get_schema-HasActions}
use sam_ken_x_dnssec_keytool.Crypto.{Cryptography}
use sam_ken_x_dnssec_keytool.Ksr.{IsValidRequest}

-- A schema of the configuration has an action for every bundle of a request that is acceptable under
-- the configuration's policy, so that signing the request never lacks one.
pub get_schema-covers :
    (c : Cryptography) (dt_now : Datetime) (config : KskmConfig) (name : String) (schema : Schema)
    (request : Request)
    → get_schema config name ≡ ok schema
    → IsValidRequest c dt_now request (request_policy config)
    → (n : ℕ) → n < length request.bundles
    → (action : SchemaAction) × (get schema.actions (suc n) ≡ some action)
get_schema-covers c dt_now config name schema request h valid n below =
    let (count, counted, has) = get_schema-HasActions config name schema h in
    elim valid.bundles.count [
      | inl unlimited ↦ absurd (cc)
      | inr exact ↦
          let same : length request.bundles ≡ count = some-injective _ _ (cc) in
          has n (omega (arith, same, below))
    ]
