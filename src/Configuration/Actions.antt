-- ===== src/Configuration/Actions.antt =====
-- The actions of a schema that `get_schema` of common/config.py parses.
use sam_ken_x_dnssec_keytool.Prelude.{
  ℕ, zero, suc, ◌+◌, ◌<◌, ◌≤◌, ◌≡◌, inl, inr, String, some, [], arith, Bool-cases, ◌∙◌, subst,
}
use sam_ken_x_dnssec_keytool.Prelude.Equal.{nat_eq, string_eq, ◌==◌}
use sam_ken_x_dnssec_keytool.Prelude.Dict.{Dict, get, set, get-set}
use sam_ken_x_dnssec_keytool.Outcome.{ok, require, >>=-eq-ok, require-eq-ok, key_error, type_error}
use sam_ken_x_dnssec_keytool.Config.{Schema, SchemaAction}
use sam_ken_x_dnssec_keytool.Configuration.{
  ActionEntry, KskmConfig, request_policy, parse_action, parse_actions, get_schema,
}

parse_actions-keeps :
    (entries : Dict ℕ ActionEntry) (num count : ℕ) (before actions : Dict ℕ SchemaAction) (n : ℕ)
    → parse_actions entries num count before ≡ ok actions
    → n < num
    → get actions n ≡ get before n
unfolding parse_actions
parse_actions-keeps entries num zero before actions n h below = cc
parse_actions-keeps entries num (suc count) before actions n h below =
    let (this, _, h1) = >>=-eq-ok (parse_action entries num) _ h in
    parse_actions-keeps entries (suc num) count (set before num this) actions n h1 (omega arith)
    ∙ (get-set before num n this ∙ ground arith)

-- The numbers of the loop have the actions that their entries give.
parse_actions-all :
    (entries : Dict ℕ ActionEntry) (num count : ℕ) (before actions : Dict ℕ SchemaAction) (n : ℕ)
    → parse_actions entries num count before ≡ ok actions
    → num ≤ n
    → n < num + count
    → (action : SchemaAction) × (get actions n ≡ some action) × (parse_action entries n ≡ ok action)
unfolding parse_actions
parse_actions-all entries num zero before actions n h l u = absurd (omega arith)
parse_actions-all entries num (suc count) before actions n h l u =
    let (this, parsed, h1) = >>=-eq-ok (parse_action entries num) _ h in
    elim (Bool-cases (num == n)) [
      | inl e ↦
          let same : num ≡ n = ground (arith, e) in
          let kept =
            parse_actions-keeps entries (suc num) count (set before num this) actions num h1
              (omega arith) in
          subst
            (λ m.
              (action : SchemaAction) × (get actions m ≡ some action)
              × (parse_action entries m ≡ ok action))
            same (this, kept ∙ (get-set before num num this ∙ ground arith), parsed)
      | inr e ↦
          parse_actions-all entries (suc num) count (set before num this) actions n h1
            (ground (arith, e)) (omega arith)
    ]

-- A schema that is parsed has an action for every bundle that the policy for requests asks for: the one
-- that its entry of that number gives. The policy then asks for a number of bundles.
pub get_schema-HasActions :
    (config : KskmConfig) (name : String) (schema : Schema)
    → get_schema config name ≡ ok schema
    → (count : ℕ) × ((request_policy config).num_bundles ≡ some count)
      × ((n : ℕ) → n < count → (action : SchemaAction) × (get schema.actions (suc n) ≡ some action))
unfolding get_schema
get_schema-HasActions config name schema h =
    let (schemas, _, h1) = >>=-eq-ok (require config.schemas key_error) _ h in
    let (entries, _, h2) = >>=-eq-ok (require (get schemas name) key_error) _ h1 in
    let (count, counted, h3) =
      >>=-eq-ok (require (request_policy config).num_bundles type_error) _ h2 in
    let (actions, parsed, h4) = >>=-eq-ok (parse_actions entries 1 count []) _ h3 in
    let made : record { name = name; actions = actions } ≡ schema = cc in
    (
      count,
      require-eq-ok _ type_error counted,
      λ n below.
          subst (λ (x : Schema). (action : SchemaAction) × (get x.actions (suc n) ≡ some action))
            made
            (let (action, found, _) =
                parse_actions-all entries 1 count [] actions (suc n) parsed (omega arith)
                  (omega arith) in
              (action, found)),
    )
