-- ===== src/Signer/Sign/Revocation.antt =====
-- The revoked form of a key that `sign_bundles` adds.
use Prim.Native.Nat.{bit_or}
use sam_ken_x_dnssec_keytool.Prelude.{◌≡◌, ◌≢◌, refl, sym, ◌∙◌, ap, subst}
use sam_ken_x_dnssec_keytool.Outcome.{ok, Passes, >>=-eq-ok}
use sam_ken_x_dnssec_keytool.Data.{Key}
use sam_ken_x_dnssec_keytool.Data.Flags.{revoke, ksk_flags}
use sam_ken_x_dnssec_keytool.Dnssec.{calculate_key_tag, construct, post_init}
use sam_ken_x_dnssec_keytool.Dnssec.KeyTag.{revoke-changes_key_tag}
use sam_ken_x_dnssec_keytool.Dnssec.Construction.{construct-checked, calculate_key_tag-own}
use sam_ken_x_dnssec_keytool.Signer.Sign.{revoke_key}

-- The same key with the flag REVOKE, its own key tag, and a valid length and flags.
pub record IsRevokedOf (key revoked_key : Key) : Type 0 where
  pub same_key :
      revoked_key ≡ record key { flags = bit_or key.flags revoke; key_tag = revoked_key.key_tag }
  pub tag : calculate_key_tag revoked_key ≡ ok revoked_key.key_tag
  pub checked : Passes (post_init revoked_key)

revoke_key-IsRevokedOf :
    (key revoked_key : Key) → revoke_key key ≡ ok revoked_key → IsRevokedOf key revoked_key
unfolding revoke_key
revoke_key-IsRevokedOf key revoked_key h =
    let flagged : Key = record key { flags = bit_or key.flags revoke } in
    let (k, e0, h0) = >>=-eq-ok (construct flagged) _ h in
    let (_, same) = construct-checked flagged k e0 in
    let (tag, e1, h1) = >>=-eq-ok (calculate_key_tag k) _ h0 in
    let (p, last) = construct-checked (record k { key_tag = tag }) revoked_key h1 in
    let whole : revoked_key ≡ record flagged { key_tag = tag } =
      last ∙ ap (λ (x : Key). record x { key_tag = tag }) same in
    subst (IsRevokedOf key) (sym whole) (record {
      same_key = refl;
      tag = calculate_key_tag-own flagged tag ∙ (ap calculate_key_tag (sym same) ∙ e1);
      checked = subst (λ (x : Key). Passes (post_init (record x { key_tag = tag }))) same p;
    })

-- A key signing key that carries its own key tag is revoked under another key tag: the result is the same
-- key with the flag set and its own tag, which is not the old one.
pub revoke_key-changes :
    (key revoked_key : Key)
    → key.flags ≡ ksk_flags
    → calculate_key_tag key ≡ ok key.key_tag
    → revoke_key key ≡ ok revoked_key
    → IsRevokedOf key revoked_key × (revoked_key.key_tag ≢ key.key_tag)
revoke_key-changes key revoked_key flags tag h =
    let is = revoke_key-IsRevokedOf key revoked_key h in
    let (tag', e, differs) = revoke-changes_key_tag key flags tag in
    let old : calculate_key_tag (record key { flags = bit_or key.flags revoke }) ≡ ok tag' =
      ap (λ f. calculate_key_tag (record key { flags = bit_or f revoke })) flags ∙ e in
    let new : calculate_key_tag (record key { flags = bit_or key.flags revoke })
        ≡ ok revoked_key.key_tag =
      sym (calculate_key_tag-own _ revoked_key.key_tag)
      ∙ (ap calculate_key_tag (sym is.same_key) ∙ is.tag) in
    (is, λ same. differs (cc))
