-- ===== src/Upload/Files.antt =====
-- The files that an upload to wksr/server.py leaves.
use sam_ken_x_dnssec_keytool.Prelude.{
  ℕ, ◌≡◌, ◌≤◌, ◌⊎◌, inl, inr, refl, Bool, true, false, String, Option, none, some, List, [], ◌∷◌,
  ◌++◌, All, Any, length, arith, Bool-cases, ltb, subst,
}
use sam_ken_x_dnssec_keytool.Prelude.Equal.{contains_iff, string_eq, ◌==◌, ==_iff}
use sam_ken_x_dnssec_keytool.Outcome.{
  ok, guard, refuse, require, >>=-eq-ok, require-eq-ok, guard-Passes, refuse-Passes, bad_request,
  request_entity_too_large, runtime_error,
}
use sam_ken_x_dnssec_keytool.Texts.{Text}
use sam_ken_x_dnssec_keytool.Upload.{
  authz, KsrConfig, FileStorage, Saved, or_default, default_prefix, xml_extension, is_word, wash,
  save_ksr, upload,
}

wash-All : (in_run : Bool) (s : Text) → All (λ c. is_word c ≡ true) (wash in_run s)
unfolding wash
wash-All in_run [] = tt
wash-All in_run (c ∷ s) = elim (Bool-cases (is_word c)) [
  | inl h ↦ rw (h, wash) (h, wash-All false s)
  | inr h ↦ elim (Bool-cases in_run) [
    | inl run ↦ rw (h, run, wash) (wash-All true s)
    | inr fresh ↦ rw (h, fresh, wash) (refl, wash-All true s)
  ]
]

-- A client that may upload: one without a certificate, or one on the list
abbrev pub IsAllowed : List String → Option String → Type 0
IsAllowed client_whitelist digest =
    (digest ≡ none) ⊎ ((d : String) × (digest ≡ some d) × Any (λ x. d ≡ x) client_whitelist)

authz-IsAllowed :
    (client_whitelist : List String) (digest : Option String)
    → authz client_whitelist digest ≡ ok tt
    → IsAllowed client_whitelist digest
unfolding authz
authz-IsAllowed client_whitelist none h = inl refl
authz-IsAllowed client_whitelist (some d) h =
    inr (d, refl, (contains_iff client_whitelist d).0 ((guard-Passes _ _).0 h))

-- The file that is saved holds what was uploaded, within the limits of the configuration, and its name
-- is the configured prefix, letters, digits and underscores, the time and `.xml`.
pub record IsSavedFor (config : KsrConfig) (suffix : Text) (file : FileStorage) (saved : Saved)
    : Type 0 where
  pub content : saved.content ≡ file.stream
  pub content_type : file.content_type ≡ or_default config.content_type "application/xml"
  pub small : length file.stream ≤ or_default config.max_size 1_048_576
  pub washed : Text
  pub harmless : All (λ c. is_word c ≡ true) washed
  pub named :
      saved.filename
      ≡ or_default config.prefix default_prefix ++ (washed ++ (suffix ++ xml_extension))

not_above : (limit n : ℕ) → ltb limit n ≡ false → n ≤ limit
not_above limit n h = ground arith

save_ksr-IsSavedFor :
    (ksr_config : Option KsrConfig) (suffix : Text) (file : FileStorage) (saved : Saved)
    → save_ksr ksr_config suffix file ≡ ok saved
    → (config : KsrConfig) × (ksr_config ≡ some config) × IsSavedFor config suffix file saved
unfolding save_ksr
save_ksr-IsSavedFor ksr_config suffix file saved h =
    let (config, given, h1) = >>=-eq-ok (require ksr_config runtime_error) _ h in
    let (_, right_type, h2) =
      >>=-eq-ok
        (guard (file.content_type == or_default config.content_type "application/xml") bad_request)
        _ h1 in
    let (_, fits, h3) =
      >>=-eq-ok
        (refuse (ltb (or_default config.max_size 1_048_576) (length file.stream))
          request_entity_too_large)
        _ h2 in
    let made : Saved = record {
      filename =
          or_default config.prefix default_prefix
          ++ (wash false file.filename ++ (suffix ++ xml_extension));
      content = file.stream;
    } in
    let same : made ≡ saved = cc in
    (
      config,
      require-eq-ok ksr_config runtime_error given,
      subst (IsSavedFor config suffix file) same (record {
        content = refl;
        content_type = (==_iff _ _).0 ((guard-Passes _ bad_request).0 right_type);
        small = not_above _ _ ((refuse-Passes _ request_entity_too_large).0 fits);
        washed = wash false file.filename;
        harmless = wash-All false file.filename;
        named = refl;
      }),
    )

-- A file is saved only for a client that is allowed, which is one that shows no certificate or one
-- on the list, and only if it has the configured type and no more than the configured size. What the
-- client sends has no other influence on the file's name than letters, digits and underscores.
pub upload-IsSavedFor :
    (client_whitelist : List String) (ksr_config : Option KsrConfig) (suffix : Text)
    (digest : Option String) (file : Option FileStorage) (saved : Saved)
    → upload client_whitelist ksr_config suffix digest file ≡ ok saved
    → IsAllowed client_whitelist digest
      × (config : KsrConfig) × (ksr_config ≡ some config)
      × (uploaded : FileStorage) × (file ≡ some uploaded)
      × IsSavedFor config suffix uploaded saved
unfolding upload
upload-IsSavedFor client_whitelist ksr_config suffix digest file saved h =
    let (_, allowed, h1) = >>=-eq-ok (authz client_whitelist digest) _ h in
    let (uploaded, sent, h2) = >>=-eq-ok (require file bad_request) _ h1 in
    let (config, given, is_saved) = save_ksr-IsSavedFor ksr_config suffix uploaded saved h2 in
    (
      authz-IsAllowed client_whitelist digest allowed,
      config,
      given,
      uploaded,
      require-eq-ok file bad_request sent,
      is_saved,
    )
