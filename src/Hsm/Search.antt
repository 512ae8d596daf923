-- ===== src/Hsm/Search.antt =====
-- Which public key get_p11_key of misc/hsm.py finds.
use sam_ken_x_dnssec_keytool.Prelude.{
  String, Option, none, some, List, [], ◌∷◌, ◌++◌, ◌≡◌, ◌↔◌, refl, sym, subst, ap, ◌∙◌, true, All,
  arith,
}
use sam_ken_x_dnssec_keytool.Outcome.{Result, ok, raise, ◌>>=◌, >>=-eq-ok}
use sam_ken_x_dnssec_keytool.PublicKey.{PublicKey}
use sam_ken_x_dnssec_keytool.Hsm.{
  Pkcs11, P11Key, public, KeyType, rsa_type, ec_type, aes_type, des3_type, other_type, get_p11_key,
  search_modules, find_key_by_label, found_key, known_type, p11_object_to_public_key,
}

-- the sessions of all modules, in order
abbrev pub all_sessions {ℓ} : {S : Type ℓ} → List (List S) → List S
all_sessions [] = []
all_sessions (sessions ∷ rest) = sessions ++ all_sessions rest

module _ (p : Pkcs11) (label : Option String) where
  -- The first session that has public objects of the label; the first of them has this public key.
  pub record IsFirstPublic (sessions : List p.Session) (pubkey : PublicKey) : Type 0 where
    pub before : List p.Session
    pub session : p.Session
    pub after : List p.Session
    pub split : sessions ≡ before ++ session ∷ after
    pub nothing_before : All (λ s. p.find_objects s label public ≡ ok []) before
    pub handle : p.Handle
    pub others : List p.Handle
    pub objects : p.find_objects session label public ≡ ok (handle ∷ others)
    pub read : p11_object_to_public_key p session handle ≡ ok (some pubkey)

  -- a key with this public key is found
  abbrev Finds : Result (Option (P11Key p)) → PublicKey → Type 0
  Finds result pubkey = (key : P11Key p) × (result ≡ ok (some key)) × (key.public_key ≡ some pubkey)

  or_search : List p.Session → Option (P11Key p) → Result (Option (P11Key p))
  or_search rest (some key) = ok (some key)
  or_search rest none = find_key_by_label p rest label public

  find_key_by_label-append :
      (s t : List p.Session)
      → find_key_by_label p (s ++ t) label public
        ≡ (find_key_by_label p s label public >>= or_search t)
  unfolding find_key_by_label or_search
  find_key_by_label-append [] t = refl
  find_key_by_label-append (session ∷ s) t = ground (arith, find_key_by_label-append s t)

  search_modules-all_sessions :
      (modules : List (List p.Session))
      → search_modules p label public modules
        ≡ find_key_by_label p (all_sessions modules) label public
  unfolding search_modules find_key_by_label or_search
  search_modules-all_sessions [] = refl
  search_modules-all_sessions (sessions ∷ rest) =
      by_found (search_modules-all_sessions rest) (find_key_by_label p sessions label public)
      ∙ sym (find_key_by_label-append sessions (all_sessions rest))
    where
      by_found :
          search_modules p label public rest ≡ find_key_by_label p (all_sessions rest) label public
          → (r : Result (Option (P11Key p)))
          → (r >>= λ found. elim found [
            | some key ↦ ok (some key)
            | none ↦ search_modules p label public rest
          ])
            ≡ (r >>= or_search (all_sessions rest))
      by_found later (raise e) = refl
      by_found later (ok (some key)) = refl
      by_found later (ok none) = later

  -- the key that is made of the object
  abbrev made_key : p.Session → p.Handle → List p.Handle → PublicKey → KeyType → P11Key p
  made_key session handle others pubkey key_type = record {
    label = label;
    key_type = key_type;
    key_class = public;
    public_key = some pubkey;
    session = session;
    privkey_handle = [];
    pubkey_handle = handle ∷ others;
  }

  -- A public key that is read has a known type.
  found_key-read :
      (session : p.Session) (handle : p.Handle) (others : List p.Handle) (pubkey : PublicKey)
      → p11_object_to_public_key p session handle ≡ ok (some pubkey)
      → (key_type : KeyType) × (found_key p session label public handle others
          ≡ ok (made_key session handle others pubkey key_type))
  unfolding p11_object_to_public_key found_key known_type
  found_key-read session handle others pubkey h =
      let (cka_type, e, _) = >>=-eq-ok (p.key_type session handle) _ h in by_type cka_type e
    where
      by_type :
          (cka_type : KeyType)
          → p.key_type session handle ≡ ok cka_type
          → (key_type : KeyType) × (found_key p session label public handle others
              ≡ ok (made_key session handle others pubkey key_type))
      by_type rsa_type e = (rsa_type, rw (h, e) refl)
      by_type ec_type e = (ec_type, rw (h, e) refl)
      by_type aes_type e = absurd (cc (rw e at h))
      by_type des3_type e = absurd (cc (rw e at h))
      by_type other_type e = absurd (cc (rw e at h))

  found_key-public :
      (session : p.Session) (handle : p.Handle) (others : List p.Handle) (made : P11Key p)
      (pubkey : PublicKey)
      → found_key p session label public handle others ≡ ok made
      → made.public_key ≡ some pubkey
      → p11_object_to_public_key p session handle ≡ ok (some pubkey)
  unfolding found_key
  found_key-public session handle others made pubkey h own =
      let (read, e, h1) = >>=-eq-ok (p11_object_to_public_key p session handle) _ h in
      let (cka_type, _, h2) = >>=-eq-ok (p.key_type session handle) _ h1 in
      let (key_type, _, h3) = >>=-eq-ok (known_type p cka_type) _ h2 in
      let same : read ≡ made.public_key = cc in
      e ∙ ap {B = Result (Option PublicKey)} ok (same ∙ own)

  IsFirstPublic-skip :
      {rest : List p.Session} {pubkey : PublicKey} (session : p.Session)
      → p.find_objects session label public ≡ ok []
      → IsFirstPublic rest pubkey
      → IsFirstPublic (session ∷ rest) pubkey
  IsFirstPublic-skip session none_here first = record {
    before = session ∷ first.before;
    session = first.session;
    after = first.after;
    split = ap (λ s. session ∷ s) first.split;
    nothing_before = (none_here, first.nothing_before);
    handle = first.handle;
    others = first.others;
    objects = first.objects;
    read = first.read;
  }

  -- What is found in the sessions
  find_key_by_label-IsFirstPublic :
      (sessions : List p.Session) (pubkey : PublicKey)
      → Finds (find_key_by_label p sessions label public) pubkey
      → IsFirstPublic sessions pubkey
  unfolding find_key_by_label found_key
  find_key_by_label-IsFirstPublic [] pubkey (key, h, _) = absurd (cc)
  find_key_by_label-IsFirstPublic (session ∷ rest) pubkey (key, h, own) =
      let (objects, e, h1) = >>=-eq-ok (p.find_objects session label public) _ h in
      by_objects (find_key_by_label-IsFirstPublic rest pubkey) objects e h1
    where
      by_objects :
          (Finds (find_key_by_label p rest label public) pubkey → IsFirstPublic rest pubkey)
          → (objects : List p.Handle) → p.find_objects session label public ≡ ok objects
          → (elim objects [
            | [] ↦ find_key_by_label p rest label public
            | first ∷ others ↦
                found_key p session label public first others >>= λ key. ok (some key)
          ])
            ≡ ok (some key)
          → IsFirstPublic (session ∷ rest) pubkey
      by_objects later [] e h1 = IsFirstPublic-skip session e (later (key, h1, own))
      by_objects later (handle ∷ others) e h1 =
          let (made, e1, h2) = >>=-eq-ok (found_key p session label public handle others) _ h1 in
          let same : made ≡ key = cc in
          record {
            before = [];
            session = session;
            after = rest;
            split = refl;
            nothing_before = tt;
            handle = handle;
            others = others;
            objects = e;
            read =
                found_key-public session handle others made pubkey e1
                  (ap (λ (k : P11Key p). k.public_key) same ∙ own);
          }

  IsFirstPublic-find_key_by_label :
      (before after : List p.Session) (session : p.Session) (handle : p.Handle)
      (others : List p.Handle) (pubkey : PublicKey)
      → All (λ s. p.find_objects s label public ≡ ok []) before
      → p.find_objects session label public ≡ ok (handle ∷ others)
      → p11_object_to_public_key p session handle ≡ ok (some pubkey)
      → Finds (find_key_by_label p (before ++ session ∷ after) label public) pubkey
  unfolding find_key_by_label
  IsFirstPublic-find_key_by_label [] after session handle others pubkey none_before objects read =
      let (key_type, e) = found_key-read session handle others pubkey read in
      (made_key session handle others pubkey key_type, rw (objects, e) refl, refl)
  IsFirstPublic-find_key_by_label (s ∷ before) after session handle others pubkey
        (here, none_before) objects read =
      let (key, e, own) =
        IsFirstPublic-find_key_by_label before after session handle others pubkey none_before
          objects read in
      (key, rw (here, e) refl, own)

  -- get_p11_key finds a public key exactly as the first one in the sessions of the modules.
  pub get_p11_key_iff :
      (modules : List (List p.Session)) (pubkey : PublicKey)
      → ((key : P11Key p) × (get_p11_key p label modules true ≡ ok (some key))
          × (key.public_key ≡ some pubkey))
        ↔ IsFirstPublic (all_sessions modules) pubkey
  unfolding get_p11_key
  get_p11_key_iff modules pubkey =
      let flat = search_modules-all_sessions modules in
      (
        λ (key, e, own).
            find_key_by_label-IsFirstPublic (all_sessions modules) pubkey (key, sym flat ∙ e, own),
        λ first.
            let (key, e, own) =
              IsFirstPublic-find_key_by_label first.before first.after first.session first.handle
                first.others pubkey first.nothing_before first.objects first.read in
            (
              key,
              flat
                  ∙ subst (λ s. find_key_by_label p s label public ≡ ok (some key))
                      (sym first.split) e,
              own,
            ),
      )
