-- ===== src/Config/Guests.antt =====
-- A guest that has been registered, and the client that is made of its configuration.
use matrix_static.Prelude.{
  ◌≡◌, refl, sym, ap, ◌∙◌, subst, ◌≢◌, ◌↔◌, inl, inr, false, Option, none, some, [], if◌then◌else◌,
  Text, text_eq, text_eq_refl, text_eq_iff, Bool-cases, codes, ◌∷◌,
}
use matrix_static.Gomatrix.{GoError, Result, Result-cases, ok, err}
use matrix_static.Config.{
  File, missing, unreadable, content, Files, Config, RespRegister, Registration, RawClient,
  client_timeout, new_raw_client, client_of, new_client, guest_config, flag_string, write_file,
  save_config, after_registration, register_guest, register_main,
}

content_eq : {s t : Text} → content s ≡ content t → s ≡ t
content_eq h = cc

text_other : (s p : Text) → p ≢ s → text_eq s p ≡ false
text_other s p other = elim (Bool-cases (text_eq s p)) [
  | inl e ↦ absurd (other (sym ((text_eq_iff s p).0 e)))
  | inr e ↦ e
]

-- What a flag stands for.
abbrev pub or_else : Option Text → Text → Text
or_else none value = value
or_else (some given) value = given

-- The media repository that a flag stands for, if it was given.
abbrev pub repository : Text → Option Text → Text
repository homeserver_url none = codes "https://matrix.org"
repository homeserver_url (some []) = homeserver_url
repository homeserver_url (some (c ∷ base)) = c ∷ base

-- Taking the homeserver for the media repository twice is doing it once.
default_twice :
    (home media : Text)
    → let chosen : Text = if text_eq media [] then home else media in
      (if text_eq chosen [] then home else chosen) ≡ chosen
default_twice home media = elim (Bool-cases (text_eq media [])) [
  | inl e ↦ rw e (elim (Bool-cases (text_eq home [])) [ inl h ↦ rw h refl | inr h ↦ rw h refl ])
  | inr e ↦ rw (e, e) refl
]

module _ {G : Type 0} (gomatrix_client : Text → Text → Text → Result G) where
  pub client_of_config :
      (unmarshal : Text → Config) (file : Text) (config : Config)
      → unmarshal file ≡ config
      → text_eq config.home_server [] ≡ false
      → client_of gomatrix_client unmarshal file
        ≡ new_raw_client gomatrix_client config.home_server
            (if text_eq config.media_base_url [] then config.home_server else config.media_base_url)
            config.user_id
            config.access_token
  unfolding client_of
  client_of_config unmarshal file config read named = rw (read, named) refl

  new_raw_client-ok :
      (homeserver_url media_base_url user_id access_token : Text) (cli : G)
      → gomatrix_client homeserver_url user_id access_token ≡ ok cli
      → (raw : RawClient G) × (raw.gomatrix ≡ cli)
        × (new_raw_client gomatrix_client homeserver_url media_base_url user_id access_token
            ≡ some (ok raw))
  unfolding new_raw_client
  new_raw_client-ok homeserver_url media_base_url user_id access_token cli made = (
    record { gomatrix = cli; timeout = client_timeout; media_base_url = media_base_url },
    refl,
    rw (made, new_raw_client) refl,
  )

  new_client-content :
      (unmarshal : Text → Config) (config_path : Text) (files : Files) (file : Text)
      → files config_path ≡ content file
      → new_client gomatrix_client unmarshal config_path files
        ≡ client_of gomatrix_client unmarshal file
  unfolding new_client
  new_client-content unmarshal config_path files file at = rw (at, new_client) refl

  new_raw_client-none :
      (homeserver_url media_base_url user_id access_token : Text)
      → new_raw_client gomatrix_client homeserver_url media_base_url user_id access_token ≡ none
        ↔ ((e : GoError) × (gomatrix_client homeserver_url user_id access_token ≡ err e))
  unfolding new_raw_client
  new_raw_client-none homeserver_url media_base_url user_id access_token =
      elim (Result-cases (gomatrix_client homeserver_url user_id access_token)) [
        | inl (e, failed) ↦ (λ _. (e, failed), λ _. rw (failed, new_raw_client) refl)
        | inr (cli, made) ↦
            (λ h. absurd (cc (rw (made, new_raw_client) at h)), λ (e, failed). absurd (cc))
      ]

  client_of-none_iff :
      (unmarshal : Text → Config) (file : Text)
      → client_of gomatrix_client unmarshal file ≡ none ↔ (
          (e : GoError) × ((unmarshal file).home_server ≢ [])
          × (gomatrix_client
                (unmarshal file).home_server
                (unmarshal file).user_id
                (unmarshal file).access_token
              ≡ err e))
  unfolding client_of
  client_of-none_iff unmarshal file = elim (Bool-cases (text_eq (unmarshal file).home_server [])) [
    | inl empty ↦ (
      λ h. absurd (cc (rw (empty, client_of) at h)),
      λ (e, named, failed). absurd (named ((text_eq_iff _ []).0 empty)),
    )
    | inr named ↦
        let raw =
          new_raw_client-none (unmarshal file).home_server _ (unmarshal file).user_id
            (unmarshal file).access_token in
        (
          λ h.
              let (e, failed) = raw.0 (rw (named, client_of) at h) in
              (e, λ empty. cc ((text_eq_iff (unmarshal file).home_server []).1 empty), failed),
          λ (e, _, failed). rw (named, client_of) (raw.1 (e, failed)),
        )
  ]

  -- Whether the file makes a panic.
  abbrev pub Refused : (Text → Config) → Text → Files → Type 0
  Refused unmarshal config_path files =
      (file : Text) × (e : GoError) × (files config_path ≡ content file)
      × ((unmarshal file).home_server ≢ [])
      × (gomatrix_client (unmarshal file).home_server (unmarshal file).user_id
            (unmarshal file).access_token
          ≡ err e)

  new_client_at :
      (unmarshal : Text → Config) (config_path : Text) (files : Files) (f : File)
      → files config_path ≡ f
      → new_client gomatrix_client unmarshal config_path files ≡ none
        ↔ Refused unmarshal config_path files
  unfolding new_client
  new_client_at unmarshal config_path files missing at =
      (λ h. absurd (cc (rw (at, new_client) at h)), λ (file, e, there, named, failed). absurd (cc))
  new_client_at unmarshal config_path files (unreadable e) at =
      (λ h. absurd (cc (rw (at, new_client) at h)), λ (file, e', there, named, failed). absurd (cc))
  new_client_at unmarshal config_path files (content file) at = (
    λ h.
        let (e, named, failed) = (client_of-none_iff unmarshal file).0 (rw (at, new_client) at h) in
        (file, e, at, named, failed),
    λ (file', e, there, named, failed).
        let same : file' ≡ file = content_eq (sym there ∙ at) in
        rw (at, new_client)
          ((client_of-none_iff unmarshal file).1 (
            subst
              (λ t.
                (e : GoError) × ((unmarshal t).home_server ≢ [])
                × (gomatrix_client (unmarshal t).home_server (unmarshal t).user_id
                      (unmarshal t).access_token
                    ≡ err e))
              same (e, named, failed))),
  )

  -- `NewClient` panics exactly when there is a configuration that names a homeserver and the package
  -- gomatrix refuses to make a client for it; in every other case it returns a client or an error.
  pub new_client-none_iff :
      (unmarshal : Text → Config) (config_path : Text) (files : Files)
      → new_client gomatrix_client unmarshal config_path files ≡ none
        ↔ Refused unmarshal config_path files
  new_client-none_iff unmarshal config_path files =
      new_client_at unmarshal config_path files (files config_path) refl

  module _ (register_at : G → Registration) (marshal : Config → Result Text)
      (write_error : Text → Option GoError) where
    after_registration-written :
        (config_path homeserver_url media_base_url json : Text) (files : Files)
        (answer : Registration) (register : RespRegister)
        → answer ≡ record { register = some register; interactive = false; error = none }
        → marshal (guest_config homeserver_url media_base_url register) ≡ ok json
        → write_error config_path ≡ none
        → after_registration gomatrix_client register_at marshal write_error config_path
            homeserver_url media_base_url answer files
          ≡ (λ p. if text_eq config_path p then content json else files p, none)
    unfolding after_registration save_config write_file
    after_registration-written config_path homeserver_url media_base_url json files answer register
          registered coded writable =
        ap
          (λ a.
            after_registration gomatrix_client register_at marshal write_error config_path
              homeserver_url media_base_url a files)
          registered
        ∙ rw (coded, writable, save_config, write_file) refl

    register_guest-new_client :
        (unmarshal : Text → Config) (config_path homeserver_url media_base_url json : Text)
        (files : Files) (cli : G) (register : RespRegister)
        → let media : Text = if text_eq media_base_url [] then homeserver_url else media_base_url in
          let config : Config = guest_config homeserver_url media register in
          homeserver_url ≢ []
          → gomatrix_client homeserver_url [] [] ≡ ok cli
          → register_at cli ≡ record { register = some register; interactive = false; error = none }
          → marshal config ≡ ok json
          → unmarshal json ≡ config
          → write_error config_path ≡ none
          → (files' : Files) × (register_guest gomatrix_client register_at marshal write_error
                config_path homeserver_url media files
              ≡ some (files', none))
            × ((p : Text) → p ≢ config_path → files' p ≡ files p)
            × (new_client gomatrix_client unmarshal config_path files'
                ≡ new_raw_client gomatrix_client homeserver_url media register.user_id
                    register.access_token)
    unfolding register_guest
    register_guest-new_client unmarshal config_path homeserver_url media_base_url json files cli
          register named made registered coded decoded writable =
        let media : Text = if text_eq media_base_url [] then homeserver_url else media_base_url in
        let files' : Files = λ p. if text_eq config_path p then content json else files p in
        let (raw, holds, started) = new_raw_client-ok homeserver_url [] [] [] cli made in
        let answer : register_at raw.gomatrix
            ≡ record { register = some register; interactive = false; error = none } =
          ap register_at holds ∙ registered in
        (
          files',
          rw started (
              ap some (
                after_registration-written config_path homeserver_url media json files
                  (register_at raw.gomatrix) register answer coded writable)),
          λ p other. rw (text_other config_path p other) refl,
          new_client-content unmarshal config_path files' json (rw (text_eq_refl config_path) refl)
              ∙ client_of_config unmarshal json (guest_config homeserver_url media register) decoded
                  (text_other homeserver_url [] (λ e. named (sym e)))
              ∙ ap
                  (λ m.
                    new_raw_client gomatrix_client homeserver_url m register.user_id
                      register.access_token)
                  (default_twice homeserver_url media_base_url),
        )

    -- Where the package gomatrix makes a client for the homeserver, the homeserver registers a
    -- guest, the configuration has a JSON text that is read back as it was, and the file can be
    -- written: the command succeeds, it writes that file alone, and `NewClient` then makes the
    -- client of the homeserver, of the media repository, and of the guest's id and token. The file and
    -- the homeserver are those of the flags, or else "./config.json" and "https://matrix.org", and
    -- the homeserver is not empty. The media repository is the one of its flag, or the homeserver if
    -- the flag is given as the empty text; without the flag it is "https://matrix.org", whatever the
    -- homeserver.
    pub register_main-new_client :
        (unmarshal : Text → Config) (config_file homeserver media : Option Text) (json : Text)
        (files : Files) (cli : G) (register : RespRegister)
        → let config_path : Text = or_else config_file (codes "./config.json") in
          let homeserver_url : Text = or_else homeserver (codes "https://matrix.org") in
          let media_base_url : Text = repository homeserver_url media in
          let config : Config = guest_config homeserver_url media_base_url register in
          homeserver_url ≢ []
          → gomatrix_client homeserver_url [] [] ≡ ok cli
          → register_at cli ≡ record { register = some register; interactive = false; error = none }
          → marshal config ≡ ok json
          → unmarshal json ≡ config
          → write_error config_path ≡ none
          → (files' : Files) × (register_main gomatrix_client register_at marshal write_error
                config_file homeserver media files
              ≡ some (files', none))
            × ((p : Text) → p ≢ config_path → files' p ≡ files p)
            × (new_client gomatrix_client unmarshal config_path files'
                ≡ new_raw_client gomatrix_client homeserver_url media_base_url register.user_id
                    register.access_token)
    unfolding register_main flag_string text_eq
    register_main-new_client unmarshal none none none json files cli register named made registered
          coded decoded writable =
        register_guest-new_client unmarshal (codes "./config.json") (codes "https://matrix.org")
          (codes "https://matrix.org") json files cli register named made registered coded decoded
          writable
    register_main-new_client unmarshal none (some url) none json files cli register named made
          registered coded decoded writable =
        register_guest-new_client unmarshal (codes "./config.json") url (codes "https://matrix.org")
          json files cli register named made registered coded decoded writable
    register_main-new_client unmarshal (some path) none none json files cli register named made
          registered coded decoded writable =
        register_guest-new_client unmarshal path (codes "https://matrix.org")
          (codes "https://matrix.org") json files cli register named made registered coded decoded
          writable
    register_main-new_client unmarshal (some path) (some url) none json files cli register named
          made registered coded decoded writable =
        register_guest-new_client unmarshal path url (codes "https://matrix.org") json files cli
          register named made registered coded decoded writable
    register_main-new_client unmarshal none none (some []) json files cli register named made
          registered coded decoded writable =
        register_guest-new_client unmarshal (codes "./config.json") (codes "https://matrix.org") []
          json files cli register named made registered coded decoded writable
    register_main-new_client unmarshal none (some url) (some []) json files cli register named made
          registered coded decoded writable =
        register_guest-new_client unmarshal (codes "./config.json") url [] json files cli register
          named made registered coded decoded writable
    register_main-new_client unmarshal (some path) none (some []) json files cli register named made
          registered coded decoded writable =
        register_guest-new_client unmarshal path (codes "https://matrix.org") [] json files cli
          register named made registered coded decoded writable
    register_main-new_client unmarshal (some path) (some url) (some []) json files cli register
          named made registered coded decoded writable =
        register_guest-new_client unmarshal path url [] json files cli register named made
          registered coded decoded writable
    register_main-new_client unmarshal none none (some (c ∷ base)) json files cli register named
          made registered coded decoded writable =
        register_guest-new_client unmarshal (codes "./config.json") (codes "https://matrix.org")
          (c ∷ base) json files cli register named made registered coded decoded writable
    register_main-new_client unmarshal none (some url) (some (c ∷ base)) json files cli register
          named made registered coded decoded writable =
        register_guest-new_client unmarshal (codes "./config.json") url (c ∷ base) json files cli
          register named made registered coded decoded writable
    register_main-new_client unmarshal (some path) none (some (c ∷ base)) json files cli register
          named made registered coded decoded writable =
        register_guest-new_client unmarshal path (codes "https://matrix.org") (c ∷ base) json files
          cli register named made registered coded decoded writable
    register_main-new_client unmarshal (some path) (some url) (some (c ∷ base)) json files cli
          register named made registered coded decoded writable =
        register_guest-new_client unmarshal path url (c ∷ base) json files cli register named made
          registered coded decoded writable
