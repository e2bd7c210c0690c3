-- ===== src/Config.antt =====
-- src/github.com/t3chguy/matrix-static/mxclient/mxclient.go, `NewRawClient` and `NewClient`, and the
-- command src/github.com/t3chguy/matrix-static/cmd/register-guest/register-guest.go, which writes the
-- file that `NewClient` reads. The client of package gomatrix, its requests and the JSON coding are
-- parameters; `none` is a run-time panic.
pub mod Guests
use matrix_static.Prelude.{
  ℕ, ◌*◌, Bool, true, false, ◌||◌, Option, none, some, List, [], ◌∷◌, if◌then◌else◌, ◌>>=◌, Text,
  codes, text_eq, ◌≡◌, refl,
}
use matrix_static.Gomatrix.{GoError, other, Result, ok, err}

-- The file that a path leads to.
pub data File : Type 0 where
  missing : File
  unreadable : GoError → File
  content : Text → File

abbrev pub Files : Type 0
Files = Text → File

pub record Config : Type 0 where
  pub access_token : Text
  pub device_id : Text
  pub home_server : Text
  pub refresh_token : Text
  pub user_id : Text
  pub media_base_url : Text

-- `gomatrix.RespRegister`
pub record RespRegister : Type 0 where
  pub access_token : Text
  pub device_id : Text
  pub home_server : Text
  pub refresh_token : Text
  pub user_id : Text

-- What `RegisterGuest` returns; the second result counts only by whether it is nil.
pub record Registration : Type 0 where
  pub register : Option RespRegister
  pub interactive : Bool
  pub error : Option GoError

-- The client with its `http.Client`, by the timeout in nanoseconds.
pub record RawClient (G : Type 0) : Type 0 where
  pub gomatrix : G
  pub timeout : ℕ
  pub media_base_url : Text

abbrev pub client_timeout : ℕ
client_timeout = 30 * 1000000000

unfoldable pub guest_config : Text → Text → RespRegister → Config
guest_config homeserver_url media_base_url register = record {
  access_token = register.access_token;
  device_id = register.device_id;
  home_server = homeserver_url;
  refresh_token = register.refresh_token;
  user_id = register.user_id;
  media_base_url = media_base_url;
}

-- `flag.String` after the flags are parsed: the value given, or else the default.
unfoldable pub flag_string : Option Text → Text → Text
flag_string none value = value
flag_string (some given) value = given

-- `ioutil.WriteFile`, which fails only if the file cannot be opened.
unfoldable pub write_file : (Text → Option GoError) → Text → Text → Files → Files × Option GoError
write_file write_error path text files = elim (write_error path) [
  | some e ↦ (files, some e)
  | none ↦ (λ p. if text_eq path p then content text else files p, none)
]

module _ {G : Type 0} (gomatrix_client : Text → Text → Text → Result G) where
  -- `gomatrix.NewClient` returns nil with its error, and `cli.Client =` panics on the nil.
  unfoldable pub new_raw_client : Text → Text → Text → Text → Option (Result (RawClient G))
  new_raw_client homeserver_url media_base_url user_id access_token =
      elim (gomatrix_client homeserver_url user_id access_token) [
        | err e ↦ none
        | ok cli ↦ some (
            ok (record {
              gomatrix = cli;
              timeout = client_timeout;
              media_base_url = media_base_url;
            }))
      ]

  -- `NewClient`, after the file has been read; `unmarshal` is what `json.Unmarshal`, whose error is
  -- dropped, leaves in `config`.
  unfoldable pub client_of : (Text → Config) → Text → Option (Result (RawClient G))
  unfolding new_raw_client
  client_of unmarshal file =
      let config = unmarshal file in
      if text_eq config.home_server []
      then some (err (other (codes "no user configuration found")))
      else new_raw_client config.home_server
          (if text_eq config.media_base_url [] then config.home_server else config.media_base_url)
          config.user_id config.access_token

  unfoldable pub new_client : (Text → Config) → Text → Files → Option (Result (RawClient G))
  unfolding client_of
  new_client unmarshal config_path files = elim (files config_path) [
    | missing ↦ some (err (other (codes "config file not found")))
    | unreadable e ↦ some (err e)
    | content file ↦ client_of unmarshal file
  ]

  module _ (register_at : G → Registration) (marshal : Config → Result Text)
      (write_error : Text → Option GoError) where
    -- `registerGuest`, from the configuration on.
    unfoldable pub save_config : Text → Config → Files → Files × Option GoError
    unfolding write_file
    save_config config_path config files = elim (marshal config) [
      | err e ↦ (files, some e)
      | ok config_json ↦ write_file write_error config_path config_json files
    ]

    -- What follows the answer of the homeserver.
    unfoldable pub after_registration :
        Text → Text → Text → Registration → Files → Files × Option GoError
    unfolding save_config guest_config
    after_registration config_path homeserver_url media_base_url answer files = elim answer.error [
      | some e ↦ (files, some e)
      | none ↦
          if answer.interactive
          then (files, some (other (codes "error encountered during guest registration")))
          else elim answer.register [
            | none ↦ (files, some (other (codes "error encountered during guest registration")))
            | some register ↦
                save_config config_path (guest_config homeserver_url media_base_url register) files
          ]
    ]

    unfoldable pub register_guest : Text → Text → Text → Files → Option (Files × Option GoError)
    unfolding new_raw_client after_registration
    register_guest config_path homeserver_url media_base_url files = do
      m ← new_raw_client homeserver_url [] [] []
      elim m [
        | err e ↦ some (files, some e)
        | ok client ↦ some (
            after_registration config_path homeserver_url media_base_url
              (register_at client.gomatrix) files)
      ]

    -- `main` of the command, with its flags "config-file", "homeserver-url" and "media-base-url", each
    -- `none` where the command line does not have it.
    unfoldable pub register_main :
        Option Text → Option Text → Option Text → Files → Option (Files × Option GoError)
    unfolding register_guest flag_string
    register_main config_file homeserver media files =
        let config_path = flag_string config_file (codes "./config.json") in
        let homeserver_url = flag_string homeserver (codes "https://matrix.org") in
        let media_base_url = flag_string media (codes "https://matrix.org") in
        register_guest config_path homeserver_url
          (if text_eq media_base_url [] then homeserver_url else media_base_url) files
