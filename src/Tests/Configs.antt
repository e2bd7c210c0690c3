-- ===== src/Tests/Configs.antt =====
-- A guest's configuration, written and read again, and a comment before a message.
use matrix_static.Prelude.{
  ℕ, ◌≡◌, refl, ◌≢◌, ◌↔◌, false, Option, none, some, List, [], ◌∷◌, ◌++◌, ◌==◌, if◌then◌else◌, Text,
  codes, text_eq,
}
use matrix_static.Gomatrix.{GoError, other, Result, ok, err}
use matrix_static.Config.{
  missing, content, Files, Config, RespRegister, Registration, new_raw_client, new_client,
  guest_config, register_main,
}
use matrix_static.Config.Guests.{new_client-none_iff, register_main-new_client, Refused}
use matrix_static.Sanitizer.{
  Node, document, element, text, comment, nil, cons, a_comment, with_leading, sanitize,
  sanitize-document,
}

-- A coding for the tests: each text ends in a line feed.
abbrev line : Text → Text → Text
line s rest = s ++ (10 ∷ rest)

abbrev write : Config → Result Text
write c = ok (
    line c.access_token (
      line c.device_id
        (line c.home_server (line c.refresh_token (line c.user_id (line c.media_base_url []))))))

push : ℕ → List Text → List Text
push c [] = (c ∷ []) ∷ []
push c (l ∷ ls) = (c ∷ l) ∷ ls

lines : Text → List Text
unfolding push
lines [] = []
lines (c ∷ s) = let rest = lines s in if c == 10 then [] ∷ rest else push c rest

abbrev config_of : List Text → Config
config_of (a ∷ b ∷ c ∷ d ∷ e ∷ f ∷ rest) = record {
  access_token = a;
  device_id = b;
  home_server = c;
  refresh_token = d;
  user_id = e;
  media_base_url = f;
}
config_of _ = record {
  access_token = [];
  device_id = [];
  home_server = [];
  refresh_token = [];
  user_id = [];
  media_base_url = [];
}

abbrev read : Text → Config
unfolding lines
read s = config_of (lines s)

-- A client for every homeserver but one, by its address.
make : Text → Text → Text → Result Text
make homeserver_url user_id access_token =
    if text_eq homeserver_url (codes "%") then err (other (codes "parse")) else ok homeserver_url

abbrev guest : RespRegister
guest = record {
  access_token = codes "t";
  device_id = codes "d";
  home_server = codes "x";
  refresh_token = [];
  user_id = codes "@1:x";
}

abbrev registered : Text → Registration
registered cli = record { register = some guest; interactive = false; error = none }

abbrev writable : Text → Option GoError
writable path = none

abbrev no_files : Files
no_files path = missing

abbrev saved : Text
saved =
    codes "t"
    ++ (10 ∷ codes "d")
    ++ (10 ∷ codes "h")
    ++ (10 ∷ 10 ∷ codes "@1:x")
    ++ (10 ∷ codes "h")
    ++ (10 ∷ [])

abbrev guest_of_h : Config
guest_of_h = record {
  access_token = codes "t";
  device_id = codes "d";
  home_server = codes "h";
  refresh_token = [];
  user_id = codes "@1:x";
  media_base_url = codes "h";
}

read-saved : read saved ≡ guest_of_h
unfolding read lines
read-saved = refl

made : make (codes "h") [] [] ≡ ok (codes "h")
unfolding make text_eq
made = refl

not_empty : codes "h" ≢ []
not_empty e = cc

register_main-new_client_example :
    (files' : Files) × (register_main make registered write writable
        (some (codes "c"))
        (some (codes "h"))
        (some [])
        no_files
      ≡ some (files', none))
    × ((p : Text) → p ≢ codes "c" → files' p ≡ no_files p)
    × (new_client make read (codes "c") files'
        ≡ new_raw_client make (codes "h") (codes "h") (codes "@1:x") (codes "t"))
unfolding guest_config text_eq
register_main-new_client_example =
    register_main-new_client make registered write writable read (some (codes "c"))
      (some (codes "h")) (some []) saved no_files (codes "h") guest not_empty made refl refl
      read-saved refl

abbrev one_file : Files
one_file path = content saved

new_client-none_iff_example :
    new_client make read (codes "c") one_file ≡ none ↔ Refused make read (codes "c") one_file
new_client-none_iff_example = new_client-none_iff make read (codes "c") one_file

abbrev parse_commented : Text → Result Node
parse_commented str = ok (
    document (
      cons (comment (codes "x")) (
        cons
          (element (codes "html") (
            cons (element (codes "head") nil)
              (cons (element (codes "body") (cons (text (codes "hi")) nil)) nil)))
          nil)))

sanitize-document_example :
    sanitize parse_commented (λ n. codes "hi") (λ s. s) (codes "<!--x-->hi") ≡ none
unfolding with_leading
sanitize-document_example =
    sanitize-document parse_commented (λ n. codes "hi") (λ s. s) (codes "<!--x-->hi")
      (a_comment (codes "x") ∷ []) nil (cons (text (codes "hi")) nil) nil refl
