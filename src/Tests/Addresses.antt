-- ===== src/Tests/Addresses.antt =====
-- An mxc address, without and with a fragment.
use matrix_static.Prelude.{
  ◌≡◌, refl, ◌↔◌, ◌∷◌, ◌++◌, true, false, Option, none, some, [], Text, codes, text_eq,
}
use matrix_static.Member.{MxcUrl}
use matrix_static.Mxc.{split, is_dot, split-mxc}
use matrix_static.Mxc.{is_valid}
use matrix_static.Mxc.Paths.{is_part, no_slash}
use matrix_static.Mxc.Urls.{Url, map_mxc_url, to_url, map_mxc_url-path, to_url-none_iff}

abbrev address : Text → MxcUrl
address url = record { url = url; homeserver_url = codes "https://h" }

two_split : split (address (codes "mxc://ab/cd")) ≡ (true, codes "ab", codes "cd")
unfolding is_dot
two_split =
    split-mxc b'a' b'c' (codes "b") (codes "d") (codes "https://h")
      ((refl, refl), ((refl, refl), tt)) ((refl, refl), ((refl, refl), tt))

abbrev homeserver_url : Url
homeserver_url = record { origin = codes "https://h"; path = []; raw_query = [] }

abbrev parse : Text → Option Url
parse str = some homeserver_url

map_mxc_url-path_example :
    map_mxc_url parse (address (codes "mxc://ab/cd")) (codes "download")
    ≡ some (
        some (record homeserver_url {
          path =
              codes "_matrix/media/r0/"
              ++ (codes "download" ++ (b'/' ∷ (codes "ab" ++ (b'/' ∷ codes "cd"))));
        }))
unfolding is_part no_slash text_eq
map_mxc_url-path_example =
    map_mxc_url-path parse (address (codes "mxc://ab/cd")) (codes "download") (codes "ab")
      (codes "cd") homeserver_url two_split refl refl refl refl refl

to_url-none_iff_example :
    to_url parse (λ u. u.path) (address (codes "http://x")) ≡ none
    ↔ (is_valid (address (codes "http://x")) ≡ false)
to_url-none_iff_example =
    to_url-none_iff parse (λ u. u.path) (address (codes "http://x")) homeserver_url refl
