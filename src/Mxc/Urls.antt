-- ===== src/Mxc/Urls.antt =====
-- src/github.com/t3chguy/matrix-static/mxclient/mxc.go: the addresses that an mxc address is turned
-- into. What package net/url does with an address and a query is a parameter.
use matrix_static.Prelude.{
  ◌≡◌, refl, ap, ◌∙◌, ◌↔◌, inl, inr, true, false, Option, none, some, List, [], ◌∷◌, ◌++◌,
  if◌then◌else◌, ◌>>=◌, Bool-cases, ℤ, All, Text, codes, text_eq,
}
use matrix_static.Prelude.Maps.{Map, insert}
use matrix_static.Member.{MxcUrl}
use matrix_static.Utils.Itoa.{itoa}
use matrix_static.Mxc.{split, is_valid}
use matrix_static.Mxc.Paths.{join_path, join_slash, is_part, no_slash, join_path-parts}

-- The part of `url.URL` that the program reads or writes, and the rest of it as it was parsed.
pub record Url : Type 0 where
  pub origin : Text
  pub path : Text
  pub raw_query : Text

-- `url.Values`
abbrev pub Values : Type 0
Values = Map (List Text)

-- `Set`
unfoldable pub set_value : Text → Text → Values → Values
unfolding insert
set_value key value q = insert key (value ∷ []) q

unfoldable pub media_parts : Text → Text → Text → Text → List Text
media_parts base kind server_name media_id =
    base ∷ codes "_matrix" ∷ codes "media" ∷ codes "r0" ∷ kind ∷ server_name ∷ media_id ∷ []

-- The query with the three values that `ToThumbURL` sets.
unfoldable pub thumb_query : (Text → Values) → (Values → Text) → ℤ → ℤ → Text → Text → Text
unfolding set_value itoa
thumb_query query_of encode width height method raw_query = encode (
    set_value (codes "method") method (
      set_value (codes "height") (itoa height)
        (set_value (codes "width") (itoa width) (query_of raw_query))))

module _ (parse_url : Text → Option Url) where
  -- `mapMxcUrl`: a panic, or the address, which is nil for an invalid mxc address.
  unfoldable pub map_mxc_url : MxcUrl → Text → Option (Option Url)
  unfolding split media_parts join_path
  map_mxc_url m kind =
      let (valid, server_name, media_id) = split m in
      if valid
      then (do
        hs_url ← parse_url m.homeserver_url
        some (
            some (record hs_url {
              path = join_path (media_parts hs_url.path kind server_name media_id);
            })))
      else some none

  module _ (url_text : Url → Text) where
    -- `ToURL`; the method of the nil address panics.
    unfoldable pub to_url : MxcUrl → Option Text
    unfolding map_mxc_url
    to_url m = do media_url ← map_mxc_url m (codes "download"); url ← media_url; some (url_text url)

    module _ (query_of : Text → Values) (encode : Values → Text) where
      -- `ToThumbURL`
      unfoldable pub to_thumb_url : MxcUrl → ℤ → ℤ → Text → Option Text
      unfolding map_mxc_url thumb_query
      to_thumb_url m width height method = do
        media_url ← map_mxc_url m (codes "thumbnail")
        elim media_url [
          | none ↦ some []
          | some url ↦ some (
              url_text (record url {
                raw_query = thumb_query query_of encode width height method url.raw_query;
              }))
        ]

-- The parts of a path of the media repository.
media_parts-All :
    (kind server_name media_id : Text)
    → is_part kind ≡ true
    → is_part server_name ≡ true
    → is_part media_id ≡ true
    → All
        (λ p. is_part p ≡ true)
        (codes "_matrix" ∷ codes "media" ∷ codes "r0" ∷ kind ∷ server_name ∷ media_id ∷ [])
unfolding is_part no_slash text_eq
media_parts-All kind server_name media_id k s m = (refl, (refl, (refl, (k, (s, (m, tt))))))

join_path-nil : (ps : List Text) → join_path ([] ∷ ps) ≡ join_path ps
unfolding join_path text_eq
join_path-nil ps = refl

media_path :
    (kind server_name media_id : Text)
    → is_part kind ≡ true
    → is_part server_name ≡ true
    → is_part media_id ≡ true
    → join_path (media_parts [] kind server_name media_id)
      ≡ codes "_matrix/media/r0/" ++ (kind ++ (b'/' ∷ (server_name ++ (b'/' ∷ media_id))))
unfolding media_parts join_slash
media_path kind server_name media_id k s i =
    join_path-nil _ ∙ join_path-parts _ _ (media_parts-All kind server_name media_id k s i)

module _ (parse_url : Text → Option Url) where
  -- The path of a valid mxc address below a homeserver without a path of its own, where its server
  -- name and its media id are elements that need no cleaning: the path that the media repository
  -- documents, and nothing else of the homeserver's address changes.
  pub map_mxc_url-path :
      (m : MxcUrl) (kind server_name media_id : Text) (hs_url : Url)
      → split m ≡ (true, server_name, media_id)
      → parse_url m.homeserver_url ≡ some hs_url
      → hs_url.path ≡ []
      → is_part kind ≡ true
      → is_part server_name ≡ true
      → is_part media_id ≡ true
      → map_mxc_url parse_url m kind
        ≡ some (
            some (record hs_url {
              path =
                  codes "_matrix/media/r0/"
                  ++ (kind ++ (b'/' ∷ (server_name ++ (b'/' ∷ media_id))));
            }))
  unfolding map_mxc_url
  map_mxc_url-path m kind server_name media_id hs_url parts parsed bare k s i =
      rw (parts, parsed)
        (ap
            (λ base. some (
              some
                (record hs_url { path = join_path (media_parts base kind server_name media_id) })))
            bare
          ∙ ap (λ p. some (some (record hs_url { path = p })))
              (media_path kind server_name media_id k s i))

  map_mxc_url-valid :
      (m : MxcUrl) (kind : Text) (hs_url : Url)
      → parse_url m.homeserver_url ≡ some hs_url
      → is_valid m ≡ true
      → (url : Url) × (map_mxc_url parse_url m kind ≡ some (some url))
  unfolding map_mxc_url is_valid
  map_mxc_url-valid m kind hs_url parsed valid = (
    record hs_url { path = join_path (media_parts hs_url.path kind (split m).1 (split m).2) },
    rw (valid, parsed) refl,
  )

  module _ (url_text : Url → Text) where
    -- Where the homeserver's address can be parsed, `ToURL` panics exactly on the mxc addresses that
    -- are not valid.
    pub to_url-none_iff :
        (m : MxcUrl) (hs_url : Url)
        → parse_url m.homeserver_url ≡ some hs_url
        → to_url parse_url url_text m ≡ none ↔ (is_valid m ≡ false)
    unfolding to_url map_mxc_url is_valid
    to_url-none_iff m hs_url parsed = elim (Bool-cases (split m).0) [
      | inl valid ↦ (λ h. absurd (cc (rw (valid, parsed) at h)), λ h. absurd (cc))
      | inr invalid ↦ (λ h. invalid, λ h. rw invalid refl)
    ]

    module _ (query_of : Text → Values) (encode : Values → Text) where
      -- Where the homeserver's address can be parsed, `ToThumbURL` does not panic; the address is the
      -- empty text for an mxc address that is not valid.
      pub to_thumb_url-cases :
          (m : MxcUrl) (width height : ℤ) (method : Text) (hs_url : Url)
          → parse_url m.homeserver_url ≡ some hs_url
          → (text : Text) × (to_thumb_url parse_url url_text query_of encode m width height method
              ≡ some text)
            × (is_valid m ≡ false → text ≡ [])
      unfolding to_thumb_url map_mxc_url is_valid
      to_thumb_url-cases m width height method hs_url parsed = elim (Bool-cases (is_valid m)) [
        | inl valid ↦
            let (url, mapped) = map_mxc_url-valid m (codes "thumbnail") hs_url parsed valid in
            (
              url_text (record url {
                raw_query = thumb_query query_of encode width height method url.raw_query;
              }),
              rw (mapped, to_thumb_url) refl,
              λ h. absurd (cc),
            )
        | inr invalid ↦ ([], rw invalid refl, λ h. refl)
      ]
