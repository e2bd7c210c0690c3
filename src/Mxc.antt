-- ===== src/Mxc.antt =====
-- src/github.com/t3chguy/matrix-static/mxclient/mxc.go: the parts of an mxc address. The regular
-- expression `mxc://(.+?)/(.+?)(?:#.+)?$` is written out as a matcher that tries its choices in the
-- order of package regexp: the leftmost match, and the shortest lazy group first.
pub mod Paths
pub mod Urls
use matrix_static.Prelude.{
  ℕ, ◌≡◌, refl, Bool, true, false, not, ◌&&◌, Option, none, some, [], ◌∷◌, ◌++◌, ◌==◌,
  if◌then◌else◌, ◌>>=◌, All, Text, codes,
}
use matrix_static.Member.{MxcUrl}

-- `.` does not match a line feed.
unfoldable pub is_dot : ℕ → Bool
is_dot c = not (c == 10)

unfoldable pub all_dots : Text → Bool
unfolding is_dot
all_dots [] = true
all_dots (c ∷ s) = is_dot c && all_dots s

-- Whether `(?:#.+)?$` matches.
unfoldable pub at_end : Text → Bool
unfolding is_dot all_dots
at_end [] = true
at_end (c ∷ []) = false
at_end (c ∷ d ∷ s) = (c == b'#') && is_dot d && all_dots s

-- The second group.
unfoldable pub media_id : Text → Option Text
unfolding is_dot at_end
media_id [] = none
media_id (c ∷ s) =
    let rest = media_id s in
    if is_dot c then (if at_end s then some (c ∷ []) else rest >>= λ m. some (c ∷ m)) else none

unfoldable pub after_slash : Text → Option Text
unfolding media_id
after_slash [] = none
after_slash (c ∷ s) = if c == b'/' then media_id s else none

-- The first group, with what the second one is then.
unfoldable pub server_and_media : Text → Option (Text × Text)
unfolding is_dot after_slash
server_and_media [] = none
server_and_media (c ∷ s) =
    let rest = server_and_media s in
    if is_dot c
    then elim (after_slash s) [
      | some m ↦ some (c ∷ [], m)
      | none ↦ rest >>= λ p. some (c ∷ p.0, p.1)
    ]
    else none

unfoldable pub strip_prefix : Text → Text → Option Text
strip_prefix [] s = some s
strip_prefix (p ∷ ps) [] = none
strip_prefix (p ∷ ps) (c ∷ s) = if p == c then strip_prefix ps s else none

-- `FindStringSubmatch`
unfoldable pub find_string_submatch : Text → Option (Text × Text)
unfolding strip_prefix server_and_media
find_string_submatch [] = none
find_string_submatch (c ∷ s) =
    let rest = find_string_submatch s in
    elim (strip_prefix (codes "mxc://") (c ∷ s) >>= server_and_media) [
      | some p ↦ some p
      | none ↦ rest
    ]

unfoldable pub split : MxcUrl → Bool × Text × Text
unfolding find_string_submatch
split m = elim (find_string_submatch m.url) [ none ↦ (false, [], []) | some p ↦ (true, p.0, p.1) ]

-- `IsValid`
unfoldable pub is_valid : MxcUrl → Bool
unfolding split
is_valid m = (split m).0

-- Text without a line feed and without the character.
abbrev pub Plain : ℕ → Text → Type 0
Plain mark = All (λ c. (is_dot c ≡ true) × ((c == mark) ≡ false))

media_id-Plain : (c : ℕ) (s : Text) → Plain b'#' (c ∷ s) → media_id (c ∷ s) ≡ some (c ∷ s)
unfolding media_id at_end
media_id-Plain c [] ((dot, _), tt) = rw dot refl
media_id-Plain c (d ∷ []) ((dot, _), later) = rw (dot, media_id-Plain d [] later) refl
media_id-Plain c (d ∷ e ∷ s) ((dot, _), later) =
    rw (dot, later.0.1, media_id-Plain d (e ∷ s) later) refl

server_and_media-Plain :
    (c : ℕ) (server media : Text)
    → Plain b'/' (c ∷ server)
    → {m : Text} → media_id media ≡ some m
    → server_and_media ((c ∷ server) ++ (b'/' ∷ media)) ≡ some (c ∷ server, m)
unfolding server_and_media after_slash
server_and_media-Plain c [] media ((dot, _), tt) h = rw (dot, h) refl
server_and_media-Plain c (d ∷ server) media ((dot, _), later) h =
    rw (dot, later.0.1, server_and_media-Plain d server media later h) refl

find_at_scheme :
    (t : Text) {p : Text × Text}
    → server_and_media t ≡ some p
    → find_string_submatch (codes "mxc://" ++ t) ≡ some p
unfolding find_string_submatch strip_prefix
find_at_scheme t h = rw (h, find_string_submatch) refl

-- The address that is put together of a server name without a slash and a media id without a number
-- sign, neither of them empty or with a line feed, is split into these two.
pub split-mxc :
    (c d : ℕ) (server media base_url : Text)
    → Plain b'/' (c ∷ server)
    → Plain b'#' (d ∷ media)
    → split (record {
      url = codes "mxc://" ++ ((c ∷ server) ++ (b'/' ∷ d ∷ media));
      homeserver_url = base_url;
    })
      ≡ (true, c ∷ server, d ∷ media)
unfolding split
split-mxc c d server media base_url plain_server plain_media =
    let parts =
      server_and_media-Plain c server (d ∷ media) plain_server
        (media_id-Plain d media plain_media) in
    rw (find_at_scheme ((c ∷ server) ++ (b'/' ∷ d ∷ media)) parts, split) refl

media_id-fragment :
    (c : ℕ) (s : Text) (f : ℕ) (fragment : Text)
    → Plain b'#' (c ∷ s)
    → is_dot f ≡ true
    → all_dots fragment ≡ true
    → media_id ((c ∷ s) ++ (b'#' ∷ f ∷ fragment)) ≡ some (c ∷ s)
unfolding media_id at_end
media_id-fragment c [] f fragment ((dot, _), tt) h k = rw (dot, h, k) refl
media_id-fragment c (d ∷ []) f fragment ((dot, _), later) h k =
    rw (dot, later.0.1, media_id-fragment d [] f fragment later h k) refl
media_id-fragment c (d ∷ e ∷ s) f fragment ((dot, _), later) h k =
    rw (dot, later.0.1, media_id-fragment d (e ∷ s) f fragment later h k) refl

-- A number sign and text without a line feed behind such an address change nothing.
pub split-mxc_fragment :
    (c d f : ℕ) (server media fragment base_url : Text)
    → Plain b'/' (c ∷ server)
    → Plain b'#' (d ∷ media)
    → is_dot f ≡ true
    → all_dots fragment ≡ true
    → split (record {
      url = codes "mxc://" ++ ((c ∷ server) ++ (b'/' ∷ ((d ∷ media) ++ (b'#' ∷ f ∷ fragment))));
      homeserver_url = base_url;
    })
      ≡ (true, c ∷ server, d ∷ media)
unfolding split
split-mxc_fragment c d f server media fragment base_url plain_server plain_media h k =
    let parts =
      server_and_media-Plain c server ((d ∷ media) ++ (b'#' ∷ f ∷ fragment)) plain_server
        (media_id-fragment d media f fragment plain_media h k) in
    rw
      (
        find_at_scheme ((c ∷ server) ++ (b'/' ∷ ((d ∷ media) ++ (b'#' ∷ f ∷ fragment)))) parts,
        split,
      )
      refl
