-- ===== src/Mxc/Paths.antt =====
-- `path.Join` of the standard library, with which `mapMxcUrl` builds the path of an address.
use mathlib.Core.List.{reverse_aux, reverse-reverse}
use matrix_static.Prelude.{
  ℕ, ◌≡◌, refl, sym, ap, ◌∙◌, inl, inr, Bool, true, false, not, ◌&&◌, ◌||◌, List, [], ◌∷◌, ◌++◌,
  reverse, ◌==◌, if◌then◌else◌, Bool-cases, All, Text, codes, text_eq,
}

-- `strings.Join` with "/".
unfoldable pub join_slash : List Text → Text
join_slash [] = []
join_slash (p ∷ []) = p
join_slash (p ∷ q ∷ ps) = p ++ (b'/' ∷ join_slash (q ∷ ps))

push_char : ℕ → List Text → List Text
push_char c [] = (c ∷ []) ∷ []
push_char c (p ∷ ps) = (c ∷ p) ∷ ps

-- The elements between the slashes.
split_slash : Text → List Text
unfolding push_char
split_slash [] = [] ∷ []
split_slash (c ∷ s) = let rest = split_slash s in if c == b'/' then [] ∷ rest else push_char c rest

-- `..` takes back the element before it; at the root it is dropped, elsewhere kept.
back : Bool → List Text → List Text
back rooted [] = if rooted then [] else codes ".." ∷ []
back rooted (p ∷ ps) = if text_eq p (codes "..") then codes ".." ∷ p ∷ ps else ps

-- The elements that are left, the last one first.
clean_from : Bool → List Text → List Text → List Text
unfolding back
clean_from rooted stack [] = stack
clean_from rooted stack (p ∷ ps) =
    if text_eq p [] || text_eq p (codes ".")
    then clean_from rooted stack ps
    else if text_eq p (codes "..")
    then clean_from rooted (back rooted stack) ps
    else clean_from rooted (p ∷ stack) ps

is_rooted : Text → Bool
is_rooted [] = false
is_rooted (c ∷ s) = c == b'/'

-- `path.Clean`
unfoldable pub clean : Text → Text
unfolding is_rooted clean_from split_slash join_slash
clean s =
    let out = join_slash (reverse (clean_from (is_rooted s) [] (split_slash s))) in
    if is_rooted s then b'/' ∷ out else if text_eq out [] then codes "." else out

-- `path.Join`
unfoldable pub join_path : List Text → Text
unfolding clean join_slash
join_path [] = []
join_path (p ∷ ps) = if text_eq p [] then join_path ps else clean (join_slash (p ∷ ps))

unfoldable pub no_slash : Text → Bool
no_slash [] = true
no_slash (c ∷ s) = not (c == b'/') && no_slash s

-- An element that `path.Clean` keeps: not empty, without a slash, and neither "." nor "..".
unfoldable pub is_part : Text → Bool
unfolding no_slash
is_part p =
    not (text_eq p []) && not (text_eq p (codes ".")) && not (text_eq p (codes "..")) && no_slash p

split_slash_one : (p : Text) → no_slash p ≡ true → split_slash p ≡ p ∷ []
unfolding no_slash split_slash push_char
split_slash_one [] h = refl
split_slash_one (c ∷ p) h = elim (Bool-cases (c == b'/')) [
  | inl e ↦ absurd (cc (rw (e, no_slash) at h))
  | inr e ↦ rw (e, split_slash_one p (rw (e, no_slash) at h)) refl
]

split_slash_more :
    (p s : Text) → no_slash p ≡ true → split_slash (p ++ (b'/' ∷ s)) ≡ p ∷ split_slash s
unfolding no_slash split_slash push_char
split_slash_more [] s h = refl
split_slash_more (c ∷ p) s h = elim (Bool-cases (c == b'/')) [
  | inl e ↦ absurd (cc (rw (e, no_slash) at h))
  | inr e ↦ rw (e, split_slash_more p s (rw (e, no_slash) at h)) refl
]

-- What the test for a part tells.
record Part (p : Text) : Type 0 where
  some_char : text_eq p [] ≡ false
  no_dot : text_eq p (codes ".") ≡ false
  no_dots : text_eq p (codes "..") ≡ false
  one : no_slash p ≡ true

parts_of :
    (a b c d : Bool)
    → (not a && not b && not c && d) ≡ true
    → (a ≡ false) × (b ≡ false) × (c ≡ false) × (d ≡ true)
parts_of false false false true h = (refl, refl, refl, refl)
parts_of true b c d h = absurd (cc)
parts_of false true c d h = absurd (cc)
parts_of false false true d h = absurd (cc)
parts_of false false false false h = absurd (cc)

is_part-Part : (p : Text) → is_part p ≡ true → Part p
unfolding is_part
is_part-Part p h =
    let (some_char, no_dot, no_dots, one) = parts_of (text_eq p []) _ _ _ h in
    record { some_char = some_char; no_dot = no_dot; no_dots = no_dots; one = one }

clean_from-parts :
    (rooted : Bool) (stack parts : List Text)
    → All (λ p. is_part p ≡ true) parts
    → clean_from rooted stack parts ≡ reverse_aux parts stack
unfolding clean_from
clean_from-parts rooted stack [] h = refl
clean_from-parts rooted stack (p ∷ ps) (h, hs) =
    let part = is_part-Part p h in
    rw (part.some_char, part.no_dot, part.no_dots) (clean_from-parts rooted (p ∷ stack) ps hs)

split_slash-join_slash :
    (p : Text) (ps : List Text)
    → All (λ p. is_part p ≡ true) (p ∷ ps)
    → split_slash (join_slash (p ∷ ps)) ≡ p ∷ ps
unfolding join_slash
split_slash-join_slash p [] (h, tt) = split_slash_one p (is_part-Part p h).one
split_slash-join_slash p (q ∷ ps) (h, hs) =
    split_slash_more p (join_slash (q ∷ ps)) (is_part-Part p h).one
    ∙ ap (◌∷◌ p) (split_slash-join_slash q ps hs)

join_slash-cons :
    (c : ℕ) (p : Text) (ps : List Text) → (s : Text) × (join_slash ((c ∷ p) ∷ ps) ≡ c ∷ s)
unfolding join_slash
join_slash-cons c p [] = (p, refl)
join_slash-cons c p (q ∷ ps) = (p ++ (b'/' ∷ join_slash (q ∷ ps)), refl)

-- The parts of a text that does not begin with a slash are what `path.Clean` puts together again.
clean_of_parts :
    (t : Text) (parts : List Text)
    → is_rooted t ≡ false
    → text_eq t [] ≡ false
    → split_slash t ≡ parts
    → All (λ p. is_part p ≡ true) parts
    → join_slash parts ≡ t
    → clean t ≡ t
unfolding clean
clean_of_parts t parts first some_char whole h joined =
    let out : join_slash (reverse (clean_from (is_rooted t) [] (split_slash t))) ≡ t =
      rw (first, whole, clean_from-parts false [] parts h, reverse-reverse parts) joined in
    rw (out, first, some_char) refl

not_slash : (c : ℕ) (p : Text) → no_slash (c ∷ p) ≡ true → (c == b'/') ≡ false
unfolding no_slash
not_slash c p h = elim (Bool-cases (c == b'/')) [
  | inl e ↦ absurd (cc (rw (e, no_slash) at h))
  | inr e ↦ e
]

-- Elements that need no cleaning are joined with slashes.
pub join_path-parts :
    (p : Text) (ps : List Text)
    → All (λ p. is_part p ≡ true) (p ∷ ps)
    → join_path (p ∷ ps) ≡ join_slash (p ∷ ps)
unfolding join_path is_part is_rooted text_eq
join_path-parts [] ps (h, hs) = absurd (cc)
join_path-parts (c ∷ p) ps h =
    let (s, e) = join_slash-cons c p ps in
    let whole : split_slash (c ∷ s) ≡ (c ∷ p) ∷ ps =
      ap split_slash (sym e) ∙ split_slash-join_slash (c ∷ p) ps h in
    let first : (c == b'/') ≡ false = not_slash c p (is_part-Part (c ∷ p) h.0).one in
    ap clean e ∙ clean_of_parts (c ∷ s) ((c ∷ p) ∷ ps) first refl whole h e ∙ sym e
