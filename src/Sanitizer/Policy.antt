-- ===== src/Sanitizer/Policy.antt =====
-- src/github.com/t3chguy/matrix-static/sanitizer/sanitizer.go: `InitSanitizer`, as the calls that set up
-- the policy; what package bluemonday does with the policy is not modelled.
pub mod Safe
use matrix_static.Prelude.{
  ◌≡◌, refl, inl, inr, Bool, true, false, not, ◌==◌, ◌&&◌, Bool-cases, List, [], ◌∷◌, All,
  if◌then◌else◌, Text, codes, text_eq, text_eq_iff, subst,
}

-- `AllowAttrs(attributes...).OnElements(elements...)`
pub record AttributeRule : Type 0 where
  pub attributes : List Text
  pub elements : List Text

-- `bluemonday.Policy`, by what the calls give it.
pub record Policy : Type 0 where
  pub elements : List Text
  pub attribute_rules : List AttributeRule
  pub url_schemes : List Text
  pub target_blank_to_fully_qualified_links : Bool
  pub space_when_stripping_tag : Bool

unfoldable pub init_sanitizer : Policy
init_sanitizer = record {
  elements =
      codes "font"
      ∷ codes "del"
      ∷ codes "h1"
      ∷ codes "h2"
      ∷ codes "h3"
      ∷ codes "h4"
      ∷ codes "h5"
      ∷ codes "h6"
      ∷ codes "blockquote"
      ∷ codes "p"
      ∷ codes "a"
      ∷ codes "ul"
      ∷ codes "ol"
      ∷ codes "nl"
      ∷ codes "li"
      ∷ codes "b"
      ∷ codes "i"
      ∷ codes "u"
      ∷ codes "strong"
      ∷ codes "em"
      ∷ codes "strike"
      ∷ codes "code"
      ∷ codes "hr"
      ∷ codes "br"
      ∷ codes "div"
      ∷ codes "table"
      ∷ codes "thead"
      ∷ codes "caption"
      ∷ codes "tbody"
      ∷ codes "tr"
      ∷ codes "th"
      ∷ codes "td"
      ∷ codes "pre"
      ∷ codes "span"
      ∷ [];
  attribute_rules =
      record {
        attributes = codes "color" ∷ codes "data-mx-bg-color" ∷ codes "data-mx-color" ∷ [];
        elements = codes "font" ∷ [];
      }
      ∷ record {
        attributes = codes "data-mx-bg-color" ∷ codes "data-mx-color" ∷ [];
        elements = codes "span" ∷ [];
      }
      ∷ record {
        attributes = codes "href" ∷ codes "name" ∷ codes "targetPretty" ∷ codes "rel" ∷ [];
        elements = codes "a" ∷ [];
      }
      ∷ [];
  url_schemes = codes "http" ∷ codes "https" ∷ codes "ftp" ∷ codes "mailto" ∷ [];
  target_blank_to_fully_qualified_links = true;
  space_when_stripping_tag = true;
}

-- Whether one of the texts is the given one.
unfoldable pub contains : List Text → Text → Bool
contains [] t = false
contains (s ∷ list) t = if text_eq s t then true else contains list t

-- Whether a rule lets the attribute through on the element.
unfoldable pub allows_attribute : List AttributeRule → Text → Text → Bool
unfolding contains
allows_attribute [] element attribute = false
allows_attribute (rule ∷ rules) element attribute =
    if contains rule.elements element
    then (if contains rule.attributes attribute
        then true
        else allows_attribute rules element attribute)
    else allows_attribute rules element attribute
