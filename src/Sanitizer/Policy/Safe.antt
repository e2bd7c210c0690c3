-- ===== src/Sanitizer/Policy/Safe.antt =====
-- What the policy lets through: nothing that runs a script, loads something or styles an element.
use matrix_static.Prelude.{
  ◌≡◌, refl, inl, inr, Bool, true, false, not, ◌==◌, ◌&&◌, Bool-cases, List, [], ◌∷◌, All,
  if◌then◌else◌, Text, codes, text_eq, text_eq_iff, subst,
}
use matrix_static.Sanitizer.Policy.{AttributeRule, init_sanitizer, contains, allows_attribute}

contains-All :
    (P : Text → Type 0) (list : List Text) (t : Text) → All P list → contains list t ≡ true → P t
unfolding contains
contains-All P [] t h found = absurd (cc)
contains-All P (s ∷ list) t (p, h) found = elim (Bool-cases (text_eq s t)) [
  | inl e ↦ subst P ((text_eq_iff s t).0 e) p
  | inr e ↦ contains-All P list t h (rw e at found)
]

allows_attribute-All :
    (P Q : Text → Type 0) (rules : List AttributeRule) (element attribute : Text)
    → All (λ (rule : AttributeRule). All P rule.elements × All Q rule.attributes) rules
    → allows_attribute rules element attribute ≡ true
    → P element × Q attribute
unfolding allows_attribute
allows_attribute-All P Q [] element attribute h allowed = absurd (cc)
allows_attribute-All P Q (rule ∷ rules) element attribute ((p, q), h) allowed =
    elim (Bool-cases (contains rule.elements element)) [
      | inr e ↦ allows_attribute-All P Q rules element attribute h (rw e at allowed)
      | inl e ↦ elim (Bool-cases (contains rule.attributes attribute)) [
        | inl e' ↦ (
          contains-All P rule.elements element p e,
          contains-All Q rule.attributes attribute q e',
        )
        | inr e' ↦ allows_attribute-All P Q rules element attribute h (rw (e, e') at allowed)
      ]
    ]

unfoldable all_of : (Text → Bool) → List Text → Bool
all_of p [] = true
all_of p (s ∷ list) = if p s then all_of p list else false

all_of-All :
    (p : Text → Bool) (list : List Text) → all_of p list ≡ true → All (λ s. p s ≡ true) list
unfolding all_of
all_of-All p [] h = tt
all_of-All p (s ∷ list) h = elim (Bool-cases (p s)) [
  | inl e ↦ (e, all_of-All p list (rw e at h))
  | inr e ↦ absurd (cc (rw e at h))
]

-- Elements that run a script, load something, take input or change how the page is read.
abbrev pub active_elements : List Text
active_elements =
    codes "script"
    ∷ codes "style"
    ∷ codes "iframe"
    ∷ codes "object"
    ∷ codes "embed"
    ∷ codes "img"
    ∷ codes "video"
    ∷ codes "audio"
    ∷ codes "svg"
    ∷ codes "math"
    ∷ codes "form"
    ∷ codes "input"
    ∷ codes "button"
    ∷ codes "link"
    ∷ codes "meta"
    ∷ codes "base"
    ∷ []

-- Attributes that load something or style the element.
abbrev pub active_attributes : List Text
active_attributes =
    codes "src"
    ∷ codes "srcset"
    ∷ codes "srcdoc"
    ∷ codes "style"
    ∷ codes "action"
    ∷ codes "formaction"
    ∷ codes "background"
    ∷ codes "data"
    ∷ []

-- Whether the name is that of an event handler: "on", and then the event.
abbrev pub is_handler : Text → Bool
is_handler (c ∷ d ∷ name) = c == b'o' && d == b'n'
is_handler _ = false

-- Whether the policy has the element, but as no active one.
unfoldable is_safe_element : Text → Bool
unfolding init_sanitizer contains
is_safe_element element =
    contains init_sanitizer.elements element && not (contains active_elements element)

unfoldable is_safe_attribute : Text → Bool
unfolding contains
is_safe_attribute attribute =
    not (contains active_attributes attribute) && not (is_handler attribute)

&&-true : (a b : Bool) → (a && b) ≡ true → (a ≡ true) × (b ≡ true)
&&-true true b h = (refl, h)
&&-true false b h = absurd (cc)

not-true : (b : Bool) → not b ≡ true → b ≡ false
not-true true h = absurd (cc)
not-true false h = refl

safe_elements : all_of is_safe_element init_sanitizer.elements ≡ true
unfolding all_of is_safe_element init_sanitizer contains text_eq
safe_elements = refl

rules_are_safe :
    All
      (λ (rule : AttributeRule).
        All (λ s. is_safe_element s ≡ true) rule.elements
        × All (λ s. is_safe_attribute s ≡ true) rule.attributes)
      init_sanitizer.attribute_rules
unfolding is_safe_element is_safe_attribute init_sanitizer contains text_eq
rules_are_safe = (
  ((refl, tt), (refl, (refl, (refl, tt)))),
  (((refl, tt), (refl, (refl, tt))), (((refl, tt), (refl, (refl, (refl, (refl, tt))))), tt)),
)

-- An element that the policy has is not an active one: it runs no script, loads nothing, takes no
-- input and does not change how the page is read.
pub init_sanitizer-elements :
    (element : Text)
    → contains init_sanitizer.elements element ≡ true
    → contains active_elements element ≡ false
unfolding is_safe_element
init_sanitizer-elements element found =
    let safe =
      contains-All (λ s. is_safe_element s ≡ true) init_sanitizer.elements element
        (all_of-All is_safe_element init_sanitizer.elements safe_elements) found in
    not-true _ (&&-true (contains init_sanitizer.elements element) _ safe).1

-- An attribute that the policy lets through on an element is no event handler, and none that loads
-- something or styles the element; the element is one that the policy has, and not an active one.
pub init_sanitizer-attributes :
    (element attribute : Text)
    → allows_attribute init_sanitizer.attribute_rules element attribute ≡ true
    → (contains init_sanitizer.elements element ≡ true)
      × (contains active_elements element ≡ false)
      × (contains active_attributes attribute ≡ false)
      × (is_handler attribute ≡ false)
unfolding is_safe_element is_safe_attribute
init_sanitizer-attributes element attribute allowed =
    let (of_element, of_attribute) =
      allows_attribute-All (λ s. is_safe_element s ≡ true) (λ s. is_safe_attribute s ≡ true)
        init_sanitizer.attribute_rules element attribute rules_are_safe allowed in
    let (has, safe) = &&-true (contains init_sanitizer.elements element) _ of_element in
    let (quiet, handles) = &&-true (not (contains active_attributes attribute)) _ of_attribute in
    (has, not-true _ safe, not-true _ quiet, not-true _ handles)
