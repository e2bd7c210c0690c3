-- ===== src/Sanitizer.antt =====
-- src/github.com/t3chguy/matrix-static/sanitizer/sanitizer.go: `Sanitize`, on the tree that package
-- html parses. Parsing, rendering and the policy of package bluemonday are parameters; `none` is a
-- run-time panic.
pub mod Policy
use matrix_static.Prelude.{
  ◌≡◌, refl, Bool, true, false, Option, none, some, List, [], ◌∷◌, ◌>>=◌, Text, codes,
}
use matrix_static.Gomatrix.{Result, ok, err}

-- `html.Node`, by its type and its children.
mutual
  pub data Node : Type 0 where
    document : Nodes → Node
    doctype comment text : Text → Node
    element : Text → Nodes → Node

  pub data Nodes : Type 0 where
    nil : Nodes
    cons : Node → Nodes → Nodes

unfoldable pub children : Node → Nodes
children (document nodes) = nodes
children (doctype name) = nil
children (comment body) = nil
children (text body) = nil
children (element name nodes) = nodes

-- `FirstChild`, which is nil without children; so is `LastChild`.
first_of : Nodes → Option Node
first_of nil = none
first_of (cons node nodes) = some node

unfoldable pub first_child : Node → Option Node
unfolding children first_of
first_child n = first_of (children n)

last_from : Node → Nodes → Node
last_from node nil = node
last_from node (cons next nodes) = last_from next nodes

last_of : Nodes → Option Node
unfolding last_from
last_of nil = none
last_of (cons node nodes) = some (last_from node nodes)

unfoldable pub last_child : Node → Option Node
unfolding children last_of
last_child n = last_of (children n)

module _ (parse : Text → Result Node) (render : Node → Text) (sanitize_bytes : Text → Text) where
  -- `Sanitize`: `FirstChild` of the root panics if it is nil, and so does rendering a nil node.
  unfoldable pub sanitize : Text → Option (Text × Bool)
  unfolding first_child last_child
  sanitize str = elim (parse str) [
    | err e ↦ some ([], false)
    | ok root ↦ do
      first ← first_child root
      last ← last_child first
      some (sanitize_bytes (render last), true)
  ]

-- What the parser may put before the element "html".
pub data Leading : Type 0 where
  a_doctype a_comment : Text → Leading

abbrev pub node_of : Leading → Node
node_of (a_doctype name) = doctype name
node_of (a_comment body) = comment body

-- The children of the root of a parsed document.
unfoldable pub with_leading : List Leading → Nodes → Nodes
with_leading [] nodes = nodes
with_leading (l ∷ leading) nodes = cons (node_of l) (with_leading leading nodes)

-- Of a document whose element "html" has a head and then a body, and nothing after them, the
-- sanitized body is the result if nothing comes before the element "html"; if a comment or a document
-- type does, there is a panic.
pub sanitize-document :
    (parse : Text → Result Node) (render : Node → Text) (sanitize_bytes : Text → Text) (str : Text)
    (leading : List Leading) (head body after : Nodes)
    → parse str
      ≡ ok (
          document (
            with_leading leading (
              cons
                (element
                  (codes "html")
                  (cons (element (codes "head") head) (cons (element (codes "body") body) nil)))
                after)))
    → sanitize parse render sanitize_bytes str ≡ elim leading [
      | [] ↦ some (sanitize_bytes (render (element (codes "body") body)), true)
      | l ∷ ls ↦ none
    ]
unfolding sanitize with_leading
sanitize-document parse render sanitize_bytes str [] head body after parsed =
    rw (parsed, sanitize) refl
sanitize-document parse render sanitize_bytes str (a_doctype d ∷ ls) head body after parsed =
    rw (parsed, sanitize) refl
sanitize-document parse render sanitize_bytes str (a_comment d ∷ ls) head body after parsed =
    rw (parsed, sanitize) refl
