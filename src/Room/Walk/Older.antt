-- ===== src/Room/Walk/Older.antt =====
-- Following the links to the older events, from a page of the timeline on.
use matrix_static.Prelude.{false, text_eq, [], ◌∷◌, ◌≡◌, refl, List, Text}
use matrix_static.Gomatrix.{Event}
use matrix_static.Timeline.{Room}
use matrix_static.Site.{page_anchor}

-- The links keep the anchor that a request names.
pub page_anchor_given :
    (anchor : Text) (events : List Event)
    → text_eq anchor [] ≡ false
    → page_anchor anchor events ≡ anchor
unfolding page_anchor
page_anchor_given anchor [] given = refl
page_anchor_given anchor (e ∷ events) given = rw given refl
