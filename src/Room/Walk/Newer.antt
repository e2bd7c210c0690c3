-- ===== src/Room/Walk/Newer.antt =====
-- Following the links to the newer events, from a full page of the timeline on.
use matrix_static.Prelude.{false, false}
use matrix_static.Timeline.{Room}
