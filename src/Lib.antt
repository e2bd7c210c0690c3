-- ===== src/Lib.antt =====
-- A model of matrix-static, the server that shows Matrix rooms as static pages, and what holds of it.
--
-- The program is in src/github.com/t3chguy/matrix-static. It keeps loaded rooms in memory, spread over
-- workers: `GetWorkerForRoomID` (workers.go) picks a worker by the hash of the room id, the HTTP
-- handlers of matrix-static.go send it jobs (job-room-*.go), and a job reads or extends a `Room`
-- (mxclient/room.go) with the `RoomState` in it (mxclient/room-state.go). A room is loaded by an
-- initial sync; a request for older events may back-paginate it, and a job every two minutes
-- forward-paginates every room and discards those not accessed for half an hour. The list of public
-- rooms (mxclient/public-rooms.go) stands beside that.
--
-- Which file models what:
--   Prelude       lists over native numbers, the machine integer `int` with its wrap-around, strings
--                 as lists of bytes, and Go maps as association lists
--   Utils         utils/utils.go, and the slice expressions that its results go into (`page_of`)
--   Sort          the contract of `sort.Sort` as a record, and an instance for tests
--   Gomatrix      the values of the gomatrix library that the program reads
--   Member        mxclient/room-member.go
--   State         mxclient/room-state.go: `UpdateOnEvent` in State/Update, the recalculation of the
--                 lists in State/Recalculate; State/History is the abstract view of a state, by the
--                 last event of each kind
--   Timeline      `ShouldHideEvent`, `NewRoom` and the two paginations of mxclient; Timeline/History
--                 relates the rooms that they make to the abstract view
--   Room          `GetEventPage` and what it calls; Room/Walk the links to older and newer events in
--                 templates/room-chat.qtpl, and what following them shows
--   Worker        the jobs, each from the worker's map of rooms to the response; Worker/Pool has the
--                 choice of the worker and the pool as it changes, Worker/Channels the channels
--                 `Queue` and `Output` of one worker with the handlers that use them, Worker/Fresh
--                 any jobs one after the other
--   Site          the routes of matrix-static.go: from the address and its query, over the initial sync
--                 and the job of the route, to the page; Site/Server is `main`: the start, any
--                 sequence of requests, reloads of the list and rounds of the paginator, and the
--                 state that they share; Site/Links the link "Next Page" of the templates
--   PublicRooms   mxclient/public-rooms.go
--   Replies       the rest of mxclient/utils.go
--   Mxc           mxclient/mxc.go, with the regular expression; Mxc/Paths is `path.Join`
--   Config        `NewRawClient` and `NewClient` of mxclient/mxclient.go, and the command
--                 cmd/register-guest
--   Requests      `RoomInitialSync` and `GetRoomDirectoryAlias` of mxclient/mxclient.go
--   Sanitizer     sanitizer/sanitizer.go: `Sanitize`, and in Sanitizer/Policy the settings that
--                 `InitSanitizer` makes
--   Tests         each theorem of the list below that has hypotheses, applied to a concrete case
--
-- A Go name in camel case is the same name in snake case here. State is passed explicitly: a method
-- that changes its receiver returns it. `none` stands for a run-time panic where a comment says so.
-- A Go map is a list of entries with distinct keys (`IsMap`), and what the program reads off a map in
-- an unspecified order is stated up to permutation, or is shown not to depend on it. A pointer to a
-- member is the key under which the map holds the member. `int` is 64 bits wide, with wrap-around; the
-- theorems name the sums and products that must fit. All loops run over a list or a number that gets
-- smaller, except those of a visitor who follows links: these run on fuel, the number of pages, and
-- a theorem says how many pages are enough.
--
-- Parameters: `sort.Sort` (a `Sorter`, which need not be stable), `json.Unmarshal` and `json.Marshal`,
-- the answers of the homeserver, the time, the addresses and queries of net/url, the client of the
-- package gomatrix, the parser and the renderer of package html, and the policy of package bluemonday.
-- A file that can be opened can be written. An answer of the homeserver is an error or a value of the
-- type that is asked for. The JSON value `null` leaves a nil pointer that the program goes on with: it
-- is an answer to a request for the directory, where it panics, and not to one for events or for an
-- initial sync. `ToThumbURL` is a parameter of the list of public rooms, with its panic; Mxc/Urls has
-- it over the parameters of net/url. A panic in a handler is recovered, as `gin.Recovery` does, and
-- leaves the server running; one in a worker or a timer ends it.
--
-- The hash of a room id is written out in Worker/Pool/Hash; where no more is needed of it than that it
-- is a number, it is a parameter.
--
-- Not modelled: the templates but for their links, logging, the parsing of the command line, the
-- router, the page cache and the drawing of avatars, which are I/O or calls of libraries; what package
-- bluemonday does with the policy; and the libraries under vendor. A request runs its two jobs with
-- nothing in between in Site, and the timers fire between requests there; other jobs may come between
-- the two in Worker/Channels, Worker/Fresh and Worker/Pool.
pub mod Prelude
pub mod Utils
pub mod Sort
pub mod Gomatrix
pub mod Member
pub mod State
pub mod Timeline
pub mod Room
pub mod Worker
pub mod PublicRooms
pub mod Config
pub mod Sanitizer
pub mod Requests
pub mod Site
pub mod Replies
pub mod Mxc
pub mod Tests
