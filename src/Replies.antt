-- ===== src/Replies.antt =====
-- src/github.com/t3chguy/matrix-static/mxclient/utils.go: the order of events on a chat page, and the
-- text of an error of the homeserver.
use mathlib.Core.List.{reverse-append, append-nil, append_assoc}
use matrix_static.Utils.Pages.{take_of_length-le}
use matrix_static.Prelude.{
  ℕ, zero, suc, ◌≤◌, ◌<◌, ◌≡◌, refl, sym, ap, ◌∙◌, Option, none, some, List, [], ◌∷◌, ◌++◌, reverse,
  arith, if◌then◌else◌, ◌>>=◌, length, get_elem?, take, Text, codes, text_eq,
}
use matrix_static.Gomatrix.{Event, GoError, http_error, resp_error, RespError}

-- The loop of `ReverseEventsCopy`, with `i` elements to go; `none` is an index out of range.
unfoldable pub reverse_from : List Event → ℕ → List Event → Option (List Event)
reverse_from events zero new_events = some new_events
reverse_from events (suc i) new_events = do
  event ← get_elem? events i
  reverse_from events i (new_events ++ event ∷ [])

unfoldable pub reverse_events_copy : List Event → Option (List Event)
unfolding reverse_from
reverse_events_copy events = reverse_from events (length events) []

-- `UnwrapRespError`; `none` is the zero value with `false`.
unfoldable pub unwrap_resp_error : GoError → Option RespError
unwrap_resp_error (http_error (resp_error e) message code) = some e
unwrap_resp_error _ = none

-- The one entry of `textForRespError`.
abbrev pub guest_access_forbidden : Text
guest_access_forbidden = codes "M_GUEST_ACCESS_FORBIDDEN"

unfoldable pub text_for_resp_error : RespError → Text
text_for_resp_error resp_err =
    if text_eq guest_access_forbidden resp_err.err_code
    then codes "This Room does not exist or does not permit guests to access it."
    else resp_err.err ++ codes " (" ++ resp_err.err_code ++ codes ")"

get_elem-take :
    (xs : List Event) (i : ℕ)
    → i < length xs
    → (e : Event) × (get_elem? xs i ≡ some e) × (take (suc i) xs ≡ take i xs ++ e ∷ [])
get_elem-take [] i h = absurd (omega arith)
get_elem-take (x ∷ xs) zero h = (x, refl, refl)
get_elem-take (x ∷ xs) (suc i) h =
    let (e, found, split) = get_elem-take xs i (omega arith) in (e, found, ap (◌∷◌ x) split)

reverse_from-eq :
    (events : List Event) (i : ℕ) (new_events : List Event)
    → i ≤ length events
    → reverse_from events i new_events ≡ some (new_events ++ reverse (take i events))
unfolding reverse_from
reverse_from-eq events zero new_events h = ap some (sym (append-nil new_events))
reverse_from-eq events (suc i) new_events h =
    let (e, found, split) = get_elem-take events i (omega arith) in
    rw (found, split, reverse-append (take i events) (e ∷ []))
      (reverse_from-eq events i (new_events ++ e ∷ []) (omega arith)
        ∙ ap some (append_assoc new_events (e ∷ []) (reverse (take i events))))

-- The copy is the reversed list, and no index of the loop is out of range.
pub reverse_events_copy-eq :
    (events : List Event) → reverse_events_copy events ≡ some (reverse events)
unfolding reverse_events_copy
reverse_events_copy-eq events =
    reverse_from-eq events (length events) [] (omega arith)
    ∙ ap (λ l. some (reverse l)) (take_of_length-le (length events) events (omega arith))
