-- ===== src/State/Recalculate/Counts.antt =====
-- The counts of users by server, and the server list.
use mathlib.Core.List.{Nodup-nil, Perm, Permᴰ}
use mathlib.Core.Logic.{∥∥₁_elim}
use native.Mathlib.Nat.{ℕ_set}
use matrix_static.Prelude.{
  ℕ, ◌+◌, ◌<◌, ◌≡◌, false, ◌==◌, ◌++◌, refl, ap, ◌∙◌, ◌↔◌, inl, inr, Option, none, some, List, [],
  ◌∷◌, arith, if◌then◌else◌, Bool-cases, Option-cases, All, Text, text_eq, text_eq_refl,
  text_eq_iff,
}
use matrix_static.Prelude.Maps.{Map, lookup, insert, lookup-insert, lookup-insert_self}
use matrix_static.Prelude.Maps.Laws.{IsMap, insert-IsMap}
use matrix_static.Member.{MemberInfo}
use matrix_static.Sort.{IsStrictWeak, high_to_low-IsStrictWeak}
use matrix_static.State.{ServerUserCount}
use matrix_static.State.Update.{get_or}
use matrix_static.State.Recalculate.{server_of, count_server, count_servers, server_less}

-- The server of an id is what stands behind its first colon.
pub server_of-colon :
    (name server : Text)
    → All (λ c. (c == b':') ≡ false) name
    → server_of (name ++ b':' ∷ server) ≡ some server
unfolding server_of
server_of-colon [] server h = refl
server_of-colon (c ∷ name) server (p, h) = rw p (server_of-colon name server h)

pub server_of-no_colon : (name : Text) → All (λ c. (c == b':') ≡ false) name → server_of name ≡ none
unfolding server_of
server_of-no_colon [] h = refl
server_of-no_colon (c ∷ name) (p, h) = rw p (server_of-no_colon name h)

-- 1 if the id is on the server.
on_server : Text → Option Text → ℕ
on_server server none = 0
on_server server (some s) = if text_eq s server then 1 else 0

-- How many of the members have an id on the server.
unfoldable pub users_on : Text → List (Text × MemberInfo) → ℕ
unfolding on_server
users_on server [] = 0
users_on server (e ∷ es) = on_server server (server_of e.1.mxid) + users_on server es

lookup-count_server :
    (server : Text) (o : Option Text) (counts : Map ℕ)
    → get_or (lookup server (count_server o counts)) 0
      ≡ get_or (lookup server counts) 0 + on_server server o
unfolding count_server get_or on_server
lookup-count_server server none counts = omega arith
lookup-count_server server (some s) counts = elim (Bool-cases (text_eq s server)) [
  | inl e ↦ rw ((text_eq_iff s server).0 e, lookup-insert_self, text_eq_refl)
  | inr e ↦ rw (lookup-insert s server _ counts, e) (omega arith)
]

lookup-count_servers :
    (server : Text) (es : List (Text × MemberInfo)) (counts : Map ℕ)
    → get_or (lookup server (count_servers es counts)) 0
      ≡ get_or (lookup server counts) 0 + users_on server es
unfolding count_servers users_on
lookup-count_servers server [] counts = omega arith
lookup-count_servers server (e ∷ es) counts = omega (
  arith,
  lookup-count_servers server es (count_server (server_of e.1.mxid) counts),
  lookup-count_server server (server_of e.1.mxid) counts,
)

-- A server that is listed has a user.
abbrev pub Positive : Map ℕ → Type 0
Positive = All (λ e. 0 < e.1)

insert-Positive : (k : Text) (n : ℕ) (m : Map ℕ) → 0 < n → Positive m → Positive (insert k n m)
unfolding insert
insert-Positive k n [] h p = (h, tt)
insert-Positive k n ((i, w) ∷ m) h (q, p) = elim (Bool-cases (text_eq i k)) [
  | inl e ↦ rw e (h, p)
  | inr e ↦ rw e (q, insert-Positive k n m h p)
]

lookup-Positive : (k : Text) (m : Map ℕ) {n : ℕ} → Positive m → lookup k m ≡ some n → 0 < n
unfolding lookup
lookup-Positive k [] p h = absurd (cc)
lookup-Positive k ((i, w) ∷ m) {n} (q, p) h = elim (Bool-cases (text_eq i k)) [
  | inl e ↦ let found : some w ≡ some n = rw e at h in let value : w ≡ n = cc in omega arith
  | inr e ↦ lookup-Positive k m p (rw e at h)
]

pub count_servers-IsMap :
    (es : List (Text × MemberInfo)) (counts : Map ℕ)
    → IsMap counts
    → Positive counts
    → IsMap (count_servers es counts) × Positive (count_servers es counts)
unfolding count_servers
count_servers-IsMap [] counts h p = (h, p)
count_servers-IsMap (e ∷ es) counts h p =
    let (h', p') = once (server_of e.1.mxid) in count_servers-IsMap es _ h' p'
  where
    once : (o : Option Text) → IsMap (count_server o counts) × Positive (count_server o counts)
    once none = unfold count_server in (h, p)
    once (some s) =
        unfold count_server in
        (insert-IsMap s _ counts h, insert-Positive s _ counts (omega arith) p)

pub server_less-IsStrictWeak : IsStrictWeak server_less
unfolding server_less
server_less-IsStrictWeak =
    high_to_low-IsStrictWeak (λ (a : ServerUserCount). a.num_users)
      (λ (a : ServerUserCount). a.server_name)

-- The counts of the loop are the numbers of users; a server without users is not in the map.
pub lookup-counts :
    (server : Text) (n : ℕ) (es : List (Text × MemberInfo))
    → (lookup server (count_servers es []) ≡ some n) ↔ ((n ≡ users_on server es) × (0 < n))
unfolding get_or
lookup-counts server n es = elim (Option-cases (lookup server counts)) [
  | inl e ↦ (λ h. cc, λ (p, q). absurd (omega (arith, total, rw e at total)))
  | inr (k, e) ↦ (
    λ h. (cc (rw h at total), lookup-Positive server counts valid.1 h),
    λ (p, q). cc (rw e at total),
  )
]
  where
    counts : Map ℕ
    counts = count_servers es []

    valid : IsMap counts × Positive counts
    valid = count_servers-IsMap es [] Nodup-nil tt

    total : get_or (lookup server counts) 0 ≡ users_on server es
    total = lookup-count_servers server es [] ∙ unfold lookup in omega arith

users_onᴰ :
    (server : Text) {l r : List (Text × MemberInfo)}
    → Permᴰ l r
    → users_on server l ≡ users_on server r
unfolding users_on
users_onᴰ server Permᴰ.nil = refl
users_onᴰ server (Permᴰ.cons e p) = omega (
  arith,
  users_onᴰ server p,
  ap (λ (t : Text × MemberInfo). on_server server (server_of t.1.mxid)) e,
)
users_onᴰ server (Permᴰ.swap e f) =
    let on : Text × MemberInfo → ℕ = λ t. on_server server (server_of t.1.mxid) in
    omega (arith, ap on e, ap on f)
users_onᴰ server (Permᴰ.trans p q) = users_onᴰ server p ∙ users_onᴰ server q

-- The number of users does not depend on the order of the members.
pub users_on-perm :
    (server : Text) (l r : List (Text × MemberInfo))
    → Perm l r
    → users_on server l ≡ users_on server r
users_on-perm server l r p = ∥∥₁_elim p (ℕ_set _ _) (users_onᴰ server)
