-- ===== src/State/Recalculate/Servers.antt =====
-- The server list: sorted, exact, and independent of the order in which Go visits its maps.
use mathlib.Core.List.{
  Pairwise, Mem, Nodup, Perm, mem-map, mem-map_of_mem, perm_ext_iff_of_Nodup, Nodup-nil,
}
use mathlib.Core.List.Perm
use mathlib.Core.List.Pairwise
use mathlib.Core.Logic.{∥∥₁_elim}
use mathlib.Core.HLevel.{×_prop}
use native.Mathlib.Bridge.{le_prop}
use native.Mathlib.Nat.{ℕ_set}
use matrix_static.Prelude.{
  ℕ, ◌<◌, ◌≡◌, refl, ap, subst, false, List, [], ◌∷◌, map, arith, ℤ, pos, Text,
}
use matrix_static.Prelude.Maps.{Map, keys}
use matrix_static.Prelude.Maps.Laws.{lookup_of_mem, mem_of_lookup}
use matrix_static.Member.{MemberInfo}
use matrix_static.Sort.{Sorter, IsSorted, high_to_low_tie}
use matrix_static.Sort.Unique.{IsSorted-eq_of_perm}
use matrix_static.State.{ServerUserCount}
use matrix_static.State.Recalculate.{count_servers, server_less, server_counts}
use matrix_static.State.Recalculate.Counts.{
  users_on, users_on-perm, lookup-counts, count_servers-IsMap, server_less-IsStrictWeak,
}

abbrev entry : Text × ℕ → ServerUserCount
entry e = record { server_name = e.0; num_users = pos e.1 }

ℤ-set : IsSet ℤ
ℤ-set = hlevel ℕ_set

map-server_name : (m : Map ℕ) → map (λ r. r.server_name) (map entry m) ≡ keys m
map-server_name [] = refl
map-server_name (e ∷ m) = ap (◌∷◌ e.0) (map-server_name m)

-- Servers that the order does not tell apart are one entry.
server_less_tie :
    (a b : ServerUserCount) → server_less a b ≡ false → server_less b a ≡ false → a ≡ b
unfolding server_less
server_less_tie a b h k =
    let (n, s) =
      high_to_low_tie (λ (a : ServerUserCount). a.num_users)
        (λ (a : ServerUserCount). a.server_name) a b h k in
    cc

module _ (sorter : Sorter) (joined : List (Text × MemberInfo)) where
  abbrev counts : Map ℕ
  counts = count_servers joined []

  counts-perm : Perm (server_counts sorter joined) (map entry counts)
  unfolding server_counts
  counts-perm = sorter.sort-perm ServerUserCount server_less _

  pub server_counts-IsSorted : IsSorted server_less (server_counts sorter joined)
  unfolding server_counts
  server_counts-IsSorted =
      sorter.sort-IsSorted ServerUserCount server_less server_less-IsStrictWeak _

  names-Nodup : Nodup (map (λ r. r.server_name) (server_counts sorter joined))
  names-Nodup =
      (Perm.Nodup-iff (Perm.map (λ (r : ServerUserCount). r.server_name) counts-perm)).1
        (rw (map-server_name counts) (count_servers-IsMap joined [] Nodup-nil tt).0)

  pub server_counts-Nodup : Nodup (server_counts sorter joined)
  server_counts-Nodup =
      Pairwise.of_map (λ (r : ServerUserCount). r.server_name)
        (λ a b h e. h (ap (λ (r : ServerUserCount). r.server_name) e)) names-Nodup

  listed→counted :
      (r : ServerUserCount)
      → Mem r (server_counts sorter joined)
      → (r.num_users ≡ pos (users_on r.server_name joined)) × (0 < users_on r.server_name joined)
  listed→counted r m =
      ∥∥₁_elim (mem-map.0 ((Perm.mem_iff counts-perm).0 m)) (×_prop (ℤ-set _ _) le_prop)
        (λ (e, k, q).
          let found =
            lookup_of_mem ℕ_set e.0 e.1 counts (count_servers-IsMap joined [] Nodup-nil tt).0 k in
          let (same, some_user) = (lookup-counts e.0 e.1 joined).0 found in
          subst
            (λ r.
              (r.num_users ≡ pos (users_on r.server_name joined))
              × (0 < users_on r.server_name joined))
            q (ap pos same, omega arith))

  counted→listed :
      (r : ServerUserCount)
      → (r.num_users ≡ pos (users_on r.server_name joined)) × (0 < users_on r.server_name joined)
      → Mem r (server_counts sorter joined)
  counted→listed r (q, h) =
      let n = users_on r.server_name joined in
      let found = (lookup-counts r.server_name n joined).1 (refl, h) in
      let here = mem-map_of_mem entry (mem_of_lookup r.server_name counts found) in
      let same : r ≡ entry (r.server_name, n) = cc in rw same ((Perm.mem_iff counts-perm).1 here)

-- The server list depends on which members have joined, and not on the order in which the loop over
-- the member map meets them.
pub server_counts_of_perm :
    (sorter : Sorter) (l r : List (Text × MemberInfo))
    → Perm l r
    → server_counts sorter l ≡ server_counts sorter r
server_counts_of_perm sorter l r p =
    IsSorted-eq_of_perm server_less server_less-IsStrictWeak (λ a b _ _. server_less_tie a b)
      (server_counts-IsSorted sorter l) (server_counts-IsSorted sorter r)
      ((perm_ext_iff_of_Nodup (server_counts-Nodup sorter l) (server_counts-Nodup sorter r)).1 λ e.
        (
          λ m. counted→listed sorter r e (transfer e p (listed→counted sorter l e m)),
          λ m. counted→listed sorter l e (transfer e (Perm.symm p) (listed→counted sorter r e m)),
        ))
  where
    transfer :
        (e : ServerUserCount) {l r : List (Text × MemberInfo)}
        → Perm l r
        → (e.num_users ≡ pos (users_on e.server_name l)) × (0 < users_on e.server_name l)
        → (e.num_users ≡ pos (users_on e.server_name r)) × (0 < users_on e.server_name r)
    transfer e {l} {r} q h = rw (users_on-perm e.server_name l r q) at h
