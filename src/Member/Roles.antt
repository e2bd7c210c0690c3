-- ===== src/Member/Roles.antt =====
-- The order of room-member.go, by which member lists are sorted.
use matrix_static.Prelude.{◌≡◌, false}
use matrix_static.Sort.{IsStrictWeak, high_to_low-IsStrictWeak, high_to_low_tie}
use matrix_static.Member.{MemberInfo, get_name, member_less}

-- `Less` of the member list is a strict weak order, which sort.Sort asks for.
pub member_less-IsStrictWeak : IsStrictWeak member_less
unfolding member_less
member_less-IsStrictWeak = high_to_low-IsStrictWeak (λ (a : MemberInfo). a.power_level) get_name

-- Members that `Less` does not tell apart share the power level and the name that is shown.
pub member_less_tie :
    (a b : MemberInfo)
    → member_less a b ≡ false
    → member_less b a ≡ false
    → (a.power_level ≡ b.power_level) × (get_name a ≡ get_name b)
unfolding member_less
member_less_tie a b h k = high_to_low_tie (λ (a : MemberInfo). a.power_level) get_name a b h k
