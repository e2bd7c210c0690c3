-- ===== src/Member.antt =====
-- src/github.com/t3chguy/matrix-static/mxclient/room-member.go, and the struct of mxc.go.
pub mod Roles
use matrix_static.Prelude.{
  ℕ, zero, suc, ◌+◌, ◌-◌, ◌*◌, ◌/◌, ◌%◌, ◌^◌, ◌≤◌, ◌<◌, ◌≡◌, refl, sym, ap, ap₂, ◌∙◌, subst, ◌≢◌,
  ◌↔◌, ◌⊎◌, inl, inr, Bool, true, false, not, ◌&&◌, ◌||◌, Option, none, some, List, [], ◌∷◌, ◌++◌,
  map, reverse, arith, ltb, leb, ◌==◌, if◌then◌else◌, ==_iff, Bool-cases, Option-cases, ◌>>=◌,
  length, get_elem?, take, drop, last?, keep, All, length-append, length-take, length-drop,
  length-keep-le, take-append-drop, drop-drop, take-take_add, drop-append, keep-append, All-append,
  ℤ, pos, negsuc, pos_part, neg_part, sub_ℕ, ◌+ℤ◌, ◌-ℤ◌, ◌*ℤ◌, ◌≤ℤ◌, ◌<ℤ◌, ltb_ℤ, eqb_ℤ, eqb_ℤ_iff,
  IsInt64, wrap64, wrap64_of_IsInt64, wrap64-IsInt64, add64, sub64, mul64, neg64, Text, codes,
  text_eq, text_lt, text_eq_refl, text_eq_iff, text_lt_irrefl, text_lt_trans, text_lt_antisymm,
}
use matrix_static.Sort.{high_to_low}

pub record MxcUrl : Type 0 where
  pub url : Text
  pub homeserver_url : Text

abbrev pub PowerLevel : Type 0
PowerLevel = ℤ

-- `PowerLevel.String`
unfoldable pub power_level_string : PowerLevel → Text
power_level_string power_level =
    if eqb_ℤ power_level (pos 100)
    then codes "Admin"
    else if eqb_ℤ power_level (pos 50)
    then codes "Moderator"
    else if eqb_ℤ power_level (pos 0)
    then codes "User"
    else if eqb_ℤ power_level (negsuc 0)
    then codes "Muted"
    else codes "Custom"

pub record MemberInfo : Type 0 where
  pub mxid : Text
  pub membership : Text
  pub display_name : Text
  pub avatar_url : MxcUrl
  pub power_level : PowerLevel

abbrev pub zero_url : MxcUrl
zero_url = record { url = []; homeserver_url = [] }

-- `NewMemberInfo`; what Go's literal leaves out is the zero value.
unfoldable pub new_member_info : Text → MemberInfo
new_member_info mxid = record {
  mxid = mxid;
  membership = codes "leave";
  display_name = [];
  avatar_url = zero_url;
  power_level = pos 0;
}

-- `MemberInfo.GetName`
unfoldable pub get_name : MemberInfo → Text
get_name info = if text_eq info.display_name [] then info.mxid else info.display_name

-- `MemberList.Less`, of the members at the two indices
unfoldable pub member_less : MemberInfo → MemberInfo → Bool
unfolding get_name
member_less a b =
    if eqb_ℤ a.power_level b.power_level
    then text_lt (get_name a) (get_name b)
    else ltb_ℤ b.power_level a.power_level
