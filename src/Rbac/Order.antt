-- ===== src/Rbac/Order.antt =====
-- src/lib/rbac/index.ts: the roles form a chain.
use headtower.Prelude.{ℕ, ◌≤◌, ◌≡◌, ◌↔◌, refl, true, arith}
use headtower.Rbac.{
  Role, owner, admin, operator, viewer, Capability, members_manage, can, holds, capability_map,
}

-- The place of a role in `ROLES`.
abbrev pub rank : Role → ℕ
rank owner = 0
rank admin = 1
rank operator = 2
rank viewer = 3

viewer_operator : (c : Capability) → can viewer c ≡ true → can operator c ≡ true
unfolding can capability_map holds
viewer_operator members_manage e = cc
viewer_operator _ e = ground arith

operator_admin : (c : Capability) → can operator c ≡ true → can admin c ≡ true
unfolding can capability_map holds
operator_admin members_manage e = cc
operator_admin _ e = ground arith

-- The owner may do everything.
owner_all : (c : Capability) → can owner c ≡ true
unfolding can capability_map holds
owner_all members_manage = refl
owner_all _ = refl

-- A role that stands earlier in the list of roles may do all that a later one may.
pub can_mono : (r s : Role) (c : Capability) → rank r ≤ rank s → can s c ≡ true → can r c ≡ true
can_mono owner s c h e = owner_all c
can_mono admin owner c h e = absurd (omega arith)
can_mono admin admin c h e = e
can_mono admin operator c h e = operator_admin c e
can_mono admin viewer c h e = operator_admin c (viewer_operator c e)
can_mono operator operator c h e = e
can_mono operator viewer c h e = viewer_operator c e
can_mono operator _ c h e = absurd (omega arith)
can_mono viewer viewer c h e = e
can_mono viewer _ c h e = absurd (omega arith)

-- Only the owner manages members, and every other capability is an admin's.
pub members_manage_iff : (r : Role) → (can r members_manage ≡ true) ↔ (r ≡ owner)
unfolding can capability_map holds
members_manage_iff owner = ground arith
members_manage_iff _ = ground arith
