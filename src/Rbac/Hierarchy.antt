-- ===== src/Rbac/Hierarchy.antt =====
-- What the hierarchy of roles in rbacService.js promises.
use hybrid_quantum_cryptogra.Prelude.{◌≡◌, refl, true, false, Option, [], ◌∷◌, arith}
use hybrid_quantum_cryptogra.Js.{Text, get_property, ok, text_lt}
use hybrid_quantum_cryptogra.Rbac.{
  role_permissions, has_permission, Level, number, object, hierarchy, get_role_level, level_gt,
  has_higher_privilege,
}

text_lt_irrefl : (s : Text) → text_lt s s ≡ false
unfolding text_lt
text_lt_irrefl [] = refl
text_lt_irrefl (c ∷ s) = ground (arith, text_lt_irrefl s)

text_lt_trans : (s t u : Text) → text_lt s t ≡ true → text_lt t u ≡ true → text_lt s u ≡ true
unfolding text_lt
text_lt_trans [] [] u h k = cc
text_lt_trans [] (d ∷ t) [] h k = cc
text_lt_trans [] (d ∷ t) (e ∷ u) h k = refl
text_lt_trans (c ∷ s) [] u h k = cc
text_lt_trans (c ∷ s) (d ∷ t) [] h k = cc
text_lt_trans (c ∷ s) (d ∷ t) (e ∷ u) h k = ground (arith, text_lt_trans s t u)

level_gt_irrefl : (a : Level) → level_gt a a ≡ false
unfolding level_gt
level_gt_irrefl (number n) = ground arith
level_gt_irrefl (object s) = text_lt_irrefl s

level_gt_trans : (a b c : Level) → level_gt a b ≡ true → level_gt b c ≡ true → level_gt a c ≡ true
unfolding level_gt
level_gt_trans (number a) (number b) (number c) h k = ground arith
level_gt_trans (object a) (object b) (object c) h k = text_lt_trans c b a k h
level_gt_trans (number a) (object b) c h k = cc
level_gt_trans (object a) (number b) c h k = cc
level_gt_trans (number a) (number b) (object c) h k = cc
level_gt_trans (object a) (object b) (number c) h k = cc

-- "Has higher privilege" is a strict order on the names of roles, unknown ones and those that name
-- a property of `Object.prototype` included: no role is above itself, and a role that is above a
-- second one, which is above a third one, is above the third one.
pub has_higher_privilege_order :
    (role1 role2 role3 : Option Text)
    → has_higher_privilege role1 role2 ≡ true
    → has_higher_privilege role2 role3 ≡ true
    → (has_higher_privilege role1 role3 ≡ true) × (has_higher_privilege role1 role1 ≡ false)
unfolding has_higher_privilege
has_higher_privilege_order role1 role2 role3 h k = (
  level_gt_trans (get_role_level role1) (get_role_level role2) (get_role_level role3) h k,
  level_gt_irrefl (get_role_level role1),
)

-- The two tables agree: a role of level 0 is one that the table of permissions does not hold, so
-- every check of a permission fails for it.
pub get_role_level-zero :
    (role : Option Text) (name : Text)
    → get_role_level role ≡ number 0
    → has_permission role name ≡ ok false
unfolding get_role_level has_permission hierarchy role_permissions get_property
get_role_level-zero role name h = ground arith
