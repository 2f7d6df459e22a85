-- ===== src/Rbac/Permissions.antt =====
-- What the client-side permission check of rbacService.js promises.
use hybrid_quantum_cryptogra.Prelude.{
  ◌≡◌, refl, ◌≢◌, ◌↔◌, true, not, ◌&&◌, Option, some, List, arith, every, Bool-cases, inl, inr,
}
use hybrid_quantum_cryptogra.Js.{
  Text, lit, text_eq, Property, Property-cases, includes, to_lower_case, to_lower_case_idem,
  or_empty, own, inherited, absent, get_property, object_prototype_keys, own_every,
  get_property-inherited, get_property-ne-inherited, ok, throw, type_error,
}
use hybrid_quantum_cryptogra.Rbac.{role_permissions, permitted, has_permission}

permitted_both :
    (key a b : Text)
    → every (λ entry. not (includes entry.1 a && includes entry.1 b)) role_permissions ≡ true
    → permitted (get_property key role_permissions) a ≡ ok true
    → permitted (get_property key role_permissions) b ≢ ok true
unfolding permitted
permitted_both key a b table h k = elim (Property-cases (get_property key role_permissions)) [
  | inl (permissions, e) ↦ ground (
    arith,
    own_every (λ (p : List Text). not (includes p a && includes p b)) key role_permissions
        {v = permissions} table e,
  )
  | inr (inl e) ↦ ground arith
  | inr (inr e) ↦ ground arith
]

permitted-throw :
    (found : Property (List Text)) (name : Text)
    → found ≢ inherited
    → permitted found name ≢ throw type_error
unfolding permitted
permitted-throw (own permissions) name h e = cc
permitted-throw inherited name h e = h refl
permitted-throw absent name h e = cc

creation_separated :
    every
      (λ entry. not (
        includes entry.1 (lit "create_transaction")
        && includes entry.1 (lit "approve_transaction")))
      role_permissions
    ≡ true
unfolding every role_permissions includes text_eq lit
creation_separated = refl

keys_not_inherited :
    every (λ entry. not (includes object_prototype_keys entry.0)) role_permissions ≡ true
unfolding every role_permissions object_prototype_keys includes text_eq lit
keys_not_inherited = refl

-- No role may both create a transaction and approve one, however its name is spelled.
create-approve_exclusive :
    (role : Option Text)
    → has_permission role (lit "create_transaction") ≡ ok true
    → has_permission role (lit "approve_transaction") ≢ ok true
unfolding has_permission
create-approve_exclusive role h = permitted_both _ _ _ creation_separated h

-- The case in which a role is written does not matter.
pub has_permission-to_lower_case :
    (role name : Text)
    → has_permission (some (to_lower_case role)) name ≡ has_permission (some role) name
unfolding has_permission or_empty
has_permission-to_lower_case role name = rw to_lower_case_idem

-- A check of a permission throws a `TypeError` exactly for a role that, put in lower case, is the name of
-- a property of `Object.prototype`: the table then gives a value that has no `includes`. So `CONSTRUCTOR`
-- throws, and `toString`, whose lower case is no such name, does not.
pub has_permission-eq-throw_iff :
    (role : Option Text) (name : Text)
    → (has_permission role name ≡ throw type_error)
      ↔ (includes object_prototype_keys (to_lower_case (or_empty role)) ≡ true)
unfolding has_permission
has_permission-eq-throw_iff role name =
    let key = to_lower_case (or_empty role) in
    (
      λ e. elim (Bool-cases (includes object_prototype_keys key)) [
        | inl found ↦ found
        | inr free ↦
            absurd (permitted-throw _ name (get_property-ne-inherited key role_permissions free) e)
      ],
      λ e. rw (get_property-inherited key role_permissions keys_not_inherited e, permitted),
    )
