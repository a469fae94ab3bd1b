-- ===== src/Security/Permissions/Status.antt =====
-- What the lists of security/permissions.go stand for: one status of each permission.
use tracklogic_agent.Common.{
  ◌≡◌, refl, ap, Bool, true, false, ◌∙◌, Text, text_eq, List, [], ◌∷◌, Option, none, some,
  if◌then◌else◌, lookup, insert, lookup-insert, lookup-erase, arith, Dict,
}
use tracklogic_agent.Interaction.{member}
use tracklogic_agent.Security.Permissions.{
  ListPermissionManager, new_permission_manager, Refusal, explicitly_denied, not_granted, holds,
  allow_one, deny_one, allow_all, deny_all, check, role_defaults, grant_all, set_role,
}

pub data Status : Type 0 where
  granted denied unset : Status

-- An operation of the manager.
pub data Operation : Type 0 where
  allow deny : List Text → Operation
  become : Text → Operation

abbrev pub perform : Operation → ListPermissionManager → ListPermissionManager
perform (allow ps) m = allow_all ps m
perform (deny ps) m = deny_all ps m
perform (become role) m = set_role role m

abbrev pub perform_all : List Operation → ListPermissionManager → ListPermissionManager
perform_all [] m = m
perform_all (o ∷ os) m = perform_all os (perform o m)

-- What an operation makes of the status of one permission.
abbrev pub revise : Text → Operation → Status → Status
revise p (allow ps) s = if member p ps then granted else s
revise p (deny ps) s = if member p ps then denied else s
revise p (become role) s = if member p (role_defaults role) then granted else unset

abbrev pub revise_all : Text → List Operation → Status → Status
revise_all p [] s = s
revise_all p (o ∷ os) s = revise_all p os (revise p o s)

abbrev pub verdict : Status → Option Refusal
verdict granted = none
verdict denied = some explicitly_denied
verdict unset = some not_granted

-- The status that the two lists give a permission.
abbrev status_from : Bool → Bool → Status
status_from true a = denied
status_from false true = granted
status_from false false = unset

pub status_of : Text → ListPermissionManager → Status
status_of p m = status_from (holds (lookup p m.deny_list)) (holds (lookup p m.allow_list))

check-status_of : (p : Text) (m : ListPermissionManager) → check p m ≡ verdict (status_of p m)
unfolding check status_of
check-status_of p m = ground arith

allow_one-status_of :
    (p q : Text) (m : ListPermissionManager)
    → status_of p (allow_one q m) ≡ (if text_eq q p then granted else status_of p m)
unfolding allow_one status_of
allow_one-status_of p q m =
    ground (arith, lookup-insert q p true m.allow_list, lookup-erase q p m.deny_list)

deny_one-status_of :
    (p q : Text) (m : ListPermissionManager)
    → status_of p (deny_one q m) ≡ (if text_eq q p then denied else status_of p m)
unfolding deny_one status_of
deny_one-status_of p q m =
    ground (arith, lookup-insert q p true m.deny_list, lookup-erase q p m.allow_list)

allow_all-status_of :
    (p : Text) (ps : List Text) (m : ListPermissionManager)
    → status_of p (allow_all ps m) ≡ (if member p ps then granted else status_of p m)
unfolding allow_all member
allow_all-status_of p [] m = refl
allow_all-status_of p (q ∷ ps) m =
    ground (arith, allow_all-status_of p ps (allow_one q m), allow_one-status_of p q m)

deny_all-status_of :
    (p : Text) (ps : List Text) (m : ListPermissionManager)
    → status_of p (deny_all ps m) ≡ (if member p ps then denied else status_of p m)
unfolding deny_all member
deny_all-status_of p [] m = refl
deny_all-status_of p (q ∷ ps) m =
    ground (arith, deny_all-status_of p ps (deny_one q m), deny_one-status_of p q m)

lookup-grant_all :
    (p : Text) (ps : List Text) (d : Dict Bool)
    → holds (lookup p (grant_all ps d)) ≡ (if member p ps then true else holds (lookup p d))
unfolding grant_all member
lookup-grant_all p [] d = refl
lookup-grant_all p (q ∷ ps) d =
    ground (arith, lookup-grant_all p ps (insert q true d), lookup-insert q p true d)

set_role-status_of :
    (p role : Text) (m : ListPermissionManager)
    → status_of p (set_role role m) ≡ (if member p (role_defaults role) then granted else unset)
unfolding set_role status_of lookup
set_role-status_of p role m = ground (arith, lookup-grant_all p (role_defaults role) [])

perform-status_of :
    (p : Text) (o : Operation) (m : ListPermissionManager)
    → status_of p (perform o m) ≡ revise p o (status_of p m)
perform-status_of p (allow ps) m = allow_all-status_of p ps m
perform-status_of p (deny ps) m = deny_all-status_of p ps m
perform-status_of p (become role) m = set_role-status_of p role m

perform_all-status_of :
    (p : Text) (os : List Operation) (m : ListPermissionManager)
    → status_of p (perform_all os m) ≡ revise_all p os (status_of p m)
perform_all-status_of p [] m = refl
perform_all-status_of p (o ∷ os) m =
    perform_all-status_of p os (perform o m) ∙ ap (revise_all p os) (perform-status_of p o m)

-- The two lists implement one status for each permission: after any operations on a new manager, a
-- check gives the verdict of the status that the operations on that permission left, where allowing
-- and denying set it and a role sets every permission to its default.
pub check-perform_all :
    (p : Text) (os : List Operation)
    → check p (perform_all os new_permission_manager) ≡ verdict (revise_all p os unset)
unfolding status_of lookup
check-perform_all p os =
    check-status_of p (perform_all os new_permission_manager)
    ∙ ap verdict (perform_all-status_of p os new_permission_manager)
