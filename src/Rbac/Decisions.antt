-- ===== src/Rbac/Decisions.antt =====
-- What `evaluate` of packages/rbac/policy.py decides, against membership in the role lists.
use nervora.Base.{
  String, Bool, true, false, List, ◌≡◌, ◌↔◌, arith, Member, contains→Member, Member→contains,
}
use nervora.Rbac.{evaluate, role_not_permitted, unknown_role, tool_disabled}

module _ (role : String) (required known : List String) (enabled : Bool) where
  -- A role may use a tool exactly when it is a known role, the tool is enabled, and the tool lists
  -- the role: nothing else grants access.
  pub evaluate-allowed_iff :
      ((evaluate role required known enabled).allowed ≡ true)
      ↔ (Member role known × (enabled ≡ true) × Member role required)
  unfolding evaluate
  evaluate-allowed_iff = ground (
    arith,
    contains→Member role known,
    contains→Member role required,
    Member→contains role known,
    Member→contains role required,
  )

  -- The reason names the first test that fails: an unknown role, then a disabled tool, then a role
  -- that the tool does not list.
  pub evaluate-reason_iff :
      (((evaluate role required known enabled).reason ≡ unknown_role) ↔ (¬ Member role known))
      × (((evaluate role required known enabled).reason ≡ tool_disabled)
          ↔ (Member role known × (enabled ≡ false)))
      × (((evaluate role required known enabled).reason ≡ role_not_permitted)
          ↔ (Member role known × (enabled ≡ true) × ¬ Member role required))
  unfolding evaluate
  evaluate-reason_iff = ground (
    arith,
    contains→Member role known,
    contains→Member role required,
    Member→contains role known,
    Member→contains role required,
  )
