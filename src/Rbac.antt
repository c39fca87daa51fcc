-- ===== src/Rbac.antt =====
-- packages/rbac: the agent roles (roles.py) and the decision function (policy.py).
pub mod Decisions
use nervora.Base.{
  String, Bool, true, false, List, [], ◌∷◌, map, if◌then◌else◌, contains, fstring, sorted,
  repr_names,
}

pub data AgentRole : Type 0 where
  hr_agent finance_agent sales_agent admin_agent : AgentRole

-- `r.value`
abbrev pub role_value : AgentRole → String
role_value hr_agent = "hr_agent"
role_value finance_agent = "finance_agent"
role_value sales_agent = "sales_agent"
role_value admin_agent = "admin_agent"

unfoldable pub all_roles : List String
all_roles = map role_value (hr_agent ∷ finance_agent ∷ sales_agent ∷ admin_agent ∷ [])

pub data DecisionReason : Type 0 where
  allowed role_not_permitted unknown_role tool_disabled : DecisionReason

pub record Decision : Type 0 where
  pub allowed : Bool
  pub reason : DecisionReason
  pub detail : String

-- `Decision.code`
unfoldable pub code : Decision → String
code d = elim d.reason [
  | DecisionReason.allowed ↦ "allowed"
  | role_not_permitted ↦ "role_not_permitted"
  | unknown_role ↦ "unknown_role"
  | tool_disabled ↦ "tool_disabled"
]

unfoldable pub evaluate : String → List String → List String → Bool → Decision
evaluate role required_roles known_roles tool_enabled =
    if contains known_roles role
    then (if tool_enabled
        then (if contains required_roles role
            then record { allowed = true; reason = DecisionReason.allowed; detail = "" }
            else record {
              allowed = false;
              reason = role_not_permitted;
              detail = fstring (
                  "role '"
                  ∷ role
                  ∷ "' is not permitted; requires one of "
                  ∷ repr_names (sorted required_roles)
                  ∷ []);
            })
        else record {
          allowed = false;
          reason = tool_disabled;
          detail = "tool is disabled in this environment";
        })
    else record {
      allowed = false;
      reason = unknown_role;
      detail = fstring ("role '" ∷ role ∷ "' is not recognised" ∷ []);
    }
