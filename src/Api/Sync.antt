-- ===== src/Api/Sync.antt =====
-- What the policy snapshot of apps/mcp-gateway/app/main.py holds after the start.
use nervora.Base.{
  Option-cases, String, true, false, List, [], ◌∷◌, ◌≡◌, refl, arith, Option, some, inl, inr, ◌==◌,
  eq_iff, Bool-cases, if◌then◌else◌,
}
use nervora.Base.Table.{find, update, has, unique}
use nervora.Audit.Models.{Db, ToolPolicy}
use nervora.Audit.Repository.{upsert_policy}
use nervora.ToolRegistry.Spec.{ToolSpec}
use nervora.Api.Tools.{policy_of, upsert_all}

abbrev pub tool_policy : String → Db → Option ToolPolicy
tool_policy name db = find (λ p. p.tool_name) name db.policies

-- A row put in the place of the one under its key.
find-replace :
    (j : String) (new old : ToolPolicy) (rs : List ToolPolicy)
    → find (λ p. p.tool_name) new.tool_name rs ≡ some old
    → find (λ p. p.tool_name) j (update (λ p. p.tool_name) new.tool_name (λ _. new) rs)
      ≡ (if new.tool_name == j then some new else find (λ p. p.tool_name) j rs)
unfolding find update
find-replace j new old [] e = ground arith
find-replace j new old (r ∷ rs) e = ground (
  arith,
  find-replace j new old rs,
  eq_iff r.tool_name new.tool_name,
  eq_iff r.tool_name j,
  eq_iff new.tool_name j,
)

-- One write, as its own tool and as another sees it.
find-upsert_policy :
    (policy : ToolPolicy) (name : String) (db : Db)
    → tool_policy name (upsert_policy policy db) ≡ (
        if policy.tool_name == name
        then some (record policy { updated_at = db.now })
        else tool_policy name db)
unfolding upsert_policy find
find-upsert_policy policy name db =
    elim (Option-cases (find (λ (p : ToolPolicy). p.tool_name) policy.tool_name db.policies)) [
      | inl e ↦ ground arith
      | inr (old, e) ↦
          rw (e, upsert_policy)
            (find-replace name (record policy { updated_at = db.now }) old db.policies e)
    ]

now-upsert_policy : (policy : ToolPolicy) (db : Db) → (upsert_policy policy db).now ≡ db.now
unfolding upsert_policy
now-upsert_policy policy db = ground arith

-- The row that the tools of a list leave for a name.
name-policy_of : (t : ToolSpec) → (policy_of t).tool_name ≡ t.name
unfolding policy_of
name-policy_of t = refl

tool_policy-upsert_all :
    (specs : List ToolSpec) (name : String) (db : Db)
    → has (λ t. t.name) name specs ≡ false
    → tool_policy name (upsert_all specs db) ≡ tool_policy name db
unfolding upsert_all has
tool_policy-upsert_all [] name db h = refl
tool_policy-upsert_all (t ∷ specs) name db h = ground (
  arith,
  tool_policy-upsert_all specs name (upsert_policy (policy_of t) db),
  find-upsert_policy (policy_of t) name db,
  name-policy_of t,
)

-- If the tools have different names, the snapshot that the loop of `_sync_policies` leaves has,
-- for every tool, the row that its specification says, written now, whatever was there before.
pub upsert_all_current :
    (specs : List ToolSpec) (t : ToolSpec) (db : Db)
    → unique (λ s. s.name) specs ≡ true
    → find (λ s. s.name) t.name specs ≡ some t
    → tool_policy t.name (upsert_all specs db) ≡ some (record (policy_of t) { updated_at = db.now })
unfolding upsert_all unique find has
upsert_all_current [] t db u e = ground arith
upsert_all_current (s ∷ specs) t db u e = elim (Bool-cases (s.name == t.name)) [
  | inl same ↦ ground (
    arith,
    tool_policy-upsert_all specs t.name (upsert_policy (policy_of s) db),
    find-upsert_policy (policy_of s) t.name db,
    name-policy_of s,
    eq_iff s.name t.name,
  )
  | inr other ↦ ground (
    arith,
    upsert_all_current specs t (upsert_policy (policy_of s) db),
    now-upsert_policy (policy_of s) db,
  )
]
