-- ===== src/Api/Approvals.antt =====
-- What `approve` of apps/mcp-gateway/app/main.py does on every branch, and what it lets through the
-- gate of destructive tools.
use nervora.Base.{
  Bool-cases, ◌⊎◌, String, true, ◌∷◌, ◌≡◌, ◌≢◌, ◌↔◌, refl, arith, none, some, inl, inr, ◌==◌,
  eq_iff, Option-cases,
}
use nervora.Base.Table.{find-update, find-key, unique-update}
use nervora.Json.{Dict, get, as_text}
use nervora.Auth.Identity.{Principal}
use nervora.Audit.Models.{Db, Approval}
use nervora.Audit.Repository.{get_approval, set_approval, record_event}
use nervora.Audit.Session.{session_scope, integrity}
use nervora.Gateway.Gate.{NamesApproved}
use nervora.Api.Records.{replied, http_error, approve, approve_body, mark_approved, approval_event}

module _ (p : Principal) (id : String) (db : Db) where
  abbrev after : Approval → Db
  after a = record_event (approval_event p a id) (set_approval a.approval_id (mark_approved p) db)

  after-integrity : (a : Approval) → integrity db ≡ true → integrity (after a) ≡ true
  unfolding integrity record_event set_approval
  after-integrity a h = ground (
    arith,
    unique-update (λ (q : Approval). q.approval_id) (mark_approved p)
        (λ q. unfold mark_approved in refl) a.approval_id db.approvals,
  )

  get_approval-after :
      (a : Approval)
      → get_approval id db ≡ some a
      → get_approval id (after a) ≡ some (mark_approved p a)
  unfolding get_approval record_event set_approval
  get_approval-after a e = ground (
    arith,
    find-key (λ (q : Approval). q.approval_id) id db.approvals a e,
    find-update (λ (q : Approval). q.approval_id) (mark_approved p)
        (λ q. unfold mark_approved in refl) id a.approval_id db.approvals,
    eq_iff a.approval_id id,
  )

  -- The approval of an admin.
  approve_done :
      (a : Approval)
      → integrity db ≡ true
      → p.role ≡ "admin_agent"
      → get_approval id db ≡ some a
      → approve p id db ≡ (some (replied (approve_body p id)), after a)
  unfolding approve session_scope
  approve_done a h role e = ground (arith, after-integrity a h, eq_iff p.role "admin_agent")

  approve_not_admin :
      p.role ≢ "admin_agent"
      → approve p id db ≡ (some (http_error 403 "only the admin_agent role may approve"), db)
  unfolding approve
  approve_not_admin ne = ground (arith, eq_iff p.role "admin_agent")

  approve_unknown :
      p.role ≡ "admin_agent"
      → get_approval id db ≡ none
      → approve p id db ≡ (some (http_error 404 "approval not found"), db)
  unfolding approve
  approve_unknown role e = ground (arith, eq_iff p.role "admin_agent")

  -- If the database is within its constraints, `approve` is granted exactly to an admin, for an
  -- approval that is in the table. Where it is not granted, the database stays as it was.
  pub approve_iff :
      integrity db ≡ true
      → (((approve p id db).0 ≡ some (replied (approve_body p id)))
          ↔ ((p.role ≡ "admin_agent") × (a : Approval) × (get_approval id db ≡ some a)))
        × (((approve p id db).0 ≡ some (replied (approve_body p id))) ⊎ ((approve p id db).1 ≡ db))
  approve_iff h = elim (Bool-cases (p.role == "admin_agent")) [
    | inr e ↦
        let ne : p.role ≢ "admin_agent" = (λ h'. ground (arith, eq_iff p.role "admin_agent")) in
        rw (approve_not_admin ne) ((λ x. cc x, λ x. absurd (ne x.0)), inr refl)
    | inl e ↦ elim (Option-cases (get_approval id db)) [
      | inl missing ↦
          rw (approve_unknown ((eq_iff p.role "admin_agent").0 e) missing)
            ((λ x. cc x, λ (role, a, found). cc (found, missing)), inr refl)
      | inr (a, found) ↦
          let role = (eq_iff p.role "admin_agent").0 e in
          rw (approve_done a h role found) ((λ x. (role, a, found), λ x. refl), inl refl)
    ]
  ]

  -- If the database is within its constraints, an approval under an id that is not empty, which
  -- an admin has approved, opens the gate of the destructive tools to arguments that name it,
  -- whatever status it had before, also one that an execution has consumed; and one event is
  -- added.
  pub approve-NamesApproved :
      (a : Approval) (args : Dict)
      → integrity db ≡ true
      → p.role ≡ "admin_agent"
      → id ≢ ""
      → get_approval id db ≡ some a
      → as_text (get args "approved_change_id") ≡ some id
      → NamesApproved args (approve p id db).1
        × ((approve p id db).1.events
            ≡ record (approval_event p a id) { created_at = db.now } ∷ db.events)
  unfolding record_event set_approval
  approve-NamesApproved a args h role ne e named = rw (approve_done a h role e) (
    (id, mark_approved p a, named, ne, get_approval-after a e, unfold mark_approved in refl),
    refl,
  )
