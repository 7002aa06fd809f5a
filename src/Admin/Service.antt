-- ===== src/Admin/Service.antt =====
-- apps/api/src/modules/admin/admin.service.ts. `contains` is the database's search for a part of a text
-- without regard to case, and `id_before` its order on identifiers. A list returns its rows: the columns
-- of a row that are only passed on are left out, and times stay numbers.
use eventory.Common.{
  ℕ, Bool, true, false, ◌&&◌, ◌||◌, not, Option, none, some, List, [], ◌∷◌, ltb, nat_beq,
  if◌then◌else◌, ◌==◌, nat_eq, is_none, get_or, Text, codes, text_eq, is_empty, trim, find_by,
  update_where, count_by,
}
use eventory.Errors.{
  Code, conflict, not_found, internal, Result, ok, ◌>>=◌, ◌>>◌, throw_if, or_throw,
}
use eventory.Domain.{UserRole, UserStatus, EventStatus, ReconciliationStatus}
use eventory.Paging.{Page, safe_page, safe_page_size, list_page}
use eventory.Identity.Service.{RefreshToken}

pub record AdminUser : Type 0 where
  pub id : Text
  pub email : Text
  pub display_name : Text
  pub role : UserRole
  pub status : UserStatus
  pub created_at : ℕ

pub record Organization : Type 0 where
  pub id : Text
  pub name : Text
  pub slug : Text
  pub owner_id : Text
  pub created_at : ℕ

pub record AdminEvent : Type 0 where
  pub id : Text
  pub organization_id : Text
  pub name : Text
  pub slug : Text
  pub status : EventStatus
  pub start_at : ℕ
  pub end_at : ℕ
  pub created_at : ℕ

pub record AuditLog : Type 0 where
  pub id : Text
  pub action : Text
  pub resource_type : Text
  pub resource_id : Text
  pub actor_user_id : Option Text
  pub created_at : ℕ

-- A case with what is read of its payment and its booking.
pub record PaymentReconciliation : Type 0 where
  pub id : Text
  pub payment_id : Text
  pub provider_event_id : Text
  pub reason : Text
  pub status : ReconciliationStatus
  pub resolution : Option Text
  pub created_at : ℕ
  pub resolved_at : Option ℕ
  pub booking_public_code : Text

pub record AdminDb : Type 0 where
  pub users : List AdminUser
  pub organizations : List Organization
  pub events : List AdminEvent
  pub reconciliations : List PaymentReconciliation
  pub refresh_tokens : List RefreshToken
  pub audit_logs : List AuditLog

pub record PageInput : Type 0 where
  pub page : Option ℕ
  pub page_size : Option ℕ
  pub search : Option Text

-- `search ? … : {}`, for the search without the white space around it
abbrev pub matches_search : Option Text → (Text → Bool) → Bool
matches_search search test = let term = trim (get_or search []) in is_empty term || test term

abbrev pub same_event_status : EventStatus → EventStatus → Bool
same_event_status EventStatus.draft EventStatus.draft = true
same_event_status EventStatus.published EventStatus.published = true
same_event_status EventStatus.sales_open EventStatus.sales_open = true
same_event_status EventStatus.sales_closed EventStatus.sales_closed = true
same_event_status EventStatus.ongoing EventStatus.ongoing = true
same_event_status EventStatus.completed EventStatus.completed = true
same_event_status EventStatus.cancelled EventStatus.cancelled = true
same_event_status _ _ = false

abbrev pub is_open_case : ReconciliationStatus → Bool
is_open_case ReconciliationStatus.open_case = true
is_open_case ReconciliationStatus.resolved = false

abbrev pub same_case_status : ReconciliationStatus → ReconciliationStatus → Bool
same_case_status ReconciliationStatus.open_case s = is_open_case s
same_case_status ReconciliationStatus.resolved s = not (is_open_case s)

module _ (contains id_before : Text → Text → Bool) where
  -- `orderBy: [{ createdAt: 'desc' }, { id: 'desc' }]`, on the two columns
  abbrev pub newest : ℕ → Text → ℕ → Text → Bool
  newest at id at' id' = ltb at' at || nat_beq at at' && id_before id' id

  abbrev pub oldest : ℕ → Text → ℕ → Text → Bool
  oldest at id at' id' = ltb at at' || nat_beq at at' && id_before id id'

  unfoldable pub list_users : PageInput → List AdminUser → Page AdminUser
  list_users input users =
      list_page
        (λ u.
          matches_search input.search λ term. contains u.email term || contains u.display_name term)
        (λ a b. newest a.created_at a.id b.created_at b.id) (safe_page input.page)
        (safe_page_size input.page_size) users

  unfoldable pub list_organizations : PageInput → List Organization → Page Organization
  list_organizations input organizations =
      list_page
        (λ o. matches_search input.search λ term. contains o.name term || contains o.slug term)
        (λ a b. newest a.created_at a.id b.created_at b.id) (safe_page input.page)
        (safe_page_size input.page_size) organizations

  unfoldable pub list_events : Option EventStatus → PageInput → List AdminEvent → Page AdminEvent
  list_events status input events =
      list_page
        (λ e.
          elim status [ none ↦ true | some s ↦ same_event_status e.status s ]
          && matches_search input.search λ term. contains e.name term || contains e.slug term)
        (λ a b. newest a.created_at a.id b.created_at b.id) (safe_page input.page)
        (safe_page_size input.page_size) events

  unfoldable pub list_audit_logs : PageInput → List AuditLog → Page AuditLog
  list_audit_logs input logs =
      list_page (λ l. matches_search input.search λ term. contains l.action term)
        (λ a b. newest a.created_at a.id b.created_at b.id) (safe_page input.page)
        (safe_page_size input.page_size) logs

  -- The cases come with the oldest first.
  unfoldable pub list_payment_reconciliations :
      Option ReconciliationStatus
      → PageInput
      → List PaymentReconciliation
      → Page PaymentReconciliation
  list_payment_reconciliations status input cases =
      list_page
        (λ c.
          elim status [ none ↦ true | some s ↦ same_case_status c.status s ]
          && matches_search input.search λ term.
            contains c.provider_event_id term
            || (contains c.reason term || contains c.booking_public_code term))
        (λ a b. oldest a.created_at a.id b.created_at b.id) (safe_page input.page)
        (safe_page_size input.page_size) cases

abbrev pub is_admin_user : Text → AdminUser → Bool
is_admin_user id u = u.id == id

abbrev pub is_suspended : UserStatus → Bool
is_suspended UserStatus.suspended = true
is_suspended UserStatus.active = false

-- `where: { userId, revokedAt: null }`
abbrev pub is_live_of : Text → RefreshToken → Bool
is_live_of user_id t = t.user_id == user_id && is_none t.revoked_at

-- The action that is recorded: `ADMIN_USER_${status}`.
abbrev pub status_action : UserStatus → Text
status_action UserStatus.active = codes "ADMIN_USER_ACTIVE"
status_action UserStatus.suspended = codes "ADMIN_USER_SUSPENDED"

abbrev pub log_entry : Text → ℕ → Text → Text → Text → Text → AuditLog
log_entry fresh now action resource_type resource_id actor = record {
  id = fresh;
  action = action;
  resource_type = resource_type;
  resource_id = resource_id;
  actor_user_id = some actor;
  created_at = now;
}

-- The writes of `updateUserStatus`.
unfoldable pub moderated : Text → ℕ → Text → Text → UserStatus → AdminDb → AdminDb
moderated fresh now target actor status db = record db {
  users = update_where (is_admin_user target) (λ u. record u { status = status }) db.users;
  refresh_tokens =
      if is_suspended status
      then update_where (is_live_of target) (λ t. record t { revoked_at = some now })
          db.refresh_tokens
      else db.refresh_tokens;
  audit_logs =
      log_entry fresh now (status_action status) (codes "User") target actor ∷ db.audit_logs;
}

unfoldable pub update_user_status : Text → ℕ → Text → Text → UserStatus → AdminDb → Result AdminDb
update_user_status fresh now target actor status db = do
  throw_if (target == actor) (conflict Code.admin_self_moderation_denied)
  _ ← or_throw (find_by (is_admin_user target) db.users) (not_found Code.user_not_found)
  ok (moderated fresh now target actor status db)

abbrev pub is_case : Text → PaymentReconciliation → Bool
is_case id c = c.id == id

-- `where: { id, status: OPEN }`
abbrev pub is_open_case_with : Text → PaymentReconciliation → Bool
is_open_case_with id c = c.id == id && is_open_case c.status

unfoldable pub resolve_payment_reconciliation :
    Text → ℕ → Text → Text → Text → AdminDb → Result (PaymentReconciliation × AdminDb)
resolve_payment_reconciliation fresh now id actor resolution db = do
  current ←
      or_throw (find_by (is_case id) db.reconciliations)
        (not_found Code.payment_reconciliation_not_found)
  throw_if (not (is_open_case current.status))
      (conflict Code.payment_reconciliation_already_resolved)
  throw_if (not (count_by (is_open_case_with id) db.reconciliations == 1))
      (conflict Code.payment_reconciliation_already_resolved)
  let cases =
      update_where (is_open_case_with id)
        (λ c. record c {
          status = ReconciliationStatus.resolved;
          resolution = some (trim resolution);
          resolved_at = some now;
        })
        db.reconciliations
  resolved ← or_throw (find_by (is_case id) cases) internal
  ok (
    resolved,
    record db {
      reconciliations = cases;
      audit_logs =
          log_entry fresh now (codes "ADMIN_PAYMENT_RECONCILIATION_RESOLVED")
            (codes "PaymentReconciliation") id actor
          ∷ db.audit_logs;
    },
  )
