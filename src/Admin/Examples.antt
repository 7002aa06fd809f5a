-- ===== src/Admin/Examples.antt =====
-- A suspended user, a resolved case, and the pages of the users.
use eventory.Common.{
  ℕ, ◌≤◌, ◌≡◌, refl, Bool, true, Option, none, some, [], ◌∷◌, arith, ltb, nat_eq, length, Text,
  codes, text_beq, text_eq, trim, find_by, filter_by, update_where, count_by, order_by,
}
use eventory.Errors.{Code, conflict, ok, err}
use eventory.Domain.{UserRole, UserStatus, ReconciliationStatus}
use eventory.Identity.Service.{RefreshToken, reuse, has_hash, rotate_refresh_token}
use eventory.Paging.{list_page, ceil_div}
use eventory.Paging.Cover.{first_pages, first_pages-cover}
use eventory.Admin.Service.{
  AdminDb, AdminUser, PaymentReconciliation, is_live_of, moderated, update_user_status,
  resolve_payment_reconciliation,
}
use eventory.Admin.Moderation.{update_user_status-reuse}

abbrev user : Text → ℕ → AdminUser
user id at = record {
  id = id;
  email = id;
  display_name = id;
  role = UserRole.attendee;
  status = UserStatus.active;
  created_at = at;
}

abbrev token : Option ℕ → RefreshToken
token revoked = record {
  id = codes "k1";
  user_id = codes "ann";
  token_hash = codes "h";
  family_id = codes "f";
  expires_at = 1_000;
  used_at = none;
  revoked_at = revoked;
}

abbrev case : ReconciliationStatus → Option Text → Option ℕ → PaymentReconciliation
case status resolution at = record {
  id = codes "c1";
  payment_id = codes "p1";
  provider_event_id = codes "evt";
  reason = codes "LATE";
  status = status;
  resolution = resolution;
  created_at = 1;
  resolved_at = at;
  booking_public_code = codes "EVT-1";
}

abbrev db : AdminDb
db = record {
  users = user (codes "ann") 1 ∷ user (codes "bob") 2 ∷ [];
  organizations = [];
  events = [];
  reconciliations = case ReconciliationStatus.open_case none none ∷ [];
  refresh_tokens = token none ∷ [];
  audit_logs = [];
}

abbrev suspended : AdminDb
suspended = moderated (codes "l1") 5 (codes "ann") (codes "root") UserStatus.suspended db

suspension :
    update_user_status (codes "l1") 5 (codes "ann") (codes "root") UserStatus.suspended db
    ≡ ok suspended
unfolding update_user_status text_beq find_by
suspension = refl

presented : find_by (has_hash (codes "h")) suspended.refresh_tokens ≡ some (token (some 5))
unfolding moderated find_by update_where text_beq
presented = refl

update_user_status-reuse_example :
    (count_by (is_live_of (codes "ann")) suspended.refresh_tokens ≡ 0)
    × (rotate_refresh_token
          (λ s. s)
          6
          60
          (codes "k2")
          (codes "n")
          (codes "h")
          suspended.refresh_tokens
        ≡ (reuse (codes "f"), suspended.refresh_tokens))
update_user_status-reuse_example =
    update_user_status-reuse (λ s. s) (codes "l1") 5 6 60 (codes "ann") (codes "root") (codes "k2")
      (codes "h") (codes "n") db suspended (token (some 5)) suspension presented refl

abbrev closed : AdminDb
closed = record db {
  reconciliations = case ReconciliationStatus.resolved (some (codes "refunded")) (some 9) ∷ [];
  audit_logs =
      record {
        id = codes "l2";
        action = codes "ADMIN_PAYMENT_RECONCILIATION_RESOLVED";
        resource_type = codes "PaymentReconciliation";
        resource_id = codes "c1";
        actor_user_id = some (codes "root");
        created_at = 9;
      }
      ∷ [];
}

resolution :
    resolve_payment_reconciliation
      (codes "l2")
      9
      (codes "c1")
      (codes "root")
      (codes " refunded ")
      db
    ≡ ok (case ReconciliationStatus.resolved (some (codes "refunded")) (some 9), closed)
unfolding resolve_payment_reconciliation find_by text_beq count_by update_where trim
resolution = refl

second_resolution :
    resolve_payment_reconciliation (codes "l3") 10 (codes "c1") (codes "eve") (codes "lost") closed
    ≡ err (conflict Code.payment_reconciliation_already_resolved)
unfolding resolve_payment_reconciliation find_by text_beq
second_resolution = refl

abbrev everyone : AdminUser → Bool
everyone u = true

abbrev newest_first : AdminUser → AdminUser → Bool
newest_first a b = ltb b.created_at a.created_at

two_pages : ceil_div (count_by everyone db.users) 1 ≤ 10_000
unfolding count_by
two_pages = omega arith

first_pages-cover_example :
    (first_pages everyone newest_first 1 db.users
        (list_page everyone newest_first 1 1 db.users).page_count
      ≡ order_by newest_first (filter_by everyone db.users))
    × ((list_page everyone newest_first 1 1 db.users).total
        ≡ length (order_by newest_first (filter_by everyone db.users)))
    × (length (list_page everyone newest_first 1 1 db.users).items ≤ 1)
unfolding list_page
first_pages-cover_example =
    first_pages-cover everyone newest_first 1 1 db.users (omega arith) two_pages
