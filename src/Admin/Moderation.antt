-- ===== src/Admin/Moderation.antt =====
-- What a suspension and the resolution of a reconciliation case leave.
use eventory.Common.{
  ℕ, ◌≡◌, refl, sym, ap, ◌∙◌, subst, inl, inr, Bool, true, false, not, some, List, [], ◌∷◌, arith,
  ◌==◌, nat_eq, Bool-cases, Option-cases, is_some, some_eq, All, Text, text_beq_iff, text_eq, trim,
  find_by, update_where, count_by, find_by-holds, find_by-All, find_by-touch,
}
use eventory.Errors.{
  Code, Failure, conflict, not_found, internal, ok, err, throw_if, or_throw, ok_eq, or_throw-eq-ok,
  >>=-eq-ok,
}
use eventory.Domain.{UserStatus, ReconciliationStatus}
use eventory.Identity.Service.{RefreshToken, reuse, has_hash, is_spent, rotate_refresh_token}
use eventory.Admin.Service.{
  AdminDb, PaymentReconciliation, is_admin_user, is_live_of, moderated, update_user_status, is_case,
  is_open_case, is_open_case_with, resolve_payment_reconciliation,
}

revoked-none_live :
    (now : ℕ) (user_id : Text) (tokens : List RefreshToken)
    → count_by
        (is_live_of user_id)
        (update_where (is_live_of user_id) (λ t. record t { revoked_at = some now }) tokens)
      ≡ 0
unfolding update_where count_by
revoked-none_live now user_id [] = refl
revoked-none_live now user_id (t ∷ tokens) = elim (Bool-cases (is_live_of user_id t)) [
  | inl live ↦ rw live (ground (arith, revoked-none_live now user_id tokens))
  | inr spent ↦ rw (spent, spent) (ground (arith, revoked-none_live now user_id tokens))
]

none_live-revoked :
    (user_id : Text) (tokens : List RefreshToken)
    → count_by (is_live_of user_id) tokens ≡ 0
    → All (λ t. is_live_of user_id t ≡ false) tokens
unfolding count_by
none_live-revoked user_id [] h = tt
none_live-revoked user_id (t ∷ tokens) h = elim (Bool-cases (is_live_of user_id t)) [
  | inl live ↦ absurd (ground arith)
  | inr spent ↦ (spent, none_live-revoked user_id tokens (ground arith))
]

-- A token of the user that is not live is spent.
dead-IsSpent :
    (now : ℕ) (user_id : Text) (t : RefreshToken)
    → t.user_id ≡ user_id
    → is_live_of user_id t ≡ false
    → is_spent now t ≡ true
dead-IsSpent now user_id t mine dead =
    let this = (text_beq_iff t.user_id user_id).1 mine in
    elim (Option-cases t.revoked_at) [
      | inl unset ↦ absurd (cc (rw (this, unset) at dead))
      | inr (at_, set) ↦ elim (Bool-cases (is_some t.used_at)) [
        | inl used ↦ rw used
        | inr unused ↦ rw (unused, set)
      ]
    ]

-- A suspension ends the sessions of the user: no refresh token of the user is left unrevoked, and a
-- request that presents one, at whatever time, is not given another but reported as a reuse.
pub update_user_status-reuse :
    (hash : Text → Text) (fresh : Text) (now later ttl : ℕ) (target actor id raw next : Text)
    (db after : AdminDb) (t : RefreshToken)
    → update_user_status fresh now target actor UserStatus.suspended db ≡ ok after
    → find_by (has_hash (hash raw)) after.refresh_tokens ≡ some t
    → t.user_id ≡ target
    → (count_by (is_live_of target) after.refresh_tokens ≡ 0)
      × (rotate_refresh_token hash later ttl id next raw after.refresh_tokens
          ≡ (reuse t.family_id, after.refresh_tokens))
unfolding update_user_status moderated rotate_refresh_token
update_user_status-reuse hash fresh now later ttl target actor id raw next db after t h found mine =
    let (u, others, h1) =
      >>=-eq-ok (throw_if (target == actor) (conflict Code.admin_self_moderation_denied)) _ h in
    let (user, there, h2) =
      >>=-eq-ok (or_throw (find_by (is_admin_user target) db.users) (not_found Code.user_not_found))
        _ h1 in
    let none_left =
      subst (λ (d : AdminDb). count_by (is_live_of target) d.refresh_tokens ≡ 0) (ok_eq h2)
        (revoked-none_live now target db.refresh_tokens) in
    let dead =
      find_by-All (λ x. is_live_of target x ≡ false) (has_hash (hash raw)) after.refresh_tokens
        (none_live-revoked target after.refresh_tokens none_left) found in
    let spent = dead-IsSpent later target t mine dead in
    (none_left, rw (rotate_refresh_token, found, spent))

abbrev resolve_row : ℕ → Text → PaymentReconciliation → PaymentReconciliation
resolve_row now resolution c = record c {
  status = ReconciliationStatus.resolved;
  resolution = some (trim resolution);
  resolved_at = some now;
}

not_thrown : (test : Bool) (e : Failure) (u : Unit {0}) → throw_if (not test) e ≡ ok u → test ≡ true
not_thrown true e u h = refl
not_thrown false e u h = absurd (cc h)

-- The row of the case after its resolution.
resolved_row :
    (now : ℕ) (id resolution : Text) (cases : List PaymentReconciliation)
    (current : PaymentReconciliation)
    → find_by (is_case id) cases ≡ some current
    → is_open_case current.status ≡ true
    → find_by (is_case id) (update_where (is_open_case_with id) (resolve_row now resolution) cases)
      ≡ some (resolve_row now resolution current)
resolved_row now id resolution cases current found going =
    let mine = find_by-holds (is_case id) cases current found in
    rw (
      find_by-touch (is_open_case_with id) (is_case id) (resolve_row now resolution) cases
          (λ x. refl),
      found,
      mine,
      going,
    )

-- A case that is resolved is not resolved again: whoever tries, and with what resolution, is refused.
pub resolve-once :
    (fresh fresh' : Text) (now now' : ℕ) (id actor actor' resolution resolution' : Text)
    (db after : AdminDb) (c : PaymentReconciliation)
    → resolve_payment_reconciliation fresh now id actor resolution db ≡ ok (c, after)
    → (c.status ≡ ReconciliationStatus.resolved)
      × (c.resolution ≡ some (trim resolution))
      × (resolve_payment_reconciliation fresh' now' id actor' resolution' after
          ≡ err (conflict Code.payment_reconciliation_already_resolved))
unfolding resolve_payment_reconciliation
resolve-once fresh fresh' now now' id actor actor' resolution resolution' db after c h =
    let (current, found, h1) =
      >>=-eq-ok
        (or_throw (find_by (is_case id) db.reconciliations)
          (not_found Code.payment_reconciliation_not_found))
        _ h in
    let (u, was_open, h2) =
      >>=-eq-ok
        (throw_if (not (is_open_case current.status))
          (conflict Code.payment_reconciliation_already_resolved))
        _ h1 in
    let (v, one, h3) =
      >>=-eq-ok
        (throw_if (not (count_by (is_open_case_with id) db.reconciliations == 1))
          (conflict Code.payment_reconciliation_already_resolved))
        _ h2 in
    let cases =
      update_where (is_open_case_with id) (resolve_row now resolution) db.reconciliations in
    let there = or_throw-eq-ok (find_by (is_case id) db.reconciliations) _ current found in
    let resolved : find_by (is_case id) cases ≡ some (resolve_row now resolution current) =
      resolved_row now id resolution db.reconciliations current there (not_thrown _ _ u was_open) in
    let (r, is_row, h4) = >>=-eq-ok (or_throw (find_by (is_case id) cases) internal) _ h3 in
    let same_row : resolve_row now resolution current ≡ r =
      some_eq (sym resolved ∙ or_throw-eq-ok (find_by (is_case id) cases) internal r is_row) in
    let pair = ok_eq h4 in
    let is_c : resolve_row now resolution current ≡ c = same_row ∙ ap (λ p. p.0) pair in
    let its_cases : cases ≡ after.reconciliations =
      ap (λ (p : PaymentReconciliation × AdminDb). p.1.reconciliations) pair in
    let again : find_by (is_case id) after.reconciliations
        ≡ some (resolve_row now resolution current) =
      subst (λ cs. find_by (is_case id) cs ≡ some (resolve_row now resolution current)) its_cases
        resolved in
    (
      ap (λ (x : PaymentReconciliation). x.status) (sym is_c),
      ap (λ (x : PaymentReconciliation). x.resolution) (sym is_c),
      rw (resolve_payment_reconciliation, again),
    )
