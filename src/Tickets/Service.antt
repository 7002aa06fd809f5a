-- ===== src/Tickets/Service.antt =====
-- apps/api/src/modules/tickets/tickets.service.ts: the tickets of a user, with their QR payloads. The
-- event's name and slug and the session's name and times are passed through, and not modelled.
use eventory.Common.{
  ℕ, Bool, ◌&&◌, ◌||◌, Option, List, [], ◌∷◌, ltb, nat_beq, ◌==◌, nat_eq, Text, text_eq, trim,
  find_by, filter_by, order_by,
}
use eventory.Errors.{Code, not_found, Result, ok, ◌>>=◌, or_throw}
use eventory.Domain.{TicketStatus}
use eventory.Tickets.Qr.{TicketQrMaterial, SigningKeys, Builtins, create_payload}

-- A ticket with what the service reads of its booking item.
pub record TicketWithDetails : Type 0 where
  pub id : Text
  pub user_id : Text
  pub public_code : Text
  pub status : TicketStatus
  pub event_session_id : Text
  pub qr_nonce : Text
  pub qr_key_version : ℕ
  pub seat_code : Option Text
  pub ticket_type_name : Text
  pub price_minor : ℕ
  pub currency : Text
  pub issued_at : ℕ
  pub checked_in_at : Option ℕ

pub record TicketView : Type 0 where
  pub id : Text
  pub public_code : Text
  pub status : TicketStatus
  pub event_session_id : Text
  pub seat_code : Option Text
  pub ticket_type_name : Text
  pub price_minor : ℕ
  pub currency : Text
  pub issued_at : ℕ
  pub checked_in_at : Option ℕ
  pub qr_payload : Text

-- `orderBy: [{ issuedAt: 'desc' }, { id: 'desc' }]`, with the database's order on identifiers
abbrev pub is_before : (Text → Text → Bool) → TicketWithDetails → TicketWithDetails → Bool
is_before less a b =
    ltb b.issued_at a.issued_at || nat_beq a.issued_at b.issued_at && less b.id a.id

abbrev pub material_of : TicketWithDetails → TicketQrMaterial
material_of t = record {
  public_code = t.public_code;
  event_session_id = t.event_session_id;
  qr_nonce = t.qr_nonce;
  qr_key_version = t.qr_key_version;
}

abbrev pub is_of_user : Text → TicketWithDetails → Bool
is_of_user user_id t = t.user_id == user_id

module _ (js : Builtins) (keys : SigningKeys) (active_key_version : ℕ) where
  unfoldable pub to_view : TicketWithDetails → Result TicketView
  to_view t = do
    qr_payload ← create_payload js keys active_key_version (material_of t)
    ok (record {
      id = t.id;
      public_code = t.public_code;
      status = t.status;
      event_session_id = t.event_session_id;
      seat_code = t.seat_code;
      ticket_type_name = t.ticket_type_name;
      price_minor = t.price_minor;
      currency = t.currency;
      issued_at = t.issued_at;
      checked_in_at = t.checked_in_at;
      qr_payload = qr_payload;
    })

  -- `tickets.map((ticket) => this.toView(ticket))`
  unfoldable pub to_views : List TicketWithDetails → Result (List TicketView)
  to_views [] = ok []
  to_views (t ∷ ts) = do view ← to_view t; views ← to_views ts; ok (view ∷ views)

  unfoldable pub list_for_user :
      (Text → Text → Bool) → Text → List TicketWithDetails → Result (List TicketView)
  list_for_user less user_id tickets =
      to_views (order_by (is_before less) (filter_by (is_of_user user_id) tickets))

  unfoldable pub get_for_user : Text → Text → List TicketWithDetails → Result TicketView
  get_for_user user_id public_code tickets = do
    ticket ←
        or_throw
          (find_by
            (λ t. is_of_user user_id t && t.public_code == js.to_upper_case (trim public_code))
            tickets)
          (not_found Code.ticket_not_found)
    to_view ticket
