-- ===== src/Bookings/View.antt =====
-- bookings.service.ts: `BookingView` and `toView`. Times stay numbers.
use eventory.Common.{ℕ, Option, none, some, List, map, nat_eq, Text, text_eq}
use eventory.Domain.{BookingStatus, PaymentStatus}
use eventory.Bookings.Model.{Booking, BookingItem, Payment}

pub record ItemView : Type 0 where
  pub id : Text
  pub seat_code : Option Text
  pub ticket_type_name : Text
  pub price_minor : ℕ
  pub currency : Text

pub record PaymentView : Type 0 where
  pub provider_reference : Option Text
  pub status : PaymentStatus
  pub amount_minor : ℕ
  pub currency : Text
  pub client_secret : Option Text
  pub expires_at : Option ℕ

pub record BookingView : Type 0 where
  pub id : Text
  pub public_code : Text
  pub event_session_id : Text
  pub status : BookingStatus
  pub currency : Text
  pub subtotal_minor : ℕ
  pub fee_minor : ℕ
  pub total_minor : ℕ
  pub expires_at : ℕ
  pub confirmed_at : Option ℕ
  pub items : List ItemView
  pub payment : Option PaymentView

abbrev item_view : BookingItem → ItemView
item_view item = record {
  id = item.id;
  seat_code = item.seat_code;
  ticket_type_name = item.ticket_type_name;
  price_minor = item.price_minor;
  currency = item.currency;
}

abbrev payment_view : Option Payment → Option PaymentView
payment_view none = none
payment_view (some p) = some (record {
  provider_reference = p.provider_reference;
  status = p.status;
  amount_minor = p.amount_minor;
  currency = p.currency;
  client_secret = p.client_secret;
  expires_at = p.expires_at;
})

-- A booking, as it was loaded with its payment.
unfoldable pub to_view : Booking → Option Payment → BookingView
to_view b payment = record {
  id = b.id;
  public_code = b.public_code;
  event_session_id = b.event_session_id;
  status = b.status;
  currency = b.currency;
  subtotal_minor = b.subtotal_minor;
  fee_minor = b.fee_minor;
  total_minor = b.total_minor;
  expires_at = b.expires_at;
  confirmed_at = b.confirmed_at;
  items = map item_view b.items;
  payment = payment_view payment;
}
