-- ===== src/Events/Lifecycle.antt =====
-- apps/api/src/modules/events/event-lifecycle.ts.
use eventory.Common.{
  ℕ, zero, suc, ◌<◌, min, ◌≡◌, refl, sym, ap, ◌∙◌, ◌↔◌, ◌⊎◌, inl, inr, Bool, true, not, List, [],
  ◌∷◌, arith, nat_beq, nat_beq_iff, nat_eq, Bool-cases, any, text_eq,
}
use eventory.Errors.{Code, conflict, Result, ok, throw_if}
use eventory.Domain.{EventStatus}

-- Each status by its place among the enumeration's members.
abbrev ordinal : EventStatus → ℕ
ordinal EventStatus.draft = 0
ordinal EventStatus.published = 1
ordinal EventStatus.sales_open = 2
ordinal EventStatus.sales_closed = 3
ordinal EventStatus.ongoing = 4
ordinal EventStatus.completed = 5
ordinal EventStatus.cancelled = 6

abbrev pub same_status : EventStatus → EventStatus → Bool
same_status s t = nat_beq (ordinal s) (ordinal t)

abbrev pub transitions : EventStatus → List EventStatus
transitions EventStatus.draft = EventStatus.published ∷ EventStatus.cancelled ∷ []
transitions EventStatus.published = EventStatus.sales_open ∷ EventStatus.cancelled ∷ []
transitions EventStatus.sales_open = EventStatus.sales_closed ∷ EventStatus.cancelled ∷ []
transitions EventStatus.sales_closed = EventStatus.ongoing ∷ EventStatus.cancelled ∷ []
transitions EventStatus.ongoing = EventStatus.completed ∷ EventStatus.cancelled ∷ []
transitions EventStatus.completed = []
transitions EventStatus.cancelled = []

unfoldable pub assert_event_transition : EventStatus → EventStatus → Result (Unit {0})
assert_event_transition from to =
    throw_if (not (any (same_status to) (transitions from)))
      (conflict Code.event_invalid_transition)

-- The order that the table follows: the end of an event comes last.
abbrev pub phase : EventStatus → ℕ
phase status = min 5 (ordinal status)

abbrev of_ordinal : ℕ → EventStatus
of_ordinal zero = EventStatus.draft
of_ordinal (suc zero) = EventStatus.published
of_ordinal (suc (suc zero)) = EventStatus.sales_open
of_ordinal (suc (suc (suc zero))) = EventStatus.sales_closed
of_ordinal (suc (suc (suc (suc zero)))) = EventStatus.ongoing
of_ordinal (suc (suc (suc (suc (suc zero))))) = EventStatus.completed
of_ordinal _ = EventStatus.cancelled

of_ordinal-ordinal : (s : EventStatus) → of_ordinal (ordinal s) ≡ s
of_ordinal-ordinal EventStatus.draft = refl
of_ordinal-ordinal EventStatus.published = refl
of_ordinal-ordinal EventStatus.sales_open = refl
of_ordinal-ordinal EventStatus.sales_closed = refl
of_ordinal-ordinal EventStatus.ongoing = refl
of_ordinal-ordinal EventStatus.completed = refl
of_ordinal-ordinal EventStatus.cancelled = refl

ordinal-eq : (s t : EventStatus) → ordinal s ≡ ordinal t → s ≡ t
ordinal-eq s t e = sym (of_ordinal-ordinal s) ∙ (ap of_ordinal e ∙ of_ordinal-ordinal t)

pub same_status_iff : (s t : EventStatus) → (same_status s t ≡ true) ↔ (s ≡ t)
same_status_iff s t = (
  (λ h. ordinal-eq s t ((nat_beq_iff (ordinal s) (ordinal t)).0 h)),
  (λ h. (nat_beq_iff (ordinal s) (ordinal t)).1 (ap ordinal h)),
)

-- What the table allows: the next status, or a cancellation, as long as the event has not ended.
pub record IsTransition (from to : EventStatus) : Type 0 where
  pub running : phase from < 5
  pub forward : (to ≡ EventStatus.cancelled) ⊎ (ordinal to ≡ suc (ordinal from))

one_of : (to a b : EventStatus) → any (same_status to) (a ∷ b ∷ []) ≡ true → (to ≡ a) ⊎ (to ≡ b)
one_of to a b h = elim (Bool-cases (same_status to a)) [
  | inl t ↦ inl ((same_status_iff to a).0 t)
  | inr f ↦ inr ((same_status_iff to b).0 (ground arith))
]

next_or_cancelled :
    (from to next : EventStatus)
    → phase from < 5
    → ordinal next ≡ suc (ordinal from)
    → any (same_status to) (next ∷ EventStatus.cancelled ∷ []) ≡ true
    → IsTransition from to
next_or_cancelled from to next early step h = elim (one_of to next EventStatus.cancelled h) [
  | inl e ↦ record { running = early; forward = inr (ap ordinal e ∙ step) }
  | inr e ↦ record { running = early; forward = inl e }
]

is_listed :
    (from to : EventStatus) → any (same_status to) (transitions from) ≡ true → IsTransition from to
is_listed EventStatus.draft to h =
    next_or_cancelled EventStatus.draft to EventStatus.published (omega arith) refl h
is_listed EventStatus.published to h =
    next_or_cancelled EventStatus.published to EventStatus.sales_open (omega arith) refl h
is_listed EventStatus.sales_open to h =
    next_or_cancelled EventStatus.sales_open to EventStatus.sales_closed (omega arith) refl h
is_listed EventStatus.sales_closed to h =
    next_or_cancelled EventStatus.sales_closed to EventStatus.ongoing (omega arith) refl h
is_listed EventStatus.ongoing to h =
    next_or_cancelled EventStatus.ongoing to EventStatus.completed (omega arith) refl h
is_listed EventStatus.completed to h = absurd (ground arith)
is_listed EventStatus.cancelled to h = absurd (ground arith)

listed :
    (from to : EventStatus) → IsTransition from to → any (same_status to) (transitions from) ≡ true
listed EventStatus.draft to h = elim h.forward [ inl e ↦ rw e | inr e ↦ ground arith ]
listed EventStatus.published to h = elim h.forward [ inl e ↦ rw e | inr e ↦ ground arith ]
listed EventStatus.sales_open to h = elim h.forward [ inl e ↦ rw e | inr e ↦ ground arith ]
listed EventStatus.sales_closed to h = elim h.forward [ inl e ↦ rw e | inr e ↦ ground arith ]
listed EventStatus.ongoing to h = elim h.forward [ inl e ↦ rw e | inr e ↦ ground arith ]
listed EventStatus.completed to h = absurd (omega (arith, h.running))
listed EventStatus.cancelled to h = absurd (omega (arith, h.running))

-- A status change is let through exactly if the event has not ended and the new status is the next
-- one or a cancellation.
pub assert_event_transition_iff :
    (from to : EventStatus) → (assert_event_transition from to ≡ ok tt) ↔ IsTransition from to
unfolding assert_event_transition
assert_event_transition_iff from to =
    ((λ e. is_listed from to (ground arith)), (λ h. rw (listed from to h)))

pub IsTransition-phase : (from to : EventStatus) → IsTransition from to → phase from < phase to
IsTransition-phase from to h = elim h.forward [
  | inl e ↦ rw e h.running
  | inr e ↦ omega (arith, h.running, e)
]
