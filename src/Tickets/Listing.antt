-- ===== src/Tickets/Listing.antt =====
-- `listForUser` shows the tickets of the user, the newest first.
use eventory.Common.{
  ℕ, suc, ◌≤◌, ◌≡◌, sym, ap, ◌∙◌, subst, Bool, List, [], ◌∷◌, arith, nat_eq, length, All, Text,
  text_eq, filter_by, count_by, order_by, IsSorted, order_by-IsSorted, length-order_by,
  length-filter_by,
}
use eventory.Errors.{ok, ok_eq, >>=-eq-ok}
use eventory.Tickets.Qr.{SigningKeys, Builtins, create_payload}
use eventory.Tickets.Service.{
  TicketWithDetails, TicketView, is_before, material_of, is_of_user, to_view, to_views,
  list_for_user,
}

module _ (js : Builtins) (keys : SigningKeys) (active : ℕ) where
  to_view_fields :
      (t : TicketWithDetails) (v : TicketView)
      → to_view js keys active t ≡ ok v
      → (v.id ≡ t.id) × (v.issued_at ≡ t.issued_at)
  unfolding to_view
  to_view_fields t v h =
      let (payload, _, shown) = >>=-eq-ok (create_payload js keys active (material_of t)) _ h in
      let same = ok_eq shown in (ap (λ x. x.id) (sym same), ap (λ x. x.issued_at) (sym same))

  views-All :
      (P : ℕ → Type 0) (ts : List TicketWithDetails) (vs : List TicketView)
      → All (λ t. P t.issued_at) ts
      → to_views js keys active ts ≡ ok vs
      → All (λ v. P v.issued_at) vs
  unfolding to_views
  views-All P [] vs h e = subst (All (λ v. P v.issued_at)) (ok_eq e) tt
  views-All P (t ∷ ts) vs h e =
      let (v, shown, e1) = >>=-eq-ok (to_view js keys active t) _ e in
      let (rest, others, e2) = >>=-eq-ok (to_views js keys active ts) _ e1 in
      let here = subst P (sym (to_view_fields t v shown).1) h.0 in
      subst (All (λ w. P w.issued_at)) (ok_eq e2) (here, views-All P ts rest h.1 others)

  views-IsSorted :
      (ts : List TicketWithDetails) (vs : List TicketView)
      → IsSorted (λ a b. b.issued_at ≤ a.issued_at) ts
      → to_views js keys active ts ≡ ok vs
      → IsSorted (λ v w. w.issued_at ≤ v.issued_at) vs
  unfolding to_views IsSorted
  views-IsSorted [] vs h e = subst (IsSorted (λ v w. w.issued_at ≤ v.issued_at)) (ok_eq e) tt
  views-IsSorted (t ∷ ts) vs h e =
      let (v, shown, e1) = >>=-eq-ok (to_view js keys active t) _ e in
      let (rest, others, e2) = >>=-eq-ok (to_views js keys active ts) _ e1 in
      let later = views-All (λ n. n ≤ t.issued_at) ts rest h.0 others in
      let here =
        subst (λ n. All (λ w. w.issued_at ≤ n) rest) (sym (to_view_fields t v shown).1) later in
      subst (IsSorted (λ v w. w.issued_at ≤ v.issued_at)) (ok_eq e2)
        (here, views-IsSorted ts rest h.1 others)

  length-views :
      (ts : List TicketWithDetails) (vs : List TicketView)
      → to_views js keys active ts ≡ ok vs
      → length vs ≡ length ts
  unfolding to_views
  length-views [] vs e = ap length (sym (ok_eq e))
  length-views (t ∷ ts) vs e =
      let (v, shown, e1) = >>=-eq-ok (to_view js keys active t) _ e in
      let (rest, others, e2) = >>=-eq-ok (to_views js keys active ts) _ e1 in
      ap length (sym (ok_eq e2)) ∙ ap suc (length-views ts rest others)

-- A list of tickets that is answered has the newest first, and as many as the user has tickets,
-- whatever the order of the database on identifiers.
pub list_for_user-IsSorted :
    (js : Builtins) (keys : SigningKeys) (active : ℕ) (less : Text → Text → Bool) (user_id : Text)
    (tickets : List TicketWithDetails) (views : List TicketView)
    → list_for_user js keys active less user_id tickets ≡ ok views
    → IsSorted (λ v w. w.issued_at ≤ v.issued_at) views
      × (length views ≡ count_by (is_of_user user_id) tickets)
unfolding list_for_user
list_for_user-IsSorted js keys active less user_id tickets views h =
    let mine = filter_by (is_of_user user_id) tickets in
    let sorted = order_by (is_before less) mine in
    let in_order =
      order_by-IsSorted (λ a b. b.issued_at ≤ a.issued_at) (is_before less) mine
        (λ a b e. ground arith) (λ a b e. ground arith) (λ a b c p q. omega arith) in
    (
      views-IsSorted js keys active sorted views in_order h,
      length-views js keys active sorted views h
          ∙ length-order_by (is_before less) mine
          ∙ length-filter_by (is_of_user user_id) tickets,
    )
