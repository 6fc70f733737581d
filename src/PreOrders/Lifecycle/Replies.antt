-- ===== src/PreOrders/Lifecycle/Replies.antt =====
-- The client's calls keep a pre-order consistent.
use opticutter.Prelude.{
  ℕ, ◌≡◌, inl, inr, refl, sym, ap, subst, ◌∙◌, true, false, Option, some, List, [], Result,
  Bool-cases, Option-cases, Result-cases, arith,
}
use opticutter.Prelude.Text.{Text, codes}
use opticutter.Orders.Order.{client_actor, Order}
use opticutter.PreOrders.{
  changes_requested, confirmed, rejected, is_open, is_changes_requested, is_revoked, ReviewLink,
  PreOrder,
}
use opticutter.PreOrders.Service.{record_transition, expire_if_stale}
use opticutter.PreOrders.Review.{
  find_link, mark_used, meta_of, with_link, request_changes_row, asked_row, rejected_row,
  reject_row, confirmed_row, confirm_row,
}
use opticutter.PreOrders.Lifecycle.{Trail, is_out, live, spent, IsConsistent}
use opticutter.PreOrders.Lifecycle.Links.{mark_used-counts, Mirrors-mark_used}
use opticutter.PreOrders.Lifecycle.Calls.{
  record_transition-Trail, expire_if_stale-links, expire-IsConsistent,
}

module _ (hash : Text) (now : ℕ) (meta : List (Text × Option Text)) (p : PreOrder)
    (h : IsConsistent p) (opened : is_open p.status ≡ true) {l : ReviewLink}
    (found : find_link hash p.review_links ≡ some l) (good : is_revoked l.status ≡ false) where
  -- a pre-order that has a link was sent
  pub found-out : is_out p.status ≡ true
  unfolding find_link
  found-out = ground (arith, h.unsent, found, opened)

  used_up :
      (live (mark_used hash now meta p.review_links) ≡ 0)
      × (spent (mark_used hash now meta p.review_links) ≡ 1)
  used_up =
      let (fewer, one) =
        mark_used-counts hash now meta p.review_links found good
          (h.unanswered (ground (arith, found-out))) in
      (omega (arith, fewer, h.single), one)

-- what the token has led to: a link of the row that was not revoked
abbrev pub HasGood : Text → PreOrder → Type 0
HasGood hash p =
    (l : ReviewLink) × (find_link hash p.review_links ≡ some l) × (is_revoked l.status ≡ false)

module _ {κ} {Answer : Type κ} (hash : Text) (now : ℕ) (missing : Answer)
    (call : PreOrder → PreOrder × Answer)
    (keep : (p : PreOrder) → IsConsistent p → HasGood hash p → IsConsistent (call p).0) where
  pub with_link-IsConsistent :
      (p : PreOrder) → IsConsistent p → IsConsistent (with_link hash now missing call p).0
  unfolding with_link
  with_link-IsConsistent p h = elim (Option-cases (find_link hash p.review_links)) [
    | inl e ↦ rw (e, with_link) h
    | inr (l, e) ↦ elim (Bool-cases (is_revoked l.status)) [
      | inl f ↦ rw (e, with_link, f) h
      | inr f ↦
          rw (e, with_link, f)
            (keep (expire_if_stale now p) (expire-IsConsistent now p h)
              (l, ap (λ x. find_link hash x) (expire_if_stale-links now p) ∙ e, f))
    ]
  ]

module _ (hash : Text) (p : PreOrder) (h : IsConsistent p) (good : HasGood hash p) where
  asked_row-IsConsistent :
      (wish : Option Text) → is_open p.status ≡ true → IsConsistent (asked_row wish p)
  unfolding asked_row record_transition
  asked_row-IsConsistent wish e =
      let given : is_out p.status ≡ true = found-out hash 0 [] p h e good.1 good.2 in
      elim (Bool-cases (is_changes_requested p.status)) [
        | inl f ↦
            rw (f, asked_row)
              (record {
                trail = subst (Trail p.history) (ground (arith, f)) h.trail;
                unsent = λ g. absurd (ground (arith, g));
                single = h.single;
                out = λ g. h.out given;
                unanswered = λ g. h.unanswered (ground (arith, e));
                answered = λ g. absurd (ground (arith, g));
                mirrored = h.mirrored;
                ordered = h.ordered ∙ ground (arith, e);
                dated = h.dated ∙ ground (arith, e);
              })
        | inr f ↦
            rw (f, asked_row)
              (record {
                trail =
                    record_transition-Trail changes_requested client_actor wish p h.trail
                      (ground (arith, given, f));
                unsent = λ g. absurd (ground (arith, g));
                single = h.single;
                out = λ g. h.out given;
                unanswered = λ g. h.unanswered (ground (arith, e));
                answered = λ g. absurd (ground (arith, g));
                mirrored = h.mirrored;
                ordered = h.ordered ∙ ground (arith, e);
                dated = h.dated ∙ ground (arith, e);
              })
      ]

  pub request_changes_row-IsConsistent :
      (wish : Option Text) → IsConsistent (request_changes_row wish p).0
  unfolding request_changes_row
  request_changes_row-IsConsistent wish = elim (Bool-cases (is_open p.status)) [
    | inr e ↦
        let same : (request_changes_row wish p).0 ≡ p = ground (arith, e) in
        subst IsConsistent (sym same) h
    | inl e ↦
        let same : (request_changes_row wish p).0 ≡ asked_row wish p = ground (arith, e) in
        subst IsConsistent (sym same) (asked_row-IsConsistent wish e)
  ]

  module _ (now : ℕ) (reply : Option Text) (meta : List (Text × Option Text)) where
    rejected_row-IsConsistent :
        is_open p.status ≡ true → IsConsistent (rejected_row now hash reply meta p)
    unfolding rejected_row record_transition
    rejected_row-IsConsistent e =
        let given : is_out p.status ≡ true = found-out hash 0 [] p h e good.1 good.2 in
        let all = meta_of (codes "rejected") reply meta in
        let counts = used_up hash now all p h e good.1 good.2 in
        record {
          trail =
              record_transition-Trail rejected client_actor reply p h.trail (ground (arith, given));
          unsent = λ g. absurd (ground (arith, g));
          single = omega (arith, counts.0);
          out = λ g. absurd (ground (arith, g));
          unanswered = λ g. absurd (ground (arith, g));
          answered = λ g. counts;
          mirrored = Mirrors-mark_used hash now all p.expires_at p.review_links h.mirrored;
          ordered = h.ordered ∙ ground (arith, e);
          dated = h.dated ∙ ground (arith, e);
        }

    pub reject_row-IsConsistent : IsConsistent (reject_row now hash reply meta p).0
    unfolding reject_row
    reject_row-IsConsistent = elim (Bool-cases (is_open p.status)) [
      | inr e ↦
          let same : (reject_row now hash reply meta p).0 ≡ p = ground (arith, e) in
          subst IsConsistent (sym same) h
      | inl e ↦
          let same : (reject_row now hash reply meta p).0 ≡ rejected_row now hash reply meta p =
            ground (arith, e) in
          subst IsConsistent (sym same) (rejected_row-IsConsistent e)
    ]

    confirmed_row-IsConsistent :
        (order : Order)
        → is_open p.status ≡ true
        → IsConsistent (confirmed_row now hash reply meta order p)
    unfolding confirmed_row record_transition
    confirmed_row-IsConsistent order e =
        let given : is_out p.status ≡ true = found-out hash 0 [] p h e good.1 good.2 in
        let all = meta_of (codes "confirmed") reply meta in
        let counts = used_up hash now all p h e good.1 good.2 in
        record {
          trail =
              record_transition-Trail confirmed client_actor reply p h.trail
                (ground (arith, given));
          unsent = λ g. absurd (ground (arith, g));
          single = omega (arith, counts.0);
          out = λ g. absurd (ground (arith, g));
          unanswered = λ g. absurd (ground (arith, g));
          answered = λ g. counts;
          mirrored = Mirrors-mark_used hash now all p.expires_at p.review_links h.mirrored;
          ordered = refl;
          dated = refl;
        }

    pub confirm_row-IsConsistent :
        (create_order : PreOrder → List Order → List Order × Result Order) (orders : List Order)
        → IsConsistent (confirm_row now hash reply meta create_order orders p).0
    unfolding confirm_row
    confirm_row-IsConsistent create_order orders = elim (Bool-cases (is_open p.status)) [
      | inr e ↦
          let same : (confirm_row now hash reply meta create_order orders p).0 ≡ p =
            ground (arith, e) in
          subst IsConsistent (sym same) h
      | inl e ↦ elim (Result-cases (create_order p orders).1) [
        | inr (raised, f) ↦
            let same : (confirm_row now hash reply meta create_order orders p).0 ≡ p =
              ground (arith, e, f) in
            subst IsConsistent (sym same) h
        | inl (order, f) ↦
            let same : (confirm_row now hash reply meta create_order orders p).0
                ≡ confirmed_row now hash reply meta order p =
              ground (arith, e, f) in
            subst IsConsistent (sym same) (confirmed_row-IsConsistent order e)
      ]
    ]
