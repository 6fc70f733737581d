-- ===== src/PreOrders/Lifecycle/Calls.antt =====
-- The workshop's calls keep a pre-order consistent.
use opticutter.Prelude.{
  ℕ, ◌≡◌, inl, inr, refl, ap, subst, ◌∙◌, true, Option, none, some, List, Result, Bool-cases,
  Result-cases, arith,
}
use opticutter.Prelude.Text.{Text}
use opticutter.Prelude.Trail.{IsTrail-step}
use opticutter.Branches.{hidden}
use opticutter.Orders.Order.{Actor, system_actor, is_some}
use opticutter.Orders.Store.{Client, check_client}
use opticutter.Settings.{PriceTier, PreOrderConfig}
use opticutter.PreOrders.{
  PreOrderStatus, sent, expired, is_open, is_sent, is_changes_requested, PreOrder,
}
use opticutter.PreOrders.Service.{
  history_row, record_transition, is_stale, expire_if_stale, scoped, new_preorder, PreOrderCreate,
}
use opticutter.PreOrders.Editing.{
  PreOrderUpdate, checked_client, checked_tier, addressed, edited, update_row,
}
use opticutter.PreOrders.Review.{note_sent, sent_out, generate_row}
use opticutter.PreOrders.Lifecycle.{is_edge, Edge, Trail, IsConsistent}
use opticutter.PreOrders.Lifecycle.Links.{live-renew, spent-renew, Mirrors-renew}

pub record_transition-Trail :
    (to : PreOrderStatus) (actor : Actor) (note : Option Text) (p : PreOrder)
    → Trail p.history p.status
    → is_edge p.status to ≡ true
    → Trail (record_transition to actor note p).history to
unfolding record_transition history_row
record_transition-Trail to actor note p t e =
    IsTrail-step (λ h. h.from_status) (λ h. h.to_status) Edge none p.history
      (history_row (some p.status) to actor note) t refl e

pub expire-IsConsistent :
    (now : ℕ) (p : PreOrder) → IsConsistent p → IsConsistent (expire_if_stale now p)
unfolding expire_if_stale is_stale record_transition
expire-IsConsistent now p h = elim (Bool-cases (is_stale now p)) [
  | inr e ↦ rw (e, expire_if_stale) h
  | inl e ↦
      let opened : is_open p.status ≡ true = ground (arith, e) in
      rw (e, expire_if_stale)
        (record {
          trail = record_transition-Trail expired system_actor _ p h.trail (ground (arith, opened));
          unsent = λ f. absurd (ground (arith, f));
          single = h.single;
          out = λ f. absurd (ground (arith, f));
          unanswered = λ f. h.unanswered (ground (arith, opened));
          answered = λ f. absurd (ground (arith, f));
          mirrored = h.mirrored;
          ordered = h.ordered ∙ ground (arith, opened);
          dated = h.dated ∙ ground (arith, opened);
        })
]

pub expire_if_stale-links :
    (now : ℕ) (p : PreOrder) → (expire_if_stale now p).review_links ≡ p.review_links
unfolding expire_if_stale record_transition
expire_if_stale-links now p = ground arith

module _ {κ} {Answer : Type κ} (now : ℕ) (scope : Option ℕ)
    (call : PreOrder → PreOrder × Result Answer)
    (keep : (p : PreOrder) → IsConsistent p → IsConsistent (call p).0) where
  pub scoped-IsConsistent :
      (p : PreOrder) → IsConsistent p → IsConsistent (scoped now scope call p).0
  unfolding scoped
  scoped-IsConsistent p h = elim (Bool-cases (hidden scope (expire_if_stale now p).branch_id)) [
    | inl e ↦ rw (e, scoped) (expire-IsConsistent now p h)
    | inr e ↦ rw (e, scoped) (keep (expire_if_stale now p) (expire-IsConsistent now p h))
  ]

pub new_preorder-IsConsistent :
    (config : PreOrderConfig) (now year id branch_id : ℕ) (tier : PriceTier) (actor : Actor)
    (form : PreOrderCreate)
    → IsConsistent (new_preorder config now year id branch_id tier actor form)
unfolding new_preorder history_row
new_preorder-IsConsistent config now year id branch_id tier actor form = record {
  trail = (refl, refl, refl);
  unsent = λ f. refl;
  single = omega arith;
  out = λ f. absurd (ground (arith, f));
  unanswered = λ f. refl;
  answered = λ f. absurd (ground (arith, f));
  mirrored = tt;
  ordered = refl;
  dated = refl;
}

addressed-IsConsistent :
    (actor : Actor) (p : PreOrder) → IsConsistent p → IsConsistent (addressed actor p)
unfolding addressed record_transition
addressed-IsConsistent actor p h = elim (Bool-cases (is_changes_requested p.status)) [
  | inr e ↦ rw (e, addressed) h
  | inl e ↦
      rw (e, addressed)
        (record {
          trail = record_transition-Trail sent actor _ p h.trail (ground (arith, e));
          unsent = λ f. absurd (ground (arith, f));
          single = h.single;
          out = λ f. h.out (ground (arith, e));
          unanswered = λ f. h.unanswered (ground (arith, e));
          answered = λ f. absurd (ground (arith, f));
          mirrored = h.mirrored;
          ordered = h.ordered ∙ ground (arith, e);
          dated = h.dated ∙ ground (arith, e);
        })
]

-- the columns that the invariant does not read
relabel-IsConsistent :
    (p : PreOrder) (client_id : ℕ) (materials requirements services tier strategy : Text)
    (source notes : Option Text) (updated_by : Option ℕ)
    → IsConsistent p
    → IsConsistent (record p {
      client_id = client_id;
      materials = materials;
      requirements = requirements;
      additional_services = services;
      price_tier_code = tier;
      strategy = strategy;
      source = source;
      notes = notes;
      updated_by = updated_by;
    })
relabel-IsConsistent p client_id materials requirements services tier strategy source notes
      updated_by h =
    record {
      trail = h.trail;
      unsent = h.unsent;
      single = h.single;
      out = h.out;
      unanswered = h.unanswered;
      answered = h.answered;
      mirrored = h.mirrored;
      ordered = h.ordered;
      dated = h.dated;
    }

edited-IsConsistent :
    (u : PreOrderUpdate) (client_id : ℕ) (tier : Text) (actor : Actor) (p : PreOrder)
    → IsConsistent p
    → IsConsistent (edited u client_id tier actor p)
unfolding edited
edited-IsConsistent u client_id tier actor p h =
    relabel-IsConsistent _ _ _ _ _ _ _ _ _ actor.user_id
      (addressed-IsConsistent actor _ (relabel-IsConsistent p client_id _ _ _ tier _ _ _ _ h))

pub update_row-IsConsistent :
    (resolve : Option Text → Result PriceTier) (clients : List Client) (u : PreOrderUpdate)
    (actor : Actor) (p : PreOrder)
    → IsConsistent p
    → IsConsistent (update_row resolve clients u actor p).0
unfolding update_row
update_row-IsConsistent resolve clients u actor p h = elim (Bool-cases (is_open p.status)) [
  | inr e ↦ rw (e, update_row) h
  | inl e ↦ elim (Result-cases (checked_client clients u.client_id p.client_id)) [
    | inr (raised, f) ↦ rw (e, update_row, f) h
    | inl (client_id, f) ↦
        elim (Result-cases (checked_tier resolve u.price_tier_code p.price_tier_code)) [
          | inr (raised, g) ↦ rw (e, update_row, f, g) h
          | inl (tier, g) ↦
              rw (e, update_row, f, g) (edited-IsConsistent u client_id tier actor p h)
        ]
  ]
]

note_sent-Trail :
    (actor : Actor) (p : PreOrder)
    → is_open p.status ≡ true
    → Trail p.history p.status
    → Trail (note_sent actor p).history sent
unfolding note_sent
note_sent-Trail actor p e t = elim (Bool-cases (is_sent p.status)) [
  | inl f ↦ rw (f, note_sent) (subst (Trail p.history) (ground (arith, f)) t)
  | inr f ↦ rw (f, note_sent) (record_transition-Trail sent actor _ p t (ground (arith, e, f)))
]

sent_out-IsConsistent :
    (config : PreOrderConfig) (now : ℕ) (hash : Text) (actor : Actor) (p : PreOrder)
    → is_open p.status ≡ true
    → IsConsistent p
    → IsConsistent (sent_out config now hash actor p)
unfolding sent_out note_sent record_transition
sent_out-IsConsistent config now hash actor p e h =
    let same_order : (note_sent actor p).order_id ≡ p.order_id = ground arith in
    let same_date : (note_sent actor p).confirmed_at ≡ p.confirmed_at = ground arith in
    record {
      trail = note_sent-Trail actor p e h.trail;
      unsent = λ f. absurd (ground (arith, f));
      single = omega (arith, live-renew hash _ p.review_links);
      out = λ f. live-renew hash _ p.review_links;
      unanswered = λ f. spent-renew hash _ p.review_links ∙ h.unanswered (ground (arith, e));
      answered = λ f. absurd (ground (arith, f));
      mirrored = Mirrors-renew hash _ p.review_links;
      ordered = ap is_some same_order ∙ h.ordered ∙ ground (arith, e);
      dated = ap is_some same_date ∙ h.dated ∙ ground (arith, e);
    }

pub generate_row-IsConsistent :
    (hash_token : Text → Text) (clients : List Client) (config : PreOrderConfig) (now : ℕ)
    (raw_token : Text) (actor : Actor) (p : PreOrder)
    → IsConsistent p
    → IsConsistent (generate_row hash_token clients config now raw_token actor p).0
unfolding generate_row
generate_row-IsConsistent hash_token clients config now raw_token actor p h =
    elim (Bool-cases (is_open p.status)) [
      | inr e ↦ rw (e, generate_row) h
      | inl e ↦ elim (Result-cases (check_client clients p.client_id)) [
        | inr (raised, f) ↦ rw (e, generate_row, f) h
        | inl (c, f) ↦
            rw (e, generate_row, f)
              (sent_out-IsConsistent config now (hash_token raw_token) actor p e h)
      ]
    ]
