-- ===== src/Orders/Store/Unique.antt =====
-- A single active order for each key: what `create` keeps of it.
use opticutter.Prelude.{
  ℕ, ◌≡◌, ◌⊎◌, inl, inr, refl, sym, ap, ◌∙◌, Bool, true, false, not, ◌&&◌, Option, none, some, List,
  [], ◌∷◌, ◌++◌, subst, Error, Result, ok, err, ok-injective, Result-cases, All, AllPairs,
  AllPairs-append, Across, arith, Bool-cases, Option-cases,
}
use mathlib.Core.Option.{some-injective}
use opticutter.Prelude.Text.{Text, same_text_refl, same_text_comm}
use opticutter.Branches.{Branch, resolve_branch_for_create}
use opticutter.Orders.Status.{is_terminal}
use opticutter.Orders.Order.{Actor, Order}
use opticutter.Orders.Store.{
  is_active_duplicate, find_active_duplicate, Quote, new_order, create_unless_duplicate, Client,
  check_client, create,
}

-- both are active, and the key of one is that of the other
unfoldable pub same_active : Order → Order → Bool
unfolding is_active_duplicate
same_active a b =
    is_active_duplicate a.branch_id a.client_id a.optimization_hash a.price_tier_code
      a.additional_services_total b
    && not (is_terminal a.status)

pub same_active_comm : (a b : Order) → same_active a b ≡ same_active b a
unfolding same_active is_active_duplicate
same_active_comm a b = ground (
  arith,
  same_text_comm a.optimization_hash b.optimization_hash,
  same_text_comm a.price_tier_code b.price_tier_code,
)

abbrev pub Differ : Order → Order → Type 0
Differ a b = same_active a b ≡ false

abbrev pub IsUnique : List Order → Type 0
IsUnique orders = AllPairs Differ orders

module _ (branch_id client_id : ℕ) (hash tier : Text) (services : ℕ) where
  pub find_none :
      (orders : List Order)
      → find_active_duplicate branch_id client_id hash tier services orders ≡ none
      → All (λ o. is_active_duplicate branch_id client_id hash tier services o ≡ false) orders
  unfolding find_active_duplicate
  find_none [] h = tt
  find_none (o ∷ os) h =
      let e : is_active_duplicate branch_id client_id hash tier services o ≡ false = ground arith in
      (e, find_none os (rw (e) at h))

  pub find_found :
      (P : Order → Type 0) (orders : List Order) {o : Order}
      → All P orders
      → find_active_duplicate branch_id client_id hash tier services orders ≡ some o
      → (is_active_duplicate branch_id client_id hash tier services o ≡ true) × P o
  unfolding find_active_duplicate
  find_found P [] a h = absurd (ground (arith, h))
  find_found P (p ∷ ps) {o} a h =
      elim (Bool-cases (is_active_duplicate branch_id client_id hash tier services p)) [
        | inl e ↦
            let same : p ≡ o = some-injective _ _ (rw (e) at h) in
            subst (λ q. (is_active_duplicate branch_id client_id hash tier services q ≡ true) × P q)
              same (e, a.0)
        | inr e ↦ find_found P ps a.1 (rw (e) at h)
      ]

  find_new :
      (orders : List Order) (o : Order)
      → find_active_duplicate branch_id client_id hash tier services orders ≡ none
      → is_active_duplicate branch_id client_id hash tier services o ≡ true
      → find_active_duplicate branch_id client_id hash tier services (orders ++ o ∷ []) ≡ some o
  unfolding find_active_duplicate
  find_new [] o h e = ground (arith, e)
  find_new (p ∷ ps) o h e =
      let f : is_active_duplicate branch_id client_id hash tier services p ≡ false = ground arith in
      rw (f) (find_new ps o (rw (f) at h) e)

module _ (ids : ℕ → ℕ) (next_id branch_id client_id : ℕ) (actor : Actor) (quote : Quote) where
  new_order-duplicate :
      is_active_duplicate branch_id client_id quote.optimization_hash quote.tier_code
        quote.services_total
        (new_order ids next_id branch_id client_id actor quote)
      ≡ true
  unfolding is_active_duplicate new_order
  new_order-duplicate =
      ground (arith, same_text_refl quote.optimization_hash, same_text_refl quote.tier_code)

  append-new :
      (orders : List Order)
      → All
          (λ o.
            is_active_duplicate branch_id client_id quote.optimization_hash quote.tier_code
              quote.services_total o
            ≡ false)
          orders
      → Across Differ orders (new_order ids next_id branch_id client_id actor quote ∷ [])
  unfolding same_active new_order
  append-new [] h = tt
  append-new (o ∷ os) h = (
    (
      same_active_comm o (new_order ids next_id branch_id client_id actor quote)
          ∙ ground (arith, h.0),
      tt,
    ),
    append-new os h.1,
  )

  create_unless_duplicate-IsUnique :
      (orders : List Order)
      → IsUnique orders
      → IsUnique (create_unless_duplicate ids next_id branch_id client_id actor quote orders).0
  unfolding create_unless_duplicate
  create_unless_duplicate-IsUnique orders h =
      elim (Option-cases (
        find_active_duplicate branch_id client_id quote.optimization_hash quote.tier_code
          quote.services_total orders)) [
            | inr (o, e) ↦ rw (e, create_unless_duplicate) h
            | inl e ↦
                rw (e, create_unless_duplicate)
                  (AllPairs-append Differ orders
                    (new_order ids next_id branch_id client_id actor quote ∷ []) h (tt, tt)
                    (append-new orders (
                      find_none branch_id client_id quote.optimization_hash quote.tier_code
                        quote.services_total orders e)))
          ]

  create_unless_duplicate_again :
      (ids' : ℕ → ℕ) (next_id' : ℕ) (actor' : Actor) (orders : List Order) {o : Order}
      → (create_unless_duplicate ids next_id branch_id client_id actor quote orders).1 ≡ ok o
      → let orders' =
          (create_unless_duplicate ids next_id branch_id client_id actor quote orders).0 in
        create_unless_duplicate ids' next_id' branch_id client_id actor' quote orders'
        ≡ (orders', ok o)
  unfolding create_unless_duplicate
  create_unless_duplicate_again ids' next_id' actor' orders {o} h =
      let new = new_order ids next_id branch_id client_id actor quote in
      elim (Option-cases (
        find_active_duplicate branch_id client_id quote.optimization_hash quote.tier_code
          quote.services_total orders)) [
            | inr (p, e) ↦
                let same : p ≡ o = ok-injective (rw (e, create_unless_duplicate) at h) in
                let runs : create_unless_duplicate ids next_id branch_id client_id actor quote
                      orders
                    ≡ (orders, ok p) =
                  rw (e, create_unless_duplicate) refl in
                let again : create_unless_duplicate ids' next_id' branch_id client_id actor' quote
                      orders
                    ≡ (orders, ok p) =
                  rw (e, create_unless_duplicate) refl in
                ap (λ r. create_unless_duplicate ids' next_id' branch_id client_id actor' quote r.0)
                  runs
                ∙ again
                ∙ ap (λ x. (orders, ok x)) same
                ∙ ap (λ r. (r.0, ok o)) (sym runs)
            | inl e ↦
                let same : new ≡ o = ok-injective (rw (e, create_unless_duplicate) at h) in
                let f =
                  find_new branch_id client_id quote.optimization_hash quote.tier_code
                    quote.services_total orders new e new_order-duplicate in
                let runs : create_unless_duplicate ids next_id branch_id client_id actor quote
                      orders
                    ≡ (orders ++ new ∷ [], ok new) =
                  rw (e, create_unless_duplicate) refl in
                let again : create_unless_duplicate ids' next_id' branch_id client_id actor' quote
                      (orders ++ new ∷ [])
                    ≡ (orders ++ new ∷ [], ok new) =
                  rw (f, create_unless_duplicate) refl in
                ap (λ r. create_unless_duplicate ids' next_id' branch_id client_id actor' quote r.0)
                  runs
                ∙ again
                ∙ ap (λ x. (orders ++ new ∷ [], ok x)) same
                ∙ ap (λ r. (r.0, ok o)) (sym runs)
          ]

module _ (clients : List Client) (branches : List Branch) (quote : Result Quote) (client_id : ℕ)
    (requested : Option ℕ) where
  abbrev Refuses : Error → Type 0
  Refuses e =
      (ids : ℕ → ℕ) (next_id : ℕ) (actor : Actor) (orders : List Order)
      → create clients branches quote ids next_id client_id requested actor orders ≡ (orders, err e)

  abbrev Creates : ℕ → Quote → Type 0
  Creates b q =
      (ids : ℕ → ℕ) (next_id : ℕ) (actor : Actor) (orders : List Order)
      → create clients branches quote ids next_id client_id requested actor orders
        ≡ create_unless_duplicate ids next_id b client_id actor q orders

  create-cases : ((e : Error) × Refuses e) ⊎ ((b : ℕ) × (q : Quote) × Creates b q)
  unfolding create
  create-cases = elim (Result-cases (check_client clients client_id)) [
    | inr (e, f) ↦ inl (e, λ ids next_id actor orders. rw (f, create) refl)
    | inl (c, f) ↦ elim (Result-cases (resolve_branch_for_create branches none requested none)) [
      | inr (e, g) ↦ inl (e, λ ids next_id actor orders. rw (f, create, g) refl)
      | inl (b, g) ↦ elim (Result-cases quote) [
        | inr (e, k) ↦ inl (e, λ ids next_id actor orders. rw (f, create, g, k) refl)
        | inl (q, k) ↦ inr (b, q, λ ids next_id actor orders. rw (f, create, g, k) refl)
      ]
    ]
  ]

  module _ (ids : ℕ → ℕ) (next_id : ℕ) (actor : Actor) (orders : List Order) where
    -- `create` adds no second active order of the same branch, client, optimization, price tier and
    -- services total.
    pub create-IsUnique :
        IsUnique orders
        → IsUnique (create clients branches quote ids next_id client_id requested actor orders).0
    create-IsUnique h = elim create-cases [
      | inl (e, f) ↦ subst (λ r. IsUnique r.0) (sym (f ids next_id actor orders)) h
      | inr (b, q, f) ↦
          subst (λ r. IsUnique r.0) (sym (f ids next_id actor orders))
            (create_unless_duplicate-IsUnique ids next_id b client_id actor q orders h)
    ]

    -- The same request once more, after one that returned an order, returns that order and stores
    -- nothing, whoever sends it.
    pub create_again :
        (ids' : ℕ → ℕ) (next_id' : ℕ) (actor' : Actor) {o : Order}
        → (create clients branches quote ids next_id client_id requested actor orders).1 ≡ ok o
        → let orders' =
            (create clients branches quote ids next_id client_id requested actor orders).0 in
          create clients branches quote ids' next_id' client_id requested actor' orders'
          ≡ (orders', ok o)
    create_again ids' next_id' actor' {o} h = elim create-cases [
      | inl (e, f) ↦ absurd (ground (arith, h, f ids next_id actor orders))
      | inr (b, q, f) ↦
          let same = f ids next_id actor orders in
          let orders' =
            (create clients branches quote ids next_id client_id requested actor orders).0 in
          f ids' next_id' actor' orders'
          ∙ ap (λ r. create_unless_duplicate ids' next_id' b client_id actor' q r.0) same
          ∙ create_unless_duplicate_again ids next_id b client_id actor q ids' next_id' actor'
              orders (ap (λ r. r.1) (sym same) ∙ h)
          ∙ ap (λ r. (r.0, ok o)) (sym same)
    ]
