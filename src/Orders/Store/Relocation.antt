-- ===== src/Orders/Store/Relocation.antt =====
-- What `change_branch` keeps of the single active order of each key.
use opticutter.Prelude.{
  ℕ, ◌≡◌, ◌≢◌, inl, inr, refl, sym, ap, true, false, ◌||◌, All-map, Option, none, some, List, [],
  ◌∷◌, ◌==◌, subst, ok, Result-cases, All, AllPairs, arith, Bool-cases, Option-cases,
}
use mathlib.Core.Option.{some-injective}
use opticutter.Prelude.Text.{Text}
use opticutter.Branches.{Branch, resolve_branch_for_create}
use opticutter.Orders.Status.{is_confirmed, is_queued}
use opticutter.Orders.Order.{Actor, Order}
use opticutter.Orders.Store.{
  put, is_active_duplicate, find_active_duplicate, moved, is_blocked, move_to, change_branch,
  get_scoped_or_404, find_order,
}
use opticutter.Orders.Store.Unique.{same_active, same_active_comm, find_none, find_found}

put-All :
    (P : Order → Type 0) (o : Order) (orders : List Order)
    → P o
    → All P orders
    → All P (put o orders)
unfolding put
put-All P o [] h a = tt
put-All P o (p ∷ ps) h a = elim (Bool-cases (p.id == o.id)) [
  | inl e ↦ rw e (h, a.1)
  | inr e ↦ rw e (a.0, put-All P o ps h a.1)
]

put-AllPairs :
    (R : Order → Order → Type 0) (R_comm : (a b : Order) → R a b → R b a) (o : Order)
    (orders : List Order)
    → All (R o) orders
    → AllPairs R orders
    → AllPairs R (put o orders)
unfolding put
put-AllPairs R R_comm o [] h a = tt
put-AllPairs R R_comm o (p ∷ ps) h a = elim (Bool-cases (p.id == o.id)) [
  | inl e ↦ rw e (h.1, a.1)
  | inr e ↦ rw e (put-All (R p) o ps (R_comm o p h.0) a.0, put-AllPairs R R_comm o ps h.1 a.1)
]

-- the orders that no service is billed on
abbrev pub DifferUnserviced : Order → Order → Type 0
DifferUnserviced a b = a.additional_services_total ≡ 0 → same_active a b ≡ false

abbrev pub IsUniqueUnserviced : List Order → Type 0
IsUniqueUnserviced orders = AllPairs DifferUnserviced orders

DifferUnserviced-comm : (a b : Order) → DifferUnserviced a b → DifferUnserviced b a
unfolding same_active is_active_duplicate
DifferUnserviced-comm a b h e = ground (arith, h, e, same_active_comm a b)

away :
    (target client_id : ℕ) (hash tier : Text) (services : ℕ) (o p : Order)
    → p ≡ o
    → is_active_duplicate target client_id hash tier services p ≡ true
    → (target == o.branch_id) ≢ false
unfolding is_active_duplicate
away target client_id hash tier services o p same h e =
    ground (arith, h, e, ap (λ q. q.branch_id) same)

module _ (target : ℕ) (actor : Actor) (note : Option Text) (o : Order) where
  moved-Differs :
      (orders : List Order)
      → All
          (λ p.
            is_active_duplicate target o.client_id o.optimization_hash o.price_tier_code 0 p
            ≡ false)
          orders
      → All (DifferUnserviced (moved target actor note o)) orders
  unfolding same_active moved is_active_duplicate
  moved-Differs [] h = tt
  moved-Differs (p ∷ ps) h = (λ e. ground (arith, e, h.0), moved-Differs ps h.1)

  -- a duplicate that is the order itself is in its own branch
  not_blocked :
      (orders : List Order)
      → All (λ p. p.id ≡ o.id → p ≡ o) orders
      → (target == o.branch_id) ≡ false
      → is_blocked target o orders ≡ false
      → find_active_duplicate target o.client_id o.optimization_hash o.price_tier_code 0 orders
        ≡ none
  unfolding is_blocked
  not_blocked orders keyed e h =
      elim (Option-cases
        (find_active_duplicate target o.client_id o.optimization_hash o.price_tier_code 0 orders)) [
          | inl f ↦ f
          | inr (p, f) ↦
              let (found, same) =
                find_found target o.client_id o.optimization_hash o.price_tier_code 0
                  (λ q. q.id ≡ o.id → q ≡ o) orders keyed f in
              let own : p.id ≡ o.id = ground (arith, rw (f, is_blocked) at h) in
              absurd (
                away target o.client_id o.optimization_hash o.price_tier_code 0 o p (same own) found
                  e)
        ]

  move_to-unserviced :
      (orders : List Order)
      → All (λ p. p.id ≡ o.id → p ≡ o) orders
      → IsUniqueUnserviced orders
      → IsUniqueUnserviced (move_to target actor note o orders).0
  unfolding move_to
  move_to-unserviced orders keyed h = elim (Bool-cases (target == o.branch_id)) [
    | inl e ↦ rw (e, move_to) h
    | inr e ↦ elim (Bool-cases (is_blocked target o orders)) [
      | inl f ↦ rw (e, move_to, f) h
      | inr f ↦
          rw (e, move_to, f)
            (put-AllPairs DifferUnserviced DifferUnserviced-comm (moved target actor note o) orders
              (moved-Differs orders (
                find_none target o.client_id o.optimization_hash o.price_tier_code 0 orders
                  (not_blocked orders keyed e f)))
              h)
    ]
  ]

-- the ids are a primary key
abbrev pub IsKeyed : List Order → Type 0
IsKeyed orders = AllPairs (λ a b. a.id ≢ b.id) orders

find_order-keyed :
    (id : ℕ) (orders : List Order) {o : Order}
    → IsKeyed orders
    → find_order id orders ≡ some o
    → All (λ p. p.id ≡ o.id → p ≡ o) orders × (o.id ≡ id)
unfolding find_order
find_order-keyed id [] k h = absurd (ground (arith, h))
find_order-keyed id (p ∷ ps) {o} k h = elim (Bool-cases (p.id == id)) [
  | inl e ↦
      let same : p ≡ o = some-injective _ _ (rw (e) at h) in
      subst (λ q. All (λ r. r.id ≡ q.id → r ≡ q) (p ∷ ps) × (q.id ≡ id)) same
        (((λ f. refl), All-map (λ q d f. absurd (d (sym f))) ps k.0), ground (arith, e))
  | inr e ↦
      let (keyed, found) = find_order-keyed id ps k.1 (rw (e) at h) in
      (((λ f. absurd (ground (arith, e, f, found))), keyed), found)
]

get_scoped_found :
    (id : ℕ) (scope : Option ℕ) (orders : List Order) {o : Order}
    → get_scoped_or_404 id scope orders ≡ ok o
    → find_order id orders ≡ some o
unfolding get_scoped_or_404
get_scoped_found id scope orders h = ground (arith, h)

module _ (branches : List Branch) (order_id target_branch_id : ℕ) (actor : Actor)
    (note : Option Text) (scope : Option ℕ) (orders : List Order) where
  -- With distinct ids, `change_branch` keeps a single active order of each key among the orders without services.
  pub change_branch-unserviced :
      IsKeyed orders
      → IsUniqueUnserviced orders
      → IsUniqueUnserviced
          (change_branch branches order_id target_branch_id actor note scope orders).0
  unfolding change_branch
  change_branch-unserviced k h = elim (Result-cases (get_scoped_or_404 order_id scope orders)) [
    | inr (e, f) ↦ rw (f, change_branch) h
    | inl (o, f) ↦ elim (Bool-cases (is_confirmed o.status || is_queued o.status)) [
      | inr g ↦ rw (f, change_branch, g) h
      | inl g ↦
          elim (Result-cases
            (resolve_branch_for_create branches none (some target_branch_id) none)) [
              | inr (e, r) ↦ rw (f, change_branch, g, r) h
              | inl (target, r) ↦
                  rw (f, change_branch, g, r)
                    (move_to-unserviced target actor note o orders
                      (find_order-keyed order_id orders k
                        (get_scoped_found order_id scope orders f)).0
                      h)
            ]
    ]
  ]
