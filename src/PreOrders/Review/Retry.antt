-- ===== src/PreOrders/Review/Retry.antt =====
-- After the client has confirmed: retries and replies that contradict it.
use opticutter.Prelude.{
  ℕ, ◌≡◌, inl, inr, refl, sym, ap, subst, ◌∙◌, true, false, ◌||◌, Option, some, List, [], ◌∷◌, ◌++◌,
  All, Result, ok, err, ok-injective, conflict_error, review_link_not_found, Bool-cases,
  Option-cases, Result-cases, arith,
}
use opticutter.Prelude.Text.{Text, same_text, codes}
use opticutter.Prelude.Rows.{on_first, on_first-at, on_first-cases}
use opticutter.Orders.Order.{Order, is_some}
use opticutter.PreOrders.{
  is_confirmed, is_expired, is_withdrawn, used, is_revoked, ReviewLink, PreOrder,
}
use opticutter.PreOrders.Service.{record_transition, is_stale, expire_if_stale}
use opticutter.PreOrders.Review.{
  find_link, has_link, mark_used, meta_of, with_link, request_changes_row, reject_row,
  confirmed_row, confirm_row, Database, create_order, request_changes, reject, confirm,
}

-- A confirmed row whose link with the hash can be followed.
pub record IsSettled (hash : Text) (p : PreOrder) : Type 0 where
  pub link : ReviewLink
  pub found : find_link hash p.review_links ≡ some link
  pub good : is_revoked link.status ≡ false
  pub done : is_confirmed p.status ≡ true

find_link-mark_used :
    (hash : Text) (now : ℕ) (meta : List (Text × Option Text)) (links : List ReviewLink)
    {l : ReviewLink}
    → find_link hash links ≡ some l
    → (k : ReviewLink) × (find_link hash (mark_used hash now meta links) ≡ some k)
      × (is_revoked k.status ≡ false)
unfolding find_link mark_used
find_link-mark_used hash now meta [] f = absurd (ground (arith, f))
find_link-mark_used hash now meta (k ∷ ks) f = elim (Bool-cases (same_text k.token_hash hash)) [
  | inl e ↦
      let marked = record k { status = used; used_at = some now; used_meta = some meta } in
      (marked, rw (e, mark_used, e) refl, refl)
  | inr e ↦
      let (m, g, r) = find_link-mark_used hash now meta ks (rw (e, find_link) at f) in
      (m, rw (e, mark_used, e) g, r)
]

closed-stale : (now : ℕ) (p : PreOrder) → is_confirmed p.status ≡ true → expire_if_stale now p ≡ p
unfolding expire_if_stale is_stale
closed-stale now p e = ground (arith, e)

expire-links : (now : ℕ) (p : PreOrder) → (expire_if_stale now p).review_links ≡ p.review_links
unfolding expire_if_stale record_transition
expire-links now p = ground arith

with_link-IsSettled {κ} :
    {Answer : Type κ} (hash : Text) (now : ℕ) (missing : Answer)
    (call : PreOrder → PreOrder × Answer) (p : PreOrder)
    → IsSettled hash p
    → with_link hash now missing call p ≡ call p
unfolding with_link
with_link-IsSettled hash now missing call p s =
    rw (s.found, with_link, s.good) (ap call (closed-stale now p s.done))

module _ (hash : Text) (p : PreOrder) (s : IsSettled hash p) where
  has_link-IsSettled : has_link hash p ≡ true
  unfolding has_link
  has_link-IsSettled = ap is_some s.found

  confirm_row-again :
      (now : ℕ) (reply : Option Text) (meta : List (Text × Option Text))
      (create : PreOrder → List Order → List Order × Result Order) (orders : List Order)
      → confirm_row now hash reply meta create orders p ≡ (p, (orders, ok p))
  unfolding confirm_row
  confirm_row-again now reply meta create orders = ground (arith, s.done)

  reject_row-conflict :
      (now : ℕ) (reply : Option Text) (meta : List (Text × Option Text))
      → reject_row now hash reply meta p ≡ (p, err conflict_error)
  unfolding reject_row
  reject_row-conflict now reply meta = ground (arith, s.done)

  request_changes_row-conflict :
      (wish : Option Text) → request_changes_row wish p ≡ (p, err conflict_error)
  unfolding request_changes_row
  request_changes_row-conflict wish = ground (arith, s.done)

module _ (now : ℕ) (hash : Text) (reply : Option Text) (meta : List (Text × Option Text))
    (create : PreOrder → List Order → List Order × Result Order) (orders : List Order) where
  settled :
      (order : Order) (p : PreOrder) {l : ReviewLink}
      → find_link hash p.review_links ≡ some l
      → IsSettled hash (confirmed_row now hash reply meta order p)
  unfolding confirmed_row record_transition
  settled order p f =
      let all = meta_of (codes "confirmed") reply meta in
      let (k, g, r) = find_link-mark_used hash now all p.review_links f in
      record { link = k; found = g; good = r; done = refl }

  -- the row that a confirmation returns is the row it stores
  confirm_row_ok :
      (p : PreOrder) {q : PreOrder} {l : ReviewLink}
      → find_link hash p.review_links ≡ some l
      → is_revoked l.status ≡ false
      → (confirm_row now hash reply meta create orders p).1.1 ≡ ok q
      → ((confirm_row now hash reply meta create orders p).0 ≡ q) × IsSettled hash q
  unfolding confirm_row
  confirm_row_ok p {q} {l} f g h =
      elim (Bool-cases (is_expired p.status || is_withdrawn p.status)) [
        | inl e ↦ absurd (ground (arith, rw (e, confirm_row) at h))
        | inr e ↦ elim (Bool-cases (is_confirmed p.status)) [
          | inl c ↦
              let same : p ≡ q = ok-injective (rw (e, confirm_row, c) at h) in
              rw (e, confirm_row, c)
                (
                  same,
                  subst (IsSettled hash) same (record { link = l; found = f; good = g; done = c }),
                )
          | inr c ↦ elim (Result-cases (create p orders).1) [
            | inr (raised, k) ↦ absurd (ground (arith, rw (e, confirm_row, c, k) at h))
            | inl (order, k) ↦
                let same : confirmed_row now hash reply meta order p ≡ q =
                  ok-injective (rw (e, confirm_row, c, k) at h) in
                rw (e, confirm_row, c, k) (same, subst (IsSettled hash) same (settled order p f))
          ]
        ]
      ]

  with_link_ok :
      (p : PreOrder) {q : PreOrder}
      → (let missing : List Order × Result PreOrder = (orders, err review_link_not_found) in
          let call = confirm_row now hash reply meta create orders in
          (with_link hash now missing call p).1.1 ≡ ok q
          → ((with_link hash now missing call p).0 ≡ q) × IsSettled hash q)
  unfolding with_link
  with_link_ok p {q} h = elim (Option-cases (find_link hash p.review_links)) [
    | inl e ↦ absurd (ground (arith, rw (e, with_link) at h))
    | inr (l, e) ↦ elim (Bool-cases (is_revoked l.status)) [
      | inl f ↦ absurd (ground (arith, rw (e, with_link, f) at h))
      | inr f ↦
          rw (e, with_link, f)
            (confirm_row_ok (expire_if_stale now p)
              (ap (λ x. find_link hash x) (expire-links now p) ∙ e) f (rw (e, with_link, f) at h))
    ]
  ]

-- a reply that reaches a settled row and leaves it
reply_settled {κ} :
    {Answer : Type κ} {hash : Text} {p : PreOrder} (earlier later : List PreOrder)
    → All (λ r. has_link hash r ≡ false) earlier
    → IsSettled hash p
    → (now : ℕ) (missing : Answer) (act : PreOrder → PreOrder × Answer) {answer : Answer}
    → act p ≡ (p, answer)
    → on_first (has_link hash) missing (with_link hash now missing act) (earlier ++ p ∷ later)
      ≡ (earlier ++ p ∷ later, answer)
reply_settled {hash} {p} earlier later skipped s now missing act run =
    on_first-at (has_link hash) missing (with_link hash now missing act) earlier p later skipped
      (has_link-IsSettled hash p s)
    ∙ ap (λ r. (earlier ++ r.0 ∷ later, r.1)) (with_link-IsSettled hash now missing act p s ∙ run)

-- what later replies with the same token come to
pub record IsFinal (hash_token : Text → Text) (token : Text) (p : PreOrder) (rows : List PreOrder)
    (orders : List Order) : Type 0 where
  pub confirmed : is_confirmed p.status ≡ true
  pub again :
      (db : Database) (ids : ℕ → ℕ) (next_id later : ℕ) (reply : Option Text)
      (meta : List (Text × Option Text))
      → confirm hash_token db ids next_id later token reply meta orders rows
        ≡ (rows, (orders, ok p))
  pub refused :
      (later : ℕ) (reply : Option Text) (meta : List (Text × Option Text))
      → reject hash_token later token reply meta rows ≡ (rows, err conflict_error)
  pub unasked :
      (later : ℕ) (wish : Option Text)
      → request_changes hash_token later token wish rows ≡ (rows, err conflict_error)

module _ (hash_token : Text → Text) (db : Database) (ids : ℕ → ℕ) (next_id now : ℕ) (token : Text)
    (reply : Option Text) (meta : List (Text × Option Text)) (orders : List Order)
    (rows : List PreOrder) where
  abbrev hash : Text
  hash = hash_token token

  abbrev missing : List Order × Result PreOrder
  missing = (orders, err review_link_not_found)

  abbrev call : PreOrder → PreOrder × (List Order × Result PreOrder)
  call =
      with_link hash now missing
        (confirm_row now hash reply meta (create_order db ids next_id) orders)

  -- Once `confirm` has returned a pre-order, that row is confirmed, and whatever comes later with the
  -- same token changes nothing: confirming again returns the same row and creates no order, rejecting
  -- and asking for changes fail with ConflictError.
  pub confirm-IsFinal :
      {p : PreOrder}
      → (confirm hash_token db ids next_id now token reply meta orders rows).1.1 ≡ ok p
      → let done = confirm hash_token db ids next_id now token reply meta orders rows in
        IsFinal hash_token token p done.0 done.1.0
  unfolding confirm reject request_changes
  confirm-IsFinal {p} h = elim (on_first-cases (has_link hash) missing call rows) [
    | inr (none_left, run) ↦ absurd (ground (arith, ap (λ r. r.1.1) run, h))
    | inl (row, at, run) ↦
        let (wrote, s) =
          with_link_ok now hash reply meta (create_order db ids next_id) orders row
            (ap (λ r. r.1.1) (sym run) ∙ h) in
        let orders' = (call row).1.0 in
        let rows' = at.earlier ++ p ∷ at.later in
        let answer : (call row).1 ≡ (orders', ok p) =
          ap (λ x. (orders', x)) (ap (λ r. r.1.1) (sym run) ∙ h) in
        let stored : on_first (has_link hash) missing call rows ≡ (rows', (orders', ok p)) =
          run
          ∙ ap (λ x. (at.earlier ++ x ∷ at.later, (call row).1)) wrote
          ∙ ap (λ x. (rows', x)) answer in
        subst (λ r. IsFinal hash_token token p r.0 r.1.0) (sym stored)
          (record {
            confirmed = s.done;
            again = λ db' ids' next_id' later again meta'.
                reply_settled at.earlier at.later at.skipped s later
                  (orders', err review_link_not_found)
                  (confirm_row later hash again meta' (create_order db' ids' next_id') orders')
                  (confirm_row-again hash p s later again meta' (create_order db' ids' next_id')
                    orders');
            refused = λ later again meta'.
                reply_settled at.earlier at.later at.skipped s later (err review_link_not_found)
                  (reject_row later hash again meta')
                  (reject_row-conflict hash p s later again meta');
            unasked = λ later wish.
                reply_settled at.earlier at.later at.skipped s later (err review_link_not_found)
                  (request_changes_row wish) (request_changes_row-conflict hash p s wish);
          })
  ]
