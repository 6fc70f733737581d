-- ===== src/Notifications/Single.antt =====
-- What marking one notification as read does.
use opticutter.Prelude.{
  ℕ, suc, ◌≡◌, refl, sym, ap, ◌∙◌, ◌⊎◌, inl, inr, Bool, true, false, some, List, [], ◌∷◌, ◌++◌, All,
  ◌==◌, Bool-cases, Result, ok, err, entity_not_found, arith,
}
use opticutter.Prelude.Rows.{on_first, IsAt, on_first-at, on_first-cases}
use opticutter.Notifications.Unread.{unread_count-append}
use opticutter.Notifications.{
  Notification, is_unread, is_unread_of, unread_count, mark_read_row, mark_read,
}

abbrev has_id : ℕ → Notification → Bool
has_id id n = n.id == id

-- The call has found the user's notification `old` and returned `n`, which is `old` if that was read.
pub record IsRead (id user_id now next : ℕ) (rows : List Notification)
    (result : List Notification × Result Notification) : Type 0 where
  pub old : Notification
  pub n : Notification
  pub at : IsAt (has_id id) rows old
  pub own : old.user_id ≡ user_id
  pub stamped :
      ((is_unread old ≡ true)
        × (n ≡ record old { read_at = some now })
        × (unread_count user_id rows ≡ suc (unread_count user_id result.0)))
      ⊎ ((is_unread old ≡ false) × (n ≡ old) × (result.0 ≡ rows))
  pub answer : result ≡ (at.earlier ++ n ∷ at.later, ok n)
  pub again : mark_read id user_id next result.0 ≡ result

-- The call has failed, since there is no such notification or it is another user's.
pub record IsRefused (id user_id : ℕ) (rows : List Notification)
    (result : List Notification × Result Notification) : Type 0 where
  pub answer : result ≡ (rows, err entity_not_found)
  pub why :
      All (λ r. has_id id r ≡ false) rows
      ⊎ ((r : Notification) × IsAt (has_id id) rows r × ((r.user_id == user_id) ≡ false))

unread_count-stamp :
    (user_id now : ℕ) (earlier later : List Notification) (n : Notification)
    → n.user_id ≡ user_id
    → is_unread n ≡ true
    → unread_count user_id (earlier ++ n ∷ later)
      ≡ suc (unread_count user_id (earlier ++ record n { read_at = some now } ∷ later))
unfolding unread_count
unread_count-stamp user_id now earlier later n own unread =
    let read = record n { read_at = some now } in
    let counted : is_unread_of user_id n ≡ true = ground (arith, own, unread) in
    let not_counted : is_unread_of user_id read ≡ false = ground arith in
    let before : unread_count user_id (n ∷ later) ≡ suc (unread_count user_id later) =
      rw counted refl in
    let after : unread_count user_id (read ∷ later) ≡ unread_count user_id later =
      rw not_counted refl in
    omega (
      arith,
      unread_count-append user_id earlier (n ∷ later),
      unread_count-append user_id earlier (read ∷ later),
      before,
      after,
    )

-- what the call makes of its row
mark_read_row-own :
    (user_id now : ℕ) (n : Notification)
    → (n.user_id == user_id) ≡ true
    → is_unread n ≡ true
    → mark_read_row user_id now n
      ≡ (record n { read_at = some now }, ok (record n { read_at = some now }))
unfolding mark_read_row
mark_read_row-own user_id now n own e = rw (own, e, mark_read_row) refl

mark_read_row-read :
    (user_id now : ℕ) (n : Notification)
    → (n.user_id == user_id) ≡ true
    → is_unread n ≡ false
    → mark_read_row user_id now n ≡ (n, ok n)
unfolding mark_read_row
mark_read_row-read user_id now n own e = rw (own, e, mark_read_row) refl

mark_read_row-other :
    (user_id now : ℕ) (n : Notification)
    → (n.user_id == user_id) ≡ false
    → mark_read_row user_id now n ≡ (n, err entity_not_found)
unfolding mark_read_row
mark_read_row-other user_id now n other = rw (other, mark_read_row) refl

mark_read-at :
    (id user_id now : ℕ) (earlier later : List Notification) (r m : Notification)
    (a : Result Notification)
    → All (λ s. has_id id s ≡ false) earlier
    → has_id id r ≡ true
    → mark_read_row user_id now r ≡ (m, a)
    → mark_read id user_id now (earlier ++ r ∷ later) ≡ (earlier ++ m ∷ later, a)
unfolding mark_read
mark_read-at id user_id now earlier later r m a s h e =
    on_first-at (has_id id) (err entity_not_found) (mark_read_row user_id now) earlier r later s h
    ∙ ap (λ x. (earlier ++ x.0 ∷ later, x.1)) e

mark_read-absent :
    (id user_id now : ℕ) (rows : List Notification)
    → All (λ r. has_id id r ≡ false) rows
    → mark_read id user_id now rows ≡ (rows, err entity_not_found)
unfolding mark_read on_first
mark_read-absent id user_id now [] h = refl
mark_read-absent id user_id now (r ∷ rows) h =
    rw (h.0, on_first) (ap (λ x. (r ∷ x.0, x.1)) (mark_read-absent id user_id now rows h.1))

module _ (id user_id now next : ℕ) (rows : List Notification) (old : Notification)
    (at : IsAt (has_id id) rows old) where
  at_row :
      (m : Notification) (a : Result Notification)
      → mark_read_row user_id now old ≡ (m, a)
      → mark_read id user_id now rows ≡ (at.earlier ++ m ∷ at.later, a)
  at_row m a e =
      ap (mark_read id user_id now) at.here
      ∙ mark_read-at id user_id now at.earlier at.later old m a at.skipped at.matched e

  -- the next call on the row that the call has left
  read_again :
      (n : Notification)
      → mark_read id user_id now rows ≡ (at.earlier ++ n ∷ at.later, ok n)
      → has_id id n ≡ true
      → (n.user_id == user_id) ≡ true
      → is_unread n ≡ false
      → mark_read id user_id next (mark_read id user_id now rows).0 ≡ mark_read id user_id now rows
  read_again n run same own read =
      ap (λ x. mark_read id user_id next x.0) run
      ∙ mark_read-at id user_id next at.earlier at.later n n (ok n) at.skipped same
          (mark_read_row-read user_id next n own read)
      ∙ sym run

  mark_read-IsRead_unread :
      (old.user_id == user_id) ≡ true
      → is_unread old ≡ true
      → IsRead id user_id now next rows (mark_read id user_id now rows)
  mark_read-IsRead_unread own e =
      let n = record old { read_at = some now } in
      let run = at_row n (ok n) (mark_read_row-own user_id now old own e) in
      let same : old.user_id ≡ user_id = ground (arith, own) in
      record {
        old = old;
        n = n;
        at = at;
        own = same;
        stamped = inl (
          e,
          refl,
          ap (unread_count user_id) at.here
              ∙ unread_count-stamp user_id now at.earlier at.later old same e
              ∙ ap (λ x. suc (unread_count user_id x.0)) (sym run),
        );
        answer = run;
        again = read_again n run at.matched own refl;
      }

  mark_read-IsRead_seen :
      (old.user_id == user_id) ≡ true
      → is_unread old ≡ false
      → IsRead id user_id now next rows (mark_read id user_id now rows)
  mark_read-IsRead_seen own e =
      let run = at_row old (ok old) (mark_read_row-read user_id now old own e) in
      record {
        old = old;
        n = old;
        at = at;
        own = ground (arith, own);
        stamped = inr (e, refl, ap (λ x. x.0) run ∙ sym at.here);
        answer = run;
        again = read_again old run at.matched own e;
      }

-- `mark_read` fails, and changes nothing, just where no notification has the id or the first with it is
-- another user's. Otherwise it returns that notification, with the time given if it was unread, and
-- then the user has one unread notification less; a row that was read stays, with all others. The
-- same call at any other time then changes nothing and returns the same.
pub mark_read-cases :
    (id user_id now next : ℕ) (rows : List Notification)
    → IsRead id user_id now next rows (mark_read id user_id now rows)
      ⊎ IsRefused id user_id rows (mark_read id user_id now rows)
mark_read-cases id user_id now next rows =
    elim (on_first-cases {0, 0} (has_id id) tt (λ r. (r, tt)) rows) [
      | inr (s, run) ↦ inr (record { answer = mark_read-absent id user_id now rows s; why = inl s })
      | inl (r, at, run) ↦ elim (Bool-cases (r.user_id == user_id)) [
        | inr e ↦ inr (record {
          answer =
              at_row id user_id now next rows r at r (err entity_not_found)
                (mark_read_row-other user_id now r e)
              ∙ ap (λ x. (x, err entity_not_found)) (sym at.here);
          why = inr (r, at, e);
        })
        | inl e ↦ elim (Bool-cases (is_unread r)) [
          | inl f ↦ inl (mark_read-IsRead_unread id user_id now next rows r at e f)
          | inr f ↦ inl (mark_read-IsRead_seen id user_id now next rows r at e f)
        ]
      ]
    ]
