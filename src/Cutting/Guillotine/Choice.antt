-- ===== src/Cutting/Guillotine/Choice.antt =====
-- The scan of `_place_piece`: what the chosen remainder is.
use opticutter.Prelude.{
  ℕ, suc, ◌+◌, ◌≤◌, ◌≡◌, refl, inl, inr, Bool, true, false, ◌||◌, Option, none, some, List, [], ◌∷◌,
  get_elem?, if◌then◌else◌, All, Bool-cases, arith, ◌↔◌, subst, ap,
}
use native.Mathlib.Nat.{add-zero}
use opticutter.Cutting.Models.{Rectangle, Piece, PackingStrategy, contains}
use opticutter.Cutting.Guillotine.{
  Score, leftover, corner, score_lt, fit_score, Best, improve, attempt, candidate, fits_upright,
  fits_turned, consider, scan,
}

abbrev pub side_x : Piece → Bool → ℕ
side_x piece rotated = if rotated then piece.height else piece.width

abbrev pub side_y : Piece → Bool → ℕ
side_y piece rotated = if rotated then piece.width else piece.height

-- `piece`, turned if that is allowed and `rotated` says so, fits in `rect`.
pub record FitsIn (piece : Piece) (rect : Rectangle) (rotated : Bool) : Type 0 where
  pub fits_x : side_x piece rotated ≤ rect.width
  pub fits_y : side_y piece rotated ≤ rect.height
  pub allowed : rotated ≡ true → piece.can_rotate ≡ true

-- The two tests of the loop.
abbrev pub fits_somehow : Piece → Rectangle → Bool
fits_somehow piece r = fits_upright piece r || fits_turned piece r

-- no worse than `best`, where there is one
abbrev pub NotBetter : Score → Option Best → Type 0
NotBetter score none = ⊥
NotBetter score (some best) = score_lt score best.score ≡ false

abbrev pub IsChoice : PackingStrategy → List Rectangle → Piece → Option Best → Type 0
IsChoice strategy rects piece none = Unit
IsChoice strategy rects piece (some best) =
    (rect : Rectangle) × (get_elem? rects best.index ≡ some rect)
    × FitsIn piece rect best.rotated
    × (best.score ≡ fit_score strategy rect piece)

NotBetter-lt : (a b c : Score) → score_lt c b ≡ true → score_lt a b ≡ false → score_lt a c ≡ false
unfolding score_lt
NotBetter-lt (leftover a) (leftover b) (leftover c) h k = ground arith
NotBetter-lt (corner a x u) (corner b y v) (corner c z w) h k = ground arith
NotBetter-lt _ _ _ h k = ground arith

score_lt_irrefl : (a : Score) → score_lt a a ≡ false
unfolding score_lt
score_lt_irrefl (leftover a) = ground arith
score_lt_irrefl (corner x y a) = ground arith

suc-add_comm : (i j : ℕ) → i + suc j ≡ suc i + j
suc-add_comm i j = omega arith

module _ (strategy : PackingStrategy) (piece : Piece) where
  improve-keeps :
      (score : Score) (best : Option Best) (new : Best)
      → NotBetter score best
      → NotBetter score (improve best new)
  unfolding improve
  improve-keeps score none new h = absurd h
  improve-keeps score (some b) new h = ground (arith, NotBetter-lt score b.score new.score)

  improve_self : (best : Option Best) (new : Best) → NotBetter new.score (improve best new)
  unfolding improve
  improve_self none new = score_lt_irrefl new.score
  improve_self (some b) new = ground (arith, score_lt_irrefl new.score)

  improve-ne-none : (best : Option Best) (new : Best) → improve best new ≡ none → ⊥
  unfolding improve
  improve-ne-none none new h = ground arith
  improve-ne-none (some b) new h = ground arith

  attempt-keeps :
      (score : Score) (fits : Bool) (best : Option Best) (new : Best)
      → NotBetter score best
      → NotBetter score (attempt fits best new)
  unfolding attempt
  attempt-keeps score true best new h = improve-keeps score best new h
  attempt-keeps score false best new h = h

  attempt_self :
      (fits : Bool) (best : Option Best) (new : Best)
      → fits ≡ true
      → NotBetter new.score (attempt fits best new)
  unfolding attempt
  attempt_self true best new h = improve_self best new
  attempt_self false best new h = cc

  consider-keeps :
      (score : Score) (i : ℕ) (rect : Rectangle) (best : Option Best)
      → NotBetter score best
      → NotBetter score (consider strategy piece i rect best)
  unfolding consider
  consider-keeps score i rect best h =
      attempt-keeps score (fits_turned piece rect) _ (candidate strategy piece i rect true) (
        attempt-keeps score (fits_upright piece rect) best (candidate strategy piece i rect false)
          h)

  consider-fit :
      (i : ℕ) (rect : Rectangle) (best : Option Best)
      → fits_somehow piece rect ≡ true
      → NotBetter (fit_score strategy rect piece) (consider strategy piece i rect best)
  unfolding consider
  consider-fit i rect best h =
      let first = candidate strategy piece i rect false in
      let second = candidate strategy piece i rect true in
      elim (Bool-cases (fits_upright piece rect)) [
        | inl e ↦
            attempt-keeps first.score (fits_turned piece rect) _ second
              (attempt_self (fits_upright piece rect) best first e)
        | inr e ↦
            attempt_self (fits_turned piece rect) (attempt (fits_upright piece rect) best first)
              second (ground (arith, e, h))
      ]

  scan-keeps :
      (score : Score) (i : ℕ) (rects : List Rectangle) (best : Option Best)
      → NotBetter score best
      → NotBetter score (scan strategy piece i rects best)
  unfolding scan
  scan-keeps score i [] best h = h
  scan-keeps score i (r ∷ rs) best h =
      scan-keeps score (suc i) rs (consider strategy piece i r best)
        (consider-keeps score i r best h)

  -- No remainder that takes the piece has a better score than the choice.
  pub scan_best :
      (i : ℕ) (rects : List Rectangle) (best : Option Best)
      → All
          (λ r.
            fits_somehow piece r ≡ true
            → NotBetter (fit_score strategy r piece) (scan strategy piece i rects best))
          rects
  unfolding scan
  scan_best i [] best = tt
  scan_best i (r ∷ rs) best = (
    λ h. scan-keeps _ (suc i) rs _ (consider-fit i r best h),
    scan_best (suc i) rs (consider strategy piece i r best),
  )

  consider-none :
      (i : ℕ) (rect : Rectangle)
      → fits_somehow piece rect ≡ false
      → consider strategy piece i rect none ≡ none
  unfolding consider attempt
  consider-none i rect h = ground arith

  -- Where no remainder takes the piece there is no choice.
  pub scan-none :
      (i : ℕ) (rects : List Rectangle)
      → All (λ r. fits_somehow piece r ≡ false) rects
      → scan strategy piece i rects none ≡ none
  unfolding scan
  scan-none i [] h = refl
  scan-none i (r ∷ rs) h = rw (consider-none i r h.0) (scan-none (suc i) rs h.1)

  none_fits :
      (rects : List Rectangle)
      → All (λ r. fits_somehow piece r ≡ true → ⊥) rects
      → All (λ r. fits_somehow piece r ≡ false) rects
  none_fits [] h = tt
  none_fits (r ∷ rs) h = (ground (arith, h.0), none_fits rs h.1)

  pub scan-none_iff :
      (rects : List Rectangle)
      → (scan strategy piece 0 rects none ≡ none) ↔ All (λ r. fits_somehow piece r ≡ false) rects
  scan-none_iff rects = (
    λ e. none_fits rects (
        subst
          (λ b.
            All (λ r. fits_somehow piece r ≡ true → NotBetter (fit_score strategy r piece) b) rects)
          e (scan_best 0 rects none)),
    scan-none 0 rects,
  )

  module _ (whole : List Rectangle) where
    attempt-IsChoice :
        (fits : Bool) (best : Option Best) (new : Best) (rect : Rectangle)
        → (fits ≡ true → FitsIn piece rect new.rotated)
        → get_elem? whole new.index ≡ some rect
        → new.score ≡ fit_score strategy rect piece
        → IsChoice strategy whole piece best
        → IsChoice strategy whole piece (attempt fits best new)
    unfolding attempt improve
    attempt-IsChoice false best new rect f e q h = h
    attempt-IsChoice true none new rect f e q h = (rect, e, f refl, q)
    attempt-IsChoice true (some b) new rect f e q h =
        elim (Bool-cases (score_lt new.score b.score)) [
          | inl t ↦ rw t (rect, e, f refl, q)
          | inr t ↦ rw t h
        ]

    consider-IsChoice :
        (i : ℕ) (rect : Rectangle) (best : Option Best)
        → get_elem? whole i ≡ some rect
        → IsChoice strategy whole piece best
        → IsChoice strategy whole piece (consider strategy piece i rect best)
    unfolding consider contains
    consider-IsChoice i rect best e h =
        let first = candidate strategy piece i rect false in
        let second = candidate strategy piece i rect true in
        attempt-IsChoice (fits_turned piece rect) (attempt (fits_upright piece rect) best first)
          second rect (λ q. ground arith) e refl
          (attempt-IsChoice (fits_upright piece rect) best first rect (λ q. ground arith) e refl h)

    scan_from-IsChoice :
        (i : ℕ) (rects : List Rectangle) (best : Option Best)
        → ((j : ℕ) → get_elem? whole (i + j) ≡ get_elem? rects j)
        → IsChoice strategy whole piece best
        → IsChoice strategy whole piece (scan strategy piece i rects best)
    unfolding scan
    scan_from-IsChoice i [] best tail h = h
    scan_from-IsChoice i (r ∷ rs) best tail h =
        scan_from-IsChoice (suc i) rs (consider strategy piece i r best)
          (λ j. rw (← suc-add_comm i j) (tail (suc j)))
          (consider-IsChoice i r best (rw add-zero at (tail 0)) h)

  -- The choice is a remainder of the list in which the piece fits, turned only if it may be.
  pub scan-IsChoice :
      (rects : List Rectangle) → IsChoice strategy rects piece (scan strategy piece 0 rects none)
  scan-IsChoice rects =
      scan_from-IsChoice rects 0 rects none (λ j. ap (get_elem? rects) (omega arith)) tt
