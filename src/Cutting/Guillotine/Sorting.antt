-- ===== src/Cutting/Guillotine/Sorting.antt =====
-- The order in which `_sort_pieces` of src/cutting/optimizer.py puts the pieces, and in which a run
-- takes them up.
use mathlib.Core.List.{Perm}
use opticutter.Prelude.{
  ◌*◌, ◌≤◌, ◌<◌, ◌≡◌, ◌⊎◌, sym, ap, subst, inl, inr, Bool, true, false, ◌&&◌, ◌==◌, List, [], ◌∷◌,
  filter, map, All, All-map, All-append, AllPairs, AllPairs-append, Across, Bool-cases, arith,
}
use opticutter.Prelude.Stable.{sort_by-perm, IsKeyOrder, NotAfter, sort_by-ordered, filter-sort_by}
use opticutter.Cutting.Models.{PackingStrategy, max_efficiency, long_offcuts, Piece}
use opticutter.Cutting.Guillotine.{
  Config, Sheet, piece_before, sort_pieces, expand, place_piece, place_all, optimize,
}
use opticutter.Cutting.Guillotine.Placement.{pieces_on, place_piece-cases, pieces_on-step}

-- The first piece may be taken up before the second: a higher priority leads; with the same one it
-- is a larger area, or with long offcuts a larger height and then a larger width.
abbrev pub Leads : PackingStrategy → Piece → Piece → Type 0
Leads max_efficiency a b =
    (b.priority < a.priority)
    ⊎ ((a.priority ≡ b.priority) × (b.width * b.height ≤ a.width * a.height))
Leads long_offcuts a b =
    (b.priority < a.priority)
    ⊎ ((a.priority ≡ b.priority)
        × ((b.height < a.height) ⊎ ((a.height ≡ b.height) × (b.width ≤ a.width))))

piece_before-IsKeyOrder : (strategy : PackingStrategy) → IsKeyOrder (piece_before strategy)
unfolding piece_before
piece_before-IsKeyOrder max_efficiency = record {
  asym = λ a b h. ground (arith, h);
  trans = λ a b c h k. ground (arith, h, k);
}
piece_before-IsKeyOrder long_offcuts = record {
  asym = λ a b h. ground (arith, h);
  trans = λ a b c h k. ground (arith, h, k);
}

NotAfter-Leads :
    (strategy : PackingStrategy) (a b : Piece)
    → NotAfter (piece_before strategy) a b
    → Leads strategy a b
unfolding piece_before
NotAfter-Leads max_efficiency a b h = ground (arith, h)
NotAfter-Leads long_offcuts a b h = ground (arith, h)

-- the same key
abbrev pub same_key : PackingStrategy → Piece → Piece → Bool
same_key max_efficiency a b = a.priority == b.priority && (a.width * a.height == b.width * b.height)
same_key long_offcuts a b = a.priority == b.priority && (a.height == b.height && a.width == b.width)

same_key_tied :
    (strategy : PackingStrategy) (k a b : Piece)
    → same_key strategy k a ≡ true
    → same_key strategy k b ≡ true
    → piece_before strategy a b ≡ false
unfolding piece_before
same_key_tied max_efficiency k a b h e = ground (arith, h, e)
same_key_tied long_offcuts k a b h e = ground (arith, h, e)

AllPairs-map :
    (R S : Piece → Piece → Type 0)
    → ((a b : Piece) → R a b → S a b)
    → (xs : List Piece) → AllPairs R xs
    → AllPairs S xs
AllPairs-map R S f [] h = tt
AllPairs-map R S f (x ∷ xs) h = (All-map (f x) xs h.0, AllPairs-map R S f xs h.1)

pub record IsSorting (strategy : PackingStrategy) (pieces result : List Piece) : Type 0 where
  pub same : Perm result pieces
  pub ordered : AllPairs (Leads strategy) result
  pub stable :
      (k : Piece) → filter (same_key strategy k) result ≡ filter (same_key strategy k) pieces

-- `_sort_pieces` returns the same pieces, each leading all later ones, and pieces with equal keys in
-- the order given.
pub sort_pieces-IsSorting :
    (strategy : PackingStrategy) (pieces : List Piece)
    → IsSorting strategy pieces (sort_pieces pieces strategy)
unfolding sort_pieces
sort_pieces-IsSorting strategy pieces = record {
  same = sort_by-perm (piece_before strategy) pieces;
  ordered =
      AllPairs-map (NotAfter (piece_before strategy)) (Leads strategy) (NotAfter-Leads strategy) _
        (sort_by-ordered (piece_before strategy) (piece_before-IsKeyOrder strategy) pieces);
  stable = λ k.
      filter-sort_by (piece_before strategy) (same_key strategy k) (same_key_tied strategy k)
        pieces;
}

module _ (c : Config) where
  -- what is left over is among the pieces
  All-unplaced :
      (P : Piece → Type 0) (pieces : List Piece) (s : Sheet)
      → All P pieces
      → All P (place_all c pieces s).1
  unfolding place_all
  All-unplaced P [] s h = tt
  All-unplaced P (piece ∷ later) s h =
      let rest = All-unplaced P later (place_piece c piece s).0 h.1 in
      elim (Bool-cases (place_piece c piece s).1) [ inl e ↦ rw e rest | inr e ↦ rw e (h.0, rest) ]

  -- The placed pieces and those left over stay in the order of the pieces.
  place_all-ordered :
      (R : Piece → Piece → Type 0) (pieces : List Piece) (s : Sheet)
      → AllPairs R (pieces_on s)
      → AllPairs R pieces
      → Across R (pieces_on s) pieces
      → AllPairs R (pieces_on (place_all c pieces s).0) × AllPairs R (place_all c pieces s).1
  unfolding place_all
  place_all-ordered R [] s hs hp across = (hs, tt)
  place_all-ordered R (piece ∷ later) s hs hp across = elim (place_piece-cases c piece s) [
    | inl (_, same) ↦ rw same (
        let rest =
          place_all-ordered R later s hs hp.1 (All-map (λ x h. h.1) (pieces_on s) across) in
        (rest.0, (All-unplaced (R piece) later s hp.0, rest.1)))
    | inr (done, step) ↦ rw done (
        let grown = pieces_on-step c piece step in
        place_all-ordered R later (place_piece c piece s).0
          (subst (AllPairs R) (sym grown) (
            AllPairs-append R (pieces_on s) (piece ∷ []) hs (tt, tt)
              (All-map (λ x h. (h.0, tt)) (pieces_on s) across)))
          hp.1
          (subst (λ l. Across R l later) (sym grown)
            (All-append (λ x. All (R x) later) (pieces_on s) (piece ∷ [])
              (All-map (λ x h. h.1) (pieces_on s) across) (hp.0, tt))))
  ]

  pub optimize-Leads :
      (pieces : List Piece) (s : Sheet)
      → s.placed_pieces ≡ []
      → let (s', (placed, unplaced)) = optimize c pieces s in
        AllPairs (Leads c.strategy) (map (λ p. p.piece) placed)
        × AllPairs (Leads c.strategy) unplaced
  unfolding optimize
  optimize-Leads [] s e = (tt, tt)
  optimize-Leads (piece ∷ later) s e =
      let blank : pieces_on s ≡ [] = ap (map (λ p. p.piece)) e in
      let R = Leads c.strategy in
      let sorted = sort_pieces (expand (piece ∷ later)) c.strategy in
      place_all-ordered R sorted s (subst (AllPairs R) (sym blank) tt)
        (sort_pieces-IsSorting c.strategy (expand (piece ∷ later))).ordered
        (subst (λ l. Across R l sorted) (sym blank) tt)
