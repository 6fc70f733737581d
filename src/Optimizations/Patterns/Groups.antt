-- ===== src/Optimizations/Patterns/Groups.antt =====
-- What `group_layouts` collects: for every pattern its first layout and all its sheets.
use opticutter.Prelude.{
  ℕ, suc, ◌+◌, ◌≡◌, refl, sym, ap, subst, ◌∙◌, inl, inr, Bool, true, false, Option, none, some,
  List, [], ◌∷◌, ◌++◌, map, filter, filter-append, length, length-append, sum_by, All, AllPairs,
  append-nil, append_assoc, Bool-cases, if◌then◌else◌, arith,
}
use mathlib.Core.List.{map-append}
use opticutter.Prelude.Text.{same_text_refl, same_text_eq}
use opticutter.Cutting.Models.{CuttingLayout}
use opticutter.Optimizations.Patterns.{
  Entry, same_entries, Signature, same_signature, LayoutGroup, Groups, layout_signature, add_layout,
  add_layouts, group_layouts,
}

same_entries_refl : (es : List Entry) → same_entries es es ≡ true
same_entries_refl [] = refl
same_entries_refl (e ∷ es) = ground (arith, same_text_refl e.label, same_entries_refl es)

same_entries_eq : (es fs : List Entry) → same_entries es fs ≡ true → es ≡ fs
same_entries_eq [] [] h = refl
same_entries_eq [] (f ∷ fs) h = absurd (ground (arith, h))
same_entries_eq (e ∷ es) [] h = absurd (ground (arith, h))
same_entries_eq (e ∷ es) (f ∷ fs) h =
    ground (arith, h, same_text_eq e.label f.label, same_entries_eq es fs)

same_signature_refl : (s : Signature) → same_signature s s ≡ true
unfolding same_signature
same_signature_refl s = ground (arith, same_text_refl s.material_key, same_entries_refl s.pieces)

same_signature_eq : (s t : Signature) → same_signature s t ≡ true → s ≡ t
unfolding same_signature
same_signature_eq s t h =
    ground (arith, h, same_text_eq s.material_key t.material_key, same_entries_eq s.pieces t.pieces)

-- the count, the sheet numbers and the representative
abbrev pub Tally : Type 0
Tally = ℕ × (List ℕ × CuttingLayout)

abbrev pub tally_of : LayoutGroup → Tally
tally_of g = (g.count, (g.sheet_numbers, g.layout))

abbrev pub tally_first : List CuttingLayout → Option Tally
tally_first [] = none
tally_first (l ∷ ls) = some (length (l ∷ ls), (map (λ k. k.sheet_number) (l ∷ ls), l))

abbrev pub IsNumbered : ℕ → List LayoutGroup → Type 0
IsNumbered n [] = Unit
IsNumbered n (g ∷ gs) = (g.pattern_id ≡ n + 1) × IsNumbered (suc n) gs

module _ (is_digit : ℕ → Bool) where
  abbrev pub sig : CuttingLayout → Signature
  sig layout = layout_signature is_digit layout

  -- the layouts with the pattern
  abbrev pub alike : Signature → List CuttingLayout → List CuttingLayout
  alike s layouts = filter (λ l. same_signature (sig l) s) layouts

  -- the group of a pattern
  abbrev pub find_pattern : Signature → List LayoutGroup → Option Tally
  find_pattern s [] = none
  find_pattern s (g ∷ gs) =
      if same_signature (sig g.layout) s then some (tally_of g) else find_pattern s gs

  pub record IsGrouping (layouts : List CuttingLayout) (groups : List LayoutGroup) : Type 0 where
    pub found : (s : Signature) → find_pattern s groups ≡ tally_first (alike s layouts)
    pub distinct : AllPairs (λ g h. same_signature (sig g.layout) (sig h.layout) ≡ false) groups
    pub numbered : IsNumbered 0 groups
    pub total : sum_by (λ g. g.count) groups ≡ length layouts
    pub keyed : All (λ g. g.material_key ≡ g.layout.material.id) groups

  abbrev bump : CuttingLayout → Option Tally → Option Tally
  bump l none = some (1, (l.sheet_number ∷ [], l))
  bump l (some (n, (numbers, first))) = some (n + 1, (numbers ++ l.sheet_number ∷ [], first))

  abbrev views : Groups is_digit → List LayoutGroup
  views gs = map (λ e. e.1) gs

  -- the stored signature is that of the representative
  abbrev Sealed : Groups is_digit → Type 0
  Sealed gs = All (λ e. e.0 ≡ sig e.1.layout) gs

  add_layout-Sealed :
      (l : CuttingLayout) (n : ℕ) (gs : Groups is_digit)
      → Sealed gs
      → Sealed (add_layout is_digit l n gs)
  unfolding add_layout
  add_layout-Sealed l n [] h = (refl, tt)
  add_layout-Sealed l n ((s, g) ∷ gs) h = elim (Bool-cases (same_signature s (sig l))) [
    | inl e ↦ rw e (h.0, h.1)
    | inr e ↦ rw e (h.0, add_layout-Sealed l (suc n) gs h.1)
  ]

  other_pattern :
      (s : Signature) (l : CuttingLayout) (t : Signature)
      → t ≡ s
      → same_signature t (sig l) ≡ false
      → same_signature (sig l) s ≡ false
  other_pattern s l t here e = elim (Bool-cases (same_signature (sig l) s)) [
    | inr f ↦ f
    | inl f ↦
        let same : t ≡ sig l = here ∙ sym (same_signature_eq (sig l) s f) in
        absurd
          (ground (arith, e, subst (λ x. same_signature t x ≡ true) same (same_signature_refl t)))
  ]

  find_pattern-add_layout :
      (s : Signature) (l : CuttingLayout) (n : ℕ) (gs : Groups is_digit)
      → Sealed gs
      → find_pattern s (views (add_layout is_digit l n gs)) ≡ (
          if same_signature (sig l) s
          then bump l (find_pattern s (views gs))
          else find_pattern s (views gs))
  unfolding add_layout
  find_pattern-add_layout s l n [] h = refl
  find_pattern-add_layout s l n ((t, g) ∷ gs) h = elim (Bool-cases (same_signature t (sig l))) [
    | inl e ↦
        let same : sig g.layout ≡ sig l = sym h.0 ∙ same_signature_eq t (sig l) e in
        let test : same_signature (sig g.layout) s ≡ same_signature (sig l) s =
          ap (λ x. same_signature x s) same in
        rw e (ground (arith, test))
    | inr e ↦ elim (Bool-cases (same_signature (sig g.layout) s)) [
      | inr f ↦ rw (e, f) (find_pattern-add_layout s l (suc n) gs h.1)
      | inl f ↦
          let here : t ≡ s = h.0 ∙ same_signature_eq (sig g.layout) s f in
          let other : same_signature (sig l) s ≡ false = other_pattern s l t here e in
          rw (e, f, other) refl
    ]
  ]

  add_layout-distinct_from :
      (l : CuttingLayout) (n : ℕ) (gs : Groups is_digit) (g : LayoutGroup)
      → same_signature (sig g.layout) (sig l) ≡ false
      → All (λ h. same_signature (sig g.layout) (sig h.layout) ≡ false) (views gs)
      → All
          (λ h. same_signature (sig g.layout) (sig h.layout) ≡ false)
          (views (add_layout is_digit l n gs))
  unfolding add_layout
  add_layout-distinct_from l n [] g e h = (e, tt)
  add_layout-distinct_from l n ((s, k) ∷ gs) g e h = elim (Bool-cases (same_signature s (sig l))) [
    | inl f ↦ rw f h
    | inr f ↦ rw f (h.0, add_layout-distinct_from l (suc n) gs g e h.1)
  ]

  abbrev Distinct : List LayoutGroup → Type 0
  Distinct gs = AllPairs (λ g h. same_signature (sig g.layout) (sig h.layout) ≡ false) gs

  add_layout-Distinct :
      (l : CuttingLayout) (n : ℕ) (gs : Groups is_digit)
      → Sealed gs
      → Distinct (views gs)
      → Distinct (views (add_layout is_digit l n gs))
  unfolding add_layout
  add_layout-Distinct l n [] h d = (tt, tt)
  add_layout-Distinct l n ((s, g) ∷ gs) h d = elim (Bool-cases (same_signature s (sig l))) [
    | inl f ↦ rw f (d.0, d.1)
    | inr f ↦
        let apart : same_signature (sig g.layout) (sig l) ≡ false =
          ap (λ x. same_signature x (sig l)) (sym h.0) ∙ f in
        rw f (
          add_layout-distinct_from l (suc n) gs g apart d.0,
          add_layout-Distinct l (suc n) gs h.1 d.1,
        )
  ]

  -- the facts that need no look at the signatures
  record IsCounted (n total : ℕ) (gs : List LayoutGroup) : Type 0 where
    numbered : IsNumbered n gs
    summed : sum_by (λ g. g.count) gs ≡ total
    keyed : All (λ g. g.material_key ≡ g.layout.material.id) gs

  add_layout-IsCounted :
      (l : CuttingLayout) (n total : ℕ) (gs : Groups is_digit)
      → IsCounted n total (views gs)
      → IsCounted n (total + 1) (views (add_layout is_digit l n gs))
  unfolding add_layout
  add_layout-IsCounted l n total [] h = record {
    numbered = (refl, tt);
    summed = omega (arith, h.summed);
    keyed = (refl, tt);
  }
  add_layout-IsCounted l n total ((s, g) ∷ gs) h = elim (Bool-cases (same_signature s (sig l))) [
    | inl f ↦ rw f (record {
      numbered = (h.numbered.0, h.numbered.1);
      summed = omega (arith, h.summed);
      keyed = (h.keyed.0, h.keyed.1);
    })
    | inr f ↦
        let rest =
          add_layout-IsCounted l (suc n) (sum_by (λ k. k.count) (views gs)) gs
            (record { numbered = h.numbered.1; summed = refl; keyed = h.keyed.1 }) in
        rw f (record {
          numbered = (h.numbered.0, rest.numbered);
          summed = omega (arith, h.summed, rest.summed);
          keyed = (h.keyed.0, rest.keyed);
        })
  ]

  tally_first-append :
      (ls : List CuttingLayout) (l : CuttingLayout)
      → tally_first (ls ++ l ∷ []) ≡ bump l (tally_first ls)
  tally_first-append [] l = refl
  tally_first-append (k ∷ ks) l =
      ground (arith, length-append ks (l ∷ []), map-append (λ j. j.sheet_number) ks (l ∷ []))

  alike-append :
      (s : Signature) (done : List CuttingLayout) (l : CuttingLayout)
      → tally_first (alike s (done ++ l ∷ [])) ≡ (
          if same_signature (sig l) s
          then bump l (tally_first (alike s done))
          else tally_first (alike s done))
  alike-append s done l =
      ap tally_first (filter-append (λ k. same_signature (sig k) s) done (l ∷ []))
      ∙ elim (Bool-cases (same_signature (sig l) s)) [
        | inl e ↦ rw e (tally_first-append (alike s done) l)
        | inr e ↦ rw e (ap tally_first (append-nil (alike s done)))
      ]

  -- what `add_layouts` has after the layouts in `done`
  record IsAfter (done : List CuttingLayout) (gs : Groups is_digit) : Type 0 where
    sealed : Sealed gs
    found : (s : Signature) → find_pattern s (views gs) ≡ tally_first (alike s done)
    distinct : Distinct (views gs)
    counted : IsCounted 0 (length done) (views gs)

  add_layout-IsAfter :
      (l : CuttingLayout) (done : List CuttingLayout) (gs : Groups is_digit)
      → IsAfter done gs
      → IsAfter (done ++ l ∷ []) (add_layout is_digit l 0 gs)
  add_layout-IsAfter l done gs h = record {
    sealed = add_layout-Sealed l 0 gs h.sealed;
    found = λ s.
        find_pattern-add_layout s l 0 gs h.sealed
        ∙ ap (λ x. if same_signature (sig l) s then bump l x else x) (h.found s)
        ∙ sym (alike-append s done l);
    distinct = add_layout-Distinct l 0 gs h.sealed h.distinct;
    counted =
        subst (λ n. IsCounted 0 n (views (add_layout is_digit l 0 gs)))
          (omega (arith, length-append done (l ∷ [])))
          (add_layout-IsCounted l 0 (length done) gs h.counted);
  }

  add_layouts-IsAfter :
      (layouts done : List CuttingLayout) (gs : Groups is_digit)
      → IsAfter done gs
      → IsAfter (done ++ layouts) (add_layouts is_digit layouts gs)
  unfolding add_layouts
  add_layouts-IsAfter [] done gs h = subst (λ x. IsAfter x gs) (sym (append-nil done)) h
  add_layouts-IsAfter (l ∷ ls) done gs h =
      subst (λ x. IsAfter x (add_layouts is_digit ls (add_layout is_digit l 0 gs)))
        (append_assoc done (l ∷ []) ls)
        (add_layouts-IsAfter ls (done ++ l ∷ []) (add_layout is_digit l 0 gs)
          (add_layout-IsAfter l done gs h))

  -- For every signature, the first group with it has the first layout with that signature as its
  -- representative, and counts and numbers all of them in order; where no layout has it, no group has.
  -- No two groups have the same signature, the pattern ids are 1, 2 and so on, the counts add up to
  -- the number of layouts, and each group has the material key of its representative.
  pub group_layouts-IsGrouping :
      (layouts : List CuttingLayout) → IsGrouping layouts (group_layouts is_digit layouts)
  unfolding group_layouts
  group_layouts-IsGrouping layouts =
      let after = add_layouts-IsAfter layouts [] [] (record {
        sealed = tt;
        found = λ s. refl;
        distinct = tt;
        counted = record { numbered = tt; summed = refl; keyed = tt };
      }) in
      record {
        found = after.found;
        distinct = after.distinct;
        numbered = after.counted.numbered;
        total = after.counted.summed;
        keyed = after.counted.keyed;
      }
