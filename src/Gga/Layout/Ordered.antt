-- ===== src/Gga/Layout/Ordered.antt =====
-- `repair_ordered` returns complete layouts, and leaves those that are complete as they are.
use fode_hpc_wflop.Base.{
  ℕ, zero, suc, ◌+◌, ◌≤◌, ◌<◌, ◌≡◌, refl, sym, ap, ◌∙◌, pos, pos_part, ℤ, negsuc, Bool, true, false,
  not, ◌&&◌, List, [], ◌∷◌, ◌++◌, map, length, length-append, set, get_or, replicate,
  length-replicate, All, Bool-cases, inl, inr, ltb, Result, ok, arith,
}
use mathlib.Core.List.{append-nil, append_assoc}
use fode_hpc_wflop.Base.Sort.Laws.{Distinct}
use fode_hpc_wflop.Rng.Generator.{Generator, Reaches}
use fode_hpc_wflop.Fode.Grid.Unavailable.{count_marks-replicate}
use fode_hpc_wflop.Gga.Layout.{Drawing, draw_members, in_range, take_new, repair_ordered}
use fode_hpc_wflop.Gga.Layout.Draws.{
  All-set_clear, All-unmarked, IsDrawing, add-IsDrawing, Drawn, draw_members-Drawn,
}

pub in_range→lt :
    (candidates : ℕ) (value : ℤ) → in_range candidates value ≡ true → pos_part value < candidates
unfolding in_range
in_range→lt candidates (pos n) h = ground arith
in_range→lt candidates (negsuc n) h = ground arith

pub lt→in_range : (candidates v : ℕ) → v < candidates → in_range candidates (pos v) ≡ true
unfolding in_range
lt→in_range candidates v h = ground arith

-- A layout of so many different sites.
pub record Placed (candidates required : ℕ) (r : Result (List ℕ)) : Type 0 where
  pub layout : List ℕ
  pub returned : r ≡ ok layout
  pub complete : length layout ≡ required
  pub sites : All (λ v. v < candidates) layout
  pub different : Distinct layout

pub nothing-IsDrawing :
    (candidates : ℕ)
    → IsDrawing candidates (record { used = replicate candidates false; layout = []; draw = 0 })
nothing-IsDrawing candidates = record {
  long = length-replicate candidates false;
  counted = count_marks-replicate candidates;
  sites = tt;
  marked = tt;
  different = tt;
}

module _ (rng : Generator) (candidates generation phase individual rounds required : ℕ) where
  abbrev taken : List ℤ → List Bool → List ℕ → Drawing
  taken = take_new rng candidates generation phase individual rounds required

  record Taken (s : Drawing) : Type 0 where
    drawing : IsDrawing candidates s
    few : length s.layout ≤ required
    fresh : s.draw ≡ 0

  take_new-Taken :
      (layout : List ℤ) (used : List Bool) (repaired : List ℕ)
      → IsDrawing candidates (record { used = used; layout = repaired; draw = 0 })
      → length repaired ≤ required
      → Taken (taken layout used repaired)
  unfolding take_new
  take_new-Taken [] used repaired d few = record { drawing = d; few = few; fresh = refl }
  take_new-Taken (value ∷ layout) used repaired d few =
      elim (Bool-cases (
        in_range candidates value
        && not (get_or used (pos_part value) false)
        && ltb (length repaired) required)) [
          | inl fits ↦ rw fits (
              take_new-Taken layout _ _
                (add-IsDrawing candidates (pos_part value) 0 _
                  (in_range→lt candidates value (ground arith)) (ground arith) d)
                (ground (arith, length-append repaired (pos_part value ∷ []))))
          | inr drops ↦ rw drops (take_new-Taken layout used repaired d few)
        ]

  -- For every generator whose draws reach each site within a number of rounds, and enough
  -- candidates, `repair_ordered` returns on every list of ints: exactly the required number of
  -- sites, all of them candidates, none twice.
  pub repair_ordered-Placed :
      (layout : List ℤ)
      → Reaches rng rounds 0 candidates
      → 0 < candidates
      → required ≤ candidates
      → Placed candidates required
          (repair_ordered rng candidates generation phase individual rounds required layout)
  unfolding repair_ordered
  repair_ordered-Placed layout reaches some_sites room = record {
    layout = done.result.layout;
    returned = rw done.returned;
    complete = done.few t.few;
    sites = done.drawing.sites;
    different = done.drawing.different;
  }
    where
      first : Drawing
      first = taken layout (replicate candidates false) []

      t : Taken first
      t =
          take_new-Taken layout (replicate candidates false) [] (nothing-IsDrawing candidates)
            (omega arith)

      done :
          Drawn candidates required
            (length first.layout)
            (draw_members rng candidates generation phase individual rounds required first)
      done =
          draw_members-Drawn rng rounds candidates generation phase individual reaches some_sites
            rounds required first room (omega (arith, t.fresh)) t.drawing
            (λ draw less. absurd (omega (arith, t.fresh)))

  take_new-fits :
      (value : ℤ) (layout : List ℤ) (used : List Bool) (repaired : List ℕ)
      → (in_range candidates value
          && not (get_or used (pos_part value) false)
          && ltb (length repaired) required)
        ≡ true
      → taken (value ∷ layout) used repaired
        ≡ taken layout (set used (pos_part value) true) (repaired ++ pos_part value ∷ [])
  unfolding take_new
  take_new-fits value layout used repaired fits = rw fits

  take_new-all :
      (layout : List ℕ) (used : List Bool) (repaired : List ℕ)
      → All (λ v. v < candidates) layout
      → All (λ v. get_or used v false ≡ false) layout
      → Distinct layout
      → length repaired + length layout ≤ required
      → (taken (map pos layout) used repaired).layout ≡ repaired ++ layout
  take_new-all [] used repaired sites clear d few = unfold take_new in sym (append-nil repaired)
  take_new-all (v ∷ layout) used repaired (h, hs) (e, es) (n, d) few =
      let fits : (in_range candidates (pos v)
            && not (get_or used v false)
            && ltb (length repaired) required)
          ≡ true =
        ground (arith, lt→in_range candidates v h) in
      ap (λ s. s.layout) (take_new-fits (pos v) (map pos layout) used repaired fits)
      ∙ take_new-all layout (set used v true) (repaired ++ v ∷ []) hs
          (All-set_clear used v layout n es) d (omega (arith, length-append repaired (v ∷ [])))
      ∙ append_assoc repaired (v ∷ []) layout

  enough_already :
      (fuel : ℕ) (s : Drawing)
      → required ≤ length s.layout
      → draw_members rng candidates generation phase individual fuel required s ≡ ok s
  unfolding draw_members
  enough_already zero s h =
      let done : ltb (length s.layout) required ≡ false = ground arith in rw done
  enough_already (suc fuel) s h =
      let done : ltb (length s.layout) required ≡ false = ground arith in rw done

  -- A layout that has the required number of sites already, all of them candidates and none twice,
  -- is returned by `repair_ordered` as it is, in its order, for every generator and any fuel.
  pub repair_ordered-placed :
      (layout : List ℕ)
      → length layout ≡ required
      → All (λ v. v < candidates) layout
      → Distinct layout
      → repair_ordered rng candidates generation phase individual rounds required (map pos layout)
        ≡ ok layout
  unfolding repair_ordered
  repair_ordered-placed layout complete sites different =
      let all =
        take_new-all layout (replicate candidates false) [] sites (All-unmarked candidates layout)
          different (omega (arith, complete)) in
      rw
        (enough_already rounds (taken (map pos layout) (replicate candidates false) [])
          (omega (arith, ap length all, complete)))
        (ap ok all)
