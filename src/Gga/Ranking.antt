-- ===== src/Gga/Ranking.antt =====
-- `bi_dominates`, `bi_rank_and_crowding` and `bi_tournament`: the ranking of layouts by energy and
-- cable cost. The fronts have the population's size as fuel.
pub mod Counts
pub mod Levels
pub mod Release
pub mod Fronts
pub mod Between
pub mod Assigned
pub mod Start
pub mod Ranked
mod Examples
use fode_hpc_wflop.Base.{
  ℕ, zero, suc, ◌+◌, ◌-◌, ℤ, pos, negsuc, eqb_ℤ, ltb_ℤ, Bool, true, false, not, ◌&&◌, ◌||◌, List,
  [], ◌∷◌, ◌++◌, map, ltb, ◌==◌, if◌then◌else◌, length, get_or, set, range, replicate, keep_if,
  count_if, is_empty, min, Result, ok, err, out_of_fuel, ◌>>=◌,
}
use fode_hpc_wflop.Base.Sort.{stable_sort}
use fode_hpc_wflop.Double.{Double, ◌⊕◌, ◌⊖◌, ◌⊘◌, nought}

pub record Evaluation (W : Type 0) : Type 0 where
  pub lcoe : W
  pub capacity_factor : W
  pub aep_kwh : W
  pub cable_cost : W

pub record RankedPopulation (W : Type 0) : Type 0 where
  pub rank : List ℤ
  pub crowding : List W

-- The counts, the ranks and `next` while a front is visited. A count is above 0 when it is lowered.
pub record Ranking : Type 0 where
  pub counts : List ℕ
  pub rank : List ℤ
  pub next : List ℕ

-- `if (--count == 0)`
unfoldable pub release : ℕ → ℕ → Ranking → Ranking
release front dominated s =
    let count = get_or s.counts dominated 0 in
    record {
      counts = set s.counts dominated (count - 1);
      rank = if count == 1 then set s.rank dominated (pos (front + 1)) else s.rank;
      next = if count == 1 then s.next ++ dominated ∷ [] else s.next;
    }

unfoldable pub release_all : ℕ → List ℕ → Ranking → Ranking
release_all front [] s = s
release_all front (dominated ∷ rest) s = release_all front rest (release front dominated s)

-- The loop over the members of a front.
unfoldable pub visit : ℕ → List (List ℕ) → List ℕ → Ranking → Ranking
visit front sets [] s = s
visit front sets (index ∷ members) s =
    visit front sets members (release_all front (get_or sets index []) s)

-- The loop over the fronts, from one on: the fronts and the ranks.
unfoldable pub assign : ℕ → ℕ → List (List ℕ) → List ℕ → Ranking → Result (List (List ℕ) × List ℤ)
assign zero front sets members s = err out_of_fuel
assign (suc fuel) front sets members s =
    let t = visit front sets members (record s { next = [] }) in
    let rest = assign fuel (suc front) sets t.next t >>= λ r. ok (members ∷ r.0, r.1) in
    if is_empty t.next then ok (members ∷ [], t.rank) else rest

-- Entry `left` of `dominates_set` after the loop over the pairs, which visits the partners of `left`
-- in ascending order, and the number of times that the loop has counted `right` as dominated.
unfoldable pub dominates_set : (ℕ → ℕ → Bool) → ℕ → List (List ℕ)
dominates_set pushed size = map (λ left. keep_if (pushed left) (range size)) (range size)

unfoldable pub dominated_count : (ℕ → ℕ → Bool) → ℕ → List ℕ
dominated_count pushed size =
    map (λ right. count_if (λ left. pushed left right) (range size)) (range size)

-- The first front and the loop over all of them.
unfoldable pub ranks_of : (ℕ → ℕ → Bool) → ℕ → Result (List (List ℕ) × List ℤ)
unfolding assign visit release_all release dominates_set dominated_count
ranks_of pushed size =
    let counts = dominated_count pushed size in
    assign (suc size) 0 (dominates_set pushed size)
      (keep_if (λ index. get_or counts index 0 == 0) (range size))
      (record {
        counts = counts;
        rank = map (λ count. if count == 0 then pos 0 else negsuc 0) counts;
        next = [];
      })

module _ {W : Type 0} ⦃D : Double W⦄ where
  abbrev pub tmoea_objectives : Evaluation W → W × W
  tmoea_objectives value = (D.neg value.aep_kwh, value.cable_cost)

  unfoldable pub bi_dominates : W × W → W × W → Bool
  bi_dominates (l0, l1) (r0, r1) =
      if D.lt r0 l0 then false else if D.lt r1 l1 then false else D.lt l0 r0 || D.lt l1 r1

  abbrev pub objectives_at : List (Evaluation W) → ℕ → W × W
  objectives_at values index = get_or (map tmoea_objectives values) index (D.neg nought, nought)

  -- Whether the pair of two numbers puts the second into the set of the first.
  unfoldable pub pushed : List (Evaluation W) → ℕ → ℕ → Bool
  pushed values i j =
      let wins = bi_dominates (objectives_at values i) (objectives_at values j) in
      let loses = bi_dominates (objectives_at values j) (objectives_at values i) in
      if ltb i j then wins else ltb j i && not loses && wins

  -- One objective of a front.
  module _ (value_of : ℕ → W) where
    before : ℕ → ℕ → Bool
    before left right =
        if D.eq (value_of left) (value_of right)
        then ltb left right
        else D.lt (value_of left) (value_of right)

    -- From a member on, with the one before it; the last member gets nothing.
    spread : W → ℕ → List ℕ → List W → List W
    spread extent previous (index ∷ next ∷ order) crowding = spread extent index (next ∷ order) (
        set crowding index
          (get_or crowding index nought ⊕ (value_of next ⊖ value_of previous) ⊘ extent))
    spread extent previous _ crowding = crowding

    last_of : ℕ → List ℕ → ℕ
    last_of first [] = first
    last_of first (index ∷ order) = last_of index order

    crowd_order : List ℕ → List W → List W
    unfolding spread last_of
    crowd_order [] crowding = crowding
    crowd_order (first ∷ order) crowding =
        let last = last_of first order in
        let ends = set (set crowding first D.infinity) last D.infinity in
        let minimum = value_of first in
        let maximum = value_of last in
        if D.le maximum minimum || ltb (length (first ∷ order)) 3
        then ends
        else spread (maximum ⊖ minimum) first order ends

    crowd_front : List ℕ → List W → List W
    unfolding before crowd_order
    crowd_front front crowding = crowd_order (stable_sort before front) crowding

  -- The loop over the fronts, each by both objectives.
  unfoldable pub crowd : List (Evaluation W) → List (List ℕ) → List W → List W
  unfolding crowd_front
  crowd values [] crowding = crowding
  crowd values (front ∷ fronts) crowding = crowd values fronts (
      crowd_front (λ index. (objectives_at values index).1) front
        (crowd_front (λ index. (objectives_at values index).0) front crowding))

  unfoldable pub bi_rank_and_crowding : List (Evaluation W) → Result (RankedPopulation W)
  unfolding ranks_of crowd pushed bi_dominates
  bi_rank_and_crowding values = do
    let size = length values
    ranked ← ranks_of (pushed values) size
    ok (record { rank = ranked.1; crowding = crowd values ranked.0 (replicate size nought) })

  unfoldable pub bi_tournament : ℕ → ℕ → RankedPopulation W → ℕ
  bi_tournament left right ranked =
      let left_rank = get_or ranked.rank left (negsuc 0) in
      let right_rank = get_or ranked.rank right (negsuc 0) in
      let left_crowding = get_or ranked.crowding left nought in
      let right_crowding = get_or ranked.crowding right nought in
      if not (eqb_ℤ left_rank right_rank)
      then (if ltb_ℤ left_rank right_rank then left else right)
      else if not (D.eq left_crowding right_crowding)
      then (if D.lt right_crowding left_crowding then left else right)
      else min left right
