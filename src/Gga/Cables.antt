-- ===== src/Gga/Cables.antt =====
-- `group_tree`: the cables of a group of turbines, by Prim's algorithm, and the one to the substation.
-- An index or a turbine that may be -1 is a ℤ.
pub mod Linked
pub mod Marked
pub mod Growing
pub mod Spanning
mod Examples
use fode_hpc_wflop.Base.{
  ℕ, zero, suc, ◌-◌, ℤ, pos, negsuc, Bool, true, false, not, ◌&&◌, List, [], ◌∷◌, ◌++◌,
  if◌then◌else◌, length, get_or, set, range, range_from, replicate, is_empty,
}
use fode_hpc_wflop.Double.{Double, ◌⊖◌, nought}

pub record Point (W : Type 0) : Type 0 where
  pub x : W
  pub y : W

pub record Edge (W : Type 0) : Type 0 where
  pub from : ℤ
  pub to : ℕ
  pub span : W  -- `length`

-- `key`, `parent`, `used` and `edges`
pub record Tree (W : Type 0) : Type 0 where
  pub keys : List W
  pub parents : List ℤ
  pub used : List Bool
  pub edges : List (Edge W)

module _ {W : Type 0} ⦃D : Double W⦄ where
  unfoldable pub distance : Point W → Point W → W
  distance lhs rhs = D.hypot (lhs.x ⊖ rhs.x) (lhs.y ⊖ rhs.y)

  -- `selected < 0 || key[index] < key[selected]`
  abbrev pub comes_first : List W → ℕ → ℤ → Bool
  comes_first keys index (negsuc m) = true
  comes_first keys index (pos chosen) = D.lt (get_or keys index nought) (get_or keys chosen nought)

  -- The loop that selects the unused index with the smallest key.
  unfoldable pub pick : Tree W → List ℕ → ℤ → ℤ
  pick t [] chosen = chosen
  pick t (index ∷ indices) chosen = pick t indices (
      if not (get_or t.used index false) && comes_first t.keys index chosen
      then pos index
      else chosen)

  module _ (coordinates : List (Point W)) where
    abbrev pub at_index : ℕ → Point W
    at_index i = get_or coordinates i (record { x = nought; y = nought })

    abbrev pub apart : ℕ → ℕ → W
    apart i j = distance (at_index i) (at_index j)

    unfoldable pub closest_to : Point W → List ℕ → ℕ → ℕ
    closest_to substation [] closest = closest
    closest_to substation (index ∷ indices) closest = closest_to substation indices (
        if D.lt (distance (at_index index) substation) (distance (at_index closest) substation)
        then index
        else closest)

  module _ (group : List ℕ) (coordinates : List (Point W)) where
    -- The edge from the parent of an index, when it has one.
    abbrev pub parent_edge : ℤ → ℕ → List (Edge W)
    parent_edge (negsuc m) selected = []
    parent_edge (pos source) selected =
        record {
          from = pos (get_or group source 0);
          to = get_or group selected 0;
          span = apart coordinates source selected;
        }
        ∷ []

    -- The loop over `other`.
    unfoldable pub relax : ℕ → List ℕ → Tree W → Tree W
    relax selected [] t = t
    relax selected (other ∷ others) t =
        let candidate = apart coordinates selected other in
        let nearer =
          not (get_or t.used other false) && D.lt candidate (get_or t.keys other nought) in
        relax selected others (record t {
          keys = if nearer then set t.keys other candidate else t.keys;
          parents = if nearer then set t.parents other (pos selected) else t.parents;
        })

    -- The body of the loop, behind the selection; without a selected index nothing is left to do.
    unfoldable pub attach : ℤ → Tree W → Tree W
    unfolding relax
    attach (negsuc m) t = t
    attach (pos selected) t = relax selected (range (length group)) (record t {
      used = set t.used selected true;
      edges = t.edges ++ parent_edge (get_or t.parents selected (negsuc 0)) selected;
    })

    unfoldable pub grow : ℕ → Tree W → Tree W
    unfolding attach pick
    grow zero t = t
    grow (suc iterations) t = grow iterations (attach (pick t (range (length group)) (negsuc 0)) t)

    abbrev pub seed : Tree W
    seed = record {
      keys = set (replicate (length group) D.infinity) 0 nought;
      parents = replicate (length group) (negsuc 0);
      used = replicate (length group) false;
      edges = [];
    }

    unfoldable pub group_tree : Point W → List (Edge W)
    unfolding grow closest_to
    group_tree substation =
        let t = grow (length group) seed in
        let closest = closest_to coordinates substation (range_from 1 (length group - 1)) 0 in
        let last : Edge W = record {
          from = negsuc 0;
          to = get_or group closest 0;
          span = distance (at_index coordinates closest) substation;
        } in
        if is_empty group then [] else t.edges ++ last ∷ []
