-- ===== src/Fode/Survivors.antt =====
-- `survivor_rows` and `retain_rows` of optimizer.cpp.
pub mod Count
use fode_hpc_wflop.Base.{
  ℕ, Bool, true, false, not, List, [], ◌∷◌, map, ◌==◌, if◌then◌else◌, length, take, range,
  replicate, set, get_or, keep_if, is_empty, Result, ok, err, runtime_error,
}
use fode_hpc_wflop.Base.Sort.{stable_sort}
use fode_hpc_wflop.Double.{Double, nought}
use fode_hpc_wflop.Fode.Grid.{Matrix}

-- `retain[row] = 1` for each row of the list
unfoldable pub mark_rows : List ℕ → List Bool → List Bool
mark_rows [] retain = retain
mark_rows (row ∷ rows) retain = mark_rows rows (set retain row true)

-- The same numbers of rows, in the order of the matrix.
unfoldable pub retain_rows : {W : Type 0} → Matrix W → List ℕ → ℕ → Result (Matrix W)
retain_rows matrix keep old_rows =
    if is_empty matrix
    then ok matrix
    else if not (length matrix == old_rows)
    then err (runtime_error "row-aligned FODE state has drifted")
    else ok (map (λ row. get_or matrix row []) keep)

module _ {W : Type 0} ⦃D : Double W⦄ where
  -- std::stable_sort of the row numbers by falling fitness
  unfoldable pub ranking : List W → List ℕ
  ranking fitness =
      stable_sort (λ lhs rhs. D.lt (get_or fitness rhs nought) (get_or fitness lhs nought))
        (range (length fitness))

  unfoldable pub survivor_rows : List W → ℕ → List ℕ
  unfolding ranking mark_rows
  survivor_rows fitness target =
      let rows = length fitness in
      let retain = mark_rows (take target (ranking fitness)) (replicate rows false) in
      keep_if (λ row. get_or retain row false) (range rows)
