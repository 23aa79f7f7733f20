-- ===== src/Gga/Layout/Sorted.antt =====
-- `repair` returns complete layouts in ascending order.
use fode_hpc_wflop.Base.{
  ℕ, zero, suc, ◌+◌, ◌-◌, ◌≤◌, ◌<◌, ◌≡◌, ◌≢◌, ◌∙◌, ℤ, ltb_ℤ, Bool, false, List, [], ◌∷◌, length,
  replicate, length-replicate, All, Result, ok, erase_at, ltb, arith,
}
use fode_hpc_wflop.Base.Sort.{stable_sort, length-stable_sort}
use fode_hpc_wflop.Base.Sort.Laws.{
  Climbs, Distinct, stable_sort-All, stable_sort-Climbs, All-map_of,
}
use fode_hpc_wflop.Rng.Generator.{Generator, Reaches, key}
use fode_hpc_wflop.Fode.Grid.Unavailable.{count_marks-replicate}
use fode_hpc_wflop.Gga.Layout.{Drawing, draw_members, drop_members, unique, mark_members, repair}
use fode_hpc_wflop.Gga.Layout.Draws.{All-unmarked, Drawn, draw_members-Drawn}
use fode_hpc_wflop.Gga.Layout.Unique.{
  stable_sort-Ordered, unique-Rises, valid_of, valid_of-sites, valid_of-Distinct,
  length-mark_members, mark_members-IsMarked, count_marks-mark_members,
}

length-erase_at {ℓ} :
    {A : Type ℓ} (xs : List A) (i : ℕ) → i < length xs → length (erase_at xs i) + 1 ≡ length xs
length-erase_at [] i h = absurd (omega arith)
length-erase_at (x ∷ xs) zero h = omega arith
length-erase_at (x ∷ xs) (suc i) h = omega (arith, length-erase_at xs i (omega arith))

All-erase_at {ℓ κ} :
    {A : Type ℓ} (P : A → Type κ) (xs : List A) (i : ℕ) → All P xs → All P (erase_at xs i)
All-erase_at P [] i h = tt
All-erase_at P (x ∷ xs) zero (h, hs) = hs
All-erase_at P (x ∷ xs) (suc i) (h, hs) = (h, All-erase_at P xs i hs)

Distinct-erase_at : (xs : List ℕ) (i : ℕ) → Distinct xs → Distinct (erase_at xs i)
Distinct-erase_at [] i d = tt
Distinct-erase_at (x ∷ xs) zero (h, d) = d
Distinct-erase_at (x ∷ xs) (suc i) (h, d) =
    (All-erase_at (λ y. y ≢ x) xs i h, Distinct-erase_at xs i d)

-- So many different sites, in ascending order.
pub record Ascending (candidates required : ℕ) (r : Result (List ℕ)) : Type 0 where
  pub layout : List ℕ
  pub returned : r ≡ ok layout
  pub complete : length layout ≡ required
  pub sites : All (λ v. v < candidates) layout
  pub climbs : Climbs 0 layout

module _ (rng : Generator) (candidates generation phase individual : ℕ) where
  record Dropped (count : ℕ) (layout : List ℕ) : Type 0 where
    complete : length layout ≡ count
    sites : All (λ v. v < candidates) layout
    different : Distinct layout

  drop_members-Dropped :
      (surplus count draw : ℕ) (layout : List ℕ)
      → length layout ≡ count + surplus
      → All (λ v. v < candidates) layout
      → Distinct layout
      → Dropped count (drop_members rng candidates generation phase individual surplus layout draw)
  unfolding drop_members
  drop_members-Dropped zero count draw layout long sites different = record {
    complete = omega (arith, long);
    sites = sites;
    different = different;
  }
  drop_members-Dropped (suc surplus) count draw layout long sites different =
      let i = rng.integer 0 (length layout) (key generation (phase + 1) individual 0 draw) in
      let inside =
        rng.integer_range 0 (length layout) (key generation (phase + 1) individual 0 draw)
          (omega arith) in
      drop_members-Dropped surplus count (draw + 1) (erase_at layout i)
        (omega (arith, length-erase_at layout i inside.1))
        (All-erase_at (λ v. v < candidates) layout i sites) (Distinct-erase_at layout i different)

  -- For every generator whose draws reach each site within a number of rounds, and enough
  -- candidates, `repair` returns on every list of ints, however long: exactly the required number
  -- of sites, all of them candidates, in strictly ascending order.
  pub repair-Ascending :
      (rounds required : ℕ) (layout : List ℤ)
      → Reaches rng rounds 0 candidates
      → 0 < candidates
      → required ≤ candidates
      → Ascending candidates required
          (repair rng candidates generation phase individual rounds required layout)
  unfolding repair
  repair-Ascending rounds required layout reaches some_sites room = record {
    layout = stable_sort ltb (
        drop_members rng candidates generation phase individual surplus done.result.layout
          done.result.draw);
    returned = rw done.returned;
    complete = length-stable_sort ltb _ ∙ trimmed.complete;
    sites = stable_sort-All ltb (λ v. v < candidates) _ trimmed.sites;
    climbs =
        stable_sort-Climbs 0 _
          (All-map_of (λ v. v < candidates) (λ v. 0 ≤ v) (λ v h. omega arith) _ trimmed.sites)
          trimmed.different;
  }
    where
      sorted : List ℤ
      sorted = unique (stable_sort ltb_ℤ layout)

      valid : List ℕ
      valid = valid_of candidates sorted

      clear : List Bool
      clear = replicate candidates false

      different : Distinct valid
      different = valid_of-Distinct candidates sorted (unique-Rises _ (stable_sort-Ordered layout))

      inside : All (λ v. v < length clear) valid
      inside =
          All-map_of (λ v. v < candidates) _
            (λ v h. omega (arith, length-replicate candidates false)) valid
            (valid_of-sites candidates sorted)

      first : Drawing
      first = record { used = mark_members valid clear; layout = valid; draw = 0 }

      done :
          Drawn candidates required
            (length valid)
            (draw_members rng candidates generation phase individual rounds required first)
      done =
          draw_members-Drawn rng rounds candidates generation phase individual reaches some_sites
            rounds required first room (omega arith)
            (record {
              long = length-mark_members valid clear ∙ length-replicate candidates false;
              counted = omega (
                arith,
                count_marks-mark_members valid clear inside (All-unmarked candidates valid)
                    different,
                count_marks-replicate candidates,
              );
              sites = valid_of-sites candidates sorted;
              marked = mark_members-IsMarked valid clear inside;
              different = different;
            })
            (λ draw less. absurd (omega arith))

      surplus : ℕ
      surplus = length done.result.layout - required

      trimmed : Dropped required (
          drop_members rng candidates generation phase individual surplus done.result.layout
            done.result.draw)
      trimmed =
          drop_members-Dropped surplus required done.result.draw done.result.layout
            (omega (arith, done.enough)) done.drawing.sites done.drawing.different
