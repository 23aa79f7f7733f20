-- ===== src/Gga/Layout/Draws.antt =====
-- The loop that draws new members ends, with different sites.
use fode_hpc_wflop.Base.{
  ℕ, zero, suc, ◌+◌, ◌≤◌, ◌<◌, ◌≡◌, ◌≢◌, refl, sym, ap, ◌∙◌, Bool, true, false, List, [], ◌∷◌, ◌++◌,
  length, length-append, set, get_or, get_or-set_self, get_or-set_ne, length-set, replicate, All,
  All-append, Bool-cases, inl, inr, ltb, ltb→lt, Result, ok, arith,
}
use fode_hpc_wflop.Base.Sort.Laws.{Distinct}
use fode_hpc_wflop.Rng.Generator.{Generator, Reaches, key}
use fode_hpc_wflop.Fode.Grid.Masks.{count_marks, count_marks-set}
use fode_hpc_wflop.Wflop.Population.Filled.{full_marks, set_stays}
use fode_hpc_wflop.Gga.Layout.{Drawing, draw_member, draw_members}

-- The marks are those of the members, which are different sites.
pub record IsDrawing (candidates : ℕ) (s : Drawing) : Type 0 where
  pub long : length s.used ≡ candidates
  pub counted : count_marks s.used ≡ length s.layout
  pub sites : All (λ v. v < candidates) s.layout
  pub marked : All (λ v. get_or s.used v false ≡ true) s.layout
  pub different : Distinct s.layout

All-unequal :
    (used : List Bool) (v : ℕ) (layout : List ℕ)
    → get_or used v false ≡ false
    → All (λ w. get_or used w false ≡ true) layout
    → All (λ w. w ≢ v) layout
All-unequal used v [] e h = tt
All-unequal used v (w ∷ layout) e (h, hs) =
    (λ p. cc (ap (λ k. get_or used k false) p), All-unequal used v layout e hs)

pub Distinct-append :
    (layout : List ℕ) (v : ℕ)
    → Distinct layout
    → All (λ w. w ≢ v) layout
    → Distinct (layout ++ v ∷ [])
Distinct-append [] v d h = (tt, tt)
Distinct-append (w ∷ layout) v (e, d) (h, hs) =
    (All-append (λ y. y ≢ w) layout (v ∷ []) e (λ p. h (sym p), tt), Distinct-append layout v d hs)

All-set_stays :
    (used : List Bool) (v : ℕ) (layout : List ℕ)
    → All (λ w. get_or used w false ≡ true) layout
    → All (λ w. get_or (set used v true) w false ≡ true) layout
All-set_stays used v [] h = tt
All-set_stays used v (w ∷ layout) (h, hs) = (set_stays used v w h, All-set_stays used v layout hs)

pub All-set_clear :
    (used : List Bool) (v : ℕ) (layout : List ℕ)
    → All (λ w. w ≢ v) layout
    → All (λ w. get_or used w false ≡ false) layout
    → All (λ w. get_or (set used v true) w false ≡ false) layout
All-set_clear used v [] h e = tt
All-set_clear used v (w ∷ layout) (h, hs) (e, es) =
    (get_or-set_ne used v w true false (λ p. h (sym p)) ∙ e, All-set_clear used v layout hs es)

pub get_or-replicate : (n v : ℕ) → get_or (replicate n false) v false ≡ false
get_or-replicate zero v = refl
get_or-replicate (suc n) zero = refl
get_or-replicate (suc n) (suc v) = get_or-replicate n v

pub All-unmarked :
    (n : ℕ) (layout : List ℕ) → All (λ v. get_or (replicate n false) v false ≡ false) layout
All-unmarked n [] = tt
All-unmarked n (v ∷ layout) = (get_or-replicate n v, All-unmarked n layout)

-- A site without a mark joins.
pub add-IsDrawing :
    (candidates v draw : ℕ) (s : Drawing)
    → v < candidates
    → get_or s.used v false ≡ false
    → IsDrawing candidates s
    → IsDrawing candidates
        (record { used = set s.used v true; layout = s.layout ++ v ∷ []; draw = draw })
add-IsDrawing candidates v draw s h e d = record {
  long = length-set s.used v true ∙ d.long;
  counted = omega (
    arith,
    d.counted,
    count_marks-set s.used v (omega (arith, d.long)) e,
    length-append s.layout (v ∷ []),
  );
  sites = All-append (λ w. w < candidates) s.layout (v ∷ []) d.sites (h, tt);
  marked =
      All-append (λ w. get_or (set s.used v true) w false ≡ true) s.layout (v ∷ [])
        (All-set_stays s.used v s.layout d.marked)
        (get_or-set_self s.used v true false (omega (arith, d.long)), tt);
  different = Distinct-append s.layout v d.different (All-unequal s.used v s.layout e d.marked);
}

-- The end of the loop: enough members, and no more than were missing.
pub record Drawn (candidates required before : ℕ) (r : Result Drawing) : Type 0 where
  pub result : Drawing
  pub returned : r ≡ ok result
  pub drawing : IsDrawing candidates result
  pub enough : required ≤ length result.layout
  pub few : before ≤ required → length result.layout ≡ required

module _ (rng : Generator) (rounds candidates generation phase individual : ℕ)
    (reaches : Reaches rng rounds 0 candidates) (some_sites : 0 < candidates) where
  abbrev site_of : ℕ → ℕ
  site_of draw = rng.integer 0 candidates (key generation phase individual 0 draw)

  abbrev step : Drawing → Drawing
  step = draw_member rng candidates generation phase individual

  abbrev Reached : Drawing → Type 0
  Reached s = (draw : ℕ) → draw < s.draw → get_or s.used (site_of draw) false ≡ true

  record Stepped (s t : Drawing) : Type 0 where
    drawing : IsDrawing candidates t
    next : t.draw ≡ s.draw + 1
    one : length t.layout ≤ length s.layout + 1
    reached : Reached s → Reached t

  step-Stepped : (s : Drawing) → IsDrawing candidates s → Stepped s (step s)
  unfolding draw_member
  step-Stepped s d = elim (Bool-cases (get_or s.used (site_of s.draw) false)) [
    | inl taken ↦ rw taken (record {
      drawing = record {
        long = d.long;
        counted = d.counted;
        sites = d.sites;
        marked = d.marked;
        different = d.different;
      };
      next = refl;
      one = omega arith;
      reached = λ h draw less. elim (Bool-cases (ltb draw s.draw)) [
        | inl before ↦ h draw (ltb→lt _ _ before)
        | inr now ↦ let e : draw ≡ s.draw = ground arith in rw e taken
      ];
    })
    | inr free ↦ rw free (record {
      drawing = add-IsDrawing candidates (site_of s.draw) (s.draw + 1) s inside free d;
      next = refl;
      one = omega (arith, length-append s.layout (site_of s.draw ∷ []));
      reached = λ h draw less. elim (Bool-cases (ltb draw s.draw)) [
        | inl before ↦ set_stays s.used (site_of s.draw) (site_of draw) (h draw (ltb→lt _ _ before))
        | inr now ↦
            let e : draw ≡ s.draw = ground arith in
            rw e
              (get_or-set_self s.used (site_of s.draw) true false (omega (arith, d.long, inside)))
      ];
    })
  ]
    where
      inside : site_of s.draw < candidates
      inside =
          (rng.integer_range 0 candidates (key generation phase individual 0 s.draw) some_sites).1

  -- When all draws are made, every site is a member.
  all_members :
      (s : Drawing)
      → IsDrawing candidates s
      → s.draw ≡ rounds
      → Reached s
      → length s.layout ≡ candidates
  all_members s d at_end h =
      sym d.counted
      ∙ full_marks s.used (λ v k.
        let (draw, within, e) =
          reaches.reach generation phase individual v (omega arith) (omega (arith, d.long)) in
        let hit : get_or s.used (site_of draw) false ≡ true = h draw (omega arith) in rw e at hit)
      ∙ d.long

  pub draw_members-Drawn :
      (fuel required : ℕ) (s : Drawing)
      → required ≤ candidates
      → s.draw + fuel ≡ rounds
      → IsDrawing candidates s
      → Reached s
      → Drawn candidates required
          (length s.layout)
          (draw_members rng candidates generation phase individual fuel required s)
  unfolding draw_members
  draw_members-Drawn zero required s room at_end d h =
      let all = all_members s d (omega arith) h in
      let done : ltb (length s.layout) required ≡ false = ground arith in
      rw done (record {
        result = s;
        returned = refl;
        drawing = d;
        enough = ground arith;
        few = λ few. omega arith;
      })
  draw_members-Drawn (suc fuel) required s room at_end d h =
      elim (Bool-cases (ltb (length s.layout) required)) [
        | inl more ↦
            let t = step-Stepped s d in
            let missing = ltb→lt _ _ more in
            let rest =
              draw_members-Drawn fuel required (step s) room (omega (arith, t.next)) t.drawing
                (t.reached h) in
            rw more (record {
              result = rest.result;
              returned = rest.returned;
              drawing = rest.drawing;
              enough = rest.enough;
              few = λ few. rest.few (omega (arith, t.one));
            })
        | inr done ↦ rw done (record {
          result = s;
          returned = refl;
          drawing = d;
          enough = ground arith;
          few = λ few. ground arith;
        })
      ]
