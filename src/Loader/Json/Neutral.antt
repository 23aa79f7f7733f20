-- ===== src/Loader/Json/Neutral.antt =====
-- Texts that `matching_delimiter` of hpc/fode_cpp/src/case_loader.cpp passes over.
use Prim.Native.Char.{Char}
use fode_hpc_wflop.Base.{
  ℕ, suc, ◌+◌, pos, Bool, true, false, not, ◌&&◌, [], ◌∷◌, ◌++◌, ◌≡◌, refl, ap, sym, ◌∙◌, Result,
  ok, arith, All, subst,
}
use fode_hpc_wflop.Text.{Text, chars, is}
use fode_hpc_wflop.Loader.Json.{Scan, start, scan_char, closes, matching_delimiter, Cut, prepend}

-- The loop's state behind a text.
abbrev pub scan_all : Scan → Text → Scan
scan_all s [] = s
scan_all s (c ∷ text) = scan_all (scan_char "{" "}" s c) text

-- No character of the text closes the value.
abbrev pub silent : Scan → Text → Bool
silent s [] = true
silent s (c ∷ text) = not (closes "{" "}" s c) && silent (scan_char "{" "}" s c) text

abbrev pub prepend_all : Text → Result Cut → Result Cut
prepend_all [] r = r
prepend_all (c ∷ text) r = prepend c (prepend_all text r)

both : (a b : Bool) → (not a && b) ≡ true → (a ≡ false) × (b ≡ true)
both true b h = cc
both false b h = (refl, h)

-- The loop passes over a silent text.
passes :
    (s : Scan) (text rest : Text)
    → silent s text ≡ true
    → matching_delimiter "{" "}" s (text ++ rest)
      ≡ prepend_all text (matching_delimiter "{" "}" (scan_all s text) rest)
unfolding matching_delimiter
passes s [] rest h = refl
passes s (c ∷ text) rest h =
    let (going, silence) = both (closes "{" "}" s c) (silent (scan_char "{" "}" s c) text) h in
    rw going (ap (prepend c) (passes (scan_char "{" "}" s c) text rest silence))

-- Outside strings, `d + 1` braces deep.
abbrev pub level : ℕ → Scan
level d = record { depth = pos (suc d); in_string = false; escaped = false }

-- In a string there.
abbrev pub inside : ℕ → Scan
inside d = record { depth = pos (suc d); in_string = true; escaped = false }

-- A text that takes the loop from one state to another and closes nothing.
abbrev pub Takes : Scan → Text → Scan → Type 0
Takes s text t = (silent s text ≡ true) × (scan_all s text ≡ t)

pub record Neutral (text : Text) : Type 0 where
  pub at : (d : ℕ) → Takes (level d) text (level d)

pub Takes-append :
    (s : Scan) (a b : Text) {t u : Scan} → Takes s a t → Takes t b u → Takes s (a ++ b) u
Takes-append s [] b {t} {u} h k = subst (λ x. Takes x b u) (sym h.1) k
Takes-append s (c ∷ a) b {t} {u} h k =
    let (going, silence) = both (closes "{" "}" s c) (silent (scan_char "{" "}" s c) a) h.0 in
    let rest = Takes-append (scan_char "{" "}" s c) a b (silence, h.1) k in
    (rw going rest.0, rest.1)

pub Neutral-append : {a b : Text} → Neutral a → Neutral b → Neutral (a ++ b)
Neutral-append {a} {b} h k = record { at = λ d. Takes-append (level d) a b (h.at d) (k.at d) }

-- A character that is neither a quote nor a brace.
abbrev pub IsPlain : Char → Type 0
IsPlain c = (is c b'"' ≡ false) × (is c b'{' ≡ false) × (is c b'}' ≡ false)

plain : (t : Text) → All IsPlain t → (d : ℕ) → Takes (level d) t (level d)
plain [] h d = (refl, refl)
plain (c ∷ t) ((quote, left, right), h) d =
    let rest = plain t h d in (rw (quote, left, right) rest.0, rw (quote, left, right) rest.1)

pub Neutral-IsPlain : {t : Text} → All IsPlain t → Neutral t
Neutral-IsPlain {t} h = record { at = plain t h }

-- An object in an object.
pub Neutral-braces : {t : Text} → Neutral t → Neutral (chars "{" ++ (t ++ chars "}"))
Neutral-braces {t} h = record {
  at = λ d.
      Takes-append (level d) (chars "{") (t ++ chars "}") (refl, ground arith)
        (Takes-append (level (d + 1)) t (chars "}") (h.at (d + 1)) (ground arith, ground arith));
}

prepend_all-ok : (a v rest : Text) → prepend_all a (ok (v, rest)) ≡ ok (a ++ v, rest)
prepend_all-ok [] v rest = refl
prepend_all-ok (c ∷ a) v rest = ap (prepend c) (prepend_all-ok a v rest)

-- An object is cut off at its own brace.
pub matching_delimiter-object :
    (body rest : Text)
    → Neutral body
    → matching_delimiter "{" "}" start (chars "{" ++ (body ++ (chars "}" ++ rest)))
      ≡ ok (chars "{" ++ (body ++ chars "}"), rest)
unfolding matching_delimiter
matching_delimiter-object body rest h = ap (prepend "{") (
    passes (level 0) body (chars "}" ++ rest) (h.at 0).0
    ∙ ap (λ s. prepend_all body (matching_delimiter "{" "}" s (chars "}" ++ rest))) (h.at 0).1
    ∙ prepend_all-ok body (chars "}") rest)
