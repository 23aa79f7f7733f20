-- ===== src/Loader/Json.antt =====
pub mod Field
pub mod Neutral
-- The JSON reader of hpc/fode_cpp/src/case_loader.cpp. Where the source keeps a position in a
-- `string_view`, the model keeps the text from there on.
use Prim.Native.Char.{Char, char, code}
use Prim.Native.String.{String, ◌++◌ as ◌<>◌}
use fode_hpc_wflop.Base.{
  ℕ, zero, suc, ◌+◌, ◌-◌, ℤ, pos, ◌+ℤ◌, ◌-ℤ◌, eqb_ℤ, Bool, true, false, not, ◌&&◌, ◌||◌,
  if◌then◌else◌, Option, none, some, List, [], ◌∷◌, ◌++◌, length, ltb, leb, ◌==◌, Result, ok, err,
  runtime_error, ◌>>=◌, ◌>>◌, throw_if,
}
use fode_hpc_wflop.Text.{Text, chars, is, string_of}

-- The locals of `matching_delimiter`.
pub record Scan : Type 0 where
  pub depth : ℤ
  pub in_string : Bool
  pub escaped : Bool

abbrev pub start : Scan
start = record { depth = pos 0; in_string = false; escaped = false }

-- One round of the loop, unless it returns.
abbrev pub scan_char : Char → Char → Scan → Char → Scan
scan_char opening closing s ch =
    if s.in_string
    then if s.escaped
      then record s { escaped = false }
      else if is ch b'\\'
      then record s { escaped = true }
      else if is ch b'"'
      then record s { in_string = false }
      else s
    else if is ch b'"'
    then record s { in_string = true }
    else if is ch (code opening)
    then record s { depth = s.depth +ℤ pos 1 }
    else if is ch (code closing)
    then record s { depth = s.depth -ℤ pos 1 }
    else s

-- Where it returns.
abbrev pub closes : Char → Char → Scan → Char → Bool
closes opening closing s ch =
    not s.in_string
    && not (is ch b'"')
    && not (is ch (code opening))
    && is ch (code closing)
    && eqb_ℤ (s.depth -ℤ pos 1) (pos 0)

-- A value that has been cut off, and the text behind it.
abbrev pub Cut : Type 0
Cut = Text × Text

abbrev pub prepend : Char → Result Cut → Result Cut
prepend ch (ok (value, rest)) = ok (ch ∷ value, rest)
prepend ch (err thrown) = err thrown

-- The text up to the delimiter that matches.
unfoldable pub matching_delimiter : Char → Char → Scan → Text → Result Cut
matching_delimiter opening closing s [] = err (runtime_error "unterminated JSON value")
matching_delimiter opening closing s (ch ∷ text) =
    let more = matching_delimiter opening closing (scan_char opening closing s ch) text in
    if closes opening closing s ch then ok (ch ∷ [], text) else prepend ch more

-- The text behind `needle`, where the text begins with it.
unfoldable pub after_prefix : Text → Text → Option Text
after_prefix [] text = some text
after_prefix (n ∷ needle) [] = none
after_prefix (n ∷ needle) (ch ∷ text) = if is ch (code n) then after_prefix needle text else none

-- The text behind the first `needle`: `find`.
unfoldable pub find_after : Text → Text → Option Text
unfolding after_prefix
find_after needle [] = after_prefix needle []
find_after needle (ch ∷ text) = elim (after_prefix needle (ch ∷ text)) [
  | some rest ↦ some rest
  | none ↦ find_after needle text
]

-- `std::isspace` in the C locale
abbrev is_space : Char → Bool
is_space ch = is ch b' ' || (leb 9 (code ch) && leb (code ch) 13)

skip_spaces : Text → Text
skip_spaces [] = []
skip_spaces (ch ∷ text) = if is_space ch then skip_spaces text else ch ∷ text

-- The loop of `raw_value` over a string, behind its first quote.
unfoldable pub string_end : Bool → Text → Result Text
string_end escaped [] = err (runtime_error "unterminated JSON string")
string_end true (ch ∷ text) = do rest ← string_end false text; ok (ch ∷ rest)
string_end false (ch ∷ text) =
    let more = string_end (is ch b'\\') text >>= (λ rest. ok (ch ∷ rest)) in
    if is ch b'"' then ok (ch ∷ []) else more

-- The loop over a number or a word.
scalar_end : Text → Text
scalar_end [] = []
scalar_end (ch ∷ text) = if is ch b',' || is ch b'}' then [] else ch ∷ scalar_end text

abbrev value_of : Cut → Result Text
value_of cut = ok cut.0

-- The value at the first character behind the colon and the spaces.
value_at : Text → Text → Result Text
unfolding matching_delimiter string_end scalar_end
value_at key [] = err (runtime_error ("empty JSON field: " <> string_of key))
value_at key (ch ∷ text) =
    if is ch b'['
    then matching_delimiter "[" "]" start (ch ∷ text) >>= value_of
    else if is ch b'{'
    then matching_delimiter "{" "}" start (ch ∷ text) >>= value_of
    else if is ch b'"'
    then string_end false text >>= (λ rest. ok (ch ∷ rest))
    else ok (scalar_end (ch ∷ text))

abbrev pub found : Option Text → String → Result Text
found (some text) message = ok text
found none message = err (runtime_error message)

abbrev pub quoted_key : Text → Text
quoted_key key = chars "\"" ++ key ++ chars "\""

unfoldable pub raw_value : Text → Text → Result Text
unfolding find_after skip_spaces value_at
raw_value object key = do
  behind ← found (find_after (quoted_key key) object) ("missing JSON key: " <> string_of key)
  value ← found (find_after (chars ":") behind) ("invalid JSON field: " <> string_of key)
  value_at key (skip_spaces value)

-- The cases of the `switch`.
escape_of : Char → Result Char
escape_of ch =
    if is ch b'"'
    then ok "\""
    else if is ch b'\\'
    then ok "\\"
    else if is ch b'/'
    then ok "/"
    else if is ch b'b'
    then ok (char 8 tt)
    else if is ch b'f'
    then ok (char 12 tt)
    else if is ch b'n'
    then ok "\n"
    else if is ch b'r'
    then ok "\r"
    else if is ch b't'
    then ok "\t"
    else err (runtime_error "unsupported JSON escape")

-- The loop of `parse_string`; the quote at the end of the text is not read.
unfoldable pub unescape : Bool → Text → Result Text
unfolding escape_of
unescape escaped [] = ok []
unescape escaped (ch ∷ []) = ok []
unescape true (ch ∷ d ∷ text) = do
  meant ← escape_of ch
  rest ← unescape false (d ∷ text)
  ok (meant ∷ rest)
unescape false (ch ∷ d ∷ text) =
    let escape = unescape true (d ∷ text) in
    let plain = unescape false (d ∷ text) >>= (λ rest. ok (ch ∷ rest)) in
    if is ch b'\\' then escape else plain

-- `!raw.empty() && raw.back() == '"'`
unfoldable pub ends_quoted : Text → Bool
ends_quoted [] = false
ends_quoted (ch ∷ []) = is ch b'"'
ends_quoted (ch ∷ d ∷ text) = ends_quoted (d ∷ text)

unfoldable pub parse_string : Text → Result Text
unfolding unescape ends_quoted
parse_string [] = err (runtime_error "expected JSON string")
parse_string (ch ∷ text) = do
  throw_if (not (is ch b'"') || not (ends_quoted text)) (runtime_error "expected JSON string")
  unescape false text
