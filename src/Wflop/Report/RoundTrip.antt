-- ===== src/Wflop/Report/RoundTrip.antt =====
-- What `escape_json` of hpc/wflop_cpp/src/main.cpp writes, the JSON reader of
-- hpc/fode_cpp/src/case_loader.cpp reads back.
use Prim.Native.Char.{Char}
use fode_hpc_wflop.Base.{
  true, false, Bool-cases, inl, inr, [], ◌∷◌, ◌++◌, ◌≡◌, refl, ap, is_empty, ok, ◌>>=◌,
}
use fode_hpc_wflop.Text.{Text, chars, is, same_char}
use fode_hpc_wflop.Loader.Json.{
  unescape, ends_quoted, parse_string, string_end, quoted_key, raw_value,
}
use fode_hpc_wflop.Loader.Json.Field.{raw_value-field}
use fode_hpc_wflop.Wflop.Report.{escape_json, quoted}

holds_end : (xs ys : Text) (c : Char) → is_empty (xs ++ c ∷ ys) ≡ false
holds_end [] ys c = refl
holds_end (x ∷ xs) ys c = refl

unescape_plain :
    (c : Char) (t v : Text)
    → is_empty t ≡ false
    → is c b'\\' ≡ false
    → unescape false t ≡ ok v
    → unescape false (c ∷ t) ≡ ok (c ∷ v)
unfolding unescape
unescape_plain c [] v f h e = cc
unescape_plain c (d ∷ t) v f h e = rw h (rw e)

unescape_quote :
    (c : Char) (t v : Text)
    → is_empty t ≡ false
    → is c b'"' ≡ true
    → unescape false t ≡ ok v
    → unescape false (chars "\\" ++ c ∷ t) ≡ ok (c ∷ v)
unfolding unescape
unescape_quote c [] v f h e = cc
unescape_quote c (d ∷ t) v f h e = rw h (rw e (ap (λ k. ok (k ∷ v)) (same_char c "\"" h)))

unescape_backslash :
    (c : Char) (t v : Text)
    → is_empty t ≡ false
    → is c b'"' ≡ false
    → is c b'\\' ≡ true
    → unescape false t ≡ ok v
    → unescape false (chars "\\" ++ c ∷ t) ≡ ok (c ∷ v)
unfolding unescape
unescape_backslash c [] v f q h e = cc
unescape_backslash c (d ∷ t) v f q h e =
    rw q (rw h (rw e (ap (λ k. ok (k ∷ v)) (same_char c "\\" h))))

unescape-escape_json : (v : Text) → unescape false (escape_json v ++ chars "\"") ≡ ok v
unfolding escape_json unescape
unescape-escape_json [] = refl
unescape-escape_json (c ∷ v) =
    let rest = unescape-escape_json v in
    let more = holds_end (escape_json v) [] "\"" in
    elim (Bool-cases (is c b'"')) [
      | inl quote ↦ rw quote (unescape_quote c _ v more quote rest)
      | inr plain ↦ elim (Bool-cases (is c b'\\')) [
        | inl slash ↦ rw plain (rw slash (unescape_backslash c _ v more plain slash rest))
        | inr other ↦ rw plain (rw other (unescape_plain c _ v more other rest))
      ]
    ]

ends_quoted-append : (t : Text) → ends_quoted (t ++ chars "\"") ≡ true
unfolding ends_quoted
ends_quoted-append [] = refl
ends_quoted-append (c ∷ []) = refl
ends_quoted-append (c ∷ d ∷ t) = ends_quoted-append (d ∷ t)

pub parse_string-quoted : (v : Text) → parse_string (quoted v) ≡ ok v
unfolding parse_string
parse_string-quoted v = rw (ends_quoted-append (escape_json v)) (unescape-escape_json v)

string_end-escape_json :
    (v rest : Text)
    → string_end false (escape_json v ++ chars "\"" ++ rest) ≡ ok (escape_json v ++ chars "\"")
unfolding escape_json string_end
string_end-escape_json [] rest = refl
string_end-escape_json (c ∷ v) rest =
    let behind = string_end-escape_json v rest in
    elim (Bool-cases (is c b'"')) [
      | inl quote ↦ rw quote (rw behind)
      | inr plain ↦ elim (Bool-cases (is c b'\\')) [
        | inl slash ↦ rw plain (rw slash (rw behind))
        | inr other ↦ rw plain (rw other (rw plain (rw other (rw behind))))
      ]
    ]

-- A text that `escape_json` has written as the first field of an object is read back unchanged by
-- `raw_value` and `parse_string`, whatever it holds and whatever follows.
pub read_back :
    (key v rest : Text)
    → (raw_value (chars "{" ++ (quoted_key key ++ (chars ":" ++ (quoted v ++ rest)))) key
        >>= parse_string)
      ≡ ok v
unfolding string_end
read_back key v rest =
    rw (raw_value-field key (escape_json v ++ chars "\"" ++ rest))
      (rw (string_end-escape_json v rest) (parse_string-quoted v))
