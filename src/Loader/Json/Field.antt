-- ===== src/Loader/Json/Field.antt =====
-- The first field of an object, as `raw_value` of hpc/fode_cpp/src/case_loader.cpp finds it.
use Prim.Native.Char.{Char}
use fode_hpc_wflop.Base.{false, ◌∷◌, [], ◌++◌, ◌≡◌, refl, some, ok, ◌>>=◌, arith}
use fode_hpc_wflop.Text.{Text, chars}
use fode_hpc_wflop.Loader.Json.{after_prefix, find_after, quoted_key, raw_value, string_end}

after_prefix-append : (needle text : Text) → after_prefix needle (needle ++ text) ≡ some text
unfolding after_prefix
after_prefix-append [] text = refl
after_prefix-append (n ∷ needle) text = ground (arith, after_prefix-append needle text)

pub find_after-append :
    (n : Char) (needle text : Text) → find_after (n ∷ needle) (n ∷ (needle ++ text)) ≡ some text
unfolding find_after
find_after-append n needle text = rw (after_prefix-append (n ∷ needle) text, find_after) refl

pub raw_value-field :
    (key text : Text)
    → raw_value (chars "{" ++ (quoted_key key ++ (chars ":" ++ (chars "\"" ++ text)))) key
      ≡ (string_end false text >>= (λ rest. ok ("\"" ∷ rest)))
unfolding raw_value
raw_value-field key text =
    rw (find_after-append "\"" (key ++ chars "\"") (chars ":" ++ (chars "\"" ++ text))) refl
