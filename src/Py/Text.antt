-- ===== src/Py/Text.antt =====
-- The methods of `str` that the handlers use, by code points: `strip`, `startswith` with the slice
-- after it, `endswith`, a slice `[:n]`, `isascii`, and `html.escape`.
use Prim.Native.Char.{Char, code}
use text.Mathlib.TextLemmas.{nil-append, cons-append}
use Prim.Native.String.{◌++◌ as concat}
use aws_serverless_patterns.Prelude.{
  ℕ, zero, suc, String, Bool, true, ◌&&◌, ◌||◌, Option, none, some, ◌≡◌, refl, ltb, leb, nat_eq,
  if◌then◌else◌, ◌==◌, arith, ◌∷◌, List, [],
}

-- `str.isspace` of one code point
abbrev pub is_space : ℕ → Bool
is_space c =
    (leb 9 c && leb c 13)
    || (leb 28 c && leb c 32)
    || nat_eq c 133
    || nat_eq c 160
    || nat_eq c 5760
    || (leb 8192 c && leb c 8202)
    || nat_eq c 8232
    || nat_eq c 8233
    || nat_eq c 8239
    || nat_eq c 8287
    || nat_eq c 12288

unfoldable pub strip_left : String → String
strip_left String.[] = ""
strip_left (String.◌∷◌ c s) =
    let rest = strip_left s in if is_space (code c) then rest else String.◌∷◌ c s

unfoldable pub strip_right : String → String
strip_right String.[] = ""
strip_right (String.◌∷◌ c s) =
    let rest = strip_right s in if rest == "" && is_space (code c) then "" else String.◌∷◌ c rest

-- `s.strip()`
unfoldable pub strip : String → String
strip s = strip_right (strip_left s)

-- `s[len(prefix):]`, where `s.startswith(prefix)`
unfoldable pub remove_prefix : String → String → Option String
remove_prefix String.[] s = some s
remove_prefix (String.◌∷◌ c p) String.[] = none
remove_prefix (String.◌∷◌ c p) (String.◌∷◌ e s) =
    let rest = remove_prefix p s in if nat_eq (code c) (code e) then rest else none

-- `s.endswith(suffix)`
unfoldable pub ends_with : String → String → Bool
ends_with String.[] suffix = suffix == ""
ends_with (String.◌∷◌ c s) suffix = String.◌∷◌ c s == suffix || ends_with s suffix

-- `s[:n]`
unfoldable pub take : ℕ → String → String
take zero s = ""
take (suc n) String.[] = ""
take (suc n) (String.◌∷◌ c s) = String.◌∷◌ c (take n s)

-- `value or default` of a text that may be missing
abbrev pub text_or : Option String → String → String
text_or none default = default
text_or (some s) default = if s == "" then default else s

-- `s.rstrip("/")`
unfoldable pub strip_slashes : String → String
strip_slashes String.[] = ""
strip_slashes (String.◌∷◌ c s) =
    let rest = strip_slashes s in if rest == "" && nat_eq (code c) 47 then "" else String.◌∷◌ c rest

abbrev pub onto_first : Char → List String → List String
onto_first c [] = String.◌∷◌ c "" ∷ []
onto_first c (s ∷ rest) = String.◌∷◌ c s ∷ rest

-- `s.split(",")`
unfoldable pub split_commas : String → List String
split_commas String.[] = "" ∷ []
split_commas (String.◌∷◌ c s) =
    let rest = split_commas s in if nat_eq (code c) 44 then "" ∷ rest else onto_first c rest

-- `s.isascii()`
unfoldable pub is_ascii : String → Bool
is_ascii String.[] = true
is_ascii (String.◌∷◌ c s) = ltb (code c) 128 && is_ascii s

abbrev pub escape_char : ℕ → Option String
escape_char c =
    if nat_eq c 38
    then some "&amp;"
    else if nat_eq c 60
    then some "&lt;"
    else if nat_eq c 62
    then some "&gt;"
    else if nat_eq c 34
    then some "&quot;"
    else if nat_eq c 39
    then some "&#x27;"
    else none

abbrev prepend : Option String → Char → String → String
prepend none c s = String.◌∷◌ c s
prepend (some e) c s = concat e s

-- `html.escape(s)`
unfoldable pub escape : String → String
escape String.[] = ""
escape (String.◌∷◌ c s) = prepend (escape_char (code c)) c (escape s)

split_commas_test : split_commas "a,b" ≡ "a" ∷ "b" ∷ []
unfolding split_commas
split_commas_test = refl

strip_test : strip "  a b\n" ≡ "a b"
unfolding strip strip_left strip_right
strip_test = refl

remove_prefix_test : remove_prefix "sha256=" "sha256=ab" ≡ some "ab"
unfolding remove_prefix
remove_prefix_test = refl

ends_with_test : ends_with "/dev/approve" "/approve" ≡ true
unfolding ends_with
ends_with_test = refl

escape_test : escape "<a&b>" ≡ "&lt;a&amp;b&gt;"
unfolding escape
escape_test = refl

pub remove_prefix-append : (p s : String) → remove_prefix p (concat p s) ≡ some s
unfolding remove_prefix
remove_prefix-append String.[] s = rw nil-append
remove_prefix-append (String.◌∷◌ c p) s =
    let same : nat_eq (code c) (code c) ≡ true = ground arith in
    rw (cons-append, same) (remove_prefix-append p s)
