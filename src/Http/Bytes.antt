-- ===== src/Http/Bytes.antt =====
-- Byte classes and searches that c/http/ck_http_parser.c and c/http/ck_http_chunked.c share. A C
-- span, a pointer and a length, is the list of its bytes.
pub mod Tchar
use ckarta.Prelude.{
  ℕ, Bool, true, false, ◌&&◌, ◌||◌, [], ◌∷◌, Bytes, leb, ◌==◌, Option, none, some, if◌then◌else◌,
}
use Prim.Native.Char.{code}
use Prim.Native.String.{String}

-- The bytes of an ASCII literal.
abbrev pub codes : String → Bytes
codes String.[] = []
codes (String.◌∷◌ c s) = code c ∷ codes s

-- `strchr(s, value) != NULL`: the terminating NUL is part of the string that is searched.
abbrev pub strchr : Bytes → ℕ → Bool
strchr [] value = value == 0
strchr (c ∷ s) value = c == value || strchr s value

abbrev pub is_digit : ℕ → Bool
is_digit value = leb b'0' value && leb value b'9'

abbrev pub is_alpha : ℕ → Bool
is_alpha value = leb b'A' value && leb value b'Z' || leb b'a' value && leb value b'z'

abbrev pub tchar_marks : Bytes
tchar_marks = codes "!#$%&'*+-.^_`|~"

unfoldable pub is_tchar : ℕ → Bool
is_tchar value = is_digit value || is_alpha value || strchr tchar_marks value

abbrev pub is_empty : Bytes → Bool
is_empty [] = true
is_empty (c ∷ cs) = false

abbrev pub bytes_eq : Bytes → Bytes → Bool
bytes_eq [] [] = true
bytes_eq [] (b ∷ s) = false
bytes_eq (a ∷ r) [] = false
bytes_eq (a ∷ r) (b ∷ s) = a == b && bytes_eq r s

-- The bytes in front of the first one that passes the test, and the rest from that one on.
abbrev pub break : (ℕ → Bool) → Bytes → Bytes × Bytes
break p [] = ([], [])
break p (c ∷ cs) =
    let (before, rest) = break p cs in if p c then ([], c ∷ cs) else (c ∷ before, rest)

-- The bytes before the first colon and those behind it.
unfoldable pub split_colon : Bytes → Option (Bytes × Bytes)
split_colon [] = none
split_colon (c ∷ cs) =
    let rest = split_colon cs in
    if c == b':'
    then some ([], cs)
    else elim rest [ none ↦ none | some (name, value) ↦ some (c ∷ name, value) ]
