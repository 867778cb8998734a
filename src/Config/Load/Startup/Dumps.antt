-- ===== src/Config/Load/Startup/Dumps.antt =====
-- What `ckarta -T` prints, read again.
use ckarta.Prelude.{
  ℕ, zero, suc, ◌+◌, ◌-◌, ◌<◌, ◌≡◌, refl, sym, ap, ◌∙◌, Bool, true, false, not, ◌||◌, [], ◌∷◌, ◌++◌,
  append_assoc, append-nil, none, some, ◌==◌, length, length-append, all, Bytes, arith,
}
use ckarta.Config.{Config, Done, dump, dump_head, dump_tail, set_class_path, line_size, max_args}
use ckarta.Config.Tokens.{
  token, kind, plain, quote, finish, scan_quoted, scan_word, parse_token, plain_step,
}
use ckarta.Config.Line.{
  directive, arguments, parse_arguments, parse_line, behind_name, behind_arguments, skip_spaces,
}
use ckarta.Config.Load.{
  fgets, is_read, has_newline, until_nul, find_directive, apply_line, apply_read, loaded, load_from,
  load_opened, load_file,
}
use ckarta.Config.Load.Runs.{load_step}
use ckarta.Config.Load.Startup.{apply_class_path, directives_of, class_path_name}

-- Neither `"` nor a backslash, nor a newline or NUL.
abbrev pub is_plain : ℕ → Bool
is_plain c = not (c == 34 || c == 92 || c == 10 || c == 0)

plain-kind : (c : ℕ) → is_plain c ≡ true → kind c ≡ plain
plain-kind c h = ground arith

scan_quoted-plain :
    (size : ℕ) (before text rest : Bytes)
    → all is_plain text ≡ true
    → length before + length text < size
    → scan_quoted size false before (text ++ quote ∷ rest) ≡ finish (before ++ text) rest
unfolding scan_quoted
scan_quoted-plain size before [] rest a h = ap (λ x. finish x rest) (sym (append-nil before))
scan_quoted-plain size before (c ∷ text) rest a h =
    let next : length (before ++ c ∷ []) + length text < size =
      omega (arith, length-append before (c ∷ [])) in
    plain_step size c before (text ++ quote ∷ rest) (plain-kind c (ground arith)) (omega arith)
    ∙ scan_quoted-plain size (before ++ c ∷ []) text rest (ground arith) next
    ∙ ap (λ x. finish x rest) (append_assoc before (c ∷ []) text)

-- Neither a newline nor NUL.
abbrev is_inner : ℕ → Bool
is_inner c = not (c == 10 || c == 0)

fgets_line :
    (n : ℕ) (text : Bytes)
    → all is_inner text ≡ true
    → length text < n
    → fgets n (text ++ 10 ∷ []) ≡ record { text = text ++ 10 ∷ []; rest = []; at_end = false }
unfolding fgets
fgets_line zero text a h = absurd (omega arith)
fgets_line (suc n) [] a h = refl
fgets_line (suc n) (c ∷ text) a h =
    let inner : (c == 10) ≡ false = ground arith in
    rw (inner, fgets, fgets_line n text (ground arith) (omega arith)) refl

until_nul_line :
    (text : Bytes) → all is_inner text ≡ true → until_nul (text ++ 10 ∷ []) ≡ text ++ 10 ∷ []
unfolding until_nul
until_nul_line [] a = refl
until_nul_line (c ∷ text) a =
    let inner : (c == 0) ≡ false = ground arith in
    rw (inner, until_nul) (ap (◌∷◌ c) (until_nul_line text (ground arith)))

has_newline_line : (text : Bytes) → has_newline (text ++ 10 ∷ []) ≡ true
unfolding has_newline
has_newline_line [] = refl
has_newline_line (c ∷ text) = ground (arith, has_newline_line text)

-- The line that `dump` prints for a path, without its newline.
abbrev line_of : Bytes → Bytes
line_of path = dump_head ++ path ++ 34 ∷ 59 ∷ []

inner_of : (path : Bytes) → all is_plain path ≡ true → all is_inner (path ++ 34 ∷ 59 ∷ []) ≡ true
inner_of [] a = refl
inner_of (c ∷ path) a = ground (arith, inner_of path (ground arith))

name_token :
    (path : Bytes)
    → parse_token line_size (line_of path ++ 10 ∷ [])
      ≡ token class_path_name (32 ∷ 34 ∷ (path ++ 34 ∷ 59 ∷ []) ++ 10 ∷ [])
unfolding parse_token scan_word finish
name_token path = refl

path_token :
    (c : ℕ) (path rest : Bytes)
    → all is_plain (c ∷ path) ≡ true
    → length path + 1 < line_size
    → parse_token line_size (34 ∷ (c ∷ path) ++ 34 ∷ rest) ≡ token (c ∷ path) rest
unfolding parse_token finish
path_token c path rest a h =
    scan_quoted-plain line_size [] (c ∷ path) rest a (omega arith) ∙ ground arith

path_arguments :
    (c : ℕ) (path : Bytes)
    → all is_plain (c ∷ path) ≡ true
    → length path + 1 < line_size
    → parse_arguments max_args [] (32 ∷ 34 ∷ (c ∷ path) ++ 34 ∷ 59 ∷ 10 ∷ [])
      ≡ arguments ((c ∷ path) ∷ []) (10 ∷ [])
unfolding parse_arguments skip_spaces
path_arguments c path a h = rw (parse_arguments, path_token c path (59 ∷ 10 ∷ []) a h) refl

line_end : (path : Bytes) → (path ++ 34 ∷ 59 ∷ []) ++ 10 ∷ [] ≡ path ++ 34 ∷ 59 ∷ 10 ∷ []
line_end path = append_assoc path (34 ∷ 59 ∷ []) (10 ∷ [])

dump_line :
    (c : ℕ) (path : Bytes)
    → all is_plain (c ∷ path) ≡ true
    → length path + 1 < line_size
    → parse_line (line_of (c ∷ path) ++ 10 ∷ []) ≡ directive class_path_name ((c ∷ path) ∷ [])
unfolding parse_line skip_spaces behind_name behind_arguments
dump_line c path a h = rw (name_token (c ∷ path), line_end path, path_arguments c path a h) refl

-- One line that is the whole file.
apply_line_class_path :
    (before : Config) (c : ℕ) (path : Bytes)
    → before.class_path_configured ≡ false
    → apply_line (directives_of true) before 1 (directive class_path_name ((c ∷ path) ∷ []))
      ≡ record {
        config = record { class_path = some (c ∷ path); class_path_configured = true };
        failure = none;
      }
unfolding apply_line find_directive apply_class_path set_class_path
apply_line_class_path before c path h = ground (arith, h)

succeeds : Config → Done
succeeds c = record { config = c; failure = none }

one_line_read :
    (before after : Config) (text : Bytes)
    → all is_inner text ≡ true
    → apply_line (directives_of true) before 1 (parse_line (text ++ 10 ∷ [])) ≡ succeeds after
    → apply_read
        (directives_of true)
        before
        1
        (record { text = text ++ 10 ∷ []; rest = []; at_end = false })
      ≡ succeeds after
unfolding apply_read
one_line_read before after text a e = rw (until_nul_line text a, has_newline_line text) e

one_line_from :
    (before after : Config) (k : ℕ) (text : Bytes)
    → all is_inner text ≡ true
    → length text < line_size - 1
    → apply_line (directives_of true) before 1 (parse_line (text ++ 10 ∷ [])) ≡ succeeds after
    → load_from (suc (suc k)) false (directives_of true) before 0 (text ++ 10 ∷ [])
      ≡ loaded (succeeds after)
unfolding load_from is_read succeeds
one_line_from before after k text a h e =
    let read : is_read (record { text = text ++ 10 ∷ []; rest = []; at_end = false }) ≡ true =
      ground (arith, length-append text (10 ∷ [])) in
    let line = fgets_line (line_size - 1) text a h in
    load_step (suc k) false (directives_of true) before after 0 (text ++ 10 ∷ []) (rw line read)
      (rw line (one_line_read before after text a e))
    ∙ rw line refl

one_line_file :
    (before after : Config) (text : Bytes)
    → all is_inner text ≡ true
    → length text < line_size - 1
    → apply_line (directives_of true) before 1 (parse_line (text ++ 10 ∷ [])) ≡ succeeds after
    → load_file false (directives_of true) before (some (text ++ 10 ∷ [])) ≡ loaded (succeeds after)
unfolding load_file load_opened
one_line_file before after text a h e =
    let fuel : length (text ++ 10 ∷ []) + 1 ≡ suc (suc (length text)) =
      omega (arith, length-append text (10 ∷ [])) in
    rw fuel (one_line_from before after (length text) text a h e)

-- What `dump` prints for a path that is not empty, has no `"`, backslash, newline or NUL, and fits in a
-- line with the directive around it, is a file from which the same path is loaded.
pub dump-load_file :
    (before : Config) (c : ℕ) (path : Bytes) (configured : Bool)
    → before.class_path_configured ≡ false
    → all is_plain (c ∷ path) ≡ true
    → length path + 16 < line_size
    → let text = dump_head ++ (c ∷ path) ++ dump_tail in
      (dump (record { class_path = some (c ∷ path); class_path_configured = configured })
        ≡ some text)
      × (load_file false (directives_of true) before (some text)
          ≡ loaded (record {
            config = record { class_path = some (c ∷ path); class_path_configured = true };
            failure = none;
          }))
unfolding dump succeeds
dump-load_file before c path configured h a l =
    let after : Config = record { class_path = some (c ∷ path); class_path_configured = true } in
    (
      refl,
      rw (sym (line_end (c ∷ path))) (
          one_line_file before after (line_of (c ∷ path)) (inner_of (c ∷ path) a)
            (omega (arith, length-append (c ∷ path) (34 ∷ 59 ∷ [])))
            (rw (dump_line c path a (omega arith)) (apply_line_class_path before c path h))),
    )
