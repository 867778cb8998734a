-- ===== src/Config/Line/Bounds.antt =====
-- The buffers of `ck_config_load_file`: the name and the arguments fit in theirs.
use ckarta.Prelude.{
  ℕ, zero, suc, ◌+◌, ◌<◌, ◌≤◌, ◌≡◌, ◌⊎◌, refl, Bool, true, false, List, [], ◌∷◌, ◌++◌, ◌==◌, length,
  length-append, Bytes, arith, Bool-cases, Option-cases, inl, inr,
}
use mathlib.Core.Path.{subst}
use ckarta.Config.{line_size, max_args}
use ckarta.Config.Tokens.{
  Token, Kind, token, failed, nothing, kind, ends, escapes, plain, escape_of, is_full, is_stop,
  quote, finish, scan_quoted, scan_word, parse_token,
}
use ckarta.Config.Line.{
  Arguments, refused, refused_silently, arguments, Turn, over, one_more, turn, turn_at, is_end,
  is_brace, skip_spaces, parse_arguments, Line, blank, directive, bad, bad_silently,
  behind_arguments, behind_name, parse_line,
}

-- A token that is not empty and, with its NUL, fits in a buffer of this size.
pub data FitsToken (size : ℕ) : Token → Type 0 where
  fits : {t rest : Bytes} → 0 < length t → length t < size → FitsToken size (token t rest)
  fails : {m : ckarta.Config.Message} → FitsToken size (failed m)
  empty : FitsToken size nothing

finish-FitsToken : (size : ℕ) (t rest : Bytes) → length t < size → FitsToken size (finish t rest)
unfolding finish
finish-FitsToken size t rest h = elim (Bool-cases (length t == 0)) [
  | inl e ↦ rw e empty
  | inr e ↦ rw e (fits (ground arith) h)
]

put-lt : (size c : ℕ) (t : Bytes) → is_full size t ≡ false → length (t ++ c ∷ []) < size
put-lt size c t h = ground (arith, length-append t (c ∷ []))

Kind-cases : (k : Kind) → (k ≡ ends) ⊎ ((k ≡ escapes) ⊎ (k ≡ plain))
Kind-cases ends = inl refl
Kind-cases escapes = inr (inl refl)
Kind-cases plain = inr (inr refl)

scan_quoted-FitsToken :
    (size : ℕ) (escaped : Bool) (t p : Bytes)
    → length t < size
    → FitsToken size (scan_quoted size escaped t p)
unfolding scan_quoted
scan_quoted-FitsToken size true t [] h = fails
scan_quoted-FitsToken size false t [] h = fails
scan_quoted-FitsToken size true t (c ∷ p) h = elim (Option-cases (escape_of c)) [
  | inl n ↦ rw (n, scan_quoted) fails
  | inr (ch, e) ↦ elim (Bool-cases (is_full size t)) [
    | inl f ↦ rw (e, f, scan_quoted) fails
    | inr f ↦
        rw (e, f, scan_quoted)
          (scan_quoted-FitsToken size false (t ++ ch ∷ []) p (put-lt size ch t f))
  ]
]
scan_quoted-FitsToken size false t (c ∷ p) h = elim (Kind-cases (kind c)) [
  | inl k ↦ rw (k, scan_quoted) (finish-FitsToken size t p h)
  | inr (inl k) ↦ rw (k, scan_quoted) (scan_quoted-FitsToken size true t p h)
  | inr (inr k) ↦ elim (Bool-cases (is_full size t)) [
    | inl f ↦ rw (k, f, scan_quoted) fails
    | inr f ↦
        rw (k, f, scan_quoted)
          (scan_quoted-FitsToken size false (t ++ c ∷ []) p (put-lt size c t f))
  ]
]

scan_word-FitsToken :
    (size : ℕ) (t p : Bytes) → length t < size → FitsToken size (scan_word size t p)
unfolding scan_word
scan_word-FitsToken size t [] h = finish-FitsToken size t [] h
scan_word-FitsToken size t (c ∷ p) h = elim (Bool-cases (is_stop c)) [
  | inl s ↦ rw (s, scan_word) (finish-FitsToken size t (c ∷ p) h)
  | inr s ↦ elim (Bool-cases (is_full size t)) [
    | inl f ↦ rw (s, f, scan_word) fails
    | inr f ↦ rw (s, f, scan_word) (scan_word-FitsToken size (t ++ c ∷ []) p (put-lt size c t f))
  ]
]

parse_token-FitsToken : (size : ℕ) (p : Bytes) → 0 < size → FitsToken size (parse_token size p)
unfolding parse_token
parse_token-FitsToken size [] h = scan_word-FitsToken size [] [] h
parse_token-FitsToken size (c ∷ p) h = elim (Bool-cases (c == quote)) [
  | inl q ↦ rw (q, parse_token) (scan_quoted-FitsToken size false [] p h)
  | inr q ↦ rw (q, parse_token) (scan_word-FitsToken size [] (c ∷ p) h)
]

-- Every argument fits in its buffer.
abbrev pub EachFits : List Bytes → Type 0
EachFits [] = Unit
EachFits (t ∷ args) = ((0 < length t) × (length t < line_size)) × EachFits args

each_append :
    (args : List Bytes) (t : Bytes)
    → EachFits args
    → 0 < length t
    → length t < line_size
    → EachFits (args ++ t ∷ [])
each_append [] t v a b = ((a, b), tt)
each_append (u ∷ args) t (w, v) a b = (w, each_append args t v a b)

-- The array of arguments holds them, with the room that is left.
pub data FitsArguments : Arguments → Type 0 where
  read :
      {args : List Bytes} {rest : Bytes}
      → length args ≤ max_args
      → EachFits args
      → FitsArguments (arguments args rest)
  refuses : {m : ckarta.Config.Message} → FitsArguments (refused m)
  refuses_silently : FitsArguments refused_silently

Turn-cases : (t : Turn) → ((a : Arguments) × (t ≡ over a)) ⊎ ((p : Bytes) × (t ≡ one_more p))
Turn-cases (over a) = inl (a, refl)
Turn-cases (one_more p) = inr (p, refl)

abbrev FitsTurn : Turn → Type 0
FitsTurn (over a) = FitsArguments a
FitsTurn (one_more p) = Unit

turn_at-FitsTurn :
    (args : List Bytes) (p : Bytes)
    → length args ≤ max_args
    → EachFits args
    → FitsTurn (turn_at args p)
turn_at-FitsTurn args [] h v = refuses
turn_at-FitsTurn args (c ∷ p) h v = elim (Bool-cases (c == 35)) [
  | inl x ↦ rw x refuses
  | inr x ↦ elim (Bool-cases (c == 59)) [ inl y ↦ rw (x, y) (read h v) | inr y ↦ rw (x, y) tt ]
]

over-FitsArguments :
    (args : List Bytes) (p : Bytes) (a : Arguments)
    → turn_at args p ≡ over a
    → length args ≤ max_args
    → EachFits args
    → FitsArguments a
over-FitsArguments args p a e h v = subst FitsTurn e (turn_at-FitsTurn args p h v)

token-FitsArguments :
    (room : ℕ) (args : List Bytes) (t : Token)
    → ((text rest : Bytes)
        → 0 < length text
        → length text < line_size
        → FitsArguments (parse_arguments room (args ++ text ∷ []) rest))
    → FitsToken line_size t
    → FitsArguments (elim t [
      | token t rest ↦ parse_arguments room (args ++ t ∷ []) rest
      | failed m ↦ refused m
      | nothing ↦ refused_silently
    ])
token-FitsArguments room args t go (fits {t = text} {rest = rest} a b) = go text rest a b
token-FitsArguments room args t go (fails {m}) = refuses
token-FitsArguments room args t go empty = refuses_silently

parse_arguments-FitsArguments :
    (room : ℕ) (args : List Bytes) (p : Bytes)
    → length args + room ≡ max_args
    → EachFits args
    → FitsArguments (parse_arguments room args p)
unfolding parse_arguments
parse_arguments-FitsArguments zero args p h v = elim (Turn-cases (turn args p)) [
  | inl (a, e) ↦ rw e (over-FitsArguments args (skip_spaces p) a e (omega arith) v)
  | inr (q, e) ↦ rw e refuses
]
parse_arguments-FitsArguments (suc room) args p h v = elim (Turn-cases (turn args p)) [
  | inl (a, e) ↦
      rw (e, parse_arguments) (over-FitsArguments args (skip_spaces p) a e (omega arith) v)
  | inr (q, e) ↦
      rw (e, parse_arguments)
        (token-FitsArguments room args (parse_token line_size q)
          (λ text rest a b.
            parse_arguments-FitsArguments room (args ++ text ∷ []) rest
              (omega (arith, length-append args (text ∷ []))) (each_append args text v a b))
          (parse_token-FitsToken line_size q (omega arith)))
]

-- What a line holds fits.
pub data FitsLine : Line → Type 0 where
  is_blank : FitsLine blank
  is_directive :
      {name : Bytes} {args : List Bytes}
      → length name < line_size
      → length args ≤ max_args
      → EachFits args
      → FitsLine (directive name args)
  is_bad : {m : ckarta.Config.Message} → FitsLine (bad m)
  is_bad_silently : FitsLine bad_silently

behind_arguments-FitsLine :
    (name : Bytes) (a : Arguments)
    → length name < line_size
    → FitsArguments a
    → FitsLine (behind_arguments name a)
unfolding behind_arguments
behind_arguments-FitsLine name a h (read {args} {rest} n v) =
    elim (Bool-cases (is_end (skip_spaces rest))) [
      | inl e ↦ rw e (is_directive h n v)
      | inr e ↦ rw e is_bad
    ]
behind_arguments-FitsLine name a h (refuses {m}) = is_bad
behind_arguments-FitsLine name a h refuses_silently = is_bad_silently

behind_name-FitsLine : (t : Token) → FitsToken line_size t → FitsLine (behind_name t)
unfolding behind_name
behind_name-FitsLine t (fits {t = name} {rest = rest} a b) =
    behind_arguments-FitsLine name (parse_arguments max_args [] rest) b
      (parse_arguments-FitsArguments max_args [] rest refl tt)
behind_name-FitsLine t (fails {m}) = is_bad
behind_name-FitsLine t empty = is_bad_silently

-- Whatever a line holds, the name of its directive and each of its arguments fit, with their NUL, in
-- buffers of 4096 bytes, no argument is empty, and there are at most 8 of them.
pub parse_line-FitsLine : (text : Bytes) → FitsLine (parse_line text)
unfolding parse_line
parse_line-FitsLine text =
    let p = skip_spaces text in
    elim (Bool-cases (is_end p)) [
      | inl e ↦ rw e is_blank
      | inr e ↦ elim (Bool-cases (is_brace p)) [
        | inl b ↦ rw (e, b) is_bad
        | inr b ↦
            rw (e, b)
              (behind_name-FitsLine (parse_token line_size p)
                (parse_token-FitsToken line_size p (omega arith)))
      ]
    ]
