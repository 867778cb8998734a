-- ===== src/Config/Load/Runs.antt =====
-- The loop of `ck_config_load_file`: it comes to an end, and what the handlers keep it keeps.
use ckarta.Prelude.{
  ℕ, zero, suc, ◌+◌, ◌-◌, ◌<◌, ◌≡◌, refl, ap, Bool, true, false, not, ◌&&◌, List, [], ◌∷◌, Option,
  none, some, ◌==◌, length, Bytes, arith, Bool-cases, Option-cases, inl, inr,
}
use ckarta.Config.{Config, Done, line_size}
use ckarta.Config.Line.{Line, blank, directive, bad, bad_silently, parse_line}
use ckarta.Config.Load.{
  Read, fgets, is_read, has_newline, until_nul, Directive, find_directive, call_handler, apply_line,
  apply_read, Loaded, loaded, at_eof, load_from, load_opened, load_file,
}

fgets-length :
    (n : ℕ) (file : Bytes) → length (fgets n file).text + length (fgets n file).rest ≡ length file
unfolding fgets
fgets-length zero file = omega arith
fgets-length (suc n) [] = omega arith
fgets-length (suc n) (c ∷ file) = elim (Bool-cases (c == 10)) [
  | inl e ↦ rw (e, fgets) (omega arith)
  | inr e ↦ rw (e, fgets) (omega (arith, fgets-length n file))
]

pub read_shorter :
    (n : ℕ) (file : Bytes)
    → is_read (fgets n file) ≡ true
    → length (fgets n file).rest < length file
unfolding is_read
read_shorter n file h = ground (arith, fgets-length n file)

-- A round whose line succeeds.
pub load_step :
    (fuel : ℕ) (error : Bool) (directives : List Directive) (c d : Config) (line : ℕ) (file : Bytes)
    → let r = fgets (line_size - 1) file in
      is_read r ≡ true
      → apply_read directives c (line + 1) r ≡ record { config = d; failure = none }
      → load_from (suc fuel) error directives c line file
        ≡ load_from fuel error directives d (line + 1) r.rest
unfolding load_from
load_step fuel error directives c d line file y a =
    rw (load_from, y, a)
      (ap
        (λ (x : Done).
          load_from fuel error directives x.config (line + 1) (fgets (line_size - 1) file).rest)
        a)

-- A property that the loop keeps if the handlers do.
module _ (Keeps : Config → Type 0) (directives : List Directive) where
  -- Each handler of the table keeps it.
  abbrev pub Respects : Type 0
  Respects =
      (d : Directive) (name : Bytes) (handler : Config → List Bytes → ℕ → Done) (c : Config)
      (args : List Bytes) (line : ℕ)
      → find_directive directives name ≡ some d
      → d.handler ≡ some handler
      → Keeps c
      → Keeps (handler c args line).config

  call_handler-Keeps :
      Respects
      → (c : Config) (line : ℕ) (name : Bytes) (args : List Bytes) → Keeps c
      → Keeps (call_handler c line args (find_directive directives name)).config
  call_handler-Keeps good c line name args k =
      elim (Option-cases (find_directive directives name)) [
        | inl n ↦ rw n k
        | inr (d, e) ↦ elim (Option-cases d.handler) [
          | inl n ↦ rw (e, n) k
          | inr (h, f) ↦ rw (e, f) (good d name h c args line e f k)
        ]
      ]

  apply_line-Keeps :
      Respects
      → (c : Config) (line : ℕ) (l : Line) → Keeps c
      → Keeps (apply_line directives c line l).config
  unfolding apply_line
  apply_line-Keeps good c line blank k = k
  apply_line-Keeps good c line (directive name args) k = call_handler-Keeps good c line name args k
  apply_line-Keeps good c line (bad m) k = k
  apply_line-Keeps good c line bad_silently k = k

  apply_read-Keeps :
      Respects
      → (c : Config) (line : ℕ) (r : Read) → Keeps c
      → Keeps (apply_read directives c line r).config
  unfolding apply_read
  apply_read-Keeps good c line r k =
      elim (Bool-cases (not (has_newline (until_nul r.text)) && not r.at_end)) [
        | inl e ↦ rw e k
        | inr e ↦ rw e (apply_line-Keeps good c line (parse_line (until_nul r.text)) k)
      ]

  at_eof-Keeps :
      (error : Bool) (c : Config) (line : ℕ) → Keeps c → Keeps (at_eof error c line).config
  at_eof-Keeps true c line k = k
  at_eof-Keeps false c line k = k

  -- What the loop answers: a result, whose configuration keeps the property.
  abbrev pub Answers : Loaded → Type 0
  Answers x = (d : Done) × (x ≡ loaded d) × Keeps d.config

  load_from-Answers :
      Respects
      → (fuel : ℕ) (error : Bool) (c : Config) (line : ℕ) (file : Bytes) → length file < fuel
      → Keeps c
      → Answers (load_from fuel error directives c line file)
  unfolding load_from
  load_from-Answers good zero error c line file h k = absurd (omega arith)
  load_from-Answers good (suc fuel) error c line file h k =
      let r = fgets (line_size - 1) file in
      let d = apply_read directives c (line + 1) r in
      elim (Bool-cases (is_read r)) [
        | inr n ↦ rw (n, load_from) (at_eof error c line, refl, at_eof-Keeps error c line k)
        | inl y ↦ elim (Option-cases d.failure) [
          | inl e ↦
              rw (y, e, load_from)
                (load_from-Answers good fuel error d.config (line + 1) r.rest
                  (omega (arith, h, read_shorter (line_size - 1) file y))
                  (apply_read-Keeps good c (line + 1) r k))
          | inr (f, e) ↦ rw (y, e, load_from) (d, refl, apply_read-Keeps good c (line + 1) r k)
        ]
      ]

  load_opened-Answers :
      Respects
      → (error : Bool) (c : Config) (file : Option Bytes) → Keeps c
      → Answers (load_opened error directives c file)
  unfolding load_opened
  load_opened-Answers good error c none k = (_, refl, k)
  load_opened-Answers good error c (some file) k =
      load_from-Answers good (length file + 1) error c 0 file (omega arith) k

  -- Loading any file comes to an end with a result. A property of the configuration that each handler
  -- of the table keeps holds of that result too, if it held before.
  pub load_file-Answers :
      Respects
      → (error : Bool) (c : Config) (file : Option Bytes) → Keeps c
      → Answers (load_file error directives c file)
  unfolding load_file
  load_file-Answers good error c file k = elim (Bool-cases (length directives == 0)) [
    | inl e ↦ rw e (_, refl, k)
    | inr e ↦ rw e (load_opened-Answers good error c file k)
  ]
