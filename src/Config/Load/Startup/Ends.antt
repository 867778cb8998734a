-- ===== src/Config/Load/Startup/Ends.antt =====
-- What a file can do to the class path, and how the start of c/core/main.c ends.
use ckarta.Prelude.{
  ℕ, ◌≡◌, refl, Bool, true, false, not, ◌||◌, List, [], ◌∷◌, ◌++◌, Option, none, some, ◌==◌, length,
  Bytes, arith, Bool-cases, Option-cases, inl, inr,
}
use ckarta.Config.{
  Config, Done, Failure, init, default_class_path, dump, dump_head, dump_tail, set_class_path,
}
use ckarta.Config.Load.{Directive, find_directive, Loaded, loaded, load_file}
use ckarta.Config.Load.Runs.{Respects, Answers, load_file-Answers}
use ckarta.Config.Load.Startup.{
  apply_class_path, directives_of, Options, Parsed, proceed, help, wrong, Start, usage, no_memory,
  config_error, dumped, config_ok, serves, after_config, after_load, after_options, parse_options,
  default_options, start,
}

-- The one directive of the table has this handler.
table-handler :
    (memory : Bool) (d : Directive) (name : Bytes) (handler : Config → List Bytes → ℕ → Done)
    → find_directive (directives_of memory) name ≡ some d
    → d.handler ≡ some handler
    → handler ≡ apply_class_path memory
unfolding find_directive
table-handler memory d name handler e f = ground arith

-- A property that the handler keeps is one that the table keeps.
table-Respects :
    (Keeps : Config → Type 0) (memory : Bool)
    → ((c : Config) (args : List Bytes) (line : ℕ)
        → Keeps c
        → Keeps (apply_class_path memory c args line).config)
    → Respects Keeps (directives_of memory)
table-Respects Keeps memory good d name handler c args line e f k =
    rw (table-handler memory d name handler e f) (good c args line k)

apply-once :
    (memory : Bool) (old c : Config) (args : List Bytes) (line : ℕ)
    → old.class_path_configured ≡ true
    → c ≡ old
    → (apply_class_path memory c args line).config ≡ old
unfolding apply_class_path set_class_path
apply-once memory old c [] line h e = e
apply-once memory old c (value ∷ []) line h e = ground arith
apply-once memory old c (value ∷ more ∷ args) line h e = e

-- Once a class path is configured no file changes it: loading any file ends with the configuration
-- that there was, whatever comes of it.
pub load_file-once :
    (memory error : Bool) (c : Config) (file : Option Bytes)
    → c.class_path_configured ≡ true
    → (d : Done) × (load_file error (directives_of memory) c file ≡ loaded d) × (d.config ≡ c)
load_file-once memory error c file h =
    load_file-Answers (λ d. d ≡ c) (directives_of memory)
      (table-Respects (λ d. d ≡ c) memory (λ d args line e. apply-once memory c d args line h e))
      error c file refl

-- The configuration has a class path that is not empty.
abbrev pub HasPath : Config → Type 0
HasPath c = (x : ℕ) × (path : Bytes) × (c.class_path ≡ some (x ∷ path))

apply-HasPath :
    (memory : Bool) (c : Config) (args : List Bytes) (line : ℕ)
    → HasPath c
    → HasPath (apply_class_path memory c args line).config
unfolding apply_class_path set_class_path
apply-HasPath memory c [] line h = h
apply-HasPath memory c (value ∷ more ∷ args) line h = h
apply-HasPath memory c ([] ∷ []) line h = h
apply-HasPath memory c ((x ∷ path) ∷ []) line h =
    elim (Bool-cases ((length (x ∷ path) == 0) || c.class_path_configured || not memory)) [
      | inl e ↦ let (y, q, k) = h in (y, q, ground (arith, k))
      | inr e ↦ (x, path, ground arith)
    ]

-- The ends of the start that it can come to, with these options.
pub data IsEnd (o : Options) : Start → Type 0 where
  refuses : {ok : Bool} → IsEnd o (usage ok)
  lacks_memory : IsEnd o no_memory
  rejects : {f : Failure} → IsEnd o (config_error f)
  dumps :
      (x : ℕ) (path : Bytes)
      → o.dump_config ≡ true
      → IsEnd o (dumped (dump_head ++ (x ∷ path) ++ dump_tail))
  tests : o.test_only ≡ true → IsEnd o config_ok
  goes_on : {c : Config} → HasPath c → o.test_only ≡ false → IsEnd o (serves c)

after_config-IsEnd : (o : Options) (c : Config) → HasPath c → IsEnd o (after_config o c)
unfolding dump
after_config-IsEnd o c (x, path, h) = elim (Bool-cases o.dump_config) [
  | inl d ↦ rw (d, h) (dumps x path refl)
  | inr d ↦ elim (Bool-cases o.test_only) [
    | inl t ↦ rw (d, t) (tests refl)
    | inr t ↦ rw (d, t) (goes_on (x, path, h) refl)
  ]
]

after_load-IsEnd : (o : Options) (l : Loaded) → Answers HasPath [] l → IsEnd o (after_load o l)
after_load-IsEnd o l (d, e, h) = elim (Option-cases d.failure) [
  | inl n ↦ rw (e, n) (after_config-IsEnd o d.config h)
  | inr (f, n) ↦ rw (e, n) (rejects {f = f})
]

after_options-IsEnd :
    (first memory error : Bool) (files : Bytes → Option Bytes) (zeros : Config) (o : Options)
    (p : Parsed)
    → IsEnd o (after_options first memory error files zeros (o, p))
unfolding init
after_options-IsEnd first memory error files zeros o help = refuses
after_options-IsEnd first memory error files zeros o wrong = refuses
after_options-IsEnd true memory error files zeros o proceed = after_load-IsEnd o _ (
    load_file-Answers HasPath (directives_of memory)
      (table-Respects HasPath memory (apply-HasPath memory)) error
      (record { class_path = some default_class_path; class_path_configured = false })
      (files o.config_path) (_, _, refl))
after_options-IsEnd false memory error files zeros o proceed = lacks_memory

-- Whatever the arguments, the files and the answers of `malloc`, the start comes to one of these
-- ends: it prints its usage, or fails for want of memory or over the configuration; with `-T` it
-- prints a class path that is not empty, with `-t` it says that the file is good; and it goes on to
-- the server only without both, with a class path that is not empty.
pub start-IsEnd :
    (first memory error : Bool) (files : Bytes → Option Bytes) (argv : List Bytes)
    → IsEnd (parse_options default_options argv).0 (start first memory error files argv)
unfolding start
start-IsEnd first memory error files argv =
    let (o, p) = parse_options default_options argv in
    after_options-IsEnd first memory error files
      (record { class_path = none; class_path_configured = false }) o p
