-- ===== src/Tests/Config.antt =====
-- The configuration: a token in quotes, a line, files and the start of the program.
use ckarta.Prelude.{◌≡◌, refl, true, false, ◌++◌, none, some, arith}
use ckarta.Http.Bytes.{codes}
use ckarta.Config.{Config, dump, dump_head, dump_tail}
use ckarta.Config.Line.{parse_line}
use ckarta.Config.Line.Bounds.{FitsLine, parse_line-FitsLine}
use ckarta.Config.Load.{loaded, load_file}
use ckarta.Config.Load.Startup.{directives_of}
use ckarta.Config.Load.Startup.Dumps.{dump-load_file}

parse_line-FitsLine_example : FitsLine (parse_line (codes "class_path \"a b\" c; # the path\n"))
parse_line-FitsLine_example = parse_line-FitsLine (codes "class_path \"a b\" c; # the path\n")

abbrev fresh : Config
fresh = record { class_path = some (codes "build/classes"); class_path_configured = false }

abbrev set : Config
set = record { class_path = some (codes "lib"); class_path_configured = true }

dump-load_file_example :
    (dump (record { class_path = some (codes "lib"); class_path_configured = true })
      ≡ some (dump_head ++ codes "lib" ++ dump_tail))
    × (load_file false (directives_of true) fresh (some (dump_head ++ codes "lib" ++ dump_tail))
        ≡ loaded (record { config = set; failure = none }))
dump-load_file_example = dump-load_file fresh 108 (codes "ib") true refl refl (omega arith)
