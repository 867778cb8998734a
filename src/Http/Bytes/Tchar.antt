-- ===== src/Http/Bytes/Tchar.antt =====
-- The byte class of `is_tchar` in c/http/ck_http_parser.c and c/http/ck_http_chunked.c.
use ckarta.Prelude.{ℕ, ◌≡◌, Bool, ◌&&◌, ◌||◌, leb, ◌==◌, arith}
use ckarta.Http.Bytes.{is_tchar}

-- The token bytes of HTTP, as ranges of codes.
abbrev pub in_token_ranges : ℕ → Bool
in_token_ranges c =
    c == 0x21
    || leb 0x23 c && leb c 0x27
    || c == 0x2a
    || c == 0x2b
    || c == 0x2d
    || c == 0x2e
    || leb 0x30 c && leb c 0x39
    || leb 0x41 c && leb c 0x5a
    || leb 0x5e c && leb c 0x7a
    || c == 0x7c
    || c == 0x7e

-- `is_tchar` accepts the token bytes of HTTP and, since `strchr` also finds the NUL that ends its
-- string, the byte 0; it accepts no other byte.
pub is_tchar-ranges : (c : ℕ) → is_tchar c ≡ (in_token_ranges c || c == 0)
unfolding is_tchar
is_tchar-ranges c = ground arith
