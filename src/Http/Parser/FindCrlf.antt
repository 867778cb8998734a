-- ===== src/Http/Parser/FindCrlf.antt =====
-- What `find_crlf` finds.
use ckarta.Prelude.{
  ◌+◌, ◌≡◌, ap, [], ◌∷◌, ◌++◌, Bytes, some, length, length-append, arith, Option-cases, inl, inr,
}
use ckarta.Http.Parser.{find_crlf}

-- The line and the rest are what stands before and behind a CR LF of the input.
pub find_crlf-split :
    (s line after : Bytes) → find_crlf s ≡ some (line, after) → s ≡ line ++ (b'\r' ∷ b'\n' ∷ after)
unfolding find_crlf
find_crlf-split [] line after h = cc
find_crlf-split (a ∷ []) line after h = cc
find_crlf-split (a ∷ b ∷ rest) line after h = elim (Option-cases (find_crlf (b ∷ rest))) [
  | inl e ↦ ground arith
  | inr ((l, r), e) ↦ ground (arith, find_crlf-split (b ∷ rest) l r e)
]

pub find_crlf-length :
    (s line after : Bytes)
    → find_crlf s ≡ some (line, after)
    → length s ≡ length line + 2 + length after
find_crlf-length s line after h =
    omega (
      arith,
      ap length (find_crlf-split s line after h),
      length-append line (b'\r' ∷ b'\n' ∷ after),
    )
