-- ===== src/Descriptors.antt =====
-- The descriptors that are open, the newest first, and what `close` makes of them: on Linux it frees
-- the descriptor whatever it answers.
use ckarta.Prelude.{ℕ, ◌≡◌, List, [], ◌∷◌, ◌==◌, if◌then◌else◌, arith}

pub release : ℕ → List ℕ → List ℕ
release fd [] = []
release fd (x ∷ fds) = let rest = release fd fds in if x == fd then fds else x ∷ rest

pub release_newest : (fd : ℕ) (fds : List ℕ) → release fd (fd ∷ fds) ≡ fds
unfolding release
release_newest fd fds = ground arith
