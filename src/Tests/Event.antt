-- ===== src/Tests/Event.antt =====
-- The mask for READ and ERROR, there and back.
use ckarta.Prelude.{ℕ, ◌≡◌, refl, some}
use ckarta.Event.{to_epoll, from_epoll}

abbrev read_error : ℕ
read_error = 9

read_error_mask : to_epoll read_error ≡ some 25
unfolding to_epoll
read_error_mask = refl

read_error_back : from_epoll 25 ≡ read_error
unfolding from_epoll
read_error_back = refl
