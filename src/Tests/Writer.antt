-- ===== src/Tests/Writer.antt =====
-- A writer whose socket takes one byte at a time.
use ckarta.Prelude.{ℕ, [], some, ltb, if◌then◌else◌, arith}
use ckarta.Http.Bytes.{codes}
use ckarta.Output.Writer.{Writer, Answer, sent, nothing, drive}
use ckarta.Output.Writer.Pending.{IsValid, IsSend, DrivenIsFaithful, drive-DrivenIsFaithful}

abbrev one_byte : ℕ → ℕ → Answer
one_byte i offered = if ltb 0 offered then sent 1 else nothing

one_byte-IsSend : IsSend one_byte
one_byte-IsSend = λ i offered n e. ground arith

abbrev half_sent : Writer
half_sent = record { socket_fd = some 5; bytes = codes "HTTP/1.1 200"; begin = 5 }

half_sent-IsValid : IsValid half_sent
half_sent-IsValid = ground arith

drive-DrivenIsFaithful_example : DrivenIsFaithful half_sent [] (drive one_byte 20 half_sent)
drive-DrivenIsFaithful_example =
    drive-DrivenIsFaithful one_byte 20 half_sent one_byte-IsSend half_sent-IsValid
