-- ===== src/Output/Writer/Pending.antt =====
-- The bytes that wait in the output buffer.
use ckarta.Prelude.{
  ℕ, zero, suc, ◌+◌, ◌-◌, ◌≤◌, ◌<◌, ◌≡◌, ◌≢◌, refl, sym, ap, ◌∙◌, true, false, [], ◌∷◌, ◌++◌, Bytes,
  some, append_assoc, length, take, drop, drop_beyond, take-append-drop, arith, Bool-cases, inl,
  inr,
}
use mathlib.Core.Path.{subst}
use ckarta.Output.Writer.{
  Writer, Answer, sent, nothing, interrupted, not_now, broken, failed, Driven, drive, drive_from,
  settle, behind_send, attempt_length, has_work, buffer_bytes, budget_bytes, drained,
}

abbrev pub pending : Writer → Bytes
pending w = drop w.begin w.bytes

pub record IsValid (w : Writer) : Type 0 where
  pub begin_inside : w.begin ≤ length w.bytes
  pub bytes_fit : length w.bytes ≤ buffer_bytes

-- `send` takes one byte at least of those offered, and no more.
abbrev pub IsSend : (ℕ → ℕ → Answer) → Type 0
IsSend send = (i offered n : ℕ) → send i offered ≡ sent n → (0 < n) × (n ≤ offered)

drop-drop : (n m : ℕ) (xs : Bytes) → drop n (drop m xs) ≡ drop (m + n) xs
drop-drop n zero xs = let e : 0 + n ≡ n = omega arith in rw e refl
drop-drop zero (suc m) [] = let e : suc m + 0 ≡ suc m = omega arith in rw e refl
drop-drop (suc n) (suc m) [] = let e : suc m + suc n ≡ suc (m + suc n) = omega arith in rw e refl
drop-drop n (suc m) (x ∷ xs) =
    let e : suc m + n ≡ suc (m + n) = omega arith in rw e (drop-drop n m xs)

-- What `drive` may do: nothing is lost, sent twice or out of order.
pub record DrivenIsFaithful (w : Writer) (sent_before : Bytes) (d : Driven) : Type 0 where
  pub valid : IsValid d.writer
  pub order : d.output ++ pending d.writer ≡ sent_before ++ pending w
  pub empty : d.result ≡ some drained → pending d.writer ≡ []

settle-DrivenIsFaithful :
    (w : Writer) (output : Bytes) → IsValid w → DrivenIsFaithful w output (settle w output)
unfolding settle
settle-DrivenIsFaithful w output v = ground (arith, drop_beyond w.begin w.bytes)

sent_on :
    (w : Writer) (n : ℕ) (output : Bytes)
    → (output ++ take n (pending w)) ++ pending (record w { begin = w.begin + n })
      ≡ output ++ pending w
sent_on w n output =
    append_assoc output (take n (pending w)) (drop (w.begin + n) w.bytes)
    ∙ ap (λ xs. output ++ (take n (pending w) ++ xs)) (sym (drop-drop n w.begin w.bytes))
    ∙ ap (◌++◌ output) (take-append-drop n (pending w))

stop-DrivenIsFaithful :
    (w : Writer) (output : Bytes) (d : Driven)
    → IsValid w
    → d.result ≢ some drained
    → d.writer ≡ w
    → d.output ≡ output
    → DrivenIsFaithful w output d
stop-DrivenIsFaithful w output d v n e o = ground arith

behind_send-DrivenIsFaithful :
    (a : Answer) (w : Writer) (output : Bytes) (go_on again : ℕ → Driven)
    → IsValid w
    → ((n : ℕ) → a ≡ sent n → DrivenIsFaithful w output (go_on n))
    → ((n : ℕ) → DrivenIsFaithful w output (again n))
    → DrivenIsFaithful w output (behind_send a w output go_on again)
unfolding behind_send
behind_send-DrivenIsFaithful (sent n) w output go_on again v h k = h n refl
behind_send-DrivenIsFaithful nothing w output go_on again v h k = ground arith
behind_send-DrivenIsFaithful interrupted w output go_on again v h k = k 0
behind_send-DrivenIsFaithful not_now w output go_on again v h k = ground arith
behind_send-DrivenIsFaithful broken w output go_on again v h k = ground arith
behind_send-DrivenIsFaithful failed w output go_on again v h k = ground arith

after_sent :
    (w : Writer) (n : ℕ) (output : Bytes) (d : Driven)
    → DrivenIsFaithful (record w { begin = w.begin + n }) (output ++ take n (pending w)) d
    → DrivenIsFaithful w output d
after_sent w n output d f = record {
  valid = f.valid;
  order = f.order ∙ sent_on w n output;
  empty = f.empty;
}

drive_from_works :
    (send : ℕ → ℕ → Answer) (fuel budget : ℕ) (w : Writer) (output : Bytes)
    → has_work w budget ≡ true
    → drive_from send (suc fuel) budget w output
      ≡ behind_send
          (send fuel (attempt_length w budget))
          w
          output
          (λ n.
            drive_from send fuel
              (budget - n)
              (record w { begin = w.begin + n })
              (output ++ take n (pending w)))
          (λ n. drive_from send fuel budget w output)
unfolding drive_from
drive_from_works send fuel budget w output h = ground (arith, h)

drive_from_settles :
    (send : ℕ → ℕ → Answer) (fuel budget : ℕ) (w : Writer) (output : Bytes)
    → has_work w budget ≡ false
    → drive_from send (suc fuel) budget w output ≡ settle w output
unfolding drive_from
drive_from_settles send fuel budget w output h = ground (arith, h)

drive_from-DrivenIsFaithful :
    (send : ℕ → ℕ → Answer) (fuel budget : ℕ) (w : Writer) (output : Bytes)
    → IsSend send
    → IsValid w
    → DrivenIsFaithful w output (drive_from send fuel budget w output)
unfolding drive_from
drive_from-DrivenIsFaithful send zero budget w output k v = ground arith
drive_from-DrivenIsFaithful send (suc fuel) budget w output k v =
    elim (Bool-cases (has_work w budget)) [
      | inl h ↦
          subst (DrivenIsFaithful w output) (sym (drive_from_works send fuel budget w output h)) (
            behind_send-DrivenIsFaithful (send fuel (attempt_length w budget)) w output _ _ v
              (λ n e.
                let inside = (k fuel (attempt_length w budget) n e).1 in
                after_sent w n output _ (
                  drive_from-DrivenIsFaithful send fuel (budget - n)
                    (record w { begin = w.begin + n }) (output ++ take n (pending w)) k
                    (ground (arith, inside))))
              (λ n. drive_from-DrivenIsFaithful send fuel budget w output k v))
      | inr h ↦
          subst (DrivenIsFaithful w output) (sym (drive_from_settles send fuel budget w output h))
            (settle-DrivenIsFaithful w output v)
    ]

-- Whatever `send` answers, as long as it takes only bytes that it is offered, and however long the
-- loop has run: the bytes sent followed by those that still wait are the bytes that waited before,
-- the buffer stays valid, and the answer DRAINED means that none waits.
pub drive-DrivenIsFaithful :
    (send : ℕ → ℕ → Answer) (fuel : ℕ) (w : Writer)
    → IsSend send
    → IsValid w
    → DrivenIsFaithful w [] (drive send fuel w)
unfolding drive
drive-DrivenIsFaithful send fuel w k v =
    ground (arith, drive_from-DrivenIsFaithful send fuel budget_bytes w [] k v)
