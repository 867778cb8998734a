-- ===== src/Jni/Poll/Published.antt =====
-- A record on its way from Java to the request that it is for, and a poll that gets no record.
use ckarta.Prelude.{
  ℕ, false, suc, ◌≡◌, refl, ap, sym, ◌∙◌, true, false, not, ◌&&◌, inl, inr, List, [], ◌∷◌, some,
  ◌==◌, length, arith,
}
use mathlib.Core.Path.{subst}
use ckarta.Status.{Status, minus_three, code, ok}
use ckarta.Error.{ℤ, pos, negsuc}
use ckarta.Request.{Request}
use ckarta.Completion.Queue.{Completion, Queue, System, is_ok, push, capacity}
use ckarta.Completion.Queue.Fifo.{
  IsValid, contents, push-fifo, fifo_push, queue_operations-IsValid, length-contents, pop_unlocked,
}
use ckarta.Completion.Queue.Waiting.{push_wait-Waits, ready}
use ckarta.Jni.Bridge.{
  Values, are_valid, is_positive, is_negative, natural, completion_of, publish_completion,
}
use ckarta.Jni.Poll.{matches, settle, poll_completion}
use ckarta.Jni.Poll.Settled.{Settled, Outcome, poll-Outcome}

abbrev pub all_ok : System
all_ok = record {
  lock = ok;
  unlock = ok;
  signal_not_full = ok;
  broadcast_not_full = ok;
  signal_notification = ok;
}

push-empty :
    (q : Queue) (c : Completion)
    → IsValid q
    → contents q ≡ []
    → q.closed ≡ false
    → ◌≡◌ {A = List Completion × Status}
        (contents (push all_ok q c).0, (push all_ok q c).1)
        (c ∷ [], ok)
unfolding fifo_push
push-empty q c v h k = (push-fifo all_ok q c v).0 ∙ rw (h, k) refl

publish-pushes :
    (q : Queue) (handle : ℤ) (v : Values) (result status : ℤ)
    → contents q ≡ []
    → is_positive handle ≡ true
    → are_valid v ≡ true
    → publish_completion all_ok q [] handle v result status
      ≡ some (push all_ok q (completion_of v result status))
unfolding publish_completion
publish-pushes q handle v result status h p e =
    let none_in : q.count ≡ 0 = sym (length-contents q) ∙ ap length h in
    let room : not q.closed && q.count == capacity ≡ false = ground arith in
    rw (p, e) (push_wait-Waits all_ok (completion_of v result status) refl (ready room))

poll-one :
    (unwritten c : Completion) (q : Queue) (r : Request) (requests : List Request)
    → IsValid q
    → contents q ≡ c ∷ []
    → let (p, left, s) = poll_completion all_ok true unwritten q (r ∷ requests) in
      Outcome c (r ∷ requests) left s
poll-one unwritten c q r requests v h = elim (poll-Outcome all_ok unwritten q r requests v refl) [
  | inl (empty, rest, same, s) ↦ elim (cons_not_nil (sym h ∙ empty)) [ ]
  | inr (d, is_first, o) ↦
      let same : d ≡ c = first_same (sym is_first ∙ h) in
      subst
        (λ x.
          Outcome x (r ∷ requests) (poll_completion all_ok true unwritten q (r ∷ requests)).1
            (poll_completion all_ok true unwritten q (r ∷ requests)).2)
        same o
]
  where
    cons_not_nil : {c : Completion} → c ∷ [] ≡ [] → ⊥
    cons_not_nil e = ground arith

    first_same : {d c : Completion} {rest : List Completion} → d ∷ rest ≡ c ∷ [] → d ≡ c
    first_same e = ground arith

-- The request that the values of a call name: its id and its two tokens are theirs, and the cycle is
-- the first.
pub record IsFor (v : Values) (r : Request) : Type 0 where
  pub same_id : v.request_id ≡ pos r.descriptor.request_id
  pub same_owner : v.owner_token ≡ pos r.descriptor.owner_token
  pub same_lifetime : v.lifetime_token ≡ pos r.descriptor.lifetime_token
  pub first_cycle : v.cycle_id ≡ pos 1

-- The requests before and after, and the answer: the first that the values name is settled by the
-- status of `c`.
pub data Delivered (v : Values) (c : Completion)
    : List Request → List Request → Status → Type 0 where
  nobody : Delivered v c [] [] minus_three
  this :
      {r p : Request} {requests : List Request} {s : Status}
      → IsFor v r
      → Settled c r p s
      → Delivered v c (r ∷ requests) (p ∷ requests) s
  later :
      {r : Request} {requests left : List Request} {s : Status}
      → (IsFor v r → ⊥)
      → Delivered v c requests left s
      → Delivered v c (r ∷ requests) (r ∷ left) s

natural-pos : (z : ℤ) (n : ℕ) → is_negative z ≡ false → (natural z == n) ≡ true → z ≡ pos n
natural-pos (pos m) n h e = ap pos (ground arith)
natural-pos (negsuc m) n h e = cc

positive-is_negative : (z : ℤ) → is_positive z ≡ true → is_negative z ≡ false
positive-is_negative (pos n) h = refl
positive-is_negative (negsuc n) h = cc

matches-IsFor :
    (v : Values) (result status : ℤ) (r : Request)
    → are_valid v ≡ true
    → matches (completion_of v result status) r ≡ true
    → IsFor v r
unfolding are_valid matches
matches-IsFor v result status r h m = record {
  same_id =
      natural-pos v.request_id r.descriptor.request_id
        (positive-is_negative v.request_id (ground arith)) (ground arith);
  same_owner = natural-pos v.owner_token r.descriptor.owner_token (ground arith) (ground arith);
  same_lifetime =
      natural-pos v.lifetime_token r.descriptor.lifetime_token (ground arith) (ground arith);
  first_cycle =
      natural-pos v.cycle_id 1 (positive-is_negative v.cycle_id (ground arith)) (ground arith);
}

IsFor-matches :
    (v : Values) (result status : ℤ) (r : Request)
    → IsFor v r
    → matches (completion_of v result status) r ≡ true
unfolding matches
IsFor-matches v result status r f =
    rw (f.same_id, f.same_owner, f.same_lifetime, f.first_cycle) (ground arith)

Outcome-Delivered :
    (v : Values) (result status : ℤ) {requests left : List Request} {s : Status}
    → are_valid v ≡ true
    → Outcome (completion_of v result status) requests left s
    → Delivered v (completion_of v result status) requests left s
Outcome-Delivered v result status h Outcome.nobody = nobody
Outcome-Delivered v result status h (Outcome.this {r} m settled) =
    this (matches-IsFor v result status r h m) settled
Outcome-Delivered v result status h (Outcome.later {r} m rest) =
    later (λ f. not_both (sym m ∙ IsFor-matches v result status r f))
      (Outcome-Delivered v result status h rest)
  where
    not_both : false ≡ true → ⊥
    not_both e = cc

-- A record that Java publishes to an empty open queue, with the calls of the system succeeding, is
-- accepted without waiting and answered with 0. With the next poll its result and its status arrive:
-- they settle the first request whose id and tokens are those that Java gave, in the first cycle, and
-- no other request.
pub publish-poll :
    (unwritten : Completion) (q : Queue) (r : Request) (requests : List Request) (handle : ℤ)
    (v : Values) (result status : ℤ)
    → IsValid q
    → contents q ≡ []
    → q.closed ≡ false
    → is_positive handle ≡ true
    → are_valid v ≡ true
    → (p : Queue) × (publish_completion all_ok q [] handle v result status ≡ some (p, ok))
      × (c : Completion) × (contents p ≡ c ∷ [])
      × (c.result ≡ result)
      × (c.status ≡ status)
      × Delivered v c
          (r ∷ requests)
          (poll_completion all_ok true unwritten p (r ∷ requests)).1
          (poll_completion all_ok true unwritten p (r ∷ requests)).2
publish-poll unwritten q r requests handle v result status valid h k e w =
    let c = completion_of v result status in
    let (p, s) = push all_ok q c in
    let pushed = push-empty q c valid h k in
    (
      p,
      publish-pushes q handle v result status h e w ∙ ap (λ t. some (p, t)) (ap (λ x. x.1) pushed),
      c,
      ap (λ x. x.0) pushed,
      refl,
      refl,
      Outcome-Delivered v result status w (
          poll-one unwritten c p r requests (queue_operations-IsValid all_ok q c valid).1
            (ap (λ x. x.0) pushed)),
    )

-- Where the lock of the queue is not got, a poll leaves the queue alone, and settles a request with
-- whatever the variable for the record held.
pub poll-unwritten :
    (sys : System) (unwritten : Completion) (q : Queue) (r : Request) (requests : List Request)
    (n : ℕ)
    → sys.lock ≡ code (suc n)
    → poll_completion sys true unwritten q (r ∷ requests)
      ≡ (q, (settle unwritten (r ∷ requests)).0, (settle unwritten (r ∷ requests)).1)
unfolding poll_completion settle
poll-unwritten sys unwritten q r requests n h =
    let refused : is_ok sys.lock ≡ false = ground arith in
    rw (pop_unlocked sys q refused, h) (ground arith)
