-- ===== src/Registry/Pins/Counted.antt =====
-- The three ways in which the table changes: an entry without users is written over, or keeps what
-- its users rely on; an entry gets a user; an entry loses one.
use ckarta.Prelude.{
  ℕ, ◌+◌, ◌-◌, ◌≡◌, ◌≢◌, refl, sym, ap, ◌∙◌, ◌⊎◌, inl, inr, true, false, List, [], ◌∷◌, some, ◌==◌,
  arith, Bool-cases,
}
use ckarta.Connection.{state}
use ckarta.Connection.Word.{closed}
use ckarta.Registry.{Registry, Entry, put_entry}
use ckarta.Registry.Entries.{put_here, put_elsewhere}
use ckarta.Registry.Operations.{Pin}
use ckarta.Registry.Pins.{
  Side, count, Each, IsLive, IsSound, Removes, count-here, count-elsewhere, count_more,
  count-Removes, Each-Removes,
}

-- The new entry keeps what a pin on the old one relies on.
pub record IsKept (s : Side) (e f : Entry) : Type 0 where
  pub active_kept : f.active ≡ e.active
  pub generation_kept : f.generation ≡ e.generation
  pub object_kept : s.object_of f ≡ s.object_of e
  pub not_closed : state e.connection ≢ closed → state f.connection ≢ closed

-- What happens to an entry in an operation that neither makes nor ends a pin.
abbrev pub IsCalm : Side → Entry → Entry → Type 0
IsCalm s e f = (IsKept s e f × (s.users f ≡ s.users e)) ⊎ ((s.users e ≡ 0) × (s.users f ≡ 0))

pub IsKept-refl : (s : Side) (e : Entry) → IsKept s e e
IsKept-refl s e = record {
  active_kept = refl;
  generation_kept = refl;
  object_kept = refl;
  not_closed = λ h. h;
}

-- A pin survives where its entry is kept.
IsLive-kept :
    (s : Side) (r t : Registry) (p : Pin)
    → (v : IsLive s r p) → IsKept s (r.entries v.index) (t.entries v.index)
    → IsLive s t p
IsLive-kept s r t p v k = record {
  index = v.index;
  generation = v.generation;
  object = v.object;
  handle_is = v.handle_is;
  connection_is = v.connection_is;
  object_is = v.object_is;
  is_active = k.active_kept ∙ v.is_active;
  generation_is = k.generation_kept ∙ v.generation_is;
  object_kept = k.object_kept ∙ v.object_kept;
}

pub Each-IsLive_kept :
    (s : Side) (r t : Registry) (pins : List Pin)
    → Each (IsLive s r) pins
    → ((i : ℕ) → count i pins ≢ 0 → IsKept s (r.entries i) (t.entries i))
    → Each (IsLive s t) pins
Each-IsLive_kept s r t [] v k = v
Each-IsLive_kept s r t (p ∷ pins) (v, vs) k =
    let n = count-here v.index p pins v.connection_is in
    (
      IsLive-kept s r t p v (k v.index (λ e. omega (arith, n, e))),
      Each-IsLive_kept s r t pins vs (λ i h. k i (λ e. h (omega (arith, e, count_more i p pins)))),
    )

calm-IsKept : (s : Side) (e f : Entry) (n : ℕ) → n ≡ s.users e → n ≢ 0 → IsCalm s e f → IsKept s e f
calm-IsKept s e f n c h (inl (k, u)) = k
calm-IsKept s e f n c h (inr (z, w)) = absurd (h (c ∙ z))

calm_counted : (s : Side) (e f : Entry) (n : ℕ) → n ≡ s.users e → IsCalm s e f → n ≡ s.users f
calm_counted s e f n c (inl (k, u)) = c ∙ sym u
calm_counted s e f n c (inr (z, w)) = c ∙ z ∙ sym w

calm_idle :
    (s : Side) (e f : Entry)
    → (e.active ≡ false → s.users e ≡ 0)
    → IsCalm s e f
    → f.active ≡ false
    → s.users f ≡ 0
calm_idle s e f v (inl (k, u)) h = u ∙ v (sym k.active_kept ∙ h)
calm_idle s e f v (inr (z, w)) h = w

calm_not_closed :
    (s : Side) (e f : Entry)
    → (s.users e ≢ 0 → state e.connection ≢ closed)
    → IsCalm s e f
    → s.users f ≢ 0
    → state f.connection ≢ closed
calm_not_closed s e f v (inl (k, u)) h = k.not_closed (v (λ x. h (u ∙ x)))
calm_not_closed s e f v (inr (z, w)) h = absurd (h w)

pub calm-IsSound :
    (s : Side) (r t : Registry) (pins : List Pin)
    → ((i : ℕ) → IsCalm s (r.entries i) (t.entries i))
    → IsSound s r pins
    → IsSound s t pins
calm-IsSound s r t pins c v = record {
  counted = λ i. calm_counted s (r.entries i) (t.entries i) (count i pins) (v.counted i) (c i);
  live =
      Each-IsLive_kept s r t pins v.live
        (λ i h. calm-IsKept s (r.entries i) (t.entries i) (count i pins) (v.counted i) h (c i));
  idle = λ i. calm_idle s (r.entries i) (t.entries i) (v.idle i) (c i);
  not_closed = λ i. calm_not_closed s (r.entries i) (t.entries i) (v.not_closed i) (c i);
}

put_cases :
    (P : ℕ → Entry → Type 0) (r : Registry) (at : ℕ) (f : Entry)
    → P at f
    → ((i : ℕ) → i ≢ at → P i (r.entries i))
    → (i : ℕ) → P i ((put_entry r at f).entries i)
unfolding put_entry
put_cases P r at f p q i = elim (Bool-cases (i == at)) [
  | inl e ↦ let same : i ≡ at = ground arith in rw (same, put_here r.entries at f) p
  | inr e ↦
      let other : i ≢ at = ground arith in rw (put_elsewhere r.entries at f i other) (q i other)
]

-- One entry changes.
pub put_entry-IsSound :
    (s : Side) (r : Registry) (pins : List Pin) (at : ℕ) (f : Entry)
    → IsCalm s (r.entries at) f
    → IsSound s r pins
    → IsSound s (put_entry r at f) pins
put_entry-IsSound s r pins at f c v =
    calm-IsSound s r (put_entry r at f) pins
      (put_cases (λ i e. IsCalm s (r.entries i) e) r at f c
        (λ i n. inl (IsKept-refl s (r.entries i), refl)))
      v

-- A pin more, on an entry that is active and not closed.
pub taken-IsSound :
    (s : Side) (r : Registry) (pins : List Pin) (p : Pin) (at : ℕ) (f : Entry)
    → IsKept s (r.entries at) f
    → s.users f ≡ s.users (r.entries at) + 1
    → state f.connection ≢ closed
    → p.connection ≡ some at
    → IsLive s (put_entry r at f) p
    → f.active ≡ true
    → IsSound s r pins
    → IsSound s (put_entry r at f) (p ∷ pins)
taken-IsSound s r pins p at f k more o c l a v = record {
  counted =
      put_cases (λ i e. count i (p ∷ pins) ≡ s.users e) r at f
        (count-here at p pins c ∙ ap (λ n. n + 1) (v.counted at) ∙ sym more)
        (λ i n. count-elsewhere i at p pins c n ∙ v.counted i);
  live = (
    l,
    Each-IsLive_kept s r (put_entry r at f) pins v.live (λ i h.
        put_cases (λ j e. IsKept s (r.entries j) e) r at f k (λ j n. IsKept-refl s (r.entries j))
          i),
  );
  idle =
      put_cases (λ i e. e.active ≡ false → s.users e ≡ 0) r at f (λ h. ground (arith, a, h))
        (λ i n. v.idle i);
  not_closed =
      put_cases (λ i e. s.users e ≢ 0 → state e.connection ≢ closed) r at f (λ h. o)
        (λ i n. v.not_closed i);
}

-- A pin less.
pub given-IsSound :
    (s : Side) (r : Registry) (p : Pin) {pins rest : List Pin} (at : ℕ) (f : Entry)
    → Removes p pins rest
    → IsKept s (r.entries at) f
    → s.users f ≡ s.users (r.entries at) - 1
    → p.connection ≡ some at
    → IsSound s r pins
    → IsSound s (put_entry r at f) rest
given-IsSound s r p {pins} {rest} at f h k less c v = record {
  counted =
      put_cases (λ i e. count i rest ≡ s.users e) r at f
        (omega (arith, less, v.counted at, count-Removes at p h, count-here at p rest c))
        (λ i n. sym (count-elsewhere i at p rest c n) ∙ sym (count-Removes i p h) ∙ v.counted i);
  live =
      Each-IsLive_kept s r (put_entry r at f) rest (Each-Removes (IsLive s r) p h v.live).1 (λ i h.
        put_cases (λ j e. IsKept s (r.entries j) e) r at f k (λ j n. IsKept-refl s (r.entries j))
          i);
  idle =
      put_cases (λ i e. e.active ≡ false → s.users e ≡ 0) r at f
        (λ a. omega (arith, less, v.idle at (sym k.active_kept ∙ a))) (λ i n. v.idle i);
  not_closed =
      put_cases (λ i e. s.users e ≢ 0 → state e.connection ≢ closed) r at f
        (λ u. k.not_closed (v.not_closed at (λ z. u (omega (arith, less, z)))))
        (λ i n. v.not_closed i);
}
