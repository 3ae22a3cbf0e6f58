-- ===== src/Events/Bus/Refine.antt =====
-- internal/events/bus.go: the ring of a bus is the list of the last published events.
use llm_broker.Prelude.{
  ℕ, zero, suc, ◌+◌, ◌-◌, ◌%◌, ◌≤◌, ◌<◌, ◌≡◌, refl, sym, ap, ◌∙◌, List, [], ◌∷◌, ◌++◌, length,
  length-append, ltb, lt→ltb, nat_beq, arith, Bool-cases, inl, inr,
}
use mathlib.Core.List.{append-nil, append_assoc}
use llm_broker.Prelude.Int.{ℤ, pos, negsuc}
use llm_broker.Prelude.Arrays.{
  set, drop, take_last, take_last_all, length-set, length-replicate, drop-append, take_last-append,
}
use llm_broker.Events.{Event}
use llm_broker.Events.Bus.{
  Bus, size_or_default, new_bus, stamp, publish, copy_from, recent_locked, recent,
}
use llm_broker.Events.Bus.Ring.{mod_wrap, length-copy, copy-shift, copy-write}

pub record IsValid (b : Bus) : Type 0 where
  pub sized : b.ring_size ≡ length b.ring
  pub pos_below : b.ring_pos < b.ring_size
  pub count_bound : b.ring_count ≤ b.ring_size

pub new-IsValid : (fill : Event) (n : ℤ) → IsValid (new_bus fill n)
unfolding new_bus
new-IsValid fill n = record {
  sized = sym (length-replicate (size_or_default n) fill);
  pos_below = size_pos n;
  count_bound = omega arith;
}
  where
    size_pos : (m : ℤ) → 0 < size_or_default m
    size_pos (pos zero) = omega arith
    size_pos (pos (suc m)) = omega arith
    size_pos (negsuc m) = omega arith

pub publish-IsValid : (now : ℕ) (ev : Event) (b : Bus) → IsValid b → IsValid (publish now ev b)
unfolding publish
publish-IsValid now ev b v = record {
  sized = v.sized ∙ sym (length-set b.ring b.ring_pos (stamp now ev));
  pos_below = ground (arith, v.pos_below, mod_wrap (b.ring_pos + 1) b.ring_size);
  count_bound = ground (arith, v.count_bound);
}

-- `recentLocked` with no test of its own.
abbrev start_of : Bus → ℕ
start_of b = (b.ring_pos + b.ring_size - b.ring_count) % b.ring_size

recent_locked-copy :
    (fill : Event) (b : Bus)
    → recent_locked fill b ≡ copy_from fill b.ring b.ring_size (start_of b) 0 b.ring_count
unfolding recent_locked copy_from
recent_locked-copy fill b = elim (Bool-cases (nat_beq b.ring_count 0)) [
  | inl t ↦
      let none_left : b.ring_count ≡ 0 = ground arith in
      rw t (sym (ap (copy_from fill b.ring b.ring_size (start_of b) 0) none_left))
  | inr t ↦ rw t refl
]

pub length-recent_locked : (fill : Event) (b : Bus) → length (recent_locked fill b) ≡ b.ring_count
length-recent_locked fill b =
    ap length (recent_locked-copy fill b)
    ∙ length-copy fill b.ring b.ring_size (start_of b) 0 b.ring_count

module _ (fill : Event) (now : ℕ) (ev : Event) (b : Bus) (v : IsValid b) where
  abbrev new : Event
  new = stamp now ev

  abbrev written : List Event
  written = set b.ring b.ring_pos new

  -- With room left the new event is appended.
  publish_room :
      b.ring_count < b.ring_size
      → recent_locked fill (publish now ev b) ≡ recent_locked fill b ++ (new ∷ [])
  unfolding publish
  publish_room h =
      recent_locked-copy fill (publish now ev b)
      ∙ ap (λ s. copy_from fill written b.ring_size s 0 (publish now ev b).ring_count) same_start
      ∙ ap (copy_from fill written b.ring_size (start_of b) 0) {x = (publish now ev b).ring_count}
          {y = suc b.ring_count} (ground arith)
      ∙ copy-write fill b.ring b.ring_size (start_of b) b.ring_count b.ring_pos new v.sized
          start_below h place
      ∙ ap (λ xs. xs ++ (new ∷ [])) (sym (recent_locked-copy fill b))
    where
      same_start : start_of (publish now ev b) ≡ start_of b
      same_start = ground (
        arith,
        v.pos_below,
        h,
        mod_wrap (b.ring_pos + 1) b.ring_size,
        mod_wrap ((b.ring_pos + 1) % b.ring_size + b.ring_size - (b.ring_count + 1)) b.ring_size,
        mod_wrap (b.ring_pos + b.ring_size - b.ring_count) b.ring_size,
      )

      start_below : start_of b < b.ring_size
      start_below =
          ground
            (arith, v.pos_below, mod_wrap (b.ring_pos + b.ring_size - b.ring_count) b.ring_size)

      place : b.ring_pos ≡ (start_of b + b.ring_count) % b.ring_size
      place = ground (
        arith,
        v.pos_below,
        h,
        mod_wrap (b.ring_pos + b.ring_size - b.ring_count) b.ring_size,
        mod_wrap (start_of b + b.ring_count) b.ring_size,
      )

  abbrev round : ℕ
  round = (b.ring_pos + 1) % b.ring_size

  -- In a full ring the oldest event is overwritten.
  publish_full :
      (m : ℕ)
      → b.ring_size ≡ suc m
      → b.ring_count ≡ b.ring_size
      → recent_locked fill (publish now ev b) ≡ drop 1 (recent_locked fill b) ++ (new ∷ [])
  unfolding publish copy_from
  publish_full m e h =
      recent_locked-copy fill (publish now ev b)
      ∙ ap (λ s. copy_from fill written b.ring_size s 0 (publish now ev b).ring_count) new_start
      ∙ ap (copy_from fill written b.ring_size round 0) {x = (publish now ev b).ring_count}
          {y = suc m} (ground (arith, e, h))
      ∙ copy-write fill b.ring b.ring_size round m b.ring_pos new v.sized round_below
          (omega (arith, e)) place
      ∙ ap (λ xs. xs ++ (new ∷ [])) (sym older)
    where
      new_start : start_of (publish now ev b) ≡ round
      new_start = ground (
        arith,
        v.pos_below,
        h,
        mod_wrap (b.ring_pos + 1) b.ring_size,
        mod_wrap (round + b.ring_size - b.ring_size) b.ring_size,
      )

      round_below : round < b.ring_size
      round_below = ground (arith, v.pos_below, mod_wrap (b.ring_pos + 1) b.ring_size)

      place : b.ring_pos ≡ (round + m) % b.ring_size
      place = ground (
        arith,
        v.pos_below,
        e,
        mod_wrap (b.ring_pos + 1) b.ring_size,
        mod_wrap (round + m) b.ring_size,
      )

      old_start : start_of b ≡ b.ring_pos
      old_start =
          ground
            (arith, v.pos_below, h, mod_wrap (b.ring_pos + b.ring_size - b.ring_size) b.ring_size)

      older : drop 1 (recent_locked fill b) ≡ copy_from fill b.ring b.ring_size round 0 m
      older =
          ap (drop 1) (
            recent_locked-copy fill b
            ∙ ap (λ s. copy_from fill b.ring b.ring_size s 0 b.ring_count) old_start
            ∙ ap (copy_from fill b.ring b.ring_size b.ring_pos 0) (h ∙ e))
          ∙ copy-shift fill b.ring b.ring_size b.ring_pos 0 m v.pos_below (omega (arith, e))

  -- A publication leaves the last `ring_size` of the events so far and the new one.
  publish_last :
      recent_locked fill (publish now ev b)
      ≡ take_last b.ring_size (recent_locked fill b ++ (new ∷ []))
  publish_last = elim (Bool-cases (ltb b.ring_count b.ring_size)) [
    | inl t ↦
        publish_room (ground arith)
        ∙ sym (
            take_last_all b.ring_size (recent_locked fill b ++ (new ∷ [])) (
              ground (
                arith,
                length-append (recent_locked fill b) (new ∷ []),
                length-recent_locked fill b,
              )))
    | inr t ↦
        publish_full (b.ring_size - 1) (ground (arith, v.pos_below)) (ground (arith, v.count_bound))
        ∙ sym (
            drop-append 1 (recent_locked fill b) (new ∷ [])
              (ground (arith, v.pos_below, length-recent_locked fill b)))
        ∙ ap (λ k. drop k (recent_locked fill b ++ (new ∷ []))) {x = 1}
            {y = length (recent_locked fill b ++ (new ∷ [])) - b.ring_size}
            (ground (
              arith,
              v.count_bound,
              length-append (recent_locked fill b) (new ∷ []),
              length-recent_locked fill b,
            ))
  ]

unfoldable pub publish_all : List (ℕ × Event) → Bus → Bus
publish_all [] b = b
publish_all ((now, ev) ∷ evs) b = publish_all evs (publish now ev b)

abbrev pub stamped : List (ℕ × Event) → List Event
stamped [] = []
stamped ((now, ev) ∷ evs) = stamp now ev ∷ stamped evs

publish_all-size : (evs : List (ℕ × Event)) (b : Bus) → (publish_all evs b).ring_size ≡ b.ring_size
unfolding publish_all publish
publish_all-size [] b = refl
publish_all-size ((now, ev) ∷ evs) b = publish_all-size evs (publish now ev b)

publish_all-last :
    (fill : Event) (evs : List (ℕ × Event)) (b : Bus) (before : List Event)
    → IsValid b
    → recent_locked fill b ≡ take_last b.ring_size before
    → recent_locked fill (publish_all evs b) ≡ take_last b.ring_size (before ++ stamped evs)
unfolding publish_all publish
publish_all-last fill [] b before v q = q ∙ ap (take_last b.ring_size) (sym (append-nil before))
publish_all-last fill ((now, ev) ∷ evs) b before v q =
    publish_all-last fill evs (publish now ev b) (before ++ (stamp now ev ∷ []))
      (publish-IsValid now ev b v) step
    ∙ ap (take_last b.ring_size) (append_assoc before (stamp now ev ∷ []) (stamped evs))
  where
    step :
        recent_locked fill (publish now ev b)
        ≡ take_last b.ring_size (before ++ (stamp now ev ∷ []))
    step =
        publish_last fill now ev b v
        ∙ ap (λ xs. take_last b.ring_size (xs ++ (stamp now ev ∷ []))) q
        ∙ take_last-append b.ring_size before (stamp now ev) (omega (arith, v.pos_below))

recent-last :
    (fill : Event) (limit : ℕ) (b : Bus)
    → 0 < limit
    → recent fill (pos limit) b ≡ take_last limit (recent_locked fill b)
unfolding recent
recent-last fill limit b h = elim (Bool-cases (ltb limit (length (recent_locked fill b)))) [
  | inl t ↦ rw (lt→ltb 0 limit h, t) refl
  | inr t ↦
      rw (lt→ltb 0 limit h, t) (sym (take_last_all limit (recent_locked fill b) (ground arith)))
]

fresh :
    (fill : Event) (n : ℤ) → recent_locked fill (new_bus fill n) ≡ take_last (size_or_default n) []
unfolding recent_locked new_bus
fresh fill n =
    ap (λ k. drop k []) {x = 0} {y = length {A = Event} [] - size_or_default n} (omega arith)

-- After any publications on a new bus, `Recent` with a positive limit answers the last of the
-- published events in their order: as many as the limit and the size of the ring allow.
pub recent-publish_all :
    (fill : Event) (n : ℤ) (evs : List (ℕ × Event)) (limit : ℕ)
    → 0 < limit
    → recent fill (pos limit) (publish_all evs (new_bus fill n))
      ≡ take_last limit (take_last (size_or_default n) (stamped evs))
unfolding new_bus
recent-publish_all fill n evs limit h =
    recent-last fill limit (publish_all evs (new_bus fill n)) h
    ∙ ap (take_last limit)
        (publish_all-last fill evs (new_bus fill n) [] (new-IsValid fill n) (fresh fill n))
