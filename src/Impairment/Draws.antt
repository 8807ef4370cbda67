-- ===== src/Impairment/Draws.antt =====
-- When the copies that `submit` of desktop/src/NetworkImpairment.cpp makes are delivered.
use sync_bluetooth_devices.Common.{
  sym, ◌∙◌, length, length-append, ℕ, zero, suc, ◌+◌, ◌≤◌, ◌≡◌, ◌%◌, ◌^◌, refl, ap, Bool, true,
  Bool-cases, inl, inr, List, [], ◌∷◌, ◌++◌, ◌==◌, if◌then◌else◌, All, arith,
}
use mathlib.Core.List.{append_assoc, append-nil}
use sync_bluetooth_devices.Common.Int.{ℤ, pos, ◌+ℤ◌, ◌-ℤ◌, ◌≤ℤ◌, int_laws, ltb_ℤ}
use sync_bluetooth_devices.Common.Floats.{Floats}
use sync_bluetooth_devices.Impairment.{
  ImpairedDatagram, NetworkImpairment, NetworkImpairmentConfig, Random, chance, add_copy,
  add_copies, submit_started, submit,
}

All-append {ℓ κ} :
    {A : Type ℓ} (P : A → Type κ) (xs ys : List A) → All P xs → All P ys → All P (xs ++ ys)
All-append P [] ys h k = k
All-append P (x ∷ xs) ys h k = (h.0, All-append P xs ys h.1 k)

module _ (F : Floats) (S : Random F.Double) where
  open F use {Double}
  open S use {Generator, int_up_to}

  -- A copy of the datagram, to be delivered after the base delay and before the largest jitter and
  -- the 30 ms of a reordering have passed.
  pub record IsCopy (c : NetworkImpairmentConfig Double) (datagram : List ℕ) (now : ℤ)
      (d : ImpairedDatagram) : Type 0 where
    pub bytes : d.bytes ≡ datagram
    pub early : now +ℤ pos c.base_delay_ms ≤ℤ d.delivery_time
    pub late : d.delivery_time ≤ℤ now +ℤ pos (c.base_delay_ms + c.jitter_ms + 30)

  abbrev pub Added :
      NetworkImpairment Double Generator
      → NetworkImpairment Double Generator
      → List ℕ
      → ℤ
      → ℕ
      → Type 0
  Added n n' datagram now most =
      (more : List ImpairedDatagram) × (n'.pending ≡ n.pending ++ more)
      × All (IsCopy n.config datagram now) more
      × (length more ≤ most)

  -- What the documentation of the draws says, and what the constructor checks.
  pub record IsWithin (n : NetworkImpairment Double Generator) : Type 0 where
    pub draws : (m : ℕ) (g : Generator) → (int_up_to m g).0 ≤ m
    pub base : n.config.base_delay_ms ≤ 10_000
    pub jitter : n.config.jitter_ms ≤ 10_000

  add_copy-Added :
      (n : NetworkImpairment Double Generator) (datagram : List ℕ) (now : ℤ)
      → IsWithin n
      → Added n (add_copy F S n datagram now) datagram now 1
        × ((add_copy F S n datagram now).config ≡ n.config)
  unfolding add_copy
  add_copy-Added n datagram now v = (
    (
      _,
      refl,
      (record { bytes = refl; early = omega (int_laws, low); late = omega (int_laws, high) }, tt),
      omega arith,
    ),
    refl,
  )
    where
      jitter : ℕ × Generator
      jitter =
          if n.config.jitter_ms == 0 then (0, n.random) else int_up_to n.config.jitter_ms n.random

      extra : ℕ
      extra = if (chance F S n.config.reorder_percent jitter.1).0 then 30 else 0

      small : jitter.0 ≤ n.config.jitter_ms
      small = ground (arith, v.draws n.config.jitter_ms n.random)

      extra_small : extra ≤ 30
      extra_small = ground arith

      low : n.config.base_delay_ms ≤ (n.config.base_delay_ms + jitter.0 + extra) % 2 ^ 32
      low = omega (arith, v.base, v.jitter, small, extra_small)

      high :
          (n.config.base_delay_ms + jitter.0 + extra) % 2 ^ 32
          ≤ n.config.base_delay_ms + n.config.jitter_ms + 30
      high = omega (arith, v.base, v.jitter, small, extra_small)

  add_copies-Added :
      (count : ℕ) (n : NetworkImpairment Double Generator) (datagram : List ℕ) (now : ℤ)
      → IsWithin n
      → Added n (add_copies F S count n datagram now) datagram now count
  unfolding add_copies
  add_copies-Added zero n datagram now v = ([], sym (append-nil n.pending), tt, omega arith)
  add_copies-Added (suc count) n datagram now v =
      let ((first, p₁, c₁, l₁), same) = add_copy-Added n datagram now v in
      let v' : IsWithin (add_copy F S n datagram now) = record {
        draws = v.draws;
        base = rw same v.base;
        jitter = rw same v.jitter;
      } in
      let (rest, p₂, c₂, l₂) =
        add_copies-Added count (add_copy F S n datagram now) datagram now v' in
      (
        first ++ rest,
        p₂ ∙ ap (λ l. l ++ rest) p₁ ∙ append_assoc n.pending first rest,
        All-append _ first rest c₁ (rw same at c₂),
        omega (arith, l₁, l₂, length-append first rest),
      )

  submit_started-Added :
      (n : NetworkImpairment Double Generator) (datagram : List ℕ) (now : ℤ)
      → IsWithin n
      → Added n (submit_started F S n datagram now) datagram now 2
  unfolding submit_started
  submit_started-Added n datagram now v =
      elim (Bool-cases (ltb_ℤ (now -ℤ n.start_time) (pos n.config.blackout_duration_ms))) [
        | inl dark ↦ rw dark none_added
        | inr light ↦ rw light (elim (Bool-cases lost.0) [
          | inl e ↦ rw e none_added
          | inr e ↦ rw e (elim (Bool-cases twice.0) [
            | inl t ↦ rw t (add_copies-Added 2 (record n { random = twice.1 }) datagram now within)
            | inr o ↦ rw o (
                let (more, p, c, l) =
                  add_copies-Added 1 (record n { random = twice.1 }) datagram now within in
                (more, p, c, omega (arith, l)))
          ])
        ])
      ]
    where
      lost : Bool × Generator
      lost = chance F S n.config.packet_loss_percent n.random

      twice : Bool × Generator
      twice = chance F S n.config.duplicate_percent lost.1

      within : IsWithin (record n { random = twice.1 })
      within = record { draws = v.draws; base = v.base; jitter = v.jitter }

      none_added :
          (more : List ImpairedDatagram) × (n.pending ≡ n.pending ++ more)
          × All (IsCopy n.config datagram now) more
          × (length more ≤ 2)
      none_added = ([], sym (append-nil n.pending), tt, omega arith)

  -- A submitted datagram becomes at most two pending ones, behind those that were pending, each with
  -- its bytes and a delivery time between the base delay and that with the largest jitter and the
  -- 30 ms of a reordering.
  pub submit-IsCopy :
      (n : NetworkImpairment Double Generator) (datagram : List ℕ) (now : ℤ)
      → IsWithin n
      → Added n (submit F S n datagram now) datagram now 2
  unfolding submit
  submit-IsCopy n datagram now v = elim (Bool-cases n.started) [
    | inl e ↦ rw e (
        submit_started-Added (record n { started = true }) datagram now
          (record { draws = v.draws; base = v.base; jitter = v.jitter }))
    | inr e ↦ rw e (
        submit_started-Added (record n { started = true; start_time = now }) datagram now
          (record { draws = v.draws; base = v.base; jitter = v.jitter }))
  ]
