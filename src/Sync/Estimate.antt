-- ===== src/Sync/Estimate.antt =====
-- The offset and round trip that core/src/ClockSync.cpp estimates from four timestamps.
use sync_bluetooth_devices.Common.{
  ℕ, ◌+◌, ◌-◌, ◌*◌, ◌/◌, ◌≤◌, ◌≡◌, ◌↔◌, ◌⊎◌, inl, inr, refl, ◌∙◌, ap, ok, arith,
}
use sync_bluetooth_devices.Common.Int.{
  ℤ, pos, negsuc, pos_part, neg_part, ◌+ℤ◌, ◌-ℤ◌, ◌≤ℤ◌, int_laws,
}
use sync_bluetooth_devices.Sync.{ClockSyncEstimate, maximum, magnitude, round_half, estimate}

-- Four timestamps of one exchange on clocks that do not run backwards, the host's part of it
-- inside the client's.
pub record IsExchange (t₁ t₂ t₃ t₄ : ℕ) : Type 0 where
  pub client_order : t₁ ≤ t₄
  pub host_order : t₂ ≤ t₃
  pub nested : t₃ - t₂ ≤ t₄ - t₁
  pub client_max : t₄ ≤ maximum
  pub host_max : t₃ ≤ maximum

abbrev round_trip : ℕ → ℕ → ℕ → ℕ → ℤ
round_trip t₁ t₂ t₃ t₄ = (pos t₄ -ℤ pos t₁) -ℤ (pos t₃ -ℤ pos t₂)

abbrev twice_offset : ℕ → ℕ → ℕ → ℕ → ℤ
twice_offset t₁ t₂ t₃ t₄ = (pos t₂ -ℤ pos t₁) +ℤ (pos t₃ -ℤ pos t₄)

-- What `estimate` returns when it returns.
abbrev pub exchange_estimate : ℕ → ℕ → ℕ → ℕ → ClockSyncEstimate
exchange_estimate t₁ t₂ t₃ t₄ = record {
  host_minus_client_offset = round_half (twice_offset t₁ t₂ t₃ t₄);
  round_trip_time = round_trip t₁ t₂ t₃ t₄;
  samples = 1;
  client_sample_timestamp_nanoseconds = t₁ + (t₄ - t₁) / 2;
}

parts_disjoint : (a : ℤ) → (pos_part a ≡ 0) ⊎ (neg_part a ≡ 0)
parts_disjoint (pos n) = inr refl
parts_disjoint (negsuc n) = inl refl

round_trip_pos :
    (t₁ t₂ t₃ t₄ : ℕ)
    → t₁ ≤ t₄
    → t₂ ≤ t₃
    → t₃ - t₂ ≤ t₄ - t₁
    → round_trip t₁ t₂ t₃ t₄ ≡ pos ((t₄ - t₁) - (t₃ - t₂))
round_trip_pos t₁ t₂ t₃ t₄ h k l = omega int_laws

twice_offset-magnitude :
    (t₁ t₂ t₃ t₄ m : ℕ)
    → t₁ ≤ m
    → t₂ ≤ m
    → t₃ ≤ m
    → t₄ ≤ m
    → magnitude (twice_offset t₁ t₂ t₃ t₄) ≤ 2 * m
twice_offset-magnitude t₁ t₂ t₃ t₄ m h₁ h₂ h₃ h₄ =
    omega (int_laws, parts_disjoint (twice_offset t₁ t₂ t₃ t₄))

estimate_lem :
    (t₁ t₂ t₃ t₄ : ℕ)
    → IsExchange t₁ t₂ t₃ t₄
    → estimate t₁ t₂ t₃ t₄ ≡ ok (exchange_estimate t₁ t₂ t₃ t₄)
unfolding estimate
estimate_lem t₁ t₂ t₃ t₄ x = ground (
  arith,
  round_trip_pos t₁ t₂ t₃ t₄ x.client_order x.host_order x.nested,
  twice_offset-magnitude t₁ t₂ t₃ t₄ maximum,
)

passes :
    (t₁ t₂ t₃ t₄ : ℕ) (e : ClockSyncEstimate)
    → estimate t₁ t₂ t₃ t₄ ≡ ok e
    → (t₁ ≤ t₄) × (t₂ ≤ t₃) × (t₄ ≤ maximum) × (t₃ ≤ maximum) × (pos 0 ≤ℤ round_trip t₁ t₂ t₃ t₄)
unfolding estimate
passes t₁ t₂ t₃ t₄ e h = ground arith

estimate→IsExchange :
    (t₁ t₂ t₃ t₄ : ℕ) (e : ClockSyncEstimate) → estimate t₁ t₂ t₃ t₄ ≡ ok e → IsExchange t₁ t₂ t₃ t₄
estimate→IsExchange t₁ t₂ t₃ t₄ e h =
    let (co, ho, cm, hm, rt) = passes t₁ t₂ t₃ t₄ e h in
    record {
      client_order = co;
      host_order = ho;
      nested = omega int_laws;
      client_max = cm;
      host_max = hm;
    }

-- `estimate` gives a result for exactly the exchanges: it throws if a timestamp is beyond
-- `int64_t`, if a clock ran backwards, or if the host claims to have taken longer than the client
-- waited.
pub estimate-IsExchange_iff :
    (t₁ t₂ t₃ t₄ : ℕ)
    → ((e : ClockSyncEstimate) × (estimate t₁ t₂ t₃ t₄ ≡ ok e)) ↔ IsExchange t₁ t₂ t₃ t₄
estimate-IsExchange_iff t₁ t₂ t₃ t₄ = (
  λ (e, h). estimate→IsExchange t₁ t₂ t₃ t₄ e h,
  λ x. (exchange_estimate t₁ t₂ t₃ t₄, estimate_lem t₁ t₂ t₃ t₄ x),
)

-- Half of an integer is missed by at most a half.
round_half_error :
    (a : ℤ)
    → (round_half a +ℤ round_half a ≤ℤ a +ℤ pos 1) × (a ≤ℤ round_half a +ℤ round_half a +ℤ pos 1)
unfolding round_half ◌+ℤ◌
round_half_error (pos n) = ground arith
round_half_error (negsuc n) = ground arith

round_half-double : (a : ℤ) → round_half (a +ℤ a) ≡ a
unfolding round_half ◌+ℤ◌
round_half-double (pos n) = ground arith
round_half-double (negsuc n) = ground arith

-- An exchange over a path that takes `out` to the host and `back` to the client, with `hold` at
-- the host, between a client clock and a host clock that runs `ahead` of it.
pub record OverPath (t₁ t₂ t₃ t₄ : ℕ) (ahead : ℤ) (out hold back : ℕ) : Type 0 where
  pub arrives : pos t₂ ≡ pos t₁ +ℤ ahead +ℤ pos out
  pub answers : t₃ ≡ t₂ + hold
  pub returns : t₄ ≡ t₁ + out + hold + back
  pub client_max : t₄ ≤ maximum
  pub host_max : t₃ ≤ maximum

module _ (t₁ t₂ t₃ t₄ : ℕ) (ahead : ℤ) (out hold back : ℕ)
    (p : OverPath t₁ t₂ t₃ t₄ ahead out hold back) where
  OverPath-IsExchange : IsExchange t₁ t₂ t₃ t₄
  OverPath-IsExchange = record {
    client_order = omega (arith, p.returns);
    host_order = omega (arith, p.answers);
    nested = omega (arith, p.returns, p.answers);
    client_max = p.client_max;
    host_max = p.host_max;
  }

  OverPath-round_trip : round_trip t₁ t₂ t₃ t₄ ≡ pos (out + back)
  OverPath-round_trip = omega (int_laws, p.returns, p.answers)

  OverPath-twice_offset : twice_offset t₁ t₂ t₃ t₄ ≡ ahead +ℤ ahead +ℤ (pos out -ℤ pos back)
  OverPath-twice_offset =
      omega (int_laws, p.returns, p.answers, ap pos_part p.arrives, ap neg_part p.arrives)

-- On an exchange whose request and answer take any two times, with any hold at the host and any
-- offset of its clock, `estimate` gives the time on the path as the round trip, and misses the offset by at most half the difference of the two ways and the rounding; the sample's time is the
-- middle of the exchange on the client's clock, rounded down.
pub estimate_error :
    (t₁ t₂ t₃ t₄ : ℕ) (ahead : ℤ) (out hold back : ℕ)
    → OverPath t₁ t₂ t₃ t₄ ahead out hold back
    → (e : ClockSyncEstimate) × (estimate t₁ t₂ t₃ t₄ ≡ ok e)
      × (e.round_trip_time ≡ pos (out + back))
      × (e.host_minus_client_offset +ℤ e.host_minus_client_offset
          ≤ℤ ahead +ℤ ahead +ℤ (pos out -ℤ pos back) +ℤ pos 1)
      × (ahead +ℤ ahead +ℤ (pos out -ℤ pos back)
          ≤ℤ e.host_minus_client_offset +ℤ e.host_minus_client_offset +ℤ pos 1)
      × (2 * e.client_sample_timestamp_nanoseconds ≤ t₁ + t₄)
      × (t₁ + t₄ ≤ 2 * e.client_sample_timestamp_nanoseconds + 1)
estimate_error t₁ t₂ t₃ t₄ ahead out hold back p =
    let x = OverPath-IsExchange t₁ t₂ t₃ t₄ ahead out hold back p in
    let offset = OverPath-twice_offset t₁ t₂ t₃ t₄ ahead out hold back p in
    let (hi, lo) = round_half_error (twice_offset t₁ t₂ t₃ t₄) in
    (
      exchange_estimate t₁ t₂ t₃ t₄,
      estimate_lem t₁ t₂ t₃ t₄ x,
      OverPath-round_trip t₁ t₂ t₃ t₄ ahead out hold back p,
      omega (int_laws, hi, ap pos_part offset, ap neg_part offset),
      omega (int_laws, lo, ap pos_part offset, ap neg_part offset),
      omega (arith, x.client_order),
      omega (arith, x.client_order),
    )

-- Over a path that is as long both ways the offset is exact.
pub estimate_symmetric :
    (t₁ t₂ t₃ t₄ : ℕ) (ahead : ℤ) (way hold : ℕ)
    → OverPath t₁ t₂ t₃ t₄ ahead way hold way
    → (e : ClockSyncEstimate) × (estimate t₁ t₂ t₃ t₄ ≡ ok e) × (e.host_minus_client_offset ≡ ahead)
estimate_symmetric t₁ t₂ t₃ t₄ ahead way hold p =
    let x = OverPath-IsExchange t₁ t₂ t₃ t₄ ahead way hold way p in
    let offset = OverPath-twice_offset t₁ t₂ t₃ t₄ ahead way hold way p in
    let twice : ahead +ℤ ahead +ℤ (pos way -ℤ pos way) ≡ ahead +ℤ ahead = omega int_laws in
    (
      exchange_estimate t₁ t₂ t₃ t₄,
      estimate_lem t₁ t₂ t₃ t₄ x,
      ap round_half (offset ∙ twice) ∙ round_half-double ahead,
    )
