-- ===== src/Receiver/Losses.antt =====
-- What `updateSequenceStatistics` of desktop/src/DesktopAudioClient.cpp counts over a run of packets.
use sync_bluetooth_devices.Common.{
  ℕ, ◌+◌, ◌-◌, ◌<◌, ◌≤◌, ◌^◌, ◌≡◌, ap, sym, ◌∙◌, ◌⊎◌, inl, inr, refl, Bool, true, false, ◌||◌, ◌&&◌,
  not, Bool-cases, List, [], ◌∷◌, ltb, leb, ◌==◌, length, max, arith, some,
}
use sync_bluetooth_devices.Receiver.{
  SequenceStatistics, statistics, contains, insert_range, update_sequence_statistics,
}
use sync_bluetooth_devices.Receiver.Missing.{
  is_distinct, contains-insert_range, insert_range_above, contains-erase, is_distinct-erase,
  length-erase,
}

unfoldable pub update_all : SequenceStatistics → List ℕ → SequenceStatistics
update_all s [] = s
update_all s (sequence ∷ rest) = update_all (update_sequence_statistics s sequence) rest

unfoldable pub highest_of : ℕ → List ℕ → ℕ
highest_of highest [] = highest
highest_of highest (sequence ∷ rest) = highest_of (max highest sequence) rest

-- 32-bit numbers, none of which leaves a gap of more than 100,000 numbers above the highest so far.
abbrev pub IsClose : ℕ → List ℕ → Type 0
IsClose highest [] = Unit {0}
IsClose highest (sequence ∷ rest) =
    (sequence < 2 ^ 32) × (sequence ≤ highest + 100_001) × IsClose (max highest sequence) rest

-- The counts are exact: the first number was `first`, the highest is `highest`, and `seen` tells
-- which numbers came after the first.
pub record IsExact (first highest : ℕ) (seen : ℕ → Bool) (s : SequenceStatistics) : Type 0 where
  pub highest_is : s.highest_sequence ≡ some highest
  pub missing_are :
      (x : ℕ) → contains x s.missing_sequences ≡ (ltb first x && ltb x highest && not (seen x))
  pub distinct : is_distinct s.missing_sequences ≡ true
  pub lost_is : s.packets_lost ≡ length s.missing_sequences
  pub top : (highest ≡ first) ⊎ (seen highest ≡ true)
  pub below : (x : ℕ) → seen x ≡ true → x ≤ highest
  pub bound : s.packets_lost + first ≤ highest

distinct_empty : is_distinct [] ≡ true
unfolding is_distinct
distinct_empty = refl

update_above :
    (first highest : ℕ) (seen : ℕ → Bool) (s : SequenceStatistics) (sequence : ℕ)
    → IsExact first highest seen s
    → highest < sequence
    → sequence < 2 ^ 32
    → sequence ≤ highest + 100_001
    → IsExact first sequence
        (λ x. (x == sequence) || seen x)
        (update_sequence_statistics s sequence)
unfolding update_sequence_statistics
update_above first highest seen s sequence v above fits near = rw (v.highest_is) (
    rw up (
      rw small (record {
        highest_is = refl;
        missing_are =
            λ x. contains-insert_range (highest + 1) gap s.missing_sequences x ∙ newly_missing x;
        top = inr (ground arith);
        below = λ x h. ground (arith, v.below x);
        distinct = added.0;
        lost_is = omega (arith, added.1, v.lost_is, v.bound);
        bound = omega (arith, v.bound);
      })))
  where
    gap : ℕ
    gap = sequence - highest - 1

    up : ltb highest sequence ≡ true
    up = ground arith

    small : leb (sequence - highest - 1) 100_000 ≡ true
    small = ground arith

    newly_missing :
        (x : ℕ)
        → ((leb (highest + 1) x && ltb x (highest + 1 + gap)) || contains x s.missing_sequences)
          ≡ (ltb first x && ltb x sequence && not ((x == sequence) || seen x))
    newly_missing x = elim v.top [
      | inl e ↦ ground (arith, v.missing_are x, v.below x, v.bound)
      | inr e ↦ ground (arith, v.missing_are x, v.below x, v.bound, ap seen {x = x} {y = highest})
    ]

    added :
        (is_distinct (insert_range (highest + 1) gap s.missing_sequences) ≡ true)
        × (length (insert_range (highest + 1) gap s.missing_sequences)
            ≡ length s.missing_sequences + gap)
    added =
        insert_range_above (highest + 1) gap s.missing_sequences
          (λ x h. ground (arith, v.missing_are x)) v.distinct

update_below :
    (first highest : ℕ) (seen : ℕ → Bool) (s : SequenceStatistics) (sequence : ℕ)
    → IsExact first highest seen s
    → sequence ≤ highest
    → highest < 2 ^ 32
    → IsExact first highest (λ x. (x == sequence) || seen x) (update_sequence_statistics s sequence)
unfolding update_sequence_statistics
update_below first highest seen s sequence v below fits = rw (v.highest_is) (
    rw up (record {
      highest_is = refl;
      missing_are = λ x.
          contains-erase sequence s.missing_sequences x v.distinct
          ∙ ground (arith, v.missing_are x);
      top = elim v.top [ inl e ↦ inl e | inr e ↦ inr (ground (arith, e)) ];
      below = λ x h. ground (arith, v.below x);
      distinct = is_distinct-erase sequence s.missing_sequences v.distinct;
      lost_is = ground (arith, length-erase sequence s.missing_sequences, v.lost_is, v.bound);
      bound = ground (arith, length-erase sequence s.missing_sequences, v.lost_is, v.bound);
    }))
  where
    up : ltb highest sequence ≡ false
    up = ground arith

IsExact-same :
    (first highest : ℕ) (seen seen₂ : ℕ → Bool) (s : SequenceStatistics)
    → ((x : ℕ) → seen x ≡ seen₂ x)
    → IsExact first highest seen s
    → IsExact first highest seen₂ s
IsExact-same first highest seen seen₂ s e v = record {
  highest_is = v.highest_is;
  missing_are = λ x. rw (← e x) (v.missing_are x);
  distinct = v.distinct;
  lost_is = v.lost_is;
  top = elim v.top [ inl h ↦ inl h | inr h ↦ inr (sym (e highest) ∙ h) ];
  below = λ x h. v.below x (e x ∙ h);
  bound = v.bound;
}

IsExact-update_all :
    (first highest : ℕ) (seen : ℕ → Bool) (s : SequenceStatistics) (rest : List ℕ)
    → IsExact first highest seen s
    → highest < 2 ^ 32
    → IsClose highest rest
    → IsExact first (highest_of highest rest) (λ x. contains x rest || seen x) (update_all s rest)
unfolding update_all highest_of contains
IsExact-update_all first highest seen s [] v fits close = v
IsExact-update_all first highest seen s (sequence ∷ rest) v fits close =
    let next : IsExact first (max highest sequence) (λ x. (x == sequence) || seen x)
        (update_sequence_statistics s sequence) =
      elim (Bool-cases (ltb highest sequence)) [
        | inl above ↦
            let e : max highest sequence ≡ sequence = ground arith in
            rw e (update_above first highest seen s sequence v (ground arith) close.0 close.1)
        | inr below ↦
            let e : max highest sequence ≡ highest = ground arith in
            rw e (update_below first highest seen s sequence v (ground arith) fits)
      ] in
    IsExact-same first _ _ _ _ (λ x. ground arith)
      (IsExact-update_all first (max highest sequence) _ _ rest next (ground (arith, close.0))
        close.2)

-- After a run of packets with 32-bit sequence numbers, none of which leaves a gap of more than
-- 100,000 numbers above the highest so far, the count of lost packets is the size of the set of
-- missing numbers, which has no number twice and has just the numbers between the first and the
-- highest that the run did not have.
pub update_all-IsExact :
    (first : ℕ) (rest : List ℕ)
    → first < 2 ^ 32
    → IsClose first rest
    → IsExact first
        (highest_of first rest)
        (λ x. contains x rest)
        (update_all statistics (first ∷ rest))
unfolding update_all statistics update_sequence_statistics contains
update_all-IsExact first rest fits close =
    IsExact-same first _ _ _ _ (λ x. ground arith)
      (IsExact-update_all first first (λ x. false) _ rest
        (record {
          highest_is = refl;
          missing_are = λ x. ground arith;
          distinct = distinct_empty;
          lost_is = refl;
          top = inl refl;
          below = λ x h. ground arith;
          bound = omega arith;
        })
        fits close)
