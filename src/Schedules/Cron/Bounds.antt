-- ===== src/Schedules/Cron/Bounds.antt =====
-- schedules.py: the calendar bounds of an accepted cron expression.
use bastet_agent_os.Prelude.{
  ℕ, suc, ◌+◌, ◌≤◌, String, ◌≡◌, inl, inr, true, false, Bool, not, ◌||◌, List, [], ◌∷◌, ◌++◌,
  Option, All, ok, Ensures, Ensures-bind, Ensures-bind_any, Ensures-after, Ensures-ok, Ensures-err,
  Ensures-raise_if, length, length-append, keep_if, leb, eqb, Bool-cases, arith,
}
use bastet_agent_os.Prelude.Int.{ℤ, pos, negsuc, pos_part, ltz}
use bastet_agent_os.Prelude.Text.{codes}
use bastet_agent_os.Schedules.Cron.{
  Cron, step_of, range_of, range_by, part_values, all_values, prepend, member, fold_sunday,
  values_of, split_by, parse_fields, parse_cron, words,
}
use bastet_agent_os.Schedules.Cron.Ranges.{range_by-All}

-- Each value lies between the bounds.
abbrev pub AreWithin : ℕ → ℕ → List ℕ → Type 0
AreWithin minimum maximum = All (λ v. (minimum ≤ v) × (v ≤ maximum))

AreWithin-append :
    (minimum maximum : ℕ) (xs ys : List ℕ)
    → AreWithin minimum maximum xs
    → AreWithin minimum maximum ys
    → AreWithin minimum maximum (xs ++ ys)
AreWithin-append minimum maximum [] ys p q = q
AreWithin-append minimum maximum (x ∷ xs) ys (p, ps) q =
    (p, AreWithin-append minimum maximum xs ys ps q)

AreWithin-weaken :
    (minimum maximum larger : ℕ) (xs : List ℕ)
    → maximum ≤ larger
    → AreWithin minimum maximum xs
    → AreWithin minimum larger xs
AreWithin-weaken minimum maximum larger [] l p = tt
AreWithin-weaken minimum maximum larger (x ∷ xs) l ((a, b), ps) =
    ((a, omega arith), AreWithin-weaken minimum maximum larger xs l ps)

-- The guard on a part's range, with what it leaves of the integers.
guard-pass :
    (minimum maximum : ℕ) (start end : ℤ)
    → (ltz start (pos minimum) || ltz (pos maximum) end || ltz end start) ≡ false
    → (minimum ≤ pos_part start) × (pos_part end ≤ maximum) × (pos_part start ≤ pos_part end)
guard-pass minimum maximum (pos s) (pos e) h = ground arith
guard-pass minimum maximum (pos s) (negsuc e) h = let bad : ⊥ = ground arith in absurd bad
guard-pass minimum maximum (negsuc s) end h = let bad : ⊥ = ground arith in absurd bad

abbrev pub IsPart : ℕ → ℕ → List ℕ → Type 0
IsPart minimum maximum values = AreWithin minimum maximum values × (1 ≤ length values)

range_by-IsPart :
    (minimum maximum fuel start end step : ℕ)
    → minimum ≤ start
    → end ≤ maximum
    → start ≤ end
    → IsPart minimum maximum (range_by (suc fuel) start end step)
unfolding range_by
range_by-IsPart minimum maximum fuel start end step l m n = elim (Bool-cases (leb start end)) [
  | inl e ↦ rw e (
    (
      (l, omega arith),
      AreWithin-weaken minimum end maximum _ m
          (range_by-All minimum fuel (start + step) end step (omega arith)),
    ),
    omega arith,
  )
  | inr e ↦ let bad : ⊥ = ground arith in absurd bad
]

prepend-length : (c : ℕ) (pieces : List (List ℕ)) → 1 ≤ length (prepend c pieces)
prepend-length c [] = omega arith
prepend-length c (piece ∷ pieces) = omega arith

without_7 : (vs : List ℕ) → AreWithin 0 7 vs → AreWithin 0 6 (keep_if (λ v. not (eqb v 7)) vs)
without_7 [] w = tt
without_7 (v ∷ vs) ((l, m), w) = elim (Bool-cases (eqb v 7)) [
  | inl e ↦ rw e (without_7 vs w)
  | inr e ↦ rw e ((l, ground arith), without_7 vs w)
]

no_7 : (vs : List ℕ) → member 7 vs ≡ false → AreWithin 0 7 vs → AreWithin 0 6 vs
no_7 [] h w = tt
no_7 (v ∷ vs) h ((l, m), w) = ((l, ground arith), no_7 vs (ground arith) w)

module _ (digit_of : ℕ → Option ℕ) where
  part_values-IsPart :
      (minimum maximum : ℕ) (part : List ℕ)
      → Ensures (IsPart minimum maximum) (part_values digit_of minimum maximum part)
  unfolding part_values
  part_values-IsPart minimum maximum part =
      Ensures-bind_any (step_of digit_of part) _ (λ (base, slash, step). Ensures-after _ _ (
        Ensures-bind_any (range_of digit_of minimum maximum base slash) _ (λ (start, end).
          Ensures-raise_if _ _ _ (λ pass.
            let (l, m, n) = guard-pass minimum maximum start end pass in
            Ensures-ok _ (range_by-IsPart minimum maximum _ _ _ _ l m n)))))

  all_values-AreWithin :
      (minimum maximum : ℕ) (parts : List (List ℕ))
      → Ensures
          (λ vs. AreWithin minimum maximum vs × (length parts ≤ length vs))
          (all_values digit_of minimum maximum parts)
  unfolding all_values
  all_values-AreWithin minimum maximum [] = Ensures-ok _ (tt, omega arith)
  all_values-AreWithin minimum maximum (part ∷ parts) =
      Ensures-bind _ _ (part_values-IsPart minimum maximum part) (λ vs (w, n).
        Ensures-bind _ _ (all_values-AreWithin minimum maximum parts) (λ rest (w', n').
          Ensures-ok _
            (AreWithin-append minimum maximum vs rest w w', omega (arith, length-append vs rest))))

  split_by-length : (is_sep : ℕ → Bool) (text : List ℕ) → 1 ≤ length (split_by is_sep text)
  unfolding split_by
  split_by-length is_sep [] = omega arith
  split_by-length is_sep (c ∷ text) = elim (Bool-cases (is_sep c)) [
    | inl e ↦ rw e (omega arith)
    | inr e ↦ rw e (prepend-length c (split_by is_sep text))
  ]

  -- The values of a field, without the fold of Sunday.
  values_of-AreWithin :
      (minimum maximum : ℕ) (raw : List ℕ)
      → Ensures (IsPart minimum maximum) (values_of digit_of minimum maximum false raw)
  unfolding values_of
  values_of-AreWithin minimum maximum raw = Ensures-after _ _ (
      Ensures-bind _ _ (all_values-AreWithin minimum maximum (split_by (λ c. eqb c b',') raw))
        (λ vs (w, n). Ensures-ok _ (w, omega (arith, split_by-length (λ c. eqb c b',') raw))))

  fold_sunday-IsPart : (vs : List ℕ) → IsPart 0 7 vs → IsPart 0 6 (fold_sunday vs)
  unfolding fold_sunday
  fold_sunday-IsPart vs (w, n) = elim (Bool-cases (member 7 vs)) [
    | inl e ↦ rw e (((omega arith, omega arith), without_7 vs w), omega arith)
    | inr e ↦ rw e (no_7 vs e w, n)
  ]

  values_of-sunday : (raw : List ℕ) → Ensures (IsPart 0 6) (values_of digit_of 0 7 true raw)
  unfolding values_of
  values_of-sunday raw = Ensures-after _ _ (
      Ensures-bind _ _ (all_values-AreWithin 0 7 (split_by (λ c. eqb c b',') raw)) (λ vs (w, n).
        Ensures-ok _
          (fold_sunday-IsPart vs (w, omega (arith, split_by-length (λ c. eqb c b',') raw)))))

-- Every field has a value, and only values that the calendar has.
pub record IsCalendar (c : Cron) : Type 0 where
  pub minute : IsPart 0 59 c.minute
  pub hour : IsPart 0 23 c.hour
  pub dom : IsPart 1 31 c.dom
  pub month : IsPart 1 12 c.month
  pub dow : IsPart 0 6 c.dow

parse_fields-IsCalendar :
    (digit_of : ℕ → Option ℕ) (fields : List (List ℕ))
    → Ensures IsCalendar (parse_fields digit_of fields)
unfolding parse_fields
parse_fields-IsCalendar digit_of (f0 ∷ f1 ∷ f2 ∷ f3 ∷ f4 ∷ []) =
    Ensures-bind _ _ (values_of-AreWithin digit_of 0 59 f0) (λ minute p0.
      Ensures-bind _ _ (values_of-AreWithin digit_of 0 23 f1) (λ hour p1.
        Ensures-bind _ _ (values_of-AreWithin digit_of 1 31 f2) (λ dom p2.
          Ensures-bind _ _ (values_of-AreWithin digit_of 1 12 f3) (λ month p3.
            Ensures-bind _ _ (values_of-sunday digit_of f4) (λ dow p4.
              Ensures-ok _ (record { minute = p0; hour = p1; dom = p2; month = p3; dow = p4 }))))))
parse_fields-IsCalendar digit_of [] = Ensures-err _
parse_fields-IsCalendar digit_of (f0 ∷ []) = Ensures-err _
parse_fields-IsCalendar digit_of (f0 ∷ f1 ∷ []) = Ensures-err _
parse_fields-IsCalendar digit_of (f0 ∷ f1 ∷ f2 ∷ []) = Ensures-err _
parse_fields-IsCalendar digit_of (f0 ∷ f1 ∷ f2 ∷ f3 ∷ []) = Ensures-err _
parse_fields-IsCalendar digit_of (f0 ∷ f1 ∷ f2 ∷ f3 ∷ f4 ∷ f5 ∷ fields) = Ensures-err _

-- Whatever text `parse_cron` accepts, each of the five fields that it returns has at least one value,
-- and all values are ones that the calendar has: minutes to 59, hours to 23, days of the month from
-- 1 to 31, months from 1 to 12, days of the week from 0 to 6, Sunday being 0 only.
pub parse_cron-IsCalendar :
    (digit_of : ℕ → Option ℕ) (expression : String) (c : Cron)
    → parse_cron digit_of expression ≡ ok c
    → IsCalendar c
unfolding parse_cron
parse_cron-IsCalendar digit_of expression c h =
    (parse_fields-IsCalendar digit_of (words (codes expression))).at c h
