-- ===== src/Monitor/Totals.antt =====
-- That a report's totals are those of its workflows.
use smirror.Prelude.{
  ℕ, ◌+◌, ◌≤◌, List, [], ◌∷◌, false, ◌||◌, ◌==◌, Option, ltb, Bytes, length, length-append, All,
  ◌≡◌, refl, ap, Bool-cases, inl, inr, if◌then◌else◌, arith,
}
use smirror.Text.Search.{same}
use smirror.Config.Types.{Rule, Info}
use smirror.Monitor.Reports.{
  Object, RuleInfo, Response, new_response, add_error, add_unprocessed, add_processed, info_of,
  new_file, change_workflow, count_unprocessed, count_processed, new_workflow,
}

abbrev pub sum : (RuleInfo → ℕ) → List RuleInfo → ℕ
sum m [] = 0
sum m (w ∷ ws) = m w + sum m ws

-- no two entries of one workflow
abbrev pub IsDistinct : List RuleInfo → Type 0
IsDistinct [] = Unit
IsDistinct (w ∷ ws) = All (λ v. same w.info.workflow v.info.workflow ≡ false) ws × IsDistinct ws

-- The files that are listed are those that are counted, and the sizes are in order.
abbrev pub IsCounted : RuleInfo → Type 0
IsCounted w =
    (w.unprocessed_count ≡ length w.unprocessed) × (w.min_processed_size ≤ w.max_processed_size)

pub record IsConsistent (r : Response) : Type 0 where
  pub unprocessed : r.unprocessed_count ≡ sum (λ w. w.unprocessed_count) r.rules
  pub processed : r.process_count ≡ sum (λ w. w.processed_count) r.rules
  pub counted : All IsCounted r.rules
  pub distinct : IsDistinct r.rules
  pub errors : r.error_count ≡ length r.errors

module _ (info : Info) (f : RuleInfo → RuleInfo) where
  sum-change_workflow :
      (m : RuleInfo → ℕ) (d : ℕ) (ws : List RuleInfo)
      → ((w : RuleInfo) → m (f w) ≡ m w + d)
      → m (new_workflow info) ≡ 0
      → sum m (change_workflow info f ws) ≡ sum m ws + d
  unfolding change_workflow
  sum-change_workflow m d [] step fresh = omega (arith, step (new_workflow info), fresh)
  sum-change_workflow m d (w ∷ ws) step fresh =
      elim (Bool-cases (same w.info.workflow info.workflow)) [
        | inl this ↦ rw this (omega (arith, step w))
        | inr other ↦ rw other (omega (arith, sum-change_workflow m d ws step fresh))
      ]

  All-change_workflow :
      (P : RuleInfo → Type 0) (ws : List RuleInfo)
      → ((w : RuleInfo) → P w → P (f w))
      → P (new_workflow info)
      → All P ws
      → All P (change_workflow info f ws)
  unfolding change_workflow
  All-change_workflow P [] step fresh h = (step (new_workflow info) fresh, tt)
  All-change_workflow P (w ∷ ws) step fresh (p, h) =
      elim (Bool-cases (same w.info.workflow info.workflow)) [
        | inl this ↦ rw this (step w p, h)
        | inr other ↦ rw other (p, All-change_workflow P ws step fresh h)
      ]

  IsDistinct-change_workflow :
      (ws : List RuleInfo)
      → ((w : RuleInfo) → (f w).info ≡ w.info)
      → IsDistinct ws
      → IsDistinct (change_workflow info f ws)
  unfolding change_workflow new_workflow
  IsDistinct-change_workflow [] keeps d = (tt, tt)
  IsDistinct-change_workflow (w ∷ ws) keeps (others, d) =
      elim (Bool-cases (same w.info.workflow info.workflow)) [
        | inl this ↦ rw this (rw (ap (λ (i : Info). i.workflow) (keeps w)) others, d)
        | inr other ↦ rw other (
          All-change_workflow (λ v. same w.info.workflow v.info.workflow ≡ false) ws
              (λ v h. rw (ap (λ (i : Info). i.workflow) (keeps v)) h) other others,
          IsDistinct-change_workflow ws keeps d,
        )
      ]

pub add_unprocessed-IsConsistent :
    (format_age : ℕ → Bytes) (now : ℕ) (rule : Option Rule) (o : Object) (r : Response)
    → IsConsistent r
    → IsConsistent (add_unprocessed format_age now rule o r)
unfolding add_unprocessed count_unprocessed new_workflow
add_unprocessed-IsConsistent format_age now rule o r h = record {
  unprocessed = omega (
    arith,
    h.unprocessed,
    sum-change_workflow (info_of rule) (count_unprocessed (new_file format_age now o))
        (λ w. w.unprocessed_count) 1 r.rules (λ w. omega arith) refl,
  );
  processed = omega (
    arith,
    h.processed,
    sum-change_workflow (info_of rule) (count_unprocessed (new_file format_age now o))
        (λ w. w.processed_count) 0 r.rules (λ w. omega arith) refl,
  );
  counted =
      All-change_workflow (info_of rule) (count_unprocessed (new_file format_age now o)) IsCounted
        r.rules
        (λ w k.
          (omega (arith, k.0, length-append w.unprocessed (new_file format_age now o ∷ [])), k.1))
        (refl, omega arith) h.counted;
  distinct =
      IsDistinct-change_workflow (info_of rule) (count_unprocessed (new_file format_age now o))
        r.rules (λ w. refl) h.distinct;
  errors = h.errors;
}

smaller :
    (size low high : ℕ)
    → low ≤ high
    → (if ltb size low || low == 0 then size else low) ≤ (if ltb high size then size else high)
smaller size low high h = ground arith

pub add_processed-IsConsistent :
    (rule : Option Rule) (o : Object) (r : Response)
    → IsConsistent r
    → IsConsistent (add_processed rule o r)
unfolding add_processed count_processed new_workflow
add_processed-IsConsistent rule o r h = record {
  unprocessed = omega (
    arith,
    h.unprocessed,
    sum-change_workflow (info_of rule) (count_processed o.size) (λ w. w.unprocessed_count) 0 r.rules
        (λ w. omega arith) refl,
  );
  processed = omega (
    arith,
    h.processed,
    sum-change_workflow (info_of rule) (count_processed o.size) (λ w. w.processed_count) 1 r.rules
        (λ w. omega arith) refl,
  );
  counted =
      All-change_workflow (info_of rule) (count_processed o.size) IsCounted r.rules
        (λ w k. (k.0, smaller o.size w.min_processed_size w.max_processed_size k.1))
        (refl, omega arith) h.counted;
  distinct =
      IsDistinct-change_workflow (info_of rule) (count_processed o.size) r.rules (λ w. refl)
        h.distinct;
  errors = h.errors;
}

pub add_error-IsConsistent :
    (o : Object) (message : Bytes) (r : Response)
    → IsConsistent r
    → IsConsistent (add_error o message r)
unfolding add_error
add_error-IsConsistent o message r h = record {
  unprocessed = h.unprocessed;
  processed = h.processed;
  counted = h.counted;
  distinct = h.distinct;
  errors = omega (arith, h.errors, length-append r.errors (_ ∷ []));
}

pub new_response-IsConsistent : IsConsistent new_response
unfolding new_response
new_response-IsConsistent = record {
  unprocessed = refl;
  processed = refl;
  counted = tt;
  distinct = tt;
  errors = refl;
}
