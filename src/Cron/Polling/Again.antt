-- ===== src/Cron/Polling/Again.antt =====
-- That a poll announces no file a second time.
use smirror.Prelude.{
  ℕ, ◌+◌, ◌*◌, ◌≤◌, List, [], ◌∷◌, ◌++◌, false, Option, none, some, Error, Result, ok, err, All,
  ◌≡◌, refl, ◌∙◌, Result-cases, inl, inr, arith,
}
use smirror.Text.Search.{codes, same}
use smirror.Act.{
  continue, wrapped, pure, lift_error, OnOk, OnOk-continue, OnOk-wrapped, OnOk-result,
}
use smirror.Reload.{Listed}
use smirror.Reload.Changes.{IsDistinct}
use smirror.Cron.Rules.{Rule}
use smirror.Cron.Processed.{MetaStore, pending_resources, add_processed}
use smirror.Cron.Processed.Window.{IsSameFile}
use smirror.Cron.Processed.Pending.{
  IsDurable, Steps, Knows, Knows-added_member, pending_resources-known, pending_resources-nil,
}
use smirror.Cron.Polling.{
  Service, Run, announce, notify_all, process_resource, get_resource_candidates,
}

IsSameFile-IsDistinct :
    (front : List Listed) (o : Listed) (rest : List Listed)
    → IsDistinct (front ++ o ∷ rest)
    → All (λ p. same p.url o.url ≡ false) rest
IsSameFile-IsDistinct [] o rest (others, d) = others
IsSameFile-IsDistinct (p ∷ front) o rest (others, d) = IsSameFile-IsDistinct front o rest d

All-inl :
    (o : Listed) (rest : List Listed)
    → All (λ p. same p.url o.url ≡ false) rest
    → All (IsSameFile o.url o.mod_time) rest
All-inl o [] h = tt
All-inl o (p ∷ rest) (other, h) = (inl other, All-inl o rest h)

-- A file is one of a list.
abbrev pub IsAmong : List Listed → Listed → Type 0
IsAmong objects o = (front : List Listed) × (rest : List Listed) × (objects ≡ front ++ o ∷ rest)

All-member :
    (P : Listed → Type 0) (front : List Listed) (o : Listed) (rest : List Listed)
    → All P (front ++ o ∷ rest)
    → P o
All-member P [] o rest (p, h) = p
All-member P (q ∷ front) o rest (p, h) = All-member P front o rest h

All-among :
    (P : Listed → Type 0) (objects : List Listed) (o : Listed)
    → IsAmong objects o
    → All P objects
    → P o
All-among P objects o (front, rest, split) h = All-member P front o rest (rw split at h)

All-map :
    (P Q : Listed → Type 0)
    → ((o : Listed) → P o → Q o)
    → (objects : List Listed) → All P objects
    → All Q objects
All-map P Q f [] h = tt
All-map P Q f (o ∷ objects) (p, h) = (f o p, All-map P Q f objects h)

module _ {W : Type 0} (service : Service W) where
  abbrev store : MetaStore W
  store = service.services.meta_store

  abbrev limit : ℕ
  limit = service.time_window * 2

  -- The file of processed ones got these at the time of its update.
  abbrev Announced : List Listed → Run W → Type 0
  Announced [] s = Unit
  Announced (o ∷ objects) s =
      (w : W) × (add_processed store service.meta_url limit (service.services.now w) (o ∷ objects) w
        ≡ (none, s.world))

  OnOk-any : {A : Type 0} (r : Result A × Run W) → OnOk (λ _ _. Unit {0}) r
  OnOk-any (ok a, s) = tt
  OnOk-any (err e, s) = tt

  update-Announced :
      (o : Listed) (objects : List Listed) (r : Option Error × W) (s : Run W)
      → add_processed store service.meta_url limit
          (service.services.now s.world)
          (o ∷ objects)
          s.world
        ≡ r
      → OnOk Announced (
          continue
            (wrapped
              (codes "failed to update processed")
              (lift_error r.0 (record s { world = r.1 })))
            (λ _. pure (o ∷ objects)))
  update-Announced o objects (none, w) s h = (s.world, h)
  update-Announced o objects (some e, w) s h = tt

  announce-Announced :
      (rule : Rule) (pending : List Listed) (s : Run W)
      → OnOk Announced (announce service rule pending s)
  unfolding announce
  announce-Announced rule [] s = tt
  announce-Announced rule (o ∷ objects) s =
      OnOk-continue (λ _ _. Unit) Announced
        (wrapped (codes "failed to notify all")
          (notify_all service rule (service.services.order (o ∷ objects)) s))
        _
        (OnOk-wrapped (λ _ _. Unit) (codes "failed to notify all")
          (notify_all service rule (service.services.order (o ∷ objects)) s) (OnOk-any _))
        (λ _ s1 _. update-Announced o objects _ s1 refl)

  process_resource-Announced :
      (rule : Rule) (s : Run W) → OnOk Announced (process_resource service rule s)
  unfolding process_resource
  process_resource-Announced rule s =
      elim (Result-cases (get_resource_candidates service rule s.world)) [
        | inl (e, failed) ↦ rw (failed, process_resource) tt
        | inr (objects, listed) ↦
            elim (Result-cases (pending_resources store service.meta_url limit objects s.world)) [
              | inl (e, failed) ↦ rw (listed, process_resource) (rw (failed, process_resource) tt)
              | inr (pending, selected) ↦
                  rw (listed, process_resource)
                    (rw (selected, process_resource) (announce-Announced rule pending s))
            ]
      ]

  -- The clock of the storage does not go back when the file of processed ones is written.
  abbrev IsMonotone : Type 0
  IsMonotone =
      (now : ℕ) (objects : List Listed) (w w' : W)
      → add_processed store service.meta_url limit now objects w ≡ (none, w')
      → service.services.now w ≤ service.services.now w'

  module _ (durable : IsDurable store service.meta_url) where
    Knows-member :
        (pending : List Listed) (o : Listed) (s : Run W) (u : W)
        → IsAmong pending o
        → IsDistinct pending
        → (w : W) → service.services.now w ≤ o.mod_time + limit
        → add_processed store service.meta_url limit (service.services.now w) pending w
          ≡ (none, s.world)
        → Steps store service.meta_url limit durable o s.world u
        → Knows store service.meta_url limit durable o u
    Knows-member pending o s u (front, rest, split) distinct w recent done steps =
        Knows-added_member store service.meta_url limit durable o (service.services.now w) front
          rest w s.world u recent
          (All-inl o rest (IsSameFile-IsDistinct front o rest (rw split at distinct)))
          (rw split at done) steps

    pending_resources_idle :
        (candidates : List Listed) (u : W)
        → pending_resources store service.meta_url limit [] u ≡ ok []
        → All (λ o. Knows store service.meta_url limit durable o u) candidates
        → pending_resources store service.meta_url limit candidates u ≡ ok []
    pending_resources_idle [] u loaded known = loaded
    pending_resources_idle (o ∷ candidates) u loaded (known, more) =
        pending_resources-known store service.meta_url limit durable o [] candidates u known
        ∙ pending_resources_idle candidates u loaded more

    -- Each of the files that were announced is known after the steps.
    Knows-announced :
        (pending : List Listed) (s u : Run W) (w : W)
        → IsMonotone
        → add_processed store service.meta_url limit (service.services.now w) pending w
          ≡ (none, s.world)
        → IsDistinct pending
        → All (λ p. service.services.now s.world ≤ p.mod_time + limit) pending
        → All (λ p. Steps store service.meta_url limit durable p s.world u.world) pending
        → (o : Listed) → IsAmong pending o
        → Knows store service.meta_url limit durable o u.world
    Knows-announced pending s u w monotone added distinct recent steps o among =
        let young : service.services.now s.world ≤ o.mod_time + limit =
          All-among (λ p. service.services.now s.world ≤ p.mod_time + limit) pending o among
            recent in
        Knows-member pending o s u.world among distinct w
          (omega (arith, young, monotone (service.services.now w) pending w s.world added)) added
          (All-among (λ p. Steps store service.meta_url limit durable p s.world u.world) pending o
            among steps)

    -- After a poll of a rule that announced files, a poll of the rule announces none of them again: if
    -- all its candidates are among those files, it changes nothing and gives no file. The files have
    -- different URLs; no other version of them is added in between, and their ages are within twice the
    -- time window whenever files are added; the storage keeps what is uploaded, the decoder inverts
    -- the encoder, and the clock does not go back.
    pub process_resource-again :
        (rule : Rule) (o : Listed) (objects candidates : List Listed) (s s' u : Run W)
        → IsMonotone
        → process_resource service rule s ≡ (ok (o ∷ objects), s')
        → IsDistinct (o ∷ objects)
        → All (λ p. service.services.now s'.world ≤ p.mod_time + limit) (o ∷ objects)
        → All (λ p. Steps store service.meta_url limit durable p s'.world u.world) (o ∷ objects)
        → get_resource_candidates service rule u.world ≡ ok candidates
        → All (IsAmong (o ∷ objects)) candidates
        → process_resource service rule u ≡ (ok [], u)
    unfolding process_resource announce
    process_resource-again rule o objects candidates s s' u monotone done distinct recent steps
          listed among =
        let (w, added) =
          OnOk-result Announced (process_resource service rule s) (o ∷ objects) s'
            (process_resource-Announced rule s) done in
        let know : (p : Listed)
            → IsAmong (o ∷ objects) p
            → Knows store service.meta_url limit durable p u.world =
          Knows-announced (o ∷ objects) s' u w monotone added distinct recent steps in
        let idle : pending_resources store service.meta_url limit candidates u.world ≡ ok [] =
          pending_resources_idle candidates u.world
            (pending_resources-nil store service.meta_url limit durable o u.world
              (know o ([], objects, refl)))
            (All-map (IsAmong (o ∷ objects))
              (λ p. Knows store service.meta_url limit durable p u.world) know candidates among) in
        rw (listed, process_resource) (rw (idle, process_resource) refl)
