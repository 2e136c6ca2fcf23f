-- ===== src/Incidents/Updates.antt =====
-- What `update` changes, returns and audits, against a description that reads only the incident as
-- it was before the call.
use soc_analyst.Prelude.{
  or_default, ap₂, Outcome, ok, raised, ◌⊎◌, ℕ, ◌≡◌, refl, Bool, true, false, Option, none, some,
  List, [], ◌∷◌, ◌++◌, arith, All, Bool-cases, inl, inr, ap, ◌∙◌, sym, subst, if◌then◌else◌,
}
use mathlib.Core.List.{append-nil}
use soc_analyst.Enums.{IncidentStatus, same_status, same_status_iff, AuditAction}
use soc_analyst.Incidents.{
  Field, same_field, same_field→eq, same_field_comm, Incident, Change, edited, moved, changes_of,
  AuditEntry, status_changed, Note, Trail, set_field, apply_fields, apply_status, audit_edits,
  move_status, IntegrityError, integrity_error, fits, edit_and_move, update,
}

-- No column is named twice, as in a dict.
abbrev pub DistinctFields : {V : Type 0} → List (Field × V) → Type 0
DistinctFields [] = Unit
DistinctFields ((f, v) ∷ rest) = All (λ u. same_field f u.0 ≡ false) rest × DistinctFields rest

module _ {V : Type 0} where
  -- the value of a column after the updates: the one that they name for it, unless it equals the old
  -- one, which then stays
  abbrev pub wanted : (V → V → Bool) → List (Field × V) → Field → V → V
  wanted same_value [] g old = old
  wanted same_value ((f, v) ∷ rest) g old =
      let later = wanted same_value rest g old in
      if same_field f g then (if same_value old v then old else v) else later

  wanted_absent :
      (same_value : V → V → Bool) (f : Field) (rest : List (Field × V)) (old : V)
      → All (λ u. same_field f u.0 ≡ false) rest
      → wanted same_value rest f old ≡ old
  wanted_absent same_value f [] old h = refl
  wanted_absent same_value f (u ∷ rest) old h =
      ground (arith, wanted_absent same_value f rest old h.1, same_field_comm f u.0)

module _ {V : Type 0} where
  -- the audit entry for some changes, if there are any
  abbrev pub entries : AuditAction → ℕ → ℕ → List (Change V) → List (AuditEntry V)
  entries action actor_id id [] = []
  entries action actor_id id (c ∷ cs) =
      (record {
        action = action;
        actor_id = actor_id;
        resource_id = id;
        detail = changes_of (c ∷ cs);
      })
      ∷ []

  -- the status change that an update asks for, as a list
  abbrev pub status_part : IncidentStatus → Option IncidentStatus → List (Change V)
  status_part before none = []
  status_part before (some after) = if same_status before after then [] else moved before after ∷ []

  -- the system note for a status change
  abbrev pub status_notes : ℕ → ℕ → List (Change V) → List Note
  status_notes actor_id id (moved before after ∷ _) =
      (record {
        incident_id = id;
        author_id = actor_id;
        body = status_changed before after;
        is_system = true;
      })
      ∷ []
  status_notes actor_id id _ = []

  audit_edits-entries :
      (actor_id : ℕ) (i : Incident V) (cs : List (Change V)) (trail : Trail V)
      → ((audit_edits actor_id i cs trail).audit
          ≡ trail.audit ++ entries AuditAction.update actor_id i.id cs)
        × ((audit_edits actor_id i cs trail).notes ≡ trail.notes)
  unfolding audit_edits
  audit_edits-entries actor_id i [] trail = (sym (append-nil trail.audit), refl)
  audit_edits-entries actor_id i (c ∷ cs) trail = (refl, refl)

  apply_status-status :
      (now : ℕ) (i : Incident V) (s : IncidentStatus)
      → ((apply_status now i s).status ≡ s) × ((apply_status now i s).fields ≡ i.fields)
  unfolding apply_status
  apply_status-status now i s = ground (arith, same_status_iff i.status s)

  -- the second half of an update, in terms of the edited incident
  pub move_status-effect :
      (now actor_id : ℕ) (new_status : Option IncidentStatus) (i : Incident V)
      (cs : List (Change V)) (trail : Trail V)
      → let (i', changes, trail') = move_status now actor_id new_status i cs trail in
        (i'.fields ≡ i.fields)
        × (i'.status ≡ or_default new_status i.status)
        × (changes ≡ cs ++ status_part i.status new_status)
        × (trail'.audit
            ≡ trail.audit
              ++ entries AuditAction.status_change actor_id i.id (status_part i.status new_status))
        × (trail'.notes
            ≡ trail.notes ++ status_notes actor_id i.id (status_part i.status new_status))
  unfolding move_status
  move_status-effect now actor_id none i cs trail =
      (refl, refl, sym (append-nil cs), sym (append-nil trail.audit), sym (append-nil trail.notes))
  move_status-effect now actor_id (some s) i cs trail = elim (Bool-cases (same_status i.status s)) [
    | inl e ↦
        rw (e, move_status)
          (
            refl,
            (same_status_iff i.status s).0 e,
            sym (append-nil cs),
            sym (append-nil trail.audit),
            sym (append-nil trail.notes),
          )
    | inr e ↦
        rw (e, move_status)
          ((apply_status-status now i s).1, (apply_status-status now i s).0, refl, refl, refl)
  ]

module _ {V : Type 0} (same_value : V → V → Bool) where
  -- the updates that differ from the columns as they are
  abbrev pub differences : (Field → V) → List (Field × V) → List (Change V)
  differences old [] = []
  differences old ((f, v) ∷ rest) =
      let later = differences old rest in
      if same_value (old f) v then later else edited f (old f) v ∷ later

  differences-set_field :
      (i : Incident V) (f : Field) (v : V) (rest : List (Field × V))
      → All (λ u. same_field f u.0 ≡ false) rest
      → differences (set_field i f v).fields rest ≡ differences i.fields rest
  unfolding set_field
  differences-set_field i f v [] h = refl
  differences-set_field i f v ((g, w) ∷ rest) h = rw (h.0) (
      ap (λ l. if same_value (i.fields g) w then l else edited g (i.fields g) w ∷ l)
        (differences-set_field i f v rest h.1))

  apply_fields-changes :
      (i : Incident V) (ups : List (Field × V))
      → DistinctFields ups
      → (apply_fields same_value i ups).1 ≡ differences i.fields ups
  unfolding apply_fields
  apply_fields-changes i [] h = refl
  apply_fields-changes i ((f, v) ∷ rest) h = elim (Bool-cases (same_value (i.fields f) v)) [
    | inl e ↦ rw e (apply_fields-changes i rest h.1)
    | inr e ↦ rw e (
        ap (λ l. edited f (i.fields f) v ∷ l)
          (apply_fields-changes (set_field i f v) rest h.1 ∙ differences-set_field i f v rest h.0))
  ]

  -- all but the columns stays as it was
  apply_fields-rest :
      (i : Incident V) (ups : List (Field × V))
      → ((apply_fields same_value i ups).0.id ≡ i.id)
        × ((apply_fields same_value i ups).0.status ≡ i.status)
        × ((apply_fields same_value i ups).0.acknowledged_at ≡ i.acknowledged_at)
        × ((apply_fields same_value i ups).0.resolved_at ≡ i.resolved_at)
  unfolding apply_fields set_field
  apply_fields-rest i [] = (refl, refl, refl, refl)
  apply_fields-rest i ((f, v) ∷ rest) = elim (Bool-cases (same_value (i.fields f) v)) [
    | inl e ↦ rw e (apply_fields-rest i rest)
    | inr e ↦ rw e (apply_fields-rest (set_field i f v) rest)
  ]

  apply_fields-wanted :
      (i : Incident V) (ups : List (Field × V)) (g : Field)
      → DistinctFields ups
      → (apply_fields same_value i ups).0.fields g ≡ wanted same_value ups g (i.fields g)
  unfolding apply_fields set_field
  apply_fields-wanted i [] g h = refl
  apply_fields-wanted i ((f, v) ∷ rest) g h = elim (Bool-cases (same_field f g)) [
    | inl here ↦
        let at : f ≡ g = same_field→eq f g here in
        let absent = subst (λ k. All (λ u. same_field k u.0 ≡ false) rest) at h.0 in
        elim (Bool-cases (same_value (i.fields f) v)) [
          | inl e ↦
              let e' : same_value (i.fields g) v ≡ true =
                subst (λ k. same_value (i.fields k) v ≡ true) at e in
              rw (e, here)
                (rw e' (
                  apply_fields-wanted i rest g h.1
                  ∙ wanted_absent same_value g rest (i.fields g) absent))
          | inr e ↦
              let e' : same_value (i.fields g) v ≡ false =
                subst (λ k. same_value (i.fields k) v ≡ false) at e in
              rw (e, here)
                (rw e' (
                  apply_fields-wanted (set_field i f v) rest g h.1
                  ∙ rw here (wanted_absent same_value g rest v absent)))
        ]
    | inr there ↦ elim (Bool-cases (same_value (i.fields f) v)) [
      | inl e ↦ rw (e, there) (apply_fields-wanted i rest g h.1)
      | inr e ↦ rw (e, there) (apply_fields-wanted (set_field i f v) rest g h.1 ∙ rw there refl)
    ]
  ]

  -- What an update that is stored does to the incident and the trail, and returns.
  pub record Updated (actor_id : ℕ) (ups : List (Field × V)) (new_status : Option IncidentStatus)
      (i : Incident V) (trail : Trail V) (i' : Incident V) (changes : List (Change V))
      (trail' : Trail V) : Type 0 where
    pub columns : (g : Field) → i'.fields g ≡ wanted same_value ups g (i.fields g)
    pub status : i'.status ≡ or_default new_status i.status
    pub returned : changes ≡ differences i.fields ups ++ status_part i.status new_status
    pub audited :
        trail'.audit
        ≡ (trail.audit ++ entries AuditAction.update actor_id i.id (differences i.fields ups))
          ++ entries AuditAction.status_change actor_id i.id (status_part i.status new_status)
    pub noted :
        trail'.notes
        ≡ trail.notes ++ status_notes {V = V} actor_id i.id (status_part i.status new_status)

  edit_and_move-Updated :
      (now actor_id : ℕ) (ups : List (Field × V)) (new_status : Option IncidentStatus)
      (i : Incident V) (trail : Trail V)
      → DistinctFields ups
      → let (i', changes, trail') = edit_and_move same_value now actor_id ups new_status i trail in
        Updated actor_id ups new_status i trail i' changes trail'
  unfolding edit_and_move
  edit_and_move-Updated now actor_id ups new_status i trail h =
      let (e, cs) = apply_fields same_value i ups in
      let m = move_status-effect now actor_id new_status e cs (audit_edits actor_id e cs trail) in
      let a = audit_edits-entries actor_id e cs trail in
      let d = apply_fields-changes i ups h in
      let (id_kept, status_kept, _, _) = apply_fields-rest i ups in
      record {
        columns = λ g. ap (λ (f : Field → V). f g) m.0 ∙ apply_fields-wanted i ups g h;
        status = m.1 ∙ ap (or_default new_status) status_kept;
        returned = m.2 ∙ ap₂ ◌++◌ d (ap (λ s. status_part s new_status) status_kept);
        audited =
            m.3
            ∙ ap₂ ◌++◌
                (a.0
                  ∙ ap₂ (λ x y. trail.audit ++ entries AuditAction.update actor_id x y) id_kept d)
                (ap₂
                  (λ x y. entries AuditAction.status_change actor_id x (status_part y new_status))
                  id_kept status_kept);
        noted =
            m.4
            ∙ ap₂ ◌++◌ a.1 (
                ap₂ (λ x y. status_notes {V = V} actor_id x (status_part y new_status)) id_kept
                  status_kept);
      }

  module _ (accepts : Field → V → Bool) where
    -- the flush raises on a difference that the table refuses, or the update is stored
    abbrev pub UpdatesOrRaises :
        ℕ
        → List (Field × V)
        → Option IncidentStatus
        → Incident V
        → Trail V
        → Outcome IntegrityError (Incident V × List (Change V) × Trail V)
        → Type 0
    UpdatesOrRaises actor_id ups new_status i trail out =
        ((fits same_value accepts (differences i.fields ups) ≡ false)
          × (out ≡ raised integrity_error))
        ⊎ ((i' : Incident V) × (changes : List (Change V)) × (trail' : Trail V) × (fits same_value
                accepts (differences i.fields ups)
              ≡ true)
            × (out ≡ ok (i', changes, trail'))
            × Updated actor_id ups new_status i trail i' changes trail')

    -- An update of distinct columns raises where the table refuses the new value of a column that
    -- differs. Otherwise it leaves each column at the value asked for, unless the column's value is
    -- `==` to that one or no value is asked for, where it stays; its result lists exactly the
    -- columns whose value differs, in the order asked, and then the status, if it differs; the audit
    -- trail grows by one entry for the edits, if there are any, and one for the status, if it moves;
    -- and a system note is left exactly when the status moves.
    pub update_effect :
        (now actor_id : ℕ) (ups : List (Field × V)) (new_status : Option IncidentStatus)
        (i : Incident V) (trail : Trail V)
        → DistinctFields ups
        → UpdatesOrRaises actor_id ups new_status i trail
            (update same_value accepts now actor_id ups new_status i trail)
    unfolding update
    update_effect now actor_id ups new_status i trail h =
        let same = ap (fits same_value accepts) (apply_fields-changes i ups h) in
        elim (Bool-cases (fits same_value accepts (apply_fields same_value i ups).1)) [
          | inr bad ↦ inl (sym same ∙ bad, rw (bad, update) refl)
          | inl good ↦
              let out = edit_and_move same_value now actor_id ups new_status i trail in
              inr (
                out.0,
                out.1,
                out.2,
                sym same ∙ good,
                rw (good, update) refl,
                edit_and_move-Updated now actor_id ups new_status i trail h,
              )
        ]
