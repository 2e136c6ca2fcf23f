-- ===== src/Incidents/Timeline.antt =====
-- The response timeline of an incident under `apply_status`: what the stamps say of the status.
use soc_analyst.Prelude.{ℕ, ◌≤◌, ◌≡◌, ◌≢◌, true, Option, none, some, arith, is_some}
use soc_analyst.Enums.{IncidentStatus, open_, investigating, resolved}
use soc_analyst.Incidents.{Incident, apply_status}

-- `a` is no later than `b`, where both are stamped
abbrev pub StampLe : Option ℕ → Option ℕ → Type 0
StampLe (some a) (some b) = a ≤ b
StampLe _ _ = Unit

-- What holds of the stamps of an incident at time `now`.
pub record IsTimely {V : Type 0} (now : ℕ) (i : Incident V) : Type 0 where
  pub resolution_stamped : i.status ≡ resolved → is_some i.resolved_at ≡ true
  pub open_is_unresolved : i.status ≡ open_ → i.resolved_at ≡ none
  pub taken_up : i.status ≢ open_ → is_some i.acknowledged_at ≡ true
  pub resolution_acknowledged : is_some i.resolved_at ≡ true → is_some i.acknowledged_at ≡ true
  pub in_order : StampLe i.acknowledged_at i.resolved_at
  pub acknowledged_past : StampLe i.acknowledged_at (some now)
  pub resolved_past : StampLe i.resolved_at (some now)

module _ {V : Type 0} where
  apply_status-IsTimely :
      (t now : ℕ) (i : Incident V) (s : IncidentStatus)
      → t ≤ now
      → IsTimely t i
      → IsTimely now (apply_status now i s)
  unfolding apply_status
  apply_status-IsTimely t now i s le h = ground arith

  -- A history of moves at the times they were made, the latest last.
  pub data Reached (start : Incident V) : ℕ → Incident V → Type 0 where
    opened : (t : ℕ) → Reached start t start
    moved_at :
        {t : ℕ} {i : Incident V} (now : ℕ) (s : IncidentStatus)
        → t ≤ now
        → Reached start t i
        → Reached start now (apply_status now i s)

  Reached-IsTimely :
      {start i : Incident V} {t : ℕ}
      → ((now : ℕ) → IsTimely now start)
      → Reached start t i
      → IsTimely t i
  Reached-IsTimely h (opened t) = h t
  Reached-IsTimely h (moved_at now s le r) =
      apply_status-IsTimely _ now _ s le (Reached-IsTimely h r)

  -- An incident as `create` makes it.
  fresh-IsTimely :
      (i : Incident V)
      → i.status ≡ open_
      → i.acknowledged_at ≡ none
      → i.resolved_at ≡ none
      → (now : ℕ) → IsTimely now i
  fresh-IsTimely i e a r now = ground arith

  -- Whatever moves are made at times that do not go back, an incident that began open and unstamped
  -- carries a resolution stamp while it is resolved and none while it is open, carries an
  -- acknowledgement once it was taken up and whenever it carries a resolution stamp, and its stamps
  -- are in order and in the past. Of the resolution stamp while it is investigating this says only
  -- that much: one may be left from before.
  pub timeline_holds :
      (start i : Incident V) {t : ℕ}
      → start.status ≡ open_
      → start.acknowledged_at ≡ none
      → start.resolved_at ≡ none
      → Reached start t i
      → IsTimely t i
  timeline_holds start i e a r path = Reached-IsTimely (fresh-IsTimely start e a r) path

  -- A resolved incident that is taken back to investigating keeps the stamp of its resolution: it
  -- is under investigation, and still says when it was resolved.
  reinvestigating_keeps_resolution :
      (t now : ℕ) (i : Incident V)
      → IsTimely t i
      → i.status ≡ resolved
      → ((apply_status now i investigating).status ≡ investigating)
        × ((apply_status now i investigating).resolved_at ≡ i.resolved_at)
        × (is_some (apply_status now i investigating).resolved_at ≡ true)
  unfolding apply_status
  reinvestigating_keeps_resolution t now i h e = ground arith

  -- A resolved incident that is reopened loses that stamp and keeps its acknowledgement.
  reopening_clears_resolution :
      (now : ℕ) (i : Incident V)
      → i.status ≡ resolved
      → ((apply_status now i open_).resolved_at ≡ none)
        × ((apply_status now i open_).acknowledged_at ≡ i.acknowledged_at)
  unfolding apply_status
  reopening_clears_resolution now i e = ground arith
