-- ===== src/Kshetra/State/Latch.antt =====
-- src/kshetra/state.ts: the writes of a worker as steps of the state, and the latch of a stuck worker.
use shreni.Common.{
  ℕ, String, Option, List, Bool, true, is_some, ◌≡◌, ◌≢◌, refl, ◌∙◌, arith, inl, inr, Option-cases,
  Bool-cases,
}
use shreni.Kshetra.State.{
  State, KshetraState, Stuck, entry, set_entry, current, pause_kshetra, restore_kshetra_slice,
  resume_kshetra, record_progress, record_stall, set_stuck, set_phase, set_ablations,
  set_health_baseline, record_bead_attempt, clear_bead_attempts, cleared, is_stuck_pause,
  clear_stuck_pause_on_recover, recovered,
}
use shreni.Kshetra.State.Entries.{entry-set_entry, entry-other}

-- A write on a Kshetra's entry that acknowledges nothing.
pub data Write (k : String) (s : State) : State → Type 0 where
  pauses :
      (now : ℕ) (manual : Bool) (reason message : String)
      → Write k s (pause_kshetra now k manual reason message s)
  progresses : (now : ℕ) → Write k s (record_progress now k s)
  stalls : (outcome : String) → Write k s (record_stall k outcome s).0
  marks : (info : Stuck) → Write k s (set_stuck k info s)
  enters : (phase : String) → Write k s (set_phase k phase s)
  ablates : (ablations : List String) → Write k s (set_ablations k ablations s)
  accepts : (count : ℕ) → Write k s (set_health_baseline k count s)
  attempts : (bead : String) → Write k s (record_bead_attempt k bead s).0
  succeeds : (bead : String) → Write k s (clear_bead_attempts k bead s)

-- An acknowledgment: a resume, a restore, or the recovery of a restarted worker.
pub data Ack (k : String) (s : State) : State → Type 0 where
  resumes : Ack k s (resume_kshetra k s)
  restores : (slice : Option KshetraState) → Ack k s (restore_kshetra_slice k slice s)
  recovers : Ack k s (clear_stuck_pause_on_recover k s).0

-- Writes and acknowledgments in a row.
pub data Runs (k : String) : State → State → Type 0 where
  stop : {s : State} → Runs k s s
  write : {s t u : State} → Write k s t → Runs k t u → Runs k s u
  ack : {s t u : State} → Ack k s t → Runs k t u → Runs k s u

module _ (k : String) where
  Write-others : (s s' : State) (j : String) → k ≢ j → Write k s s' → entry s' j ≡ entry s j
  Write-others s s' j n (pauses now manual reason message) = entry-other s k j _ n
  Write-others s s' j n (progresses now) = entry-other s k j _ n
  Write-others s s' j n (stalls outcome) = entry-other s k j _ n
  Write-others s s' j n (marks info) = entry-other s k j _ n
  Write-others s s' j n (enters phase) = entry-other s k j _ n
  Write-others s s' j n (ablates ablations) = entry-other s k j _ n
  Write-others s s' j n (accepts count) = entry-other s k j _ n
  Write-others s s' j n (attempts bead) = entry-other s k j _ n
  Write-others s s' j n (succeeds bead) =
      elim (Option-cases (entry (current s k).bead_attempts bead)) [
        | inl e ↦ ground (arith, e)
        | inr (c, e) ↦ ground (arith, e, entry-other s k j (cleared bead (current s k)) n)
      ]

  Ack-others : (s s' : State) (j : String) → k ≢ j → Ack k s s' → entry s' j ≡ entry s j
  Ack-others s s' j n resumes = entry-other s k j _ n
  Ack-others s s' j n (restores slice) = entry-other s k j _ n
  Ack-others s s' j n recovers = elim (Bool-cases (is_stuck_pause (current s k))) [
    | inl e ↦ ground (arith, e, entry-other s k j (recovered (current s k)) n)
    | inr e ↦ ground (arith, e)
  ]

  -- The entry that a write sets is the one read next.
  current-set_entry : (s : State) (c : KshetraState) → current (set_entry s k c) k ≡ c
  current-set_entry s c = rw (entry-set_entry s k c)

  pub Write-stuck :
      (s s' : State)
      → Write k s s'
      → is_some (current s k).stuck ≡ true
      → is_some (current s' k).stuck ≡ true
  Write-stuck s s' (pauses now manual reason message) h = rw (current-set_entry s _) h
  Write-stuck s s' (progresses now) h = rw (current-set_entry s _) h
  Write-stuck s s' (stalls outcome) h = rw (current-set_entry s _) h
  Write-stuck s s' (marks info) h = rw (current-set_entry s _) refl
  Write-stuck s s' (enters phase) h = rw (current-set_entry s _) h
  Write-stuck s s' (ablates ablations) h = rw (current-set_entry s _) h
  Write-stuck s s' (accepts count) h = rw (current-set_entry s _) h
  Write-stuck s s' (attempts bead) h = rw (current-set_entry s _) h
  Write-stuck s s' (succeeds bead) h =
      elim (Option-cases (entry (current s k).bead_attempts bead)) [
        | inl e ↦ ground (arith, e, h)
        | inr (c, e) ↦ ground (arith, e, h, current-set_entry s (cleared bead (current s k)))
      ]

-- Any sequence of writes and acknowledgments of one Kshetra leaves the entry of another one as it is.
pub Runs-others : (k j : String) (s s' : State) → k ≢ j → Runs k s s' → entry s' j ≡ entry s j
Runs-others k j s s' n stop = refl
Runs-others k j s s' n (write {t} w r) = Runs-others k j t s' n r ∙ Write-others k s t j n w
Runs-others k j s s' n (ack {t} a r) = Runs-others k j t s' n r ∙ Ack-others k s t j n a
