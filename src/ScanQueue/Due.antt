-- ===== src/ScanQueue/Due.antt =====
-- hub/db/scans.py: the WHERE clause and the ORDER BY of `claim_due`, spelled out.
use ori_skills_hub.Prelude.{
  ℕ, ◌≤◌, ◌<◌, ◌≡◌, refl, ◌||◌, ◌==◌, ltb, ◌⊎◌, inl, inr, Bool, true, false, not, ◌&&◌, Option,
  none, some, List, All, Memᴰ, leb, leb→le, &&-split, arith,
}
use ori_skills_hub.Core.{
  ScanJobState, pending_submission, submitted, polling, malicious, manual_review, exhausted,
  is_terminal,
}
use ori_skills_hub.Database.{ScanJob}
use ori_skills_hub.ScanQueue.{is_due, before}

abbrev pub IsOpen : ScanJobState → Type 0
IsOpen pending_submission = Unit
IsOpen submitted = Unit
IsOpen polling = Unit
IsOpen ScanJobState.clean = ⊥
IsOpen malicious = ⊥
IsOpen manual_review = ⊥
IsOpen exhausted = ⊥

-- No lease, or a lease that has run out.
abbrev pub IsFree : ℕ → Option ℕ → Type 0
IsFree now none = Unit
IsFree now (some expires) = expires ≤ now

-- The job is open, its time has come, and nobody holds it.
pub record IsDue (now : ℕ) (j : ScanJob) : Type 0 where
  pub unfinished : IsOpen j.state
  pub reached : j.next_attempt_at ≤ now
  pub free : IsFree now j.lease_expires_at

-- By next_attempt_at, and where that is equal by created_at.
abbrev pub Precedes : ScanJob → ScanJob → Type 0
Precedes a b =
    (a.next_attempt_at < b.next_attempt_at)
    ⊎ ((a.next_attempt_at ≡ b.next_attempt_at) × (a.created_at ≤ b.created_at))

-- The job is due, and precedes every job that is due.
pub record IsFirst (now : ℕ) (jobs : List ScanJob) (c : ScanJob) : Type 0 where
  pub present : Memᴰ c jobs
  pub due : IsDue now c
  pub first : All (λ k. IsDue now k → Precedes c k) jobs

abbrev pub IsIdle : ℕ → List ScanJob → Type 0
IsIdle now = All (λ k. IsDue now k → ⊥)

IsOpen-of_state : (s : ScanJobState) → is_terminal s ≡ false → IsOpen s
IsOpen-of_state pending_submission h = tt
IsOpen-of_state submitted h = tt
IsOpen-of_state polling h = tt
IsOpen-of_state ScanJobState.clean h = cc
IsOpen-of_state malicious h = cc
IsOpen-of_state manual_review h = cc
IsOpen-of_state exhausted h = cc

state_of_open : (s : ScanJobState) → IsOpen s → is_terminal s ≡ false
state_of_open pending_submission h = refl
state_of_open submitted h = refl
state_of_open polling h = refl
state_of_open ScanJobState.clean h = absurd h
state_of_open malicious h = absurd h
state_of_open manual_review h = absurd h
state_of_open exhausted h = absurd h

IsFree-of_lease :
    (now : ℕ) (o : Option ℕ)
    → elim o [ none ↦ true | some expires ↦ leb expires now ] ≡ true
    → IsFree now o
IsFree-of_lease now none h = tt
IsFree-of_lease now (some expires) h = leb→le expires now h

lease_of_free :
    (now : ℕ) (o : Option ℕ)
    → IsFree now o
    → elim o [ none ↦ true | some expires ↦ leb expires now ] ≡ true
lease_of_free now none h = refl
lease_of_free now (some expires) h = ground (arith, h)

pub is_due-IsDue : (now : ℕ) (j : ScanJob) → is_due now j ≡ true → IsDue now j
unfolding is_due
is_due-IsDue now j h =
    let (b, d) = &&-split (not (is_terminal j.state) && leb j.next_attempt_at now) _ h in
    let (a, c) = &&-split (not (is_terminal j.state)) (leb j.next_attempt_at now) b in
    record {
      unfinished = IsOpen-of_state j.state (not_true (is_terminal j.state) a);
      reached = leb→le j.next_attempt_at now c;
      free = IsFree-of_lease now j.lease_expires_at d;
    }
  where
    not_true : (b : Bool) → not b ≡ true → b ≡ false
    not_true b h = ground arith

pub IsDue-is_due : (now : ℕ) (j : ScanJob) → IsDue now j → is_due now j ≡ true
unfolding is_due
IsDue-is_due now j h =
    rw (state_of_open j.state h.unfinished)
      (rw (lease_of_free now j.lease_expires_at h.free) (ground (arith, h.reached)))

pub before-Precedes : (a b : ScanJob) → before a b ≡ true → Precedes a b
unfolding before
before-Precedes a b h = go (ltb a.next_attempt_at b.next_attempt_at) refl h
  where
    go :
        (c : Bool)
        → ltb a.next_attempt_at b.next_attempt_at ≡ c
        → (c || a.next_attempt_at == b.next_attempt_at && leb a.created_at b.created_at) ≡ true
        → Precedes a b
    go true e h = inl (ground (arith, e))
    go false e h =
        let (same, older) = &&-split (a.next_attempt_at == b.next_attempt_at) _ h in
        inr (ground (arith, same), leb→le _ _ older)
