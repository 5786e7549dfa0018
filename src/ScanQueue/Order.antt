-- ===== src/ScanQueue/Order.antt =====
-- The choice of `claim_due`: a job that is due, and that no other due job comes before.
use ori_skills_hub.Prelude.{
  ℕ, ◌≡◌, refl, Bool, true, false, Option, none, some, List, [], ◌∷◌, All, All-map, Memᴰ, arith,
  if◌then◌else◌,
}
use ori_skills_hub.Database.{ScanJob}
use ori_skills_hub.ScanQueue.{is_due, before, candidate}

pub before_refl : (a : ScanJob) → before a a ≡ true
unfolding before
before_refl a = ground arith

before_trans : (a b c : ScanJob) → before a b ≡ true → before b c ≡ true → before a c ≡ true
unfolding before
before_trans a b c h k = ground arith

before_total : (a b : ScanJob) → before a b ≡ false → before b a ≡ true
unfolding before
before_total a b h = ground arith

-- `c` is due among `jobs`, and before every job there that is due.
pub record IsFirstDue (now : ℕ) (jobs : List ScanJob) (c : ScanJob) : Type 0 where
  pub present : Memᴰ c jobs
  pub due : is_due now c ≡ true
  pub first : All (λ k. is_due now k ≡ true → before c k ≡ true) jobs

abbrev pub NoneDue : ℕ → List ScanJob → Type 0
NoneDue now = All (λ k. is_due now k ≡ false)

-- What `candidate` says of a list.
abbrev pub Chosen : ℕ → List ScanJob → Option ScanJob → Type 0
Chosen now jobs none = NoneDue now jobs
Chosen now jobs (some c) = IsFirstDue now jobs c

abbrev choose : ScanJob → Option ScanJob → Option ScanJob
choose j none = some j
choose j (some k) = if before j k then some j else some k

choose-Chosen :
    (now : ℕ) (j : ScanJob) (jobs : List ScanJob) (o : Option ScanJob)
    → is_due now j ≡ true
    → Chosen now jobs o
    → Chosen now (j ∷ jobs) (choose j o)
choose-Chosen now j jobs none d h = record {
  present = Memᴰ.head refl;
  due = d;
  first = (
    λ _. before_refl j,
    All-map (λ k. is_due now k ≡ false) (λ k. is_due now k ≡ true → before j k ≡ true) jobs
        (λ k n y. cc) h,
  );
}
choose-Chosen now j jobs (some k) d h = go (before j k) refl
  where
    go : (b : Bool) → before j k ≡ b → Chosen now (j ∷ jobs) (if b then some j else some k)
    go true e = record {
      present = Memᴰ.head refl;
      due = d;
      first = (
        λ _. before_refl j,
        All-map (λ x. is_due now x ≡ true → before k x ≡ true)
            (λ x. is_due now x ≡ true → before j x ≡ true) jobs
            (λ x f y. before_trans j k x e (f y)) h.first,
      );
    }
    go false e = record {
      present = Memᴰ.tail h.present;
      due = h.due;
      first = (λ _. before_total j k e, h.first);
    }

skip-Chosen :
    (now : ℕ) (j : ScanJob) (jobs : List ScanJob) (o : Option ScanJob)
    → is_due now j ≡ false
    → Chosen now jobs o
    → Chosen now (j ∷ jobs) o
skip-Chosen now j jobs none d h = (d, h)
skip-Chosen now j jobs (some k) d h = record {
  present = Memᴰ.tail h.present;
  due = h.due;
  first = (λ y. cc, h.first);
}

pub candidate-Chosen : (now : ℕ) (jobs : List ScanJob) → Chosen now jobs (candidate now jobs)
unfolding candidate
candidate-Chosen now [] = tt
candidate-Chosen now (j ∷ jobs) =
    go (is_due now j) refl (candidate now jobs) (candidate-Chosen now jobs)
  where
    go :
        (b : Bool)
        → is_due now j ≡ b
        → (o : Option ScanJob) → Chosen now jobs o
        → Chosen now (j ∷ jobs) (elim b [
          | false ↦ o
          | true ↦ elim o [ none ↦ some j | some k ↦ if before j k then some j else some k ]
        ])
    go false e o h = skip-Chosen now j jobs o e h
    go true e none h = choose-Chosen now j jobs none e h
    go true e (some k) h = choose-Chosen now j jobs (some k) e h
