-- ===== src/Scanner/Counts.antt =====
-- hub/integrations/scan.py: the counts behind a clean result.
use ori_skills_hub.Prelude.{
  ℕ, ◌+◌, ◌<◌, List, [], ◌∷◌, ◌≡◌, refl, sym, ap, subst, ◌∙◌, Text, Bool, true, false, Option, none,
  some, codes, text_eq, ltb, leb, ◌==◌, arith, ok, err, >>=-eq-ok, ok-eq, if◌then◌else◌,
}
use ori_skills_hub.Value.{Value, integer, pos, negsuc, Fields, get}
use ori_skills_hub.Scanner.{
  ScanResult, invalid_response, non_negative_count, sum_counts, inconclusive_stat_names,
  verdict_of_counts, completed_verdict, pending,
}

abbrev pub HasCount : Fields → Text → ℕ → Type 0
HasCount stats key n = get stats key ≡ integer (pos n)

-- The statistics say that the analysis is clean.
pub record IsClean (stats : Fields) : Type 0 where
  pub harmless : ℕ
  pub undetected : ℕ
  pub failed : ℕ
  pub timed_out : ℕ
  pub slow : ℕ
  pub unsupported : ℕ
  pub no_malicious : HasCount stats (codes "malicious") 0
  pub no_suspicious : HasCount stats (codes "suspicious") 0
  pub harmless_count : HasCount stats (codes "harmless") harmless
  pub undetected_count : HasCount stats (codes "undetected") undetected
  pub failed_count : HasCount stats (codes "failure") failed
  pub timed_out_count : HasCount stats (codes "timeout") timed_out
  pub slow_count : HasCount stats (codes "confirmed-timeout") slow
  pub unsupported_count : HasCount stats (codes "type-unsupported") unsupported
  pub majority : undetected + failed + timed_out + slow + unsupported < harmless

pub non_negative_count-HasCount :
    (stats : Fields) (key : Text) (n : ℕ)
    → non_negative_count stats key ≡ ok n
    → HasCount stats key n
unfolding non_negative_count
non_negative_count-HasCount stats key n h = of_value (get stats key) h
  where
    of_value :
        (v : Value)
        → elim v [
          | integer z ↦ elim z [ pos k ↦ ok k | negsuc k ↦ err invalid_response ]
          | _ ↦ err invalid_response
        ]
          ≡ ok n
        → v ≡ integer (pos n)
    of_value (integer (pos k)) h = ap (λ i. integer (pos i)) (ok-eq k n h)
    of_value (integer (negsuc k)) h = cc
    of_value v h = cc

pub sum_counts-cons :
    (stats : Fields) (key : Text) (names : List Text) (total : ℕ)
    → sum_counts stats (key ∷ names) ≡ ok total
    → (n : ℕ) × (rest : ℕ) × HasCount stats key n
      × (sum_counts stats names ≡ ok rest)
      × (total ≡ n + rest)
unfolding sum_counts
sum_counts-cons stats key names total h =
    let (n, e, k) = >>=-eq-ok (non_negative_count stats key) _ h in
    let (rest, e1, k1) = >>=-eq-ok (sum_counts stats names) _ k in
    (n, rest, non_negative_count-HasCount stats key n e, e1, sym (ok-eq _ total k1))

pub sum_counts-nil : (stats : Fields) (total : ℕ) → sum_counts stats [] ≡ ok total → total ≡ 0
unfolding sum_counts
sum_counts-nil stats total h = sym (ok-eq 0 total h)

-- The counts behind a clean verdict.
pub counts-IsClean :
    (stats : Fields) (harmless inconclusive : ℕ)
    → HasCount stats (codes "malicious") 0
    → HasCount stats (codes "suspicious") 0
    → HasCount stats (codes "harmless") harmless
    → sum_counts stats inconclusive_stat_names ≡ ok inconclusive
    → inconclusive < harmless
    → IsClean stats
counts-IsClean stats harmless inconclusive m s n sum lt =
    let (a, ra, ha, h1, e1) = sum_counts-cons stats _ _ inconclusive sum in
    let (b, rb, hb, h2, e2) = sum_counts-cons stats _ _ ra h1 in
    let (c, rc, hc, h3, e3) = sum_counts-cons stats _ _ rb h2 in
    let (d, rd, hd, h4, e4) = sum_counts-cons stats _ _ rc h3 in
    let (e, re, he, h5, e5) = sum_counts-cons stats _ _ rd h4 in
    record {
      harmless = harmless;
      undetected = a;
      failed = b;
      timed_out = c;
      slow = d;
      unsupported = e;
      no_malicious = m;
      no_suspicious = s;
      harmless_count = n;
      undetected_count = ha;
      failed_count = hb;
      timed_out_count = hc;
      slow_count = hd;
      unsupported_count = he;
      majority = omega (arith, e1, e2, e3, e4, e5, sum_counts-nil stats re h5, lt);
    }

abbrev pub HasCleanStatus : ScanResult → Type 0
HasCleanStatus r = text_eq r.status (codes "clean") ≡ true

-- Where one branch is not clean, a clean result is that of the other.
pub HasCleanStatus-if :
    (b : Bool) (r other : ScanResult)
    → text_eq r.status (codes "clean") ≡ false
    → HasCleanStatus (if b then r else other)
    → (b ≡ false) × HasCleanStatus other
HasCleanStatus-if true r other n h = cc
HasCleanStatus-if false r other n h = (refl, h)

pub verdict_of_counts-clean :
    (m s h i : ℕ) → HasCleanStatus (verdict_of_counts m s h i) → (m ≡ 0) × (s ≡ 0) × (i < h)
unfolding verdict_of_counts pending text_eq
verdict_of_counts-clean m s h i e =
    let (m0, e1) = HasCleanStatus-if (ltb 0 m) _ _ refl e in
    let (s0, e2) = HasCleanStatus-if (ltb 0 s) _ _ refl e1 in
    let (_, e3) = HasCleanStatus-if (h == 0) _ _ refl e2 in
    let (lt, _) = HasCleanStatus-if (leb h i) _ _ refl e3 in
    (ground (arith, m0), ground (arith, s0), ground (arith, lt))

pub completed_verdict-IsClean :
    (raw : Option Fields) (r : ScanResult)
    → completed_verdict raw ≡ ok r
    → HasCleanStatus r
    → (stats : Fields) × (raw ≡ some stats) × IsClean stats
unfolding completed_verdict
completed_verdict-IsClean none r h e = cc
completed_verdict-IsClean (some stats) r h e =
    let (m, hm, k) = >>=-eq-ok (non_negative_count stats (codes "malicious")) _ h in
    let (s, hs, k1) = >>=-eq-ok (non_negative_count stats (codes "suspicious")) _ k in
    let (n, hn, k2) = >>=-eq-ok (non_negative_count stats (codes "harmless")) _ k1 in
    let (i, hi, k3) = >>=-eq-ok (sum_counts stats inconclusive_stat_names) _ k2 in
    let (zm, zs, lt) =
      verdict_of_counts-clean m s n i (subst HasCleanStatus (sym (ok-eq _ r k3)) e) in
    (
      stats,
      refl,
      counts-IsClean stats n i (non_negative_count-HasCount stats _ 0 (hm ∙ ap ok zm))
          (non_negative_count-HasCount stats _ 0 (hs ∙ ap ok zs))
          (non_negative_count-HasCount stats _ n hn) hi lt,
    )
