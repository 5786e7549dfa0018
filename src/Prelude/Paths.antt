-- ===== src/Prelude/Paths.antt =====
-- `str.split`, `str.join` and `str.startswith` with a separator of one character.
use Prim.Native.Nat.{ℕ, ◌≤◌, ◌<◌}
use mathlib.Core.Path.{◌≡◌, refl, sym, ap, subst, ◌∙◌}
use mathlib.Core.Bool.{Bool, true, false, ◌&&◌, not}
use mathlib.Core.Logic.{inl, inr}
use mathlib.Core.List.{List, [], ◌∷◌, ◌++◌}
use native.Mathlib.Omega.{arith}
use ori_skills_hub.Prelude.Tests.{◌==◌, if◌then◌else◌, Bool-cases}
use ori_skills_hub.Prelude.Lists.{any, All, length, take, is_nil}
use ori_skills_hub.Prelude.Strings.{Text}

-- The character before the first part.
abbrev pub onto_first : ℕ → List Text → List Text
onto_first c [] = (c ∷ []) ∷ []
onto_first c (part ∷ parts) = (c ∷ part) ∷ parts

unfoldable pub split : ℕ → Text → List Text
split sep [] = [] ∷ []
split sep (c ∷ s) = let rest = split sep s in if c == sep then [] ∷ rest else onto_first c rest

unfoldable pub join : ℕ → List Text → Text
join sep [] = []
join sep (part ∷ []) = part
join sep (part ∷ next ∷ parts) = part ++ sep ∷ join sep (next ∷ parts)

unfoldable pub starts_with : Text → Text → Bool
starts_with [] s = true
starts_with (a ∷ t) [] = false
starts_with (a ∷ t) (b ∷ s) = (a == b) && starts_with t s

module _ (sep : ℕ) where
  is_nil-onto_first : (c : ℕ) (parts : List Text) → is_nil (onto_first c parts) ≡ false
  is_nil-onto_first c [] = refl
  is_nil-onto_first c (part ∷ parts) = refl

  pub is_nil-split : (s : Text) → is_nil (split sep s) ≡ false
  unfolding split
  is_nil-split [] = refl
  is_nil-split (c ∷ s) = ground (arith, is_nil-onto_first c (split sep s))

  join-onto_first :
      (c : ℕ) (parts : List Text)
      → is_nil parts ≡ false
      → join sep (onto_first c parts) ≡ c ∷ join sep parts
  unfolding join
  join-onto_first c [] h = cc
  join-onto_first c (part ∷ []) h = refl
  join-onto_first c (part ∷ next ∷ parts) h = refl

  join_after_sep :
      (parts : List Text) → is_nil parts ≡ false → join sep ([] ∷ parts) ≡ sep ∷ join sep parts
  unfolding join
  join_after_sep [] h = cc
  join_after_sep (part ∷ parts) h = refl

  -- Joining the parts gives the text back.
  pub join-split : (s : Text) → join sep (split sep s) ≡ s
  unfolding split join
  join-split [] = refl
  join-split (c ∷ s) =
      let whole = is_nil-split s in
      elim (Bool-cases (c == sep)) [
        | inl e ↦ ground (arith, e, join_after_sep (split sep s) whole, join-split s)
        | inr e ↦ ground (arith, e, join-onto_first c (split sep s) whole, join-split s)
      ]

  onto_first-append :
      (c : ℕ) (parts more : List Text)
      → is_nil parts ≡ false
      → onto_first c (parts ++ more) ≡ onto_first c parts ++ more
  onto_first-append c [] more h = cc
  onto_first-append c (part ∷ parts) more h = refl

  pub split-append : (a t : Text) → split sep (a ++ sep ∷ t) ≡ split sep a ++ split sep t
  unfolding split
  split-append [] t = ground arith
  split-append (c ∷ a) t = elim (Bool-cases (c == sep)) [
    | inl e ↦ ground (arith, e, split-append a t)
    | inr e ↦ ground (
      arith,
      e,
      split-append a t,
      onto_first-append c (split sep a) (split sep t) (is_nil-split a),
    )
  ]

  abbrev pub is_free : Text → Bool
  is_free part = not (any (λ c. c == sep) part)

  onto_first-free :
      (c : ℕ) (parts : List Text)
      → (c == sep) ≡ false
      → All (λ part. is_free part ≡ true) parts
      → All (λ part. is_free part ≡ true) (onto_first c parts)
  unfolding any
  onto_first-free c [] e h = (ground (arith, e), tt)
  onto_first-free c (part ∷ parts) e h = (ground (arith, e, h.0), h.1)

  -- No part has the separator.
  pub split-free : (s : Text) → All (λ part. is_free part ≡ true) (split sep s)
  unfolding split any
  split-free [] = (refl, tt)
  split-free (c ∷ s) = elim (Bool-cases (c == sep)) [
    | inl e ↦ rw e (refl, split-free s)
    | inr e ↦ rw e (onto_first-free c (split sep s) e (split-free s))
  ]

  split_free_text : (part : Text) → is_free part ≡ true → split sep part ≡ part ∷ []
  unfolding split any
  split_free_text [] h = refl
  split_free_text (c ∷ part) h = elim (Bool-cases (c == sep)) [
    | inl e ↦ ground (arith, e, h)
    | inr e ↦ ground (arith, e, split_free_text part (ground (arith, e, h)))
  ]

  -- Parts without the separator come back from their text.
  pub split-join :
      (parts : List Text)
      → is_nil parts ≡ false
      → All (λ part. is_free part ≡ true) parts
      → split sep (join sep parts) ≡ parts
  unfolding join
  split-join [] n h = cc
  split-join (part ∷ []) n h = split_free_text part h.0
  split-join (part ∷ next ∷ parts) n h =
      split-append part (join sep (next ∷ parts))
      ∙ rw (split_free_text part h.0, split-join (next ∷ parts) refl h.1) refl

pub starts_with-append : (a b : Text) → starts_with a b ≡ true → (t : Text) × (b ≡ a ++ t)
unfolding starts_with
starts_with-append [] b h = (b, refl)
starts_with-append (x ∷ a) [] h = cc
starts_with-append (x ∷ a) (y ∷ b) h =
    let (t, e) = starts_with-append a b (ground arith) in (t, ground (arith, e))

take-append : {A : Type 0} (xs ys : List A) → take (length xs) (xs ++ ys) ≡ xs
take-append [] ys = refl
take-append (x ∷ xs) ys = ap (λ r. x ∷ r) (take-append xs ys)

length-some : {A : Type 0} (xs : List A) → is_nil xs ≡ false → 1 ≤ length xs
length-some [] h = cc
length-some (x ∷ xs) h = omega arith

length-append_some :
    {A : Type 0} (xs ys : List A) → is_nil ys ≡ false → length xs < length (xs ++ ys)
length-append_some [] [] h = cc
length-append_some [] (y ∷ ys) h = omega arith
length-append_some (x ∷ xs) ys h = omega (arith, length-append_some xs ys h)

append_one : {A : Type 0} (x : A) (xs ys : List A) → (xs ++ x ∷ []) ++ ys ≡ xs ++ x ∷ ys
append_one x [] ys = refl
append_one x (z ∷ xs) ys = ap (λ r. z ∷ r) (append_one x xs ys)

-- `f"{a}/"` begins the text exactly where the text has `a` as one of its prefixes of whole parts.
pub starts_with-prefix :
    (sep : ℕ) (a b : Text)
    → starts_with (a ++ sep ∷ []) b ≡ true
    → (n : ℕ) × (1 ≤ n) × (n < length (split sep b)) × (join sep (take n (split sep b)) ≡ a)
starts_with-prefix sep a b h =
    let (t, e) = starts_with-append (a ++ sep ∷ []) b h in
    let parts : split sep b ≡ split sep a ++ split sep t =
      ap (split sep) (e ∙ append_one sep a t) ∙ split-append sep a t in
    (
      length (split sep a),
      length-some (split sep a) (is_nil-split sep a),
      subst (λ ps. length (split sep a) < length ps) (sym parts)
          (length-append_some (split sep a) (split sep t) (is_nil-split sep t)),
      ap (λ ps. join sep (take (length (split sep a)) ps)) parts
          ∙ ap (join sep) (take-append (split sep a) (split sep t))
          ∙ join-split sep a,
    )
