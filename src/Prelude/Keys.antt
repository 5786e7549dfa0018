-- ===== src/Prelude/Keys.antt =====
-- Tables whose rows have a key that no two rows share.
use mathlib.Core.Path.{◌≡◌, refl, sym, ap, ◌∙◌}
use mathlib.Core.Bool.{Bool, false}
use mathlib.Core.List.{List, [], ◌∷◌, Memᴰ}
use native.Mathlib.Omega.{arith}
use ori_skills_hub.Prelude.Lists.{any, any-false, All, update_where}
use ori_skills_hub.Prelude.Strings.{Text, text_eq, text_eq_iff, text_eq_comm}
use ori_skills_hub.Prelude.Tests.{||-split}

-- `t in seen`
abbrev pub contains : List Text → Text → Bool
contains seen t = any (λ s. text_eq s t) seen

module _ {A : Type 0} (key : A → Text) where
  abbrev pub has_key : Text → A → Bool
  has_key k a = text_eq (key a) k

  abbrev pub UniqueBy : List A → Type 0
  UniqueBy [] = Unit {0}
  UniqueBy (a ∷ rows) = (any (has_key (key a)) rows ≡ false) × UniqueBy rows

  absent_key :
      (a b c : A) (rows : List A)
      → a ≡ c
      → key a ≡ key b
      → any (has_key (key c)) rows ≡ false
      → Memᴰ b rows
      → ⊥
  absent_key a b c rows p e h m =
      cc
        (any-false (has_key (key c)) rows b h m, (text_eq_iff (key b) (key c)).1 (sym e ∙ ap key p))

  -- Two rows of one key are one row.
  pub UniqueBy-eq :
      (rows : List A) (a b : A) → UniqueBy rows → Memᴰ a rows → Memᴰ b rows → key a ≡ key b → a ≡ b
  UniqueBy-eq [] a b u m n e = elim m [ ]
  UniqueBy-eq (c ∷ rows) a b u (Memᴰ.head p) (Memᴰ.head q) e = p ∙ sym q
  UniqueBy-eq (c ∷ rows) a b u (Memᴰ.head p) (Memᴰ.tail n) e =
      absurd (absent_key a b c rows p e u.0 n)
  UniqueBy-eq (c ∷ rows) a b u (Memᴰ.tail m) (Memᴰ.head q) e =
      absurd (absent_key b a c rows q (sym e) u.0 m)
  UniqueBy-eq (c ∷ rows) a b u (Memᴰ.tail m) (Memᴰ.tail n) e = UniqueBy-eq rows a b u.1 m n e

  -- A rewriting that keeps the keys keeps what is said of them.
  pub any-has_key-update :
      (k : Text) (p : A → Bool) (f : A → A) (rows : List A)
      → ((a : A) → key (f a) ≡ key a)
      → any (has_key k) (update_where p f rows) ≡ any (has_key k) rows
  unfolding any update_where
  any-has_key-update k p f [] keep = refl
  any-has_key-update k p f (a ∷ rows) keep =
      ground (arith, any-has_key-update k p f rows keep, keep a)

  pub UniqueBy-update :
      (p : A → Bool) (f : A → A) (rows : List A)
      → ((a : A) → key (f a) ≡ key a)
      → UniqueBy rows
      → UniqueBy (update_where p f rows)
  unfolding update_where
  UniqueBy-update p f [] keep u = tt
  UniqueBy-update p f (a ∷ rows) keep u = (
    ground (
      arith,
      any-has_key-update (key a) p f rows keep,
      any-has_key-update (key (f a)) p f rows keep,
      keep a,
    ),
    UniqueBy-update p f rows keep u.1,
  )

  -- The rows have none of the keys seen before them.
  abbrev pub FreshBy : List Text → List A → Type 0
  FreshBy seen rows = All (λ a. contains seen (key a) ≡ false) rows

  fresh_keys :
      (k : Text) (seen : List Text) (rows : List A)
      → FreshBy (k ∷ seen) rows
      → (any (has_key k) rows ≡ false) × FreshBy seen rows
  unfolding any
  fresh_keys k seen [] h = (refl, tt)
  fresh_keys k seen (a ∷ rows) h =
      let (n, f) = fresh_keys k seen rows h.1 in
      let (x, y) = ||-split (text_eq k (key a)) (contains seen (key a)) h.0 in
      (rw (text_eq_comm (key a) k, x) n, (y, f))

  -- A row whose key is new, before rows whose keys are new after it.
  pub UniqueBy-cons :
      (seen : List Text) (a : A) (rows : List A)
      → contains seen (key a) ≡ false
      → FreshBy (key a ∷ seen) rows
      → UniqueBy rows
      → FreshBy seen (a ∷ rows) × UniqueBy (a ∷ rows)
  UniqueBy-cons seen a rows c f u = let (n, g) = fresh_keys (key a) seen rows f in ((c, g), (n, u))
