-- ===== src/Prelude/Lists.antt =====
-- Lists measured by native numbers, Boolean quantifiers over them, and predicates on every member.
use Prim.Native.Nat.{ℕ, zero, suc}
use mathlib.Core.Path.{◌≡◌, refl, sym, subst}
use mathlib.Core.Logic.{inl, inr}
use mathlib.Core.Bool.{Bool, true, false, ◌&&◌, ◌||◌}
use mathlib.Core.Option.{Option, none, some}
use mathlib.Core.List.{List, [], ◌∷◌, Memᴰ}
use native.Mathlib.Omega.{arith}
use ori_skills_hub.Prelude.Tests.{Bool-cases}

module _ {ℓ} {A : Type ℓ} where
  abbrev pub length : List A → ℕ
  length [] = 0
  length (x ∷ xs) = suc (length xs)

  abbrev pub take : ℕ → List A → List A
  take zero xs = []
  take (suc n) [] = []
  take (suc n) (x ∷ xs) = x ∷ take n xs

  abbrev pub drop : ℕ → List A → List A
  drop zero xs = xs
  drop (suc n) [] = []
  drop (suc n) (x ∷ xs) = drop n xs

  abbrev pub is_nil : List A → Bool
  is_nil [] = true
  is_nil (x ∷ xs) = false

  unfoldable pub any : (A → Bool) → List A → Bool
  any p [] = false
  any p (x ∷ xs) = p x || any p xs

  unfoldable pub all : (A → Bool) → List A → Bool
  all p [] = true
  all p (x ∷ xs) = p x && all p xs

  unfoldable pub select : (A → Bool) → List A → List A
  select p [] = []
  select p (x ∷ xs) = let rest = select p xs in elim (p x) [ true ↦ x ∷ rest | false ↦ rest ]

  unfoldable pub find : (A → Bool) → List A → Option A
  find p [] = none
  find p (x ∷ xs) = let rest = find p xs in elim (p x) [ true ↦ some x | false ↦ rest ]

  -- The rows that satisfy `p`, rewritten by `f`: SQL's `UPDATE ... WHERE`.
  unfoldable pub update_where : (A → Bool) → (A → A) → List A → List A
  update_where p f [] = []
  update_where p f (x ∷ xs) = elim (p x) [ true ↦ f x | false ↦ x ] ∷ update_where p f xs

  -- Every member satisfies `P`.
  abbrev pub All {κ} : (A → Type κ) → List A → Type κ
  All P [] = Unit
  All P (x ∷ xs) = P x × All P xs

  pub any-false : (p : A → Bool) (xs : List A) (x : A) → any p xs ≡ false → Memᴰ x xs → p x ≡ false
  unfolding any
  any-false p [] x h m = elim m [ ]
  any-false p (y ∷ ys) x h (Memᴰ.head e) = ground arith
  any-false p (y ∷ ys) x h (Memᴰ.tail m) = any-false p ys x (ground arith) m

  any-true-cons :
      (p : A → Bool) (y : A) (ys : List A) (b : Bool)
      → p y ≡ b
      → any p (y ∷ ys) ≡ true
      → (any p ys ≡ true → (x : A) × Memᴰ x ys × (p x ≡ true))
      → (x : A) × Memᴰ x (y ∷ ys) × (p x ≡ true)
  unfolding any
  any-true-cons p y ys true e h rest = (y, Memᴰ.head refl, e)
  any-true-cons p y ys false e h rest = let (x, m, q) = rest (ground arith) in (x, Memᴰ.tail m, q)

  pub any-true : (p : A → Bool) (xs : List A) → any p xs ≡ true → (x : A) × Memᴰ x xs × (p x ≡ true)
  unfolding any
  any-true p [] h = cc
  any-true p (y ∷ ys) h = any-true-cons p y ys (p y) refl h (any-true p ys)

  pub any-intro : (p : A → Bool) (xs : List A) (x : A) → Memᴰ x xs → p x ≡ true → any p xs ≡ true
  unfolding any
  any-intro p [] x m h = elim m [ ]
  any-intro p (y ∷ ys) x (Memᴰ.head e) h = ground arith
  any-intro p (y ∷ ys) x (Memᴰ.tail m) h = ground (arith, any-intro p ys x m h)

  pub mem-update_where_miss :
      (p : A → Bool) (f : A → A) (xs : List A) (x : A)
      → Memᴰ x xs
      → p x ≡ false
      → Memᴰ x (update_where p f xs)
  unfolding update_where
  mem-update_where_miss p f [] x m h = elim m [ ]
  mem-update_where_miss p f (y ∷ ys) x (Memᴰ.head e) h = Memᴰ.head (ground arith)
  mem-update_where_miss p f (y ∷ ys) x (Memᴰ.tail m) h =
      Memᴰ.tail (mem-update_where_miss p f ys x m h)

  pub mem-update_where_hit :
      (p : A → Bool) (f : A → A) (xs : List A) (x : A)
      → Memᴰ x xs
      → p x ≡ true
      → Memᴰ (f x) (update_where p f xs)
  unfolding update_where
  mem-update_where_hit p f [] x m h = elim m [ ]
  mem-update_where_hit p f (y ∷ ys) x (Memᴰ.head e) h = Memᴰ.head (ground arith)
  mem-update_where_hit p f (y ∷ ys) x (Memᴰ.tail m) h =
      Memᴰ.tail (mem-update_where_hit p f ys x m h)

  pub find-some :
      (p : A → Bool) (xs : List A) {x : A} → find p xs ≡ some x → Memᴰ x xs × (p x ≡ true)
  unfolding find
  find-some p [] h = cc
  find-some p (y ∷ ys) {x} h = elim (Bool-cases (p y)) [
    | inl e ↦ (Memᴰ.head (ground arith), ground arith)
    | inr e ↦ let (m, q) = find-some p ys {x = x} (ground arith) in (Memᴰ.tail m, q)
  ]

  pub select-mem :
      (p : A → Bool) (xs : List A) (x : A) → Memᴰ x (select p xs) → Memᴰ x xs × (p x ≡ true)
  unfolding select
  select-mem p [] x m = elim m [ ]
  select-mem p (y ∷ ys) x m = select_mem_cons p y ys x (p y) refl (select-mem p ys x) m
    where
      select_mem_cons :
          (p : A → Bool) (y : A) (ys : List A) (x : A) (b : Bool)
          → p y ≡ b
          → (Memᴰ x (select p ys) → Memᴰ x ys × (p x ≡ true))
          → Memᴰ x (elim b [ true ↦ y ∷ select p ys | false ↦ select p ys ])
          → Memᴰ x (y ∷ ys) × (p x ≡ true)
      select_mem_cons p y ys x true e rest (Memᴰ.head i) = (Memᴰ.head i, rw i e)
      select_mem_cons p y ys x true e rest (Memᴰ.tail m) = let (n, q) = rest m in (Memᴰ.tail n, q)
      select_mem_cons p y ys x false e rest m = let (n, q) = rest m in (Memᴰ.tail n, q)

module _ {ℓ κ} {A : Type ℓ} (P : A → Type κ) where
  pub All-mem : (xs : List A) (x : A) → All P xs → Memᴰ x xs → P x
  All-mem [] x h m = elim m [ ]
  All-mem (y ∷ ys) x h (Memᴰ.head e) = subst P (sym e) h.0
  All-mem (y ∷ ys) x h (Memᴰ.tail m) = All-mem ys x h.1 m

  pub All-intro : (xs : List A) → ((x : A) → Memᴰ x xs → P x) → All P xs
  All-intro [] f = tt
  All-intro (y ∷ ys) f = (f y (Memᴰ.head refl), All-intro ys (λ x m. f x (Memᴰ.tail m)))

module _ {ℓ κ} {A : Type ℓ} (P Q : A → Type κ) where
  pub All-map : (xs : List A) → ((x : A) → P x → Q x) → All P xs → All Q xs
  All-map [] f h = tt
  All-map (x ∷ xs) f h = (f x h.0, All-map xs f h.1)

  update_one :
      (f : A → A) (x : A) (b : Bool)
      → (b ≡ true → Q (f x))
      → (b ≡ false → Q x)
      → Q (elim b [ true ↦ f x | false ↦ x ])
  update_one f x true hit miss = hit refl
  update_one f x false hit miss = miss refl

  -- After `update_where`, a rewritten row satisfies `Q` by `hit`, any other by `miss`.
  pub All-update :
      (p : A → Bool) (f : A → A) (xs : List A)
      → All P xs
      → ((x : A) → Memᴰ x xs → P x → p x ≡ true → Q (f x))
      → ((x : A) → Memᴰ x xs → P x → p x ≡ false → Q x)
      → All Q (update_where p f xs)
  unfolding update_where
  All-update p f [] h hit miss = tt
  All-update p f (x ∷ xs) h hit miss = (
    update_one f x (p x) (hit x (Memᴰ.head refl) h.0) (miss x (Memᴰ.head refl) h.0),
    All-update p f xs h.1 (λ y m. hit y (Memᴰ.tail m)) (λ y m. miss y (Memᴰ.tail m)),
  )
