-- ===== src/Base/Lists.antt =====
-- C arrays and byte buffers as lists with native indices. A read or a copy out of range is `none`.
use Prim.Native.Nat.{ℕ, zero, suc, ◌+◌, ◌-◌, ◌≤◌, ◌<◌, min}
use mathlib.Core.Path.{◌≡◌, refl, sym, ap, ap₂, subst, ◌∙◌}
use mathlib.Core.Logic.{◌≢◌}
use mathlib.Core.List.{List, [], ◌∷◌, ◌++◌, append_assoc}
use mathlib.Core.Option.{Option, none, some, some-injective}
use native.Mathlib.Nat.{zero-add}
use native.Mathlib.Decide.{ℕ_discrete}
use native.Mathlib.Omega.{arith}
use p2purr.Base.Tests.{ltb, leb, lt→ltb, le→leb, if◌then◌else◌}

module _ {ℓ} {A : Type ℓ} where
  abbrev pub length : List A → ℕ
  length [] = 0
  length (x ∷ xs) = suc (length xs)

  abbrev pub get_elem? : List A → ℕ → Option A
  get_elem? [] i = none
  get_elem? (x ∷ xs) zero = some x
  get_elem? (x ∷ xs) (suc i) = get_elem? xs i

  abbrev pub get_or : List A → ℕ → A → A
  get_or [] i d = d
  get_or (x ∷ xs) zero d = x
  get_or (x ∷ xs) (suc i) d = get_or xs i d

  abbrev pub set : List A → ℕ → A → List A
  set [] i v = []
  set (x ∷ xs) zero v = v ∷ xs
  set (x ∷ xs) (suc i) v = x ∷ set xs i v

  abbrev pub take : ℕ → List A → List A
  take zero xs = []
  take (suc n) [] = []
  take (suc n) (x ∷ xs) = x ∷ take n xs

  abbrev pub drop : ℕ → List A → List A
  drop zero xs = xs
  drop (suc n) [] = []
  drop (suc n) (x ∷ xs) = drop n xs

  abbrev pub replicate : ℕ → A → List A
  replicate zero a = []
  replicate (suc n) a = a ∷ replicate n a

  -- `memcpy(dst + off, src, …)` of all of `src`.
  unfoldable pub memcpy : List A → ℕ → List A → Option (List A)
  memcpy dst off src =
      if leb (off + length src) (length dst)
      then some (take off dst ++ (src ++ drop (off + length src) dst))
      else none

  -- The first `n` items of an array, where it has as many.
  unfoldable pub read_n : ℕ → List A → Option (List A)
  read_n n src = if leb n (length src) then some (take n src) else none

  -- `p[i] = v`
  unfoldable pub store : List A → ℕ → A → Option (List A)
  store p i v = if ltb i (length p) then some (set p i v) else none

  pub length-append : (xs ys : List A) → length (xs ++ ys) ≡ length xs + length ys
  length-append [] ys = omega arith
  length-append (x ∷ xs) ys = omega (arith, length-append xs ys)

  pub length-set : (xs : List A) (i : ℕ) (v : A) → length (set xs i v) ≡ length xs
  length-set [] i v = refl
  length-set (x ∷ xs) zero v = refl
  length-set (x ∷ xs) (suc i) v = ap suc (length-set xs i v)

  pub length-take : (n : ℕ) (xs : List A) → length (take n xs) ≡ min n (length xs)
  length-take zero xs = omega arith
  length-take (suc n) [] = omega arith
  length-take (suc n) (x ∷ xs) = omega (arith, length-take n xs)

  pub length-drop : (n : ℕ) (xs : List A) → length (drop n xs) ≡ length xs - n
  length-drop zero xs = omega arith
  length-drop (suc n) [] = omega arith
  length-drop (suc n) (x ∷ xs) = omega (arith, length-drop n xs)

  pub length-replicate : (n : ℕ) (a : A) → length (replicate n a) ≡ n
  length-replicate zero a = refl
  length-replicate (suc n) a = ap suc (length-replicate n a)

  pub take-length_append : (xs ys : List A) → take (length xs) (xs ++ ys) ≡ xs
  take-length_append [] ys = refl
  take-length_append (x ∷ xs) ys = ap (◌∷◌ x) (take-length_append xs ys)

  pub drop-length_append : (xs ys : List A) → drop (length xs) (xs ++ ys) ≡ ys
  drop-length_append [] ys = refl
  drop-length_append (x ∷ xs) ys = drop-length_append xs ys

  pub take_all : (n : ℕ) (xs : List A) → length xs ≤ n → take n xs ≡ xs
  take_all zero [] h = refl
  take_all zero (x ∷ xs) h = absurd (omega arith)
  take_all (suc n) [] h = refl
  take_all (suc n) (x ∷ xs) h = ap (◌∷◌ x) (take_all n xs (omega arith))

  pub drop_all : (n : ℕ) (xs : List A) → length xs ≤ n → drop n xs ≡ []
  drop_all zero [] h = refl
  drop_all zero (x ∷ xs) h = absurd (omega arith)
  drop_all (suc n) [] h = refl
  drop_all (suc n) (x ∷ xs) h = drop_all n xs (omega arith)

  pub take-append-drop : (n : ℕ) (xs : List A) → take n xs ++ drop n xs ≡ xs
  take-append-drop zero xs = refl
  take-append-drop (suc n) [] = refl
  take-append-drop (suc n) (x ∷ xs) = ap (◌∷◌ x) (take-append-drop n xs)

  pub get_elem?-drop : (n i : ℕ) (xs : List A) → get_elem? (drop n xs) i ≡ get_elem? xs (n + i)
  get_elem?-drop zero i xs = ap (get_elem? xs) (omega arith)
  get_elem?-drop (suc n) i [] = refl
  get_elem?-drop (suc n) i (x ∷ xs) = get_elem?-drop n i xs ∙ ap (get_elem? (x ∷ xs)) (succ_add n i)
    where
      succ_add : (n i : ℕ) → suc (n + i) ≡ suc n + i
      succ_add n i = omega arith

  pub get_elem?-append_left :
      (xs ys : List A) (t : ℕ) → t < length xs → get_elem? (xs ++ ys) t ≡ get_elem? xs t
  get_elem?-append_left [] ys t h = absurd (omega arith)
  get_elem?-append_left (x ∷ xs) ys zero h = refl
  get_elem?-append_left (x ∷ xs) ys (suc t) h = get_elem?-append_left xs ys t (omega arith)

  pub get_elem?-append_right :
      (xs ys : List A) (t : ℕ) → get_elem? (xs ++ ys) (length xs + t) ≡ get_elem? ys t
  get_elem?-append_right [] ys t = ap (get_elem? ys) (zero-add t)
  get_elem?-append_right (x ∷ xs) ys t =
      ap (get_elem? (x ∷ (xs ++ ys))) (succ_add (length xs) t) ∙ get_elem?-append_right xs ys t
    where
      succ_add : (n i : ℕ) → suc n + i ≡ suc (n + i)
      succ_add n i = omega arith

  pub drop-drop : (n k : ℕ) (xs : List A) → drop n (drop k xs) ≡ drop (k + n) xs
  drop-drop n zero xs = ap (λ j. drop j xs) (sym (zero-add n))
  drop-drop n (suc k) [] = drop_all n [] (omega arith) ∙ sym (drop_all (suc k + n) [] (omega arith))
  drop-drop n (suc k) (x ∷ xs) = drop-drop n k xs ∙ ap (λ j. drop j (x ∷ xs)) (succ_add k n)
    where
      succ_add : (n i : ℕ) → suc (n + i) ≡ suc n + i
      succ_add n i = omega arith

  -- The two lists hold the same `k` items, from `i` and from `j` on.
  abbrev pub Agree : List A → ℕ → List A → ℕ → ℕ → Type ℓ
  Agree xs i ys j k = (t : ℕ) → t < k → get_elem? xs (i + t) ≡ get_elem? ys (j + t)

  pub get_elem?-none : (xs : List A) (i : ℕ) → length xs ≤ i → get_elem? xs i ≡ none
  get_elem?-none [] i h = refl
  get_elem?-none (x ∷ xs) zero h = absurd (omega arith)
  get_elem?-none (x ∷ xs) (suc i) h = get_elem?-none xs i (omega arith)

  pub get_elem?-some : (xs : List A) (i : ℕ) → i < length xs → (a : A) × (get_elem? xs i ≡ some a)
  get_elem?-some [] i h = absurd (omega arith)
  get_elem?-some (x ∷ xs) zero h = (x, refl)
  get_elem?-some (x ∷ xs) (suc i) h = get_elem?-some xs i (omega arith)

  pub get_elem?-set_self :
      (xs : List A) (i : ℕ) (v : A) → i < length xs → get_elem? (set xs i v) i ≡ some v
  get_elem?-set_self [] i v h = absurd (omega arith)
  get_elem?-set_self (x ∷ xs) zero v h = refl
  get_elem?-set_self (x ∷ xs) (suc i) v h = get_elem?-set_self xs i v (omega arith)

  pub get_elem?-set_ne :
      (xs : List A) (i j : ℕ) (v : A) → i ≢ j → get_elem? (set xs i v) j ≡ get_elem? xs j
  get_elem?-set_ne [] i j v h = refl
  get_elem?-set_ne (x ∷ xs) zero zero v h = absurd (h refl)
  get_elem?-set_ne (x ∷ xs) zero (suc j) v h = refl
  get_elem?-set_ne (x ∷ xs) (suc i) zero v h = refl
  get_elem?-set_ne (x ∷ xs) (suc i) (suc j) v h = get_elem?-set_ne xs i j v (λ e. h (ap suc e))

  pub Agree-head :
      (xs ys : List A) (i j k : ℕ) → 0 < k → Agree xs i ys j k → get_elem? xs i ≡ get_elem? ys j
  Agree-head xs ys i j k lt agree =
      ap (get_elem? xs) (omega arith) ∙ agree 0 lt ∙ ap (get_elem? ys) (omega arith)

  -- The part of an agreement from its `c`-th item on.
  pub Agree-shift :
      (xs ys : List A) (i j c k : ℕ) → Agree xs i ys j (c + k) → Agree xs (i + c) ys (j + c) k
  Agree-shift xs ys i j c k agree t h =
      ap (get_elem? xs) (omega arith)
      ∙ agree (c + t) (omega arith)
      ∙ ap (get_elem? ys) (omega arith)

  -- A prefix that agrees grows by a write of the next item.
  pub Agree-set :
      (xs ys : List A) (n : ℕ) (b : A)
      → n < length xs
      → Agree xs 0 ys 0 n
      → get_elem? ys n ≡ some b
      → Agree (set xs n b) 0 ys 0 (n + 1)
  Agree-set xs ys n b lt agree e t h = elim (ℕ_discrete n t) [
    | yes same ↦ rw (zero-add t, ← same) (get_elem?-set_self xs n b lt ∙ sym e)
    | no other ↦ rw (zero-add t) (
        get_elem?-set_ne xs n t b other
        ∙ subst (λ i. get_elem? xs i ≡ get_elem? ys i) (zero-add t) (agree t (ground arith)))
  ]

  -- A list is what its items are.
  pub eq_of_get_elem? :
      (xs ys : List A)
      → length xs ≡ length ys
      → ((t : ℕ) → t < length xs → get_elem? xs t ≡ get_elem? ys t)
      → xs ≡ ys
  eq_of_get_elem? [] [] e h = refl
  eq_of_get_elem? [] (y ∷ ys) e h = absurd (omega arith)
  eq_of_get_elem? (x ∷ xs) [] e h = absurd (omega arith)
  eq_of_get_elem? (x ∷ xs) (y ∷ ys) e h =
      ap₂ ◌∷◌ (some-injective _ _ (h 0 (omega arith)))
        (eq_of_get_elem? xs ys (omega arith) (λ t lt. h (suc t) (omega arith)))

-- Writes and copies that are in range.
module _ {ℓ} {A : Type ℓ} where
  pub take_of_length : (n : ℕ) (xs ys : List A) → n ≡ length xs → take n (xs ++ ys) ≡ xs
  take_of_length n xs ys e = rw e (take-length_append xs ys)

  pub drop_of_length : (n : ℕ) (xs ys : List A) → n ≡ length xs → drop n (xs ++ ys) ≡ ys
  drop_of_length n xs ys e = rw e (drop-length_append xs ys)

  drop_two :
      (n : ℕ) (xs ys zs : List A) → n ≡ length xs + length ys → drop n (xs ++ (ys ++ zs)) ≡ zs
  drop_two n xs ys zs e =
      rw (← append_assoc xs ys zs)
        (drop_of_length n (xs ++ ys) zs (omega (arith, length-append xs ys)))

  pub memcpy_lem :
      (pre old post src : List A) (off : ℕ)
      → off ≡ length pre
      → length old ≡ length src
      → memcpy (pre ++ (old ++ post)) off src ≡ some (pre ++ (src ++ post))
  unfolding memcpy
  memcpy_lem pre old post src off e h = rw (
    le→leb (off + length src) (length (pre ++ (old ++ post)))
        (omega (arith, length-append pre (old ++ post), length-append old post)),
    take_of_length off pre (old ++ post) e,
    drop_two (off + length src) pre old post (omega arith),
  )

  pub store_lem : (p : List A) (i : ℕ) (v : A) → i < length p → store p i v ≡ some (set p i v)
  unfolding store
  store_lem p i v h = rw (lt→ltb i (length p) h)

  pub read_n_lem : (n : ℕ) (xs ys : List A) → n ≡ length xs → read_n n (xs ++ ys) ≡ some xs
  unfolding read_n
  read_n_lem n xs ys h =
      rw (
        le→leb n (length (xs ++ ys)) (omega (arith, length-append xs ys)),
        take_of_length n xs ys h,
      )
