-- ===== src/Base/Lists.antt =====
-- Arrays as lists indexed by native numbers, under the library's names.
use Prim.Native.Nat.{ℕ, zero, suc, ◌+◌, ◌-◌, ◌≤◌, ◌<◌, min}
use mathlib.Core.Path.{◌≡◌, refl, sym, ap, ◌∙◌}
use mathlib.Core.Logic.{◌≢◌}
use mathlib.Core.List.{List, [], ◌∷◌, ◌++◌}
use native.Mathlib.Omega.{arith}

module _ {ℓ} {A : Type ℓ} where
  abbrev pub length : List A → ℕ
  length [] = 0
  length (x ∷ xs) = suc (length xs)

  -- A read out of range gives `d`.
  abbrev pub get_or : List A → ℕ → A → A
  get_or [] i d = d
  get_or (x ∷ xs) zero d = x
  get_or (x ∷ xs) (suc i) d = get_or xs i d

  -- A write out of range changes nothing.
  abbrev pub set : List A → ℕ → A → List A
  set [] i v = []
  set (x ∷ xs) zero v = v ∷ xs
  set (x ∷ xs) (suc i) v = x ∷ set xs i v

  abbrev pub take : ℕ → List A → List A
  take zero xs = []
  take (suc n) [] = []
  take (suc n) (x ∷ xs) = x ∷ take n xs

  abbrev pub drop : ℕ → List A → List A
  drop zero xs = xs
  drop (suc n) [] = []
  drop (suc n) (x ∷ xs) = drop n xs

  abbrev pub replicate : ℕ → A → List A
  replicate zero a = []
  replicate (suc n) a = a ∷ replicate n a

  abbrev pub All {κ} : (A → Type κ) → List A → Type κ
  All P [] = Unit {κ}
  All P (x ∷ xs) = P x × All P xs

  pub length-append : (xs ys : List A) → length (xs ++ ys) ≡ length xs + length ys
  length-append [] ys = omega arith
  length-append (x ∷ xs) ys = omega (arith, length-append xs ys)

  pub length-set : (xs : List A) (i : ℕ) (v : A) → length (set xs i v) ≡ length xs
  length-set [] i v = refl
  length-set (x ∷ xs) zero v = refl
  length-set (x ∷ xs) (suc i) v = ap suc (length-set xs i v)

  pub get_or-set_self :
      (xs : List A) (i : ℕ) (v d : A) → i < length xs → get_or (set xs i v) i d ≡ v
  get_or-set_self [] i v d h = absurd (omega arith)
  get_or-set_self (x ∷ xs) zero v d h = refl
  get_or-set_self (x ∷ xs) (suc i) v d h = get_or-set_self xs i v d (omega arith)

  pub get_or-set_ne :
      (xs : List A) (i j : ℕ) (v d : A) → i ≢ j → get_or (set xs i v) j d ≡ get_or xs j d
  get_or-set_ne [] i j v d h = refl
  get_or-set_ne (x ∷ xs) zero zero v d h = absurd (h refl)
  get_or-set_ne (x ∷ xs) zero (suc j) v d h = refl
  get_or-set_ne (x ∷ xs) (suc i) zero v d h = refl
  get_or-set_ne (x ∷ xs) (suc i) (suc j) v d h = get_or-set_ne xs i j v d (λ e. h (ap suc e))

  pub length-replicate : (n : ℕ) (a : A) → length (replicate n a) ≡ n
  length-replicate zero a = refl
  length-replicate (suc n) a = ap suc (length-replicate n a)

  pub length-take : (n : ℕ) (xs : List A) → length (take n xs) ≡ min n (length xs)
  length-take zero xs = omega arith
  length-take (suc n) [] = omega arith
  length-take (suc n) (x ∷ xs) = omega (arith, length-take n xs)

  pub length-drop : (n : ℕ) (xs : List A) → length (drop n xs) ≡ length xs - n
  length-drop zero xs = omega arith
  length-drop (suc n) [] = omega arith
  length-drop (suc n) (x ∷ xs) = omega (arith, length-drop n xs)

  pub take-nil : (n : ℕ) → take n [] ≡ []
  take-nil zero = refl
  take-nil (suc n) = refl

  pub drop-nil : (n : ℕ) → drop n [] ≡ []
  drop-nil zero = refl
  drop-nil (suc n) = refl

  pub drop-drop : (m n : ℕ) (xs : List A) → drop n (drop m xs) ≡ drop (m + n) xs
  drop-drop zero n xs = ap (λ k. drop k xs) (omega arith)
  drop-drop (suc m) n [] = drop-nil n ∙ sym (drop-nil (suc m + n))
  drop-drop (suc m) n (x ∷ xs) =
      let e : suc (m + n) ≡ suc m + n = omega arith in rw (← e) (drop-drop m n xs)

  -- A list is taken in two steps.
  pub take-append-take : (m n : ℕ) (xs : List A) → take m xs ++ take n (drop m xs) ≡ take (m + n) xs
  take-append-take zero n xs = ap (λ k. take k xs) (omega arith)
  take-append-take (suc m) n [] = take-nil n ∙ sym (take-nil (suc m + n))
  take-append-take (suc m) n (x ∷ xs) =
      let e : suc (m + n) ≡ suc m + n = omega arith in
      rw (← e) (ap (λ l. x ∷ l) (take-append-take m n xs))

  -- Overwrites from the start on; what falls behind the end is dropped.
  abbrev pub over : List A → List A → List A
  over [] ys = []
  over (x ∷ xs) [] = x ∷ xs
  over (x ∷ xs) (y ∷ ys) = y ∷ over xs ys

  -- Stores `ys` at index `n` and after it.
  abbrev pub splice : List A → ℕ → List A → List A
  splice [] n ys = []
  splice (x ∷ xs) zero ys = over (x ∷ xs) ys
  splice (x ∷ xs) (suc n) ys = x ∷ splice xs n ys

  length-over : (xs ys : List A) → length (over xs ys) ≡ length xs
  length-over [] ys = refl
  length-over (x ∷ xs) [] = refl
  length-over (x ∷ xs) (y ∷ ys) = ap suc (length-over xs ys)

  pub length-splice : (xs : List A) (n : ℕ) (ys : List A) → length (splice xs n ys) ≡ length xs
  length-splice [] n ys = refl
  length-splice (x ∷ xs) zero ys = length-over (x ∷ xs) ys
  length-splice (x ∷ xs) (suc n) ys = ap suc (length-splice xs n ys)

  take-over : (xs ys : List A) → length ys ≤ length xs → take (length ys) (over xs ys) ≡ ys
  take-over [] [] h = refl
  take-over [] (y ∷ ys) h = absurd (omega arith)
  take-over (x ∷ xs) [] h = refl
  take-over (x ∷ xs) (y ∷ ys) h = ap (λ l. y ∷ l) (take-over xs ys (omega arith))

  pub take-splice :
      (xs : List A) (n : ℕ) (ys : List A)
      → n + length ys ≤ length xs
      → take (n + length ys) (splice xs n ys) ≡ take n xs ++ ys
  take-splice [] zero [] h = refl
  take-splice [] zero (y ∷ ys) h = absurd (omega arith)
  take-splice [] (suc n) ys h = absurd (omega arith)
  take-splice (x ∷ xs) zero ys h =
      let e : length ys ≡ 0 + length ys = omega arith in
      rw (← e) (take-over (x ∷ xs) ys (omega arith))
  take-splice (x ∷ xs) (suc n) ys h =
      let e : suc (n + length ys) ≡ suc n + length ys = omega arith in
      rw (← e) (ap (λ l. x ∷ l) (take-splice xs n ys (omega arith)))

  -- A prefix agrees with the list below its length.
  pub get_or-take :
      (n : ℕ) (xs : List A) (i : ℕ) (d : A) → i < n → get_or (take n xs) i d ≡ get_or xs i d
  get_or-take zero xs i d h = absurd (omega arith)
  get_or-take (suc n) [] i d h = refl
  get_or-take (suc n) (x ∷ xs) zero d h = refl
  get_or-take (suc n) (x ∷ xs) (suc i) d h = get_or-take n xs i d (omega arith)

  pub take_all : (n : ℕ) (xs : List A) → length xs ≤ n → take n xs ≡ xs
  take_all zero [] h = refl
  take_all zero (x ∷ xs) h = absurd (omega arith)
  take_all (suc n) [] h = refl
  take_all (suc n) (x ∷ xs) h = ap (λ l. x ∷ l) (take_all n xs (omega arith))

  pub get_or-drop :
      (m : ℕ) (xs : List A) (i : ℕ) (d : A) → get_or (drop m xs) i d ≡ get_or xs (m + i) d
  get_or-drop zero xs i d = let e : i ≡ 0 + i = omega arith in rw (← e) refl
  get_or-drop (suc m) [] i d = refl
  get_or-drop (suc m) (x ∷ xs) i d =
      let e : suc (m + i) ≡ suc m + i = omega arith in rw (← e) (get_or-drop m xs i d)

  pub drop-append_ge :
      (o : ℕ) (xs ys : List A) → length xs ≤ o → drop o (xs ++ ys) ≡ drop (o - length xs) ys
  drop-append_ge o [] ys h = let e : o ≡ o - 0 = omega arith in rw (← e) refl
  drop-append_ge zero (x ∷ xs) ys h = absurd (omega arith)
  drop-append_ge (suc o) (x ∷ xs) ys h =
      let e : o - length xs ≡ suc o - suc (length xs) = omega arith in
      rw (← e) (drop-append_ge o xs ys (omega arith))

  pub drop-append_le :
      (o : ℕ) (xs ys : List A) → o ≤ length xs → drop o (xs ++ ys) ≡ drop o xs ++ ys
  drop-append_le zero xs ys h = refl
  drop-append_le (suc o) [] ys h = absurd (omega arith)
  drop-append_le (suc o) (x ∷ xs) ys h = drop-append_le o xs ys (omega arith)

  pub take-append_le : (n : ℕ) (xs ys : List A) → n ≤ length xs → take n (xs ++ ys) ≡ take n xs
  take-append_le zero xs ys h = refl
  take-append_le (suc n) [] ys h = absurd (omega arith)
  take-append_le (suc n) (x ∷ xs) ys h = ap (λ l. x ∷ l) (take-append_le n xs ys (omega arith))

  pub take-append_add : (m : ℕ) (xs ys : List A) → take (length xs + m) (xs ++ ys) ≡ xs ++ take m ys
  take-append_add m [] ys = let e : m ≡ 0 + m = omega arith in rw (← e) refl
  take-append_add m (x ∷ xs) ys =
      let e : suc (length xs + m) ≡ suc (length xs) + m = omega arith in
      rw (← e) (ap (λ l. x ∷ l) (take-append_add m xs ys))
