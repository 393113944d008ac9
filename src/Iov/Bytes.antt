-- ===== src/Iov/Bytes.antt =====
-- The bytes that a vector stands for, as their addresses in order.
use libzbc.Base.{
  ℕ, zero, suc, ◌+◌, ◌-◌, ◌*◌, ◌≤◌, ◌≡◌, refl, sym, ap, ◌∙◌, arith, List, [], ◌∷◌, ◌++◌,
}
use libzbc.Base.{
  length, take, drop, take-append_le, take-append_add, drop-append_le, drop-append_ge,
}
use libzbc.Device.Driver.{Iovec}

-- `n` addresses from `a` on.
pub range : ℕ → ℕ → List ℕ
range a zero = []
range a (suc n) = a ∷ range (suc a) n

-- The addresses of a vector whose lengths count units of `unit` bytes: 512 for a caller's vector,
-- 1 for a converted one.
unfoldable pub bytes_of : ℕ → List Iovec → List ℕ
bytes_of unit [] = []
bytes_of unit (v ∷ vs) = range v.iov_base (v.iov_len * unit) ++ bytes_of unit vs

pub bytes_of-nil : (unit : ℕ) → bytes_of unit [] ≡ []
unfolding bytes_of
bytes_of-nil unit = refl

pub range_zero : (a : ℕ) → range a 0 ≡ []
unfolding range
range_zero a = refl

pub length-range : (a n : ℕ) → length (range a n) ≡ n
unfolding range
length-range a zero = refl
length-range a (suc n) = ap suc (length-range (suc a) n)

drop-range : (o a n : ℕ) → drop o (range a n) ≡ range (a + o) (n - o)
unfolding range
drop-range zero a n =
    let e : a ≡ a + 0 = omega arith in let f : n ≡ n - 0 = omega arith in rw (← e, ← f)
drop-range (suc o) a zero = let f : 0 ≡ 0 - suc o = omega arith in rw (← f)
drop-range (suc o) a (suc n) =
    let e : suc a + o ≡ a + suc o = omega arith in
    let f : n - o ≡ suc n - suc o = omega arith in rw (← e, ← f) (drop-range o (suc a) n)

take-range : (k a n : ℕ) → k ≤ n → take k (range a n) ≡ range a k
unfolding range
take-range zero a n h = refl
take-range (suc k) a zero h = absurd (omega arith)
take-range (suc k) a (suc n) h = ap (λ l. a ∷ l) (take-range k (suc a) n (omega arith))

pub range-append : (a m n : ℕ) → range a m ++ range (a + m) n ≡ range a (m + n)
unfolding range
range-append a zero n =
    let e : a ≡ a + 0 = omega arith in let f : n ≡ 0 + n = omega arith in rw (← e, ← f)
range-append a (suc m) n =
    let e : suc a + m ≡ a + suc m = omega arith in
    let f : suc (m + n) ≡ suc m + n = omega arith in
    rw (← e, ← f) (ap (λ l. a ∷ l) (range-append (suc a) m n))

module _ (a len o : ℕ) (rest : List ℕ) where
  -- A slice that starts behind the first buffer.
  pub drop_past : len ≤ o → drop o (range a len ++ rest) ≡ drop (o - len) rest
  drop_past h =
      drop-append_ge o (range a len) rest (omega (arith, length-range a len))
      ∙ ap (λ k. drop (o - k) rest) (length-range a len)

  drop_inside : o ≤ len → drop o (range a len ++ rest) ≡ range (a + o) (len - o) ++ rest
  drop_inside h =
      drop-append_le o (range a len) rest (omega (arith, length-range a len))
      ∙ ap (λ l. l ++ rest) (drop-range o a len)

  -- A slice that ends inside the first buffer.
  pub slice_inside : (n : ℕ) → o + n ≤ len → take n (drop o (range a len ++ rest)) ≡ range (a + o) n
  slice_inside n h =
      ap (take n) (drop_inside (omega arith))
      ∙ take-append_le n (range (a + o) (len - o)) rest
          (omega (arith, length-range (a + o) (len - o)))
      ∙ take-range n (a + o) (len - o) (omega arith)

  -- A slice that takes the first buffer to its end, and more.
  pub slice_across :
      (n m : ℕ)
      → o + n ≡ len
      → take (n + m) (drop o (range a len ++ rest)) ≡ range (a + o) n ++ take m rest
  slice_across n m h =
      let e : len - o ≡ n = omega arith in
      ap (take (n + m)) (drop_inside (omega arith) ∙ ap (λ k. range (a + o) k ++ rest) e)
      ∙ ap (λ k. take (k + m) (range (a + o) n ++ rest)) (sym (length-range (a + o) n))
      ∙ take-append_add m (range (a + o) n) rest
