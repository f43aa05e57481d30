-- ===== src/Net/Checksum.antt =====
-- kernel/net.h: the Internet checksum.
use native.Mathlib.Nat.{mod-eq_of_lt}
use mini_win.Base.{subst, zero, ◌-◌, ◌++◌, ◌%◌, inl, inr, ◌==◌, Bool-cases, ℕ, suc, ◌+◌, ◌*◌, ◌/◌}
use mini_win.Base.{◌^◌, ◌≤◌, ◌<◌, ◌≡◌, List, [], ◌∷◌, arith, length}
use mini_win.Net.{checksum_add, fold_carries, checksum_finish, put16}

-- The sum of the words, without a bound.
abbrev pub words : List ℕ → ℕ
words [] = 0
words (a ∷ []) = a * 2 ^ 8
words (a ∷ b ∷ rest) = a * 2 ^ 8 + b + words rest

abbrev pub AreBytes : List ℕ → Type 0
AreBytes [] = 0 ≤ 0
AreBytes (b ∷ bytes) = (b < 256) × AreBytes bytes

pub words-bound : (bytes : List ℕ) → AreBytes bytes → words bytes ≤ 65535 * ((length bytes + 1) / 2)
words-bound [] h = omega arith
words-bound (a ∷ []) h = omega (arith, h.0)
words-bound (a ∷ b ∷ rest) h = omega (arith, h.0, h.1.0, words-bound rest h.1.1)

pub checksum_add-words :
    (sum : ℕ) (bytes : List ℕ)
    → sum + words bytes < 2 ^ 32
    → checksum_add sum bytes ≡ sum + words bytes
unfolding checksum_add
checksum_add-words sum [] h = omega arith
checksum_add-words sum (a ∷ []) h = omega arith
checksum_add-words sum (a ∷ b ∷ rest) h =
    let fits : (sum + (a * 2 ^ 8 + b)) % 2 ^ 32 ≡ sum + (a * 2 ^ 8 + b) =
      mod-eq_of_lt (omega arith) in
    rw fits (omega (arith, checksum_add-words (sum + (a * 2 ^ 8 + b)) rest (omega arith)))

-- Two rounds fold any `u32`: what is left is a word, with the same remainder by 65535, and 0 only
-- for 0.
pub record IsFolded (sum r : ℕ) : Type 0 where
  pub small : r < 2 ^ 16
  pub same : (k : ℕ) × (sum ≡ 65535 * k + r)
  pub positive : (0 < sum) → 0 < r

pub fold_carries-IsFolded : (sum : ℕ) → sum < 2 ^ 32 → IsFolded sum (fold_carries 2 sum)
unfolding fold_carries
fold_carries-IsFolded sum h =
    let next = sum % 2 ^ 16 + sum / 2 ^ 16 in
    elim (Bool-cases (sum / 2 ^ 16 == 0)) [
      | inl e ↦ rw e (record { small = ground arith; same = (0, omega arith); positive = λ p. p })
      | inr e ↦ rw e (elim (Bool-cases (next / 2 ^ 16 == 0)) [
        | inl f ↦ rw f (record {
          small = ground arith;
          same = (sum / 2 ^ 16, omega arith);
          positive = λ p. omega arith;
        })
        | inr f ↦ rw f (record {
          small = ground arith;
          same = (sum / 2 ^ 16 + 1, ground arith);
          positive = λ p. ground arith;
        })
      ])
    ]

-- A sum to which its own checksum is added folds to all ones.
pub checksum_finish-checked :
    (sum : ℕ) → sum + 65535 < 2 ^ 32 → checksum_finish (sum + checksum_finish sum) ≡ 0
unfolding checksum_finish
checksum_finish-checked sum h =
    let a = fold_carries-IsFolded sum (omega arith) in
    let r = fold_carries 2 sum in
    let b = fold_carries-IsFolded (sum + (65535 - r % 2 ^ 16)) (omega arith) in
    omega
      (arith, a.small, a.same.1, b.small, b.same.1, b.positive (omega (arith, a.small, a.same.1)))

-- What does not depend on the order: an even number of bytes in front adds its words.
pub words-append :
    (n : ℕ) (xs ys : List ℕ) → length xs ≡ 2 * n → words (xs ++ ys) ≡ words xs + words ys
words-append n [] ys h = omega arith
words-append n (x ∷ []) ys h = absurd (omega arith)
words-append zero (x ∷ y ∷ xs) ys h = absurd (omega arith)
words-append (suc n) (x ∷ y ∷ xs) ys h = omega (arith, words-append n xs ys (omega arith))

pub AreBytes-append : (xs ys : List ℕ) → AreBytes xs → AreBytes ys → AreBytes (xs ++ ys)
AreBytes-append [] ys f g = g
AreBytes-append (x ∷ xs) ys f g = (f.0, AreBytes-append xs ys f.1 g)

-- A checksum in its field: the words of the field are the checksum.
pub words-put16 : (v : ℕ) → v < 2 ^ 16 → words (put16 v) ≡ v
words-put16 v h = omega arith

pub checksum_finish-word : (sum : ℕ) → checksum_finish sum < 2 ^ 16
unfolding checksum_finish
checksum_finish-word sum = omega arith

-- The sum over a buffer with a value in its checksum field.
pub checksum_add-field :
    (start n v : ℕ) (front back : List ℕ)
    → length front ≡ 2 * n
    → start + (words front + words back) + 65535 < 2 ^ 32
    → v < 2 ^ 16
    → checksum_add start (front ++ (put16 v ++ back)) ≡ start + (words front + (v + words back))
checksum_add-field start n v front back even fits lt =
    let e = words-append n front (put16 v ++ back) even in
    omega (
      arith,
      e,
      words-put16 v lt,
      checksum_add-words start (front ++ (put16 v ++ back)) (omega (arith, e, words-put16 v lt)),
    )

-- A sum that finishes to 0 does so with all ones added.
pub checksum_finish-ones :
    (sum : ℕ) → sum + 65535 < 2 ^ 32 → checksum_finish sum ≡ 0 → checksum_finish (sum + 65535) ≡ 0
unfolding checksum_finish
checksum_finish-ones sum h zero_sum =
    let a = fold_carries-IsFolded sum (omega arith) in
    let b = fold_carries-IsFolded (sum + 65535) (omega arith) in
    omega (arith, zero_sum, a.small, a.same.1, b.small, b.same.1, b.positive (omega arith))

-- For a buffer with a field of two bytes at an even offset that holds the checksum of the buffer
-- with that field zero, over a start value that comes, with the words around the field and 65535,
-- to less than 2^32: the sum over all of the buffer finishes to 0.
pub checksum_finish-filled :
    (start n : ℕ) (front back : List ℕ)
    → length front ≡ 2 * n
    → start + (words front + words back) + 65535 < 2 ^ 32
    → let sum = checksum_add start (front ++ (0 ∷ 0 ∷ back)) in
      checksum_finish (checksum_add start (front ++ (put16 (checksum_finish sum) ++ back))) ≡ 0
checksum_finish-filled start n front back even fits =
    rw (checksum_add-field start n 0 front back even fits (omega arith)) (
      rw
        (checksum_add-field start n (checksum_finish (start + (words front + (0 + words back))))
          front back even fits (checksum_finish-word (start + (words front + (0 + words back)))))
        (subst (λ k. checksum_finish k ≡ 0)
          {x = start
            + (words front + (0 + words back))
            + checksum_finish (start + (words front + (0 + words back)))}
          (omega arith)
          (checksum_finish-checked (start + (words front + (0 + words back))) (omega arith))))

-- Bytes of which there are few enough keep the sum below the wrap.
pub short_enough :
    (start : ℕ) (front back : List ℕ)
    → AreBytes front
    → AreBytes back
    → start + 65535 * (length front + length back + 4) < 2 ^ 32
    → start + (words front + words back) + 65535 < 2 ^ 32
short_enough start front back f b fits = omega (arith, words-bound front f, words-bound back b)
