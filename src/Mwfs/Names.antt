-- ===== src/Mwfs/Names.antt =====
-- kernel/mwfs.h: which names mwfs_name_ok takes, and which ones mwfs_name_eq takes for the same.
use mathlib.Core.List.{map}
use native.Mathlib.Decide.{dec_lt}
use mini_win.Base.{◌⊎◌, ap₂, false, leb, ◌==◌, ℕ, ◌+◌, ◌-◌, ◌≤◌, ◌<◌, ◌≡◌, refl, ◌≢◌, ◌↔◌, inl}
use mini_win.Base.{inr, true, List, [], ◌∷◌, arith, Bool-cases, length, get_or}
use mini_win.Mwfs.{char_ok, chars_ok, name_ok, upper, name_eq}

-- A list all of whose members pass.
abbrev pub All : (ℕ → Type 0) → List ℕ → Type 0
All P [] = Unit
All P (x ∷ xs) = P x × All P xs

-- A letter, a digit, or one of the marks . _ - , ( ) and the space.
abbrev pub IsChar : ℕ → Type 0
IsChar c =
    ((65 ≤ c) × (c ≤ 90))
    ⊎ (((97 ≤ c) × (c ≤ 122))
        ⊎ (((48 ≤ c) × (c ≤ 57))
            ⊎ ((c ≡ 46)
                ⊎ ((c ≡ 95) ⊎ ((c ≡ 45) ⊎ ((c ≡ 44) ⊎ ((c ≡ 32) ⊎ ((c ≡ 40) ⊎ (c ≡ 41)))))))))

char_ok-IsChar : (c : ℕ) → (char_ok c ≡ true) ↔ IsChar c
unfolding char_ok
char_ok-IsChar c = (λ e. ground (arith, e), λ h. ground (arith, h))

-- A name of 1 to 31 letters, digits and the marks that are allowed, with no dot and no space in
-- front and no space at the end.
pub record IsName (name : List ℕ) : Type 0 where
  pub some_char : 0 < length name
  pub short : length name ≤ 31
  pub chars : All IsChar name
  pub first_dot : get_or name 0 0 ≢ 46
  pub first_space : get_or name 0 0 ≢ 32
  pub last_space : get_or name (length name - 1) 0 ≢ 32

chars_ok-All :
    (n : ℕ) (cs : List ℕ) → n ≤ 31 → (chars_ok n cs ≡ true) ↔ (All IsChar cs × (n + length cs ≤ 31))
unfolding chars_ok
chars_ok-All n [] h = (λ e. (tt, omega arith), λ p. refl)
chars_ok-All n (c ∷ cs) h = elim (Bool-cases (char_ok c)) [
  | inr bad ↦
      (λ e. absurd (ground (arith, bad)), λ p. absurd (cc ((char_ok-IsChar c).1 p.0.0, bad)))
  | inl good ↦ elim (dec_lt n 31) [
    | yes l ↦
        let (to, from) = chars_ok-All (n + 1) cs (omega arith) in
        rw (good, not_yet n l)
          (
            λ e. (((char_ok-IsChar c).0 good, (to e).0), omega (arith, (to e).1)),
            λ p. from (p.0.1, omega (arith, p.1)),
          )
    | no l ↦ (λ e. absurd (ground (arith, good, l)), λ p. absurd (omega (arith, p.1)))
  ]
]
  where
    not_yet : (n : ℕ) → n < 31 → leb 31 n ≡ false
    not_yet n l = ground arith

-- mwfs_name_ok takes exactly the names of 1 to 31 characters, each a letter, a digit, a space or
-- one of . _ - , ( and ), with no dot or space in front and no space at the end.
pub name_ok-IsName : (name : List ℕ) → (name_ok name ≡ true) ↔ IsName name
unfolding name_ok
name_ok-IsName name =
    let (to, from) = chars_ok-All 0 name (omega arith) in
    (
      λ e. record {
        some_char = ground (arith, e);
        short = omega (arith, (to (ground (arith, e))).1);
        chars = (to (ground (arith, e))).0;
        first_dot = ground (arith, e);
        first_space = ground (arith, e);
        last_space = ground (arith, e);
      },
      λ v.
          rw (from (v.chars, omega (arith, v.short)))
            (ground (arith, v.some_char, v.first_dot, v.first_space, v.last_space)),
    )

-- mwfs_name_eq takes two names with no 0 in them for the same exactly when their upper-case forms
-- are equal.
pub name_eq-upper :
    (a b : List ℕ)
    → All (λ c. 0 < c) a
    → All (λ c. 0 < c) b
    → (name_eq a b ≡ true) ↔ (map upper a ≡ map upper b)
unfolding name_eq
name_eq-upper [] [] ha hb = (λ e. refl, λ e. refl)
name_eq-upper [] (b ∷ bs) ha hb = (λ e. absurd (ground (arith, hb.0)), λ e. cc)
name_eq-upper (a ∷ cs) [] ha hb = (λ e. absurd (ground (arith, ha.0)), λ e. cc)
name_eq-upper (a ∷ cs) (b ∷ bs) ha hb =
    let (to, from) = name_eq-upper cs bs ha.1 hb.1 in
    elim (Bool-cases (upper a == upper b)) [
      | inr different ↦ (
        λ e. absurd (ground (arith, different)),
        λ e. absurd (ground (arith, different, first_eq e)),
      )
      | inl same ↦
          rw (same, positive a ha.0)
            (λ e. ap₂ (λ x xs. x ∷ xs) (ground (arith, same)) (to e), λ e. from (rest_eq e))
    ]
  where
    positive : (c : ℕ) → 0 < c → (upper c == 0) ≡ false
    positive c h = ground arith

    first_eq : {x y : ℕ} {xs ys : List ℕ} → x ∷ xs ≡ y ∷ ys → x ≡ y
    first_eq e = cc

    rest_eq : {x y : ℕ} {xs ys : List ℕ} → x ∷ xs ≡ y ∷ ys → xs ≡ ys
    rest_eq e = cc
