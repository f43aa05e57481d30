-- ===== src/Mm/Search.antt =====
-- kernel/mm.h: the scan for a run of clear bits finds the first one there is, and misses none.
use native.Mathlib.Decide.{dec_lt}
use mini_win.Base.{some_eq, sym, ◌∙◌, ℕ, zero, suc, ◌+◌, ◌-◌, ◌≤◌, ◌<◌, ◌≡◌, inl, inr, true}
use mini_win.Base.{false, none, some, arith, ◌==◌, Bool-cases}
use mini_win.Mm.{bit, scan}

module _ (base : ℕ) where
  -- The `n` bits from `first` on are clear.
  abbrev pub IsClear : (ℕ → ℕ) → ℕ → ℕ → Type 0
  IsClear m first n = (q : ℕ) → first ≤ q → q < first + n → bit base m q ≡ false

  -- What a scan has found: a run within the scanned range, and no earlier one.
  pub record FirstRun (m : ℕ → ℕ) (n lo hi first : ℕ) : Type 0 where
    pub after : lo ≤ first
    pub before : first + n ≤ hi
    pub clear : IsClear m first n
    pub none_earlier : (g : ℕ) → lo ≤ g → g < first → ¬ IsClear m g n

  module _ (m : ℕ → ℕ) (n : ℕ) where
    -- Clear bits so far, extended by one.
    clear_more :
        (lo p : ℕ)
        → ((q : ℕ) → lo ≤ q → q < p → bit base m q ≡ false)
        → bit base m p ≡ false
        → (q : ℕ) → lo ≤ q
        → q < p + 1
        → bit base m q ≡ false
    clear_more lo p h b q x y = ground (arith, h q)

    -- A run that begins before a set bit at `p`, with fewer than `n` bits between, meets it.
    blocked : (p run g : ℕ) → bit base m p ≡ true → run < n → p ≤ g + run → g ≤ p → ¬ IsClear m g n
    blocked p run g b short lo hi c = ground (arith, c p)

    scan_set :
        (left p run : ℕ)
        → bit base m p ≡ true
        → scan base m n (suc left) p run ≡ scan base m n left (p + 1) 0
    unfolding scan
    scan_set left p run b = rw (b, scan)

    scan_found :
        (left p run : ℕ)
        → bit base m p ≡ false
        → (run + 1 == n) ≡ true
        → scan base m n (suc left) p run ≡ some (p + 1 - n)
    unfolding scan
    scan_found left p run b w = rw (b, w, scan)

    scan_more :
        (left p run : ℕ)
        → bit base m p ≡ false
        → (run + 1 == n) ≡ false
        → scan base m n (suc left) p run ≡ scan base m n left (p + 1) (run + 1)
    unfolding scan
    scan_more left p run b w = rw (b, w, scan)

    widen :
        (lo lo' hi hi' : ℕ) {first : ℕ}
        → lo ≤ lo'
        → hi' ≤ hi
        → ((g : ℕ) → lo ≤ g → g < lo' → ¬ IsClear m g n)
        → FirstRun m n lo' hi' first
        → FirstRun m n lo hi first
    widen lo lo' hi hi' x y skipped f = record {
      after = omega (arith, f.after);
      before = omega (arith, f.before);
      clear = f.clear;
      none_earlier = λ g u v. elim (dec_lt g lo') [
        | yes early ↦ skipped g u early
        | no late ↦ f.none_earlier g (omega arith) v
      ];
    }

    pub scan-FirstRun :
        (left p run : ℕ) {first : ℕ}
        → 0 < n
        → run < n
        → run ≤ p
        → ((q : ℕ) → p - run ≤ q → q < p → bit base m q ≡ false)
        → scan base m n left p run ≡ some first
        → FirstRun m n (p - run) (p + left) first
    unfolding scan
    scan-FirstRun zero p run pos short le h e = absurd (cc)
    scan-FirstRun (suc left) p run {first} pos short le h e = elim (Bool-cases (bit base m p)) [
      | inl b ↦
          widen (p - run) (p + 1 - 0) (p + suc left) (p + 1 + left) (omega arith) (omega arith)
            (λ g u v. blocked p run g b short (omega arith) (omega arith))
            (scan-FirstRun left (p + 1) 0 pos pos (omega arith) (λ q u v. absurd (omega arith))
              (sym (scan_set left p run b) ∙ e))
      | inr b ↦ elim (Bool-cases (run + 1 == n)) [
        | inl w ↦ found b w (some_eq (sym (scan_found left p run b w) ∙ e))
        | inr w ↦
            widen (p - run) (p + 1 - (run + 1)) (p + suc left) (p + 1 + left) (omega arith)
              (omega arith) (λ g u v. absurd (omega arith))
              (scan-FirstRun left (p + 1) (run + 1) pos (ground arith) (omega arith)
                (λ q u v. clear_more (p - run) p h b q (omega arith) v)
                (sym (scan_more left p run b w) ∙ e))
      ]
    ]
      where
        found :
            bit base m p ≡ false
            → (run + 1 == n) ≡ true
            → p + 1 - n ≡ first
            → FirstRun m n (p - run) (p + suc left) first
        found b w e' = record {
          after = ground arith;
          before = ground arith;
          clear = λ q u v. clear_more (p - run) p h b q (ground arith) (ground arith);
          none_earlier = λ g u v. absurd (ground arith);
        }

    pub scan-none :
        (left p run g : ℕ)
        → 0 < n
        → run < n
        → run ≤ p
        → scan base m n left p run ≡ none
        → p - run ≤ g
        → g + n ≤ p + left
        → ¬ IsClear m g n
    scan-none zero p run g pos short le e lo hi c = absurd (omega arith)
    scan-none (suc left) p run g pos short le e lo hi c = elim (Bool-cases (bit base m p)) [
      | inl b ↦ elim (dec_lt p g) [
        | yes later ↦
            scan-none left (p + 1) 0 g pos pos (omega arith) (sym (scan_set left p run b) ∙ e)
              (omega arith) (omega arith) c
        | no u ↦ blocked p run g b short (omega arith) (omega arith) c
      ]
      | inr b ↦ elim (Bool-cases (run + 1 == n)) [
        | inl w ↦ cc (scan_found left p run b w)
        | inr w ↦
            scan-none left (p + 1) (run + 1) g pos (ground arith) (omega arith)
              (sym (scan_more left p run b w) ∙ e) (omega arith) (omega arith) c
      ]
    ]
