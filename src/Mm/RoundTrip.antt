-- ===== src/Mm/RoundTrip.antt =====
-- kernel/mm.h: what mm_pages_alloc_z grants, mm_pages_free takes back whole.
use mini_win.Base.{sym, ◌∙◌, subst, some_eq, ℕ, ◌+◌, ◌*◌, ◌^◌, ◌≤◌, ◌<◌, ◌≡◌, inl, inr, Bool}
use mini_win.Base.{true, some, arith}
use mini_win.Mm.{Mm, page, pages_alloc_z, pages_free}
use mini_win.Mm.Invariant.{IsReady, bit_at}
use mini_win.Mm.Alloc.{Granted, pages_alloc_z_lem}
use mini_win.Mm.Free.{IsUsedRun, pages_free_lem}

Granted-IsUsedRun :
    {s : Mm} (s' : Mm) (n a : ℕ) → 0 < n → (g : Granted s s' n a) → IsUsedRun s' a n g.first
Granted-IsUsedRun s' n a pos g = record {
  at = omega (arith, g.at, g.range);
  some_pages = pos;
  lo = omega (arith, g.run.lo, g.range);
  hi = omega (arith, g.run.hi, g.range);
  used = λ q u v. ground (arith, g.bits q (omega (arith, g.run.hi)));
}

GivenBack : Mm → Bool × Mm → Type 0
GivenBack s (freed, s'') =
    (freed ≡ true)
    × IsReady s''
    × (s''.free_pg ≡ s.free_pg)
    × ((q : ℕ) → q < s.npages → bit_at s'' q ≡ bit_at s q)

give_back :
    {s : Mm} (s' : Mm) (n a : ℕ)
    → IsReady s
    → 0 < n
    → s.base + s.npages * page ≤ 2 ^ 32
    → Granted s s' n a
    → GivenBack s (pages_free s' a n)
unfolding GivenBack
give_back {s} s' n a r pos below g = elim (pages_free_lem a n g.ready small inside) [
  | inr (_, refused) ↦ absurd (refused g.first (Granted-IsUsedRun s' n a pos g))
  | inl (first, u, done, l) ↦ (
    done,
    l.ready,
    omega (arith, l.more, g.fewer),
    λ q h. ground (arith, l.bits q, g.bits q h, g.run.clear q, u.at, g.at, g.range),
  )
]
  where
    small : n < 2 ^ 31
    small = omega (arith, g.run.hi, r.small)

    inside : a < 2 ^ 32
    inside = omega (arith, g.at, g.run.hi)

-- A grant that is given back succeeds, and leaves a ready state with as many free pages as before
-- and every page marked just as it was, when the managed range ends within 2^32 bytes.
pub pages_free-pages_alloc_z :
    {s : Mm} (n : ℕ) (z : Bool) {a : ℕ}
    → IsReady s
    → 0 < n
    → s.base + s.npages * page ≤ 2 ^ 32
    → (pages_alloc_z s n z).0 ≡ some a
    → let (freed, s'') = pages_free (pages_alloc_z s n z).1 a n in
      (freed ≡ true)
      × IsReady s''
      × (s''.free_pg ≡ s.free_pg)
      × ((q : ℕ) → q < s.npages → bit_at s'' q ≡ bit_at s q)
unfolding GivenBack
pages_free-pages_alloc_z {s} n z {a} r pos below e = elim (pages_alloc_z_lem n z r pos) [
  | inr (none_left, _) ↦ cc none_left
  | inl (a', e', g) ↦
      give_back (pages_alloc_z s n z).1 n a r pos below
        (subst (λ x. Granted s (pages_alloc_z s n z).1 n x) (some_eq (sym e' ∙ e)) g)
]
