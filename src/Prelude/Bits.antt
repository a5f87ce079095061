-- ===== src/Prelude/Bits.antt =====
-- `|` and `&` of flag bytes: the laws that setting a marker bit relies on, for every bit pattern.
use Prim.Native.Nat.{
  ℕ, zero, suc, ◌+◌, ◌*◌, ◌/◌, ◌%◌, ◌≤◌, min, max, bit_and, bit_or, digits, bit_and-bitwise,
  bit_or-bitwise,
}
use mathlib.Core.Path.{◌≡◌, refl, ◌∙◌}
use native.Mathlib.Omega.{arith}

-- The digit recursion does not depend on its fuel, once that covers the number.
module _ (rest : ℕ → ℕ) (op : ℕ → ℕ → ℕ) where
  stable : (k l x y : ℕ) → x ≤ k → x ≤ l → digits rest op k x y ≡ digits rest op l x y
  stable zero l (suc x) y p q = elim p [ ]
  stable k zero (suc x) y p q = elim q [ ]
  stable zero zero zero y p q = refl
  stable zero (suc l) zero y p q = refl
  stable (suc k) zero zero y p q = refl
  stable (suc k) (suc l) zero y p q = refl
  stable (suc k) (suc l) (suc x) y p q =
      rw (stable k l (suc x / 2) (y / 2) (omega arith) (omega arith))

  lowest :
      (x y : ℕ)
      → digits rest op (suc x) (suc x) y
        ≡ digits rest op (suc x / 2) (suc x / 2) (y / 2) * 2 + op (suc x % 2) (y % 2)
  lowest x y = omega (arith, stable x (suc x / 2) (suc x / 2) (y / 2) (omega arith) (omega arith))

or_lowest : (x y : ℕ) → bit_or x y ≡ bit_or (x / 2) (y / 2) * 2 + max (x % 2) (y % 2)
or_lowest zero y = simp bit_or-bitwise (omega arith)
or_lowest (suc x) y = simp bit_or-bitwise (lowest (λ r. r) max x y)

and_lowest : (x y : ℕ) → bit_and x y ≡ bit_and (x / 2) (y / 2) * 2 + min (x % 2) (y % 2)
and_lowest zero y = simp bit_and-bitwise (omega arith)
and_lowest (suc x) y = simp bit_and-bitwise (lowest (λ r. 0) min x y)

half-bit_or : (x y : ℕ) → bit_or x y / 2 ≡ bit_or (x / 2) (y / 2)
half-bit_or x y = omega (arith, or_lowest x y)

odd-bit_or : (x y : ℕ) → bit_or x y % 2 ≡ max (x % 2) (y % 2)
odd-bit_or x y = omega (arith, or_lowest x y)

and_of_or :
    (f h b : ℕ)
    → bit_and (bit_or f h) b
      ≡ bit_and (bit_or (f / 2) (h / 2)) (b / 2) * 2 + min (max (f % 2) (h % 2)) (b % 2)
and_of_or f h b = and_lowest (bit_or f h) b ∙ rw (half-bit_or, odd-bit_or)

or_of_or :
    (f h b : ℕ)
    → bit_or (bit_or f h) b
      ≡ bit_or (bit_or (f / 2) (h / 2)) (b / 2) * 2 + max (max (f % 2) (h % 2)) (b % 2)
or_of_or f h b = or_lowest (bit_or f h) b ∙ rw (half-bit_or, odd-bit_or)

-- The recursions below halve every number until all are zero.
marked : (n f h : ℕ) → f ≤ n → h ≤ n → bit_and (bit_or f h) h ≡ h
marked zero zero zero p q = refl
marked zero (suc f) h p q = elim p [ ]
marked zero f (suc h) p q = elim q [ ]
marked (suc n) f h p q =
    omega (arith, and_of_or f h h, marked n (f / 2) (h / 2) (omega arith) (omega arith))

-- A marker that was set is there.
pub bit_and-bit_or_self : (f h : ℕ) → bit_and (bit_or f h) h ≡ h
bit_and-bit_or_self f h = marked (f + h) f h (omega arith) (omega arith)

marked_twice : (n f h : ℕ) → f ≤ n → h ≤ n → bit_or (bit_or f h) h ≡ bit_or f h
marked_twice zero zero zero p q = refl
marked_twice zero (suc f) h p q = elim p [ ]
marked_twice zero f (suc h) p q = elim q [ ]
marked_twice (suc n) f h p q = omega (
  arith,
  or_of_or f h h,
  or_lowest f h,
  marked_twice n (f / 2) (h / 2) (omega arith) (omega arith),
)

-- Setting a marker twice is setting it once.
pub bit_or-bit_or_self : (f h : ℕ) → bit_or (bit_or f h) h ≡ bit_or f h
bit_or-bit_or_self f h = marked_twice (f + h) f h (omega arith) (omega arith)

apart :
    (n f h b : ℕ) → f ≤ n → h ≤ n → b ≤ n → bit_and h b ≡ 0 → bit_and (bit_or f h) b ≡ bit_and f b
apart zero zero zero zero p q r z = refl
apart zero (suc f) h b p q r z = elim p [ ]
apart zero f (suc h) b p q r z = elim q [ ]
apart zero f h (suc b) p q r z = elim r [ ]
apart (suc n) f h b p q r z = omega (
  arith,
  and_of_or f h b,
  and_lowest f b,
  and_lowest h b,
  apart n (f / 2) (h / 2) (b / 2) (omega arith) (omega arith) (omega arith)
      (omega (arith, and_lowest h b)),
)

-- Setting a marker leaves every other bit as it was.
pub bit_and-bit_or_of_apart : (f h b : ℕ) → bit_and h b ≡ 0 → bit_and (bit_or f h) b ≡ bit_and f b
bit_and-bit_or_of_apart f h b z =
    apart (f + h + b) f h b (omega arith) (omega arith) (omega arith) z
