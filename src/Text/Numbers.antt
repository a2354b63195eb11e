-- ===== src/Text/Numbers.antt =====
-- The conversions `%u`, `%d`, `%zu`, `%x` and `%p`, with a width.
use Prim.Native.Char.{code}
use Prim.Native.String.{String}
use leak_detector.Base.{
  ℕ, zero, suc, ◌+◌, ◌-◌, ◌/◌, ◌%◌, ◌^◌, ◌≤◌, List, [], ◌∷◌, ◌++◌, arith, ltb, ◌==◌, if◌then◌else◌,
  length, replicate, length-append, length-replicate, u32_mod, Bool-cases, inl, inr,
}

abbrev pub codes : String → List ℕ
codes String.[] = []
codes (String.◌∷◌ c s) = code c ∷ codes s

unfoldable pub digit_of : ℕ → ℕ
digit_of d = if ltb d 10 then b'0' + d else 87 + d

-- The digits of a number in front of others; 0 is one digit. A `uint64_t` has at most twenty.
unfoldable pub digits : ℕ → ℕ → ℕ → List ℕ → List ℕ
unfolding digit_of
digits base zero n out = out
digits base (suc f) n out =
    let out' = digit_of (n % base) ∷ out in
    let rest = digits base f (n / base) out' in if ltb n base then out' else rest

unfoldable pub decimal : ℕ → List ℕ
decimal n = digits 10 20 n []

unfoldable pub hexadecimal : ℕ → List ℕ
hexadecimal n = digits 16 16 n []

-- `%d` of the bit pattern of an `int`.
unfoldable pub signed_decimal : ℕ → List ℕ
signed_decimal n = if ltb n (2 ^ 31) then decimal n else b'-' ∷ decimal (u32_mod - n)

-- `%p`.
unfoldable pub pointer : ℕ → List ℕ
pointer p = if p == 0 then codes "(nil)" else codes "0x" ++ hexadecimal p

-- A width of the conversion, with spaces on the left.
unfoldable pub padded : ℕ → List ℕ → List ℕ
padded width s = replicate (width - length s) b' ' ++ s

length-digits : (base f n : ℕ) (out : List ℕ) → length (digits base f n out) ≤ f + length out
unfolding digits
length-digits base zero n out = omega arith
length-digits base (suc f) n out = elim (Bool-cases (ltb n base)) [
  | inl t ↦ rw t (omega arith)
  | inr t ↦ rw t (omega (arith, length-digits base f (n / base) (digit_of (n % base) ∷ out)))
]

length-digits-ge : (base f n : ℕ) (out : List ℕ) → length out ≤ length (digits base f n out)
unfolding digits
length-digits-ge base zero n out = omega arith
length-digits-ge base (suc f) n out = elim (Bool-cases (ltb n base)) [
  | inl t ↦ rw t (omega arith)
  | inr t ↦ rw t (omega (arith, length-digits-ge base f (n / base) (digit_of (n % base) ∷ out)))
]

pub length-decimal-pos : (n : ℕ) → 1 ≤ length (decimal n)
unfolding decimal digits
length-decimal-pos n = elim (Bool-cases (ltb n 10)) [
  | inl t ↦ rw t (omega arith)
  | inr t ↦ rw t (length-digits-ge 10 19 (n / 10) (digit_of (n % 10) ∷ []))
]

pub length-decimal : (n : ℕ) → length (decimal n) ≤ 20
unfolding decimal
length-decimal n = length-digits 10 20 n []

pub length-signed_decimal : (n : ℕ) → length (signed_decimal n) ≤ 21
unfolding signed_decimal
length-signed_decimal n = ground (arith, length-decimal n, length-decimal (u32_mod - n))

pub length-hexadecimal : (n : ℕ) → length (hexadecimal n) ≤ 16
unfolding hexadecimal
length-hexadecimal n = length-digits 16 16 n []

pub length-pointer : (p : ℕ) → length (pointer p) ≤ 18
unfolding pointer hexadecimal
length-pointer p = ground (arith, length-digits 16 16 p [])

pub length-pointer-pos : (p : ℕ) → 1 ≤ length (pointer p)
unfolding pointer
length-pointer-pos p = ground (arith, length-append (codes "0x") (hexadecimal p))

pub length-padded : (w k : ℕ) (s : List ℕ) → length s ≤ k → w ≤ k → length (padded w s) ≤ k
unfolding padded
length-padded w k s h h' = omega (
  arith,
  length-append (replicate (w - length s) b' ') s,
  length-replicate {A = ℕ} (w - length s) b' ',
)
