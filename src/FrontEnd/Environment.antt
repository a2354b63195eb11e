-- ===== src/FrontEnd/Environment.antt =====
-- The settings, which leak_detector.cc reads from environment variables.
use leak_detector.Base.{
  ℕ, zero, suc, ◌+◌, ◌-◌, ◌*◌, ◌/◌, ◌%◌, ◌^◌, ◌≤◌, ◌<◌, ◌≡◌, refl, ap, ◌∙◌, inl, inr, Bool, true,
  false, ◌&&◌, ◌||◌, List, [], ◌∷◌, ◌++◌, Option, none, some, arith, ltb, leb, ◌==◌, if◌then◌else◌,
  Bool-cases, mul32, u32_mod, min,
}
use leak_detector.FrontEnd.State.{Settings, to_u64}
use leak_detector.Text.Numbers.{codes, digit_of, digits, decimal}

abbrev is_space : ℕ → Bool
is_space c = c == b' ' || (leb 9 c && leb c 13)

abbrev is_digit : ℕ → Bool
is_digit c = leb b'0' c && leb c b'9'

unfoldable pub skip_space : List ℕ → List ℕ
skip_space [] = []
skip_space (c ∷ cs) = let rest = skip_space cs in if is_space c then rest else c ∷ cs

-- The digits at the front, after a number.
unfoldable pub digits_value : ℕ → List ℕ → ℕ
digits_value n [] = n
digits_value n (c ∷ cs) =
    let more = digits_value (n * 10 + (c - b'0')) cs in if is_digit c then more else n

-- A `long` from its sign and its size, which `strtol` cuts to the range, as an `int`.
unfoldable pub long_to_int : Bool → ℕ → ℕ
long_to_int true n = (u32_mod - min n (2 ^ 63) % u32_mod) % u32_mod
long_to_int false n = min n (2 ^ 63 - 1) % u32_mod

unfoldable pub signed_value : List ℕ → ℕ
signed_value [] = 0
signed_value (c ∷ cs) =
    if c == b'-'
    then long_to_int true (digits_value 0 cs)
    else if c == b'+'
    then long_to_int false (digits_value 0 cs)
    else long_to_int false (digits_value 0 (c ∷ cs))

-- `strtol(s, nullptr, 10)` as an `int`.
unfoldable pub strtol : List ℕ → ℕ
strtol s = signed_value (skip_space s)

-- `EnvToInt` and `EnvToBool`, of what `getenv` gives.
unfoldable pub env_to_int : Option (List ℕ) → ℕ → ℕ
env_to_int none default_value = default_value
env_to_int (some s) default_value = strtol s

memchr : ℕ → List ℕ → Bool
memchr c [] = false
memchr c (x ∷ xs) = c == x || memchr c xs

-- The six bytes that are searched end with a zero, the first byte of an empty text.
unfoldable pub env_to_bool : Option (List ℕ) → Bool → Bool
unfolding memchr
env_to_bool none default_value = default_value
env_to_bool (some []) default_value = memchr 0 (codes "tTyY1" ++ 0 ∷ [])
env_to_bool (some (c ∷ cs)) default_value = memchr c (codes "tTyY1" ++ 0 ∷ [])

-- The globals that are initialized from the environment; `getenv` gives the text of a variable.
unfoldable pub settings_of : (List ℕ → Option (List ℕ)) → Settings
settings_of getenv = record {
  sampling_factor = env_to_int (getenv (codes "LEAK_DETECTOR_SAMPLING_FACTOR")) 1;
  stack_depth = env_to_int (getenv (codes "LEAK_DETECTOR_STACK_DEPTH")) 4;
  dump_interval_bytes =
      to_u64 (mul32 (env_to_int (getenv (codes "LEAK_DETECTOR_DUMP_INTERVAL_KB")) 32768) 1024);
  size_suspicion_threshold = env_to_int (getenv (codes "LEAK_DETECTOR_SIZE_SUSPICION_THRESHOLD")) 4;
  call_stack_suspicion_threshold =
      env_to_int (getenv (codes "LEAK_DETECTOR_CALL_STACK_SUSPICION_THRESHOLD")) 4;
}

-- `g_dump_leak_analysis`.
unfoldable pub dump_leak_analysis : (List ℕ → Option (List ℕ)) → Bool
dump_leak_analysis getenv = env_to_bool (getenv (codes "LEAK_DETECTOR_VERBOSE")) false

digits_value-digit :
    (n d : ℕ) (out : List ℕ)
    → d < 10
    → digits_value n (digit_of d ∷ out) ≡ digits_value (n * 10 + d) out
unfolding digits_value digit_of
digits_value-digit n d out h =
    let small : ltb d 10 ≡ true = ground (arith, h) in
    let digit : is_digit (b'0' + d) ≡ true = ground (arith, h) in
    rw (small, digit) (ap (λ k. digits_value k out) (omega (arith, h)))

digits_value-digits :
    (f n : ℕ) (out : List ℕ) → n < 10 ^ f → digits_value 0 (digits 10 f n out) ≡ digits_value n out
unfolding digits
digits_value-digits zero n out h = ap (λ k. digits_value k out) (omega arith)
digits_value-digits (suc f) n out h =
    let step = digits_value-digit (n / 10) (n % 10) out (omega arith) in
    let whole : n / 10 * 10 + n % 10 ≡ n = omega arith in
    elim (Bool-cases (ltb n 10)) [
      | inl t ↦ rw t (
          digits_value-digit 0 (n % 10) out (omega arith)
          ∙ ap (λ k. digits_value k out) (ground (arith, t)))
      | inr t ↦ rw t (
          digits_value-digits f (n / 10) (digit_of (n % 10) ∷ out) (omega arith)
          ∙ (step ∙ ap (λ k. digits_value k out) whole))
    ]

-- A text whose first character is a digit.
abbrev StartsWithDigit : List ℕ → Type 0
StartsWithDigit [] = ⊥
StartsWithDigit (c ∷ cs) = (b'0' ≤ c) × (c ≤ b'9')

digit_of-digit : (d : ℕ) → d < 10 → (b'0' ≤ digit_of d) × (digit_of d ≤ b'9')
unfolding digit_of
digit_of-digit d h = ground (arith, h)

digits-StartsWithDigit :
    (f n d : ℕ) (out : List ℕ) → d < 10 → StartsWithDigit (digits 10 f n (digit_of d ∷ out))
unfolding digits
digits-StartsWithDigit zero n d out h = digit_of-digit d h
digits-StartsWithDigit (suc f) n d out h = elim (Bool-cases (ltb n 10)) [
  | inl t ↦ rw t (digit_of-digit (n % 10) (omega arith))
  | inr t ↦ rw t (digits-StartsWithDigit f (n / 10) (n % 10) (digit_of d ∷ out) (omega arith))
]

decimal-StartsWithDigit : (n : ℕ) → StartsWithDigit (decimal n)
unfolding decimal digits
decimal-StartsWithDigit n = elim (Bool-cases (ltb n 10)) [
  | inl t ↦ rw t (digit_of-digit (n % 10) (omega arith))
  | inr t ↦ rw t (digits-StartsWithDigit 19 (n / 10) (n % 10) [] (omega arith))
]

strtol-digits : (s : List ℕ) → StartsWithDigit s → strtol s ≡ long_to_int false (digits_value 0 s)
unfolding strtol skip_space signed_value
strtol-digits [] h = elim h [ ]
strtol-digits (c ∷ cs) h =
    let not_space : is_space c ≡ false = ground (arith, h) in
    let not_minus : (c == b'-') ≡ false = ground (arith, h) in
    let not_plus : (c == b'+') ≡ false = ground (arith, h) in
    rw (not_space, not_minus, not_plus) refl

digits_value-decimal : (n : ℕ) → n < 2 ^ 31 → digits_value 0 (decimal n) ≡ n
unfolding decimal digits_value
digits_value-decimal n h = digits_value-digits 20 n [] (omega (arith, h))

env_to_int-decimal :
    (n default_value : ℕ) → n < 2 ^ 31 → env_to_int (some (decimal n)) default_value ≡ n
unfolding env_to_int long_to_int
env_to_int-decimal n default_value h =
    strtol-digits (decimal n) (decimal-StartsWithDigit n)
    ∙ (ap (long_to_int false) (digits_value-decimal n h) ∙ omega (arith, h))

-- The number of a variable that may be set.
abbrev pub number_or : ℕ → Option ℕ → ℕ
number_or default_value none = default_value
number_or default_value (some n) = n

abbrev pub printed : Option ℕ → Option (List ℕ)
printed none = none
printed (some n) = some (decimal n)

abbrev pub IsInt : Option ℕ → Type 0
IsInt none = Unit {0}
IsInt (some n) = n < 2 ^ 31

env_to_int-printed :
    (o : Option ℕ) (default_value : ℕ)
    → IsInt o
    → env_to_int (printed o) default_value ≡ number_or default_value o
unfolding env_to_int
env_to_int-printed none default_value h = refl
env_to_int-printed (some n) default_value h = env_to_int-decimal n default_value h

-- The settings of an environment that gives some variables as numbers.
pub record Configured (numbers : List ℕ → Option ℕ) (s : Settings) : Type 0 where
  pub sampling : s.sampling_factor ≡ number_or 1 (numbers (codes "LEAK_DETECTOR_SAMPLING_FACTOR"))
  pub depth : s.stack_depth ≡ number_or 4 (numbers (codes "LEAK_DETECTOR_STACK_DEPTH"))
  pub size :
      s.size_suspicion_threshold
      ≡ number_or 4 (numbers (codes "LEAK_DETECTOR_SIZE_SUSPICION_THRESHOLD"))
  pub call_stack :
      s.call_stack_suspicion_threshold
      ≡ number_or 4 (numbers (codes "LEAK_DETECTOR_CALL_STACK_SUSPICION_THRESHOLD"))
  pub interval :
      number_or 32768 (numbers (codes "LEAK_DETECTOR_DUMP_INTERVAL_KB")) < 2 ^ 21
      → s.dump_interval_bytes
        ≡ number_or 32768 (numbers (codes "LEAK_DETECTOR_DUMP_INTERVAL_KB")) * 1024
  pub huge_interval :
      2 ^ 21 ≤ number_or 32768 (numbers (codes "LEAK_DETECTOR_DUMP_INTERVAL_KB"))
      → number_or 32768 (numbers (codes "LEAK_DETECTOR_DUMP_INTERVAL_KB")) < 2 ^ 22
      → s.dump_interval_bytes
        ≡ number_or 32768 (numbers (codes "LEAK_DETECTOR_DUMP_INTERVAL_KB")) * 1024
          + (2 ^ 64 - 2 ^ 32)

interval-small : (kb : ℕ) → kb < 2 ^ 21 → to_u64 (mul32 kb 1024) ≡ kb * 1024
interval-small kb h = ground (arith, h)

interval-huge :
    (kb : ℕ) → 2 ^ 21 ≤ kb → kb < 2 ^ 22 → to_u64 (mul32 kb 1024) ≡ kb * 1024 + (2 ^ 64 - 2 ^ 32)
interval-huge kb h h' = ground (arith, h, h')

-- In an environment that gives each variable as a decimal number below 2 ^ 31 or not at all, each
-- setting that is a number is the one of its variable, or its default. The interval is that many KB
-- if this is below 2 GB; if it is from 2 GB to below 4 GB, it is 2 ^ 64 - 2 ^ 32 bytes more.
pub settings_of-Configured :
    (numbers : List ℕ → Option ℕ)
    → ((name : List ℕ) → IsInt (numbers name))
    → Configured numbers (settings_of (λ name. printed (numbers name)))
unfolding settings_of
settings_of-Configured numbers small =
    let number = λ (name : List ℕ) (d : ℕ). env_to_int-printed (numbers name) d (small name) in
    let kb = number (codes "LEAK_DETECTOR_DUMP_INTERVAL_KB") 32768 in
    record {
      sampling = number (codes "LEAK_DETECTOR_SAMPLING_FACTOR") 1;
      depth = number (codes "LEAK_DETECTOR_STACK_DEPTH") 4;
      size = number (codes "LEAK_DETECTOR_SIZE_SUSPICION_THRESHOLD") 4;
      call_stack = number (codes "LEAK_DETECTOR_CALL_STACK_SUSPICION_THRESHOLD") 4;
      interval = λ h. ap (λ k. to_u64 (mul32 k 1024)) kb ∙ interval-small _ h;
      huge_interval = λ h h'. ap (λ k. to_u64 (mul32 k 1024)) kb ∙ interval-huge _ h h';
    }
