-- ===== src/Text/Prints.antt =====
-- Code that prints a text into a buffer that has room for it.
use mathlib.Core.List.{append-nil, append_assoc}
use leak_detector.Base.{
  ℕ, ◌+◌, ◌≤◌, ◌<◌, ◌≡◌, refl, sym, subst, List, [], ◌∷◌, ◌++◌, true, false, Option, some, arith,
  ltb, leb, if◌then◌else◌, ◌>>=◌, length, take, length-append, u64_mod,
}
use leak_detector.Text.Buffer.{
  Buffer, start, append, terminate, Holds, IsTerminated, append-Holds, terminate-Holds,
}

-- The buffer with the text after what was printed, and the zero after it.
pub record Printed (size : ℕ) (printed : List ℕ) (r : Option Buffer) : Type 0 where
  pub buffer : Buffer
  pub result : r ≡ some buffer
  pub holds : Holds size printed buffer
  pub terminated : IsTerminated printed buffer

-- The code prints the text, in each buffer with room for it.
abbrev pub Prints : (Buffer → Option Buffer) → List ℕ → Type 0
Prints code text =
    (size : ℕ) (printed : List ℕ) (b : Buffer)
    → Holds size printed b
    → IsTerminated printed b
    → length printed + length text < size
    → size < u64_mod
    → Printed size (printed ++ text) (code b)

-- The same for code that returns the number of bytes printed and the memory.
pub record Counted (size : ℕ) (printed text : List ℕ) (r : Option (ℕ × List ℕ)) : Type 0 where
  pub buffer : Buffer
  pub result : r ≡ some (length text, buffer.memory)
  pub holds : Holds size (printed ++ text) buffer
  pub terminated : IsTerminated (printed ++ text) buffer

-- What is left of a buffer of bytes after a text was printed at its start: the number of bytes and
-- the memory.
pub record Dumped (text memory : List ℕ) (r : Option (ℕ × List ℕ)) : Type 0 where
  pub after : List ℕ
  pub result : r ≡ some (length text, after)
  pub whole : length after ≡ length memory
  pub content : take (length text + 1) after ≡ text ++ 0 ∷ []

pub start-Holds : (memory : List ℕ) → Holds (length memory) [] (start memory)
start-Holds memory = record { whole = refl; at = refl; left = omega arith; content = refl }

pub append-Printed :
    (text : List ℕ) (size : ℕ) (printed : List ℕ) (b : Buffer)
    → Holds size printed b
    → length printed + length text < size
    → size < u64_mod
    → Printed size (printed ++ text) (append text b)
append-Printed text size printed b h fits word =
    let (b', e, h', t') = append-Holds size printed text b h fits word in
    record { buffer = b'; result = e; holds = h'; terminated = t' }

pub append-Prints : (text : List ℕ) → Prints (append text) text
append-Prints text size printed b h t fits word = append-Printed text size printed b h fits word

pub terminate-Printed :
    (size : ℕ) (printed : List ℕ) (b : Buffer)
    → Holds size printed b
    → length printed < size
    → Printed size printed (terminate b)
terminate-Printed size printed b h fits =
    let (b', e, h', t') = terminate-Holds size printed b h fits in
    record { buffer = b'; result = e; holds = h'; terminated = t' }

pub some-Prints : Prints some []
some-Prints size printed b h t fits word = record {
  buffer = b;
  result = refl;
  holds = subst (λ p. Holds size p b) (sym (append-nil printed)) h;
  terminated = subst (λ p. IsTerminated p b) (sym (append-nil printed)) t;
}

pub bind-Prints :
    (f g : Buffer → Option Buffer) (s t : List ℕ)
    → Prints f s
    → Prints g t
    → Prints (λ (b : Buffer). f b >>= g) (s ++ t)
bind-Prints f g s t pf pg size printed b h z fits word =
    let r = pf size printed b h z (omega (arith, length-append s t)) word in
    let r' =
      pg size (printed ++ s) r.buffer r.holds r.terminated
        (omega (arith, length-append s t, length-append printed s)) word in
    record {
      buffer = r'.buffer;
      result = rw (r.result, ◌>>=◌) r'.result;
      holds = subst (λ p. Holds size p r'.buffer) (append_assoc printed s t) r'.holds;
      terminated = subst (λ p. IsTerminated p r'.buffer) (append_assoc printed s t) r'.terminated;
    }

-- The test that is made before printing holds where the text is not empty.
pub if-Prints :
    (f g : Buffer → Option Buffer) (t : List ℕ)
    → 1 ≤ length t
    → Prints f t
    → Prints (λ (b : Buffer). if ltb 1 b.remaining then f b else g b) t
if-Prints f g t some_text pf size printed b h z fits word =
    let room : ltb 1 b.remaining ≡ true = ground (arith, h.left, fits, some_text) in
    rw room (pf size printed b h z fits word)

pub unless-Prints :
    (f g : Buffer → Option Buffer) (t : List ℕ)
    → 1 ≤ length t
    → Prints f t
    → Prints (λ (b : Buffer). if leb b.remaining 1 then g b else f b) t
unless-Prints f g t some_text pf size printed b h z fits word =
    let room : leb b.remaining 1 ≡ false = ground (arith, h.left, fits, some_text) in
    rw room (pf size printed b h z fits word)
