-- ===== src/LeakAnalyzer/Printing.antt =====
-- The text of a dump, how long it can be, and that `Dump` prints it.
use leak_detector.Base.{
  ℕ, suc, ◌+◌, ◌*◌, ◌≤◌, ◌<◌, ◌≡◌, refl, subst, sym, inl, inr, Bool, true, false, List, [], ◌∷◌,
  ◌++◌, Option, none, some, arith, Bool-cases, ltb, leb, ◌==◌, if◌then◌else◌, ◌>>=◌, length,
  length-append, length-take, sub32, sub64, u64_mod,
}
use leak_detector.LeakAnalyzer.Dump.{
  top_line, prev_entry_text, entry_line, dump_entries, dump_ranked, dump_values, suspected_line,
  dump_suspected, dump_all, dump,
}
use leak_detector.LeakAnalyzer.{
  LeakAnalyzer, report_leaks, add_sample, analyze_deltas, get_previous_count_for_value,
}
use leak_detector.RankedList.{Entry, RankedList, move_assign}
use leak_detector.Text.Buffer.{Buffer, start, append, Holds}
use leak_detector.Text.Numbers.{
  codes, decimal, signed_decimal, padded, length-decimal, length-signed_decimal, length-padded,
}
use leak_detector.Text.Prints.{
  Printed, Prints, Counted, Dumped, start-Holds, append-Prints, some-Prints, bind-Prints, if-Prints,
  unless-Prints, terminate-Printed,
}
use leak_detector.ValueType.Printing.{
  to_string, type_name, length-to_string, length-to_string-pos, length-type_name,
}
use leak_detector.ValueType.{ValueType}

-- One line for each entry before the first with count 0.
unfoldable pub entries_text : List Entry → List Entry → List ℕ
entries_text previous [] = []
entries_text previous (entry ∷ entries) =
    if entry.count == 0 then [] else entry_line previous entry ++ entries_text previous entries

unfoldable pub ranked_text : List Entry → List Entry → List ℕ
ranked_text previous [] = []
ranked_text previous (first ∷ entries) =
    top_line first entries ++ entries_text previous (first ∷ entries)

unfoldable pub values_text : List ℕ → List ValueType → List ℕ
values_text comma [] = []
values_text comma (value ∷ values) =
    (comma ++ to_string 256 value) ++ values_text (codes ", ") values

unfoldable pub suspected_text : List ValueType → List ℕ
suspected_text [] = []
suspected_text (first ∷ values) =
    suspected_line first ++ (values_text [] (first ∷ values) ++ codes "\n")

unfoldable pub dump_text : LeakAnalyzer → List ℕ
dump_text a =
    ranked_text a.prev_ranked_entries.entries a.ranked_entries.entries
    ++ suspected_text a.suspected_leaks

length-prev_entry_text : (entry : Entry) (c : Option ℕ) → length (prev_entry_text entry c) ≤ 23
unfolding prev_entry_text
length-prev_entry_text entry none = omega arith
length-prev_entry_text entry (some c) =
    let n = signed_decimal (sub32 entry.count c) in
    let text = padded 10 n ++ codes ")" in
    omega (
      arith,
      length-take 255 (codes "(" ++ text),
      length-append (padded 10 n) (codes ")"),
      length-padded 10 21 n (length-signed_decimal (sub32 entry.count c)) (omega arith),
    )

length-entry_line :
    (previous : List Entry) (entry : Entry)
    → (1 ≤ length (entry_line previous entry)) × (length (entry_line previous entry) ≤ 67)
unfolding entry_line
length-entry_line previous entry =
    let value = padded 10 (to_string 256 entry.value) in
    let count = padded 10 (decimal entry.count) in
    let change = prev_entry_text entry (get_previous_count_for_value previous entry.value) in
    let v =
      length-padded 10 20 (to_string 256 entry.value) (length-to_string 256 entry.value)
        (omega arith) in
    let c = length-padded 10 20 (decimal entry.count) (length-decimal entry.count) (omega arith) in
    let d = length-prev_entry_text entry (get_previous_count_for_value previous entry.value) in
    let e1 = length-append value (codes ": " ++ (count ++ (codes " " ++ (change ++ codes "\n")))) in
    let e2 = length-append count (codes " " ++ (change ++ codes "\n")) in
    let e3 = length-append change (codes "\n") in
    (omega (arith, e1, e2, e3), omega (arith, e1, e2, e3, v, c, d))

if_same {ℓ} : {A : Type ℓ} (c : Bool) (x : A) → (if c then x else x) ≡ x
if_same true x = refl
if_same false x = refl

dump_entries-Prints :
    (previous entries : List Entry)
    → Prints (dump_entries previous entries) (entries_text previous entries)
unfolding dump_entries entries_text
dump_entries-Prints previous [] = some-Prints
dump_entries-Prints previous (entry ∷ entries) = elim (Bool-cases (entry.count == 0)) [
  | inl zero_count ↦ rw zero_count (λ size printed b h t fits word.
      subst (Printed size (printed ++ [])) (sym (if_same (leb b.remaining 1) (some b)))
        (some-Prints size printed b h t fits word))
  | inr counted ↦ rw counted (
      unless-Prints
        (λ (b : Buffer). append (entry_line previous entry) b >>= dump_entries previous entries)
        some (entry_line previous entry ++ entries_text previous entries)
        (omega (
          arith,
          (length-entry_line previous entry).0,
          length-append (entry_line previous entry) (entries_text previous entries),
        ))
        (bind-Prints (append (entry_line previous entry)) (dump_entries previous entries)
          (entry_line previous entry) (entries_text previous entries)
          (append-Prints (entry_line previous entry)) (dump_entries-Prints previous entries)))
]

length-top_line :
    (first : Entry) (entries : List Entry)
    → (1 ≤ length (top_line first entries)) × (length (top_line first entries) ≤ 49)
unfolding top_line
length-top_line first entries =
    let n = decimal (length (first ∷ entries)) in
    let kind = type_name first.value in
    let e1 = length-append n (codes " " ++ (kind ++ codes "s *****\n")) in
    let e2 = length-append kind (codes "s *****\n") in
    (
      omega (arith, e1, e2),
      omega
          (arith, e1, e2, length-decimal (length (first ∷ entries)), length-type_name first.value),
    )

dump_ranked-Prints :
    (previous entries : List Entry)
    → Prints (dump_ranked previous entries) (ranked_text previous entries)
unfolding dump_ranked ranked_text
dump_ranked-Prints previous [] = some-Prints
dump_ranked-Prints previous (first ∷ entries) =
    bind-Prints
      (λ (b : Buffer). if ltb 1 b.remaining then append (top_line first entries) b else some b)
      (dump_entries previous (first ∷ entries)) (top_line first entries)
      (entries_text previous (first ∷ entries))
      (if-Prints (append (top_line first entries)) some (top_line first entries)
        (length-top_line first entries).0 (append-Prints (top_line first entries)))
      (dump_entries-Prints previous (first ∷ entries))

dump_values-Prints :
    (comma : List ℕ) (values : List ValueType)
    → Prints (dump_values comma values) (values_text comma values)
unfolding dump_values values_text
dump_values-Prints comma [] = some-Prints
dump_values-Prints comma (value ∷ values) =
    bind-Prints (append (comma ++ to_string 256 value)) (dump_values (codes ", ") values)
      (comma ++ to_string 256 value) (values_text (codes ", ") values)
      (append-Prints (comma ++ to_string 256 value)) (dump_values-Prints (codes ", ") values)

length-values_text-pos :
    (comma : List ℕ) (value : ValueType) (values : List ValueType)
    → 1 ≤ length (values_text comma (value ∷ values))
unfolding values_text
length-values_text-pos comma value values = omega (
  arith,
  length-append (comma ++ to_string 256 value) (values_text (codes ", ") values),
  length-append comma (to_string 256 value),
  length-to_string-pos value,
)

dump_suspected-Prints :
    (values : List ValueType) → Prints (dump_suspected values) (suspected_text values)
unfolding dump_suspected suspected_text suspected_line
dump_suspected-Prints [] = some-Prints
dump_suspected-Prints (first ∷ values) =
    bind-Prints
      (λ (b : Buffer). if ltb 1 b.remaining then append (suspected_line first) b else some b)
      (λ (b1 : Buffer).
        (if ltb 1 b1.remaining then dump_values [] (first ∷ values) b1 else some b1)
        >>= (λ b2. if ltb 1 b2.remaining then append (codes "\n") b2 else some b2))
      (suspected_line first) (values_text [] (first ∷ values) ++ codes "\n")
      (if-Prints (append (suspected_line first)) some (suspected_line first) (omega arith)
        (append-Prints (suspected_line first)))
      (bind-Prints
        (λ (b1 : Buffer).
          if ltb 1 b1.remaining then dump_values [] (first ∷ values) b1 else some b1)
        (λ (b2 : Buffer). if ltb 1 b2.remaining then append (codes "\n") b2 else some b2)
        (values_text [] (first ∷ values)) (codes "\n")
        (if-Prints (dump_values [] (first ∷ values)) some (values_text [] (first ∷ values))
          (length-values_text-pos [] first values) (dump_values-Prints [] (first ∷ values)))
        (if-Prints (append (codes "\n")) some (codes "\n") (omega arith)
          (append-Prints (codes "\n"))))

pub dump_all-Prints : (a : LeakAnalyzer) → Prints (dump_all a) (dump_text a)
unfolding dump_all dump_text
dump_all-Prints a =
    bind-Prints (dump_ranked a.prev_ranked_entries.entries a.ranked_entries.entries)
      (dump_suspected a.suspected_leaks)
      (ranked_text a.prev_ranked_entries.entries a.ranked_entries.entries)
      (suspected_text a.suspected_leaks)
      (dump_ranked-Prints a.prev_ranked_entries.entries a.ranked_entries.entries)
      (dump_suspected-Prints a.suspected_leaks)

length-entries_text :
    (previous entries : List Entry) → length (entries_text previous entries) ≤ 67 * length entries
unfolding entries_text
length-entries_text previous [] = omega arith
length-entries_text previous (entry ∷ entries) = ground (
  arith,
  (length-entry_line previous entry).1,
  length-entries_text previous entries,
  length-append (entry_line previous entry) (entries_text previous entries),
)

length-values_text :
    (comma : List ℕ) (values : List ValueType)
    → length comma ≤ 2
    → length (values_text comma values) ≤ 22 * length values
unfolding values_text
length-values_text comma [] h = omega arith
length-values_text comma (value ∷ values) h = omega (
  arith,
  length-append (comma ++ to_string 256 value) (values_text (codes ", ") values),
  length-append comma (to_string 256 value),
  length-to_string 256 value,
  length-values_text (codes ", ") values (omega arith),
)

length-ranked_text :
    (previous entries : List Entry)
    → length (ranked_text previous entries) ≤ 49 + 67 * length entries
unfolding ranked_text
length-ranked_text previous [] = omega arith
length-ranked_text previous (first ∷ entries) = omega (
  arith,
  length-append (top_line first entries) (entries_text previous (first ∷ entries)),
  (length-top_line first entries).1,
  length-entries_text previous (first ∷ entries),
)

length-suspected_text :
    (values : List ValueType) → length (suspected_text values) ≤ 24 + 22 * length values
unfolding suspected_text suspected_line
length-suspected_text [] = omega arith
length-suspected_text (first ∷ values) = omega (
  arith,
  length-append (type_name first) (codes "s: "),
  length-append (values_text [] (first ∷ values)) (codes "\n"),
  length-append (suspected_line first) (values_text [] (first ∷ values) ++ codes "\n"),
  length-type_name first,
  length-values_text [] (first ∷ values) (omega arith),
)

pub length-dump_text :
    (a : LeakAnalyzer)
    → length (dump_text a)
      ≤ 73 + 67 * length a.ranked_entries.entries + 22 * length a.suspected_leaks
unfolding dump_text
length-dump_text a = omega (
  arith,
  length-append (ranked_text a.prev_ranked_entries.entries a.ranked_entries.entries)
      (suspected_text a.suspected_leaks),
  length-ranked_text a.prev_ranked_entries.entries a.ranked_entries.entries,
  length-suspected_text a.suspected_leaks,
)

pub dump-Counted :
    (a : LeakAnalyzer) (size : ℕ) (printed : List ℕ) (b : Buffer)
    → Holds size printed b
    → length printed + length (dump_text a) < size
    → size < u64_mod
    → Counted size printed (dump_text a) (dump a b)
unfolding dump
dump-Counted a size printed b h fits word =
    let zero_first = terminate-Printed size printed b h (omega arith) in
    let r =
      dump_all-Prints a size printed zero_first.buffer zero_first.holds zero_first.terminated fits
        word in
    let count : sub64 b.remaining r.buffer.remaining ≡ length (dump_text a) =
      omega (arith, h.left, r.holds.left, length-append printed (dump_text a), word) in
    record {
      buffer = r.buffer;
      result = rw (zero_first.result, ◌>>=◌, r.result, count) refl;
      holds = r.holds;
      terminated = r.terminated;
    }

pub length-report_leaks :
    (n t : ℕ) (leaks : List ValueType) (histogram : List (ValueType × ℕ))
    → length leaks ≤ suc n
    → length (report_leaks n t leaks histogram) ≤ suc n
unfolding report_leaks
length-report_leaks n t leaks [] h = h
length-report_leaks n t leaks ((v, s) ∷ histogram) h = elim (Bool-cases (ltb n (length leaks))) [
  | inl e ↦ rw e h
  | inr e ↦ rw e (
      length-report_leaks n t (if leb t s then leaks ++ v ∷ [] else leaks) histogram
        (ground (arith, e, length-append leaks (v ∷ []))))
]

-- `Dump` after a sample, into a buffer of fewer than 2 ^ 64 bytes with room for 67 bytes for each
-- ranked entry, 22 for each suspected value that there can be, and 95 more, prints the whole text
-- and a zero from the start of the buffer on, writes nowhere else than in the buffer, and returns
-- the length of the text.
pub dump-Dumped :
    (a : LeakAnalyzer) (sample : RankedList) (memory : List ℕ)
    → 95 + 67 * length sample.entries + 22 * a.ranking_size < length memory
    → length memory < u64_mod
    → Dumped (dump_text (add_sample a sample)) memory (dump (add_sample a sample) (start memory))
unfolding add_sample analyze_deltas move_assign
dump-Dumped a sample memory room word =
    let b = add_sample a sample in
    let few =
      length-report_leaks a.ranking_size a.score_threshold [] b.suspected_histogram (omega arith) in
    let r =
      dump-Counted b (length memory) [] (start memory) (start-Holds memory)
        (omega (arith, length-dump_text b, few)) word in
    record {
      after = r.buffer.memory;
      result = r.result;
      whole = r.holds.whole;
      content = r.terminated;
    }
