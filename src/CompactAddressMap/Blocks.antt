-- ===== src/CompactAddressMap/Blocks.antt =====
-- The entries of one block: what the two loops over them find and change.
use leak_detector.Base.{
  ℕ, suc, ◌%◌, ◌≡◌, ◌≢◌, refl, subst, inl, inr, true, false, List, [], ◌∷◌, Option, none, some,
  arith, ◌==◌, if◌then◌else◌, All, Bool-cases,
}
use leak_detector.CompactAddressMap.State.{Entry, store}
use leak_detector.CompactAddressMap.Operations.{overwrite, unlink}

-- The entry of an offset.
unfoldable pub find_entry : ℕ → List Entry → Option Entry
find_entry offset [] = none
find_entry offset (e ∷ entries) = if e.offset == offset then some e else find_entry offset entries

abbrev pub Lacks : ℕ → List Entry → Type 0
Lacks offset entries = All (λ e. e.offset ≢ offset) entries

abbrev pub AreDistinct : List Entry → Type 0
AreDistinct [] = Unit {0}
AreDistinct (e ∷ entries) = Lacks e.offset entries × AreDistinct entries

pub Lacks-find_entry :
    (offset : ℕ) (entries : List Entry) → Lacks offset entries → find_entry offset entries ≡ none
unfolding find_entry
Lacks-find_entry offset [] h = refl
Lacks-find_entry offset (e ∷ entries) h = ground (arith, Lacks-find_entry offset entries h.1)

pub find_entry-Lacks :
    (offset : ℕ) (entries : List Entry) → find_entry offset entries ≡ none → Lacks offset entries
unfolding find_entry
find_entry-Lacks offset [] h = tt
find_entry-Lacks offset (e ∷ entries) h = elim (Bool-cases (e.offset == offset)) [
  | inl t ↦ cc
  | inr f ↦ (ground arith, find_entry-Lacks offset entries (ground arith))
]

-- An entry that holds what was stored. The size is stored modulo 256.
pub record IsStored (offset size : ℕ) (hash : Option ℕ) (e : Entry) : Type 0 where
  pub at_offset : e.offset ≡ offset
  pub of_size : e.size ≡ size % 256
  pub flag : e.has_call_stack ≡ elim hash [ none ↦ false | some h ↦ true ]
  pub hashed : (h : ℕ) → hash ≡ some h → e.call_stack_hash ≡ h

pub store-IsStored :
    (offset size : ℕ) (hash : Option ℕ) (e : Entry)
    → IsStored offset size hash (store offset size hash e)
unfolding store
store-IsStored offset size none e = record {
  at_offset = refl;
  of_size = refl;
  flag = refl;
  hashed = λ h k. cc;
}
store-IsStored offset size (some g) e = record {
  at_offset = refl;
  of_size = refl;
  flag = refl;
  hashed = λ h k. cc;
}

-- What the loop of `Insert` does to the entries of a block.
pub record Overwritten (offset size : ℕ) (hash : Option ℕ) (entries entries' : List Entry)
    : Type 0 where
  pub entry : Entry
  pub was : find_entry offset entries ≡ some entry
  pub finds :
      (j : ℕ)
      → find_entry j entries'
        ≡ (if j == offset then some (store offset size hash entry) else find_entry j entries)
  pub lacks : (j : ℕ) → Lacks j entries → Lacks j entries'
  pub distinct : AreDistinct entries → AreDistinct entries'

abbrev pub OverwriteResult : ℕ → ℕ → Option ℕ → List Entry → Option (ℕ × List Entry) → Type 0
OverwriteResult offset size hash entries none = find_entry offset entries ≡ none
OverwriteResult offset size hash entries (some r) = Overwritten offset size hash entries r.1

overwrite_here :
    (offset size : ℕ) (hash : Option ℕ) (e : Entry) (entries : List Entry)
    → (e.offset == offset) ≡ true
    → Overwritten offset size hash (e ∷ entries) (store offset size hash e ∷ entries)
unfolding find_entry
overwrite_here offset size hash e entries t =
    let s = (store-IsStored offset size hash e).at_offset in
    let same : e.offset ≡ (store offset size hash e).offset = ground (arith, s) in
    record {
      entry = e;
      was = ground arith;
      finds = λ j. ground (arith, s);
      lacks = λ j h. (subst (λ (k : ℕ). k ≢ j) same h.0, h.1);
      distinct = λ h. (subst (λ (k : ℕ). Lacks k entries) same h.0, h.1);
    }

overwrite_later :
    (offset size : ℕ) (hash : Option ℕ) (e : Entry) (entries entries' : List Entry)
    → (e.offset == offset) ≡ false
    → Overwritten offset size hash entries entries'
    → Overwritten offset size hash (e ∷ entries) (e ∷ entries')
unfolding find_entry
overwrite_later offset size hash e entries entries' f h = record {
  entry = h.entry;
  was = ground (arith, h.was);
  finds = λ j. ground (arith, h.finds j);
  lacks = λ j k. (k.0, h.lacks j k.1);
  distinct = λ k. (h.lacks e.offset k.0, h.distinct k.1);
}

overwrite-cons :
    (offset size : ℕ) (hash : Option ℕ) (e : Entry) (entries : List Entry)
    (o : Option (ℕ × List Entry))
    → (e.offset == offset) ≡ false
    → OverwriteResult offset size hash entries o
    → OverwriteResult offset size hash
        (e ∷ entries)
        (elim o [ none ↦ none | some r ↦ some (suc r.0, e ∷ r.1) ])
unfolding find_entry
overwrite-cons offset size hash e entries none f h = ground (arith, h)
overwrite-cons offset size hash e entries (some r) f h =
    overwrite_later offset size hash e entries r.1 f h

pub overwrite-OverwriteResult :
    (offset size : ℕ) (hash : Option ℕ) (entries : List Entry)
    → OverwriteResult offset size hash entries (overwrite offset size hash entries)
unfolding overwrite find_entry
overwrite-OverwriteResult offset size hash [] = refl
overwrite-OverwriteResult offset size hash (e ∷ entries) = elim (Bool-cases (e.offset == offset)) [
  | inl t ↦ rw t (overwrite_here offset size hash e entries t)
  | inr f ↦ rw f (
      overwrite-cons offset size hash e entries (overwrite offset size hash entries) f
        (overwrite-OverwriteResult offset size hash entries))
]

-- What the loop of `FindAndRemove` does to the entries of a block.
pub record Unlinked (offset : ℕ) (entries : List Entry) (r : Entry × List Entry) : Type 0 where
  pub was : find_entry offset entries ≡ some r.0
  pub finds : (j : ℕ) → find_entry j r.1 ≡ (if j == offset then none else find_entry j entries)
  pub lacks : (j : ℕ) → Lacks j entries → Lacks j r.1
  pub distinct : AreDistinct r.1

abbrev pub UnlinkResult : ℕ → List Entry → Option (Entry × List Entry) → Type 0
UnlinkResult offset entries none = find_entry offset entries ≡ none
UnlinkResult offset entries (some r) = Unlinked offset entries r

unlink-cons :
    (offset : ℕ) (e : Entry) (entries : List Entry) (o : Option (Entry × List Entry))
    → (e.offset == offset) ≡ false
    → Lacks e.offset entries
    → UnlinkResult offset entries o
    → UnlinkResult offset (e ∷ entries) (elim o [ none ↦ none | some r ↦ some (r.0, e ∷ r.1) ])
unfolding find_entry
unlink-cons offset e entries none f l h = ground (arith, h)
unlink-cons offset e entries (some r) f l h = record {
  was = ground (arith, h.was);
  finds = λ j. ground (arith, h.finds j);
  lacks = λ j k. (k.0, h.lacks j k.1);
  distinct = (h.lacks e.offset l, h.distinct);
}

pub unlink-UnlinkResult :
    (offset : ℕ) (entries : List Entry)
    → AreDistinct entries
    → UnlinkResult offset entries (unlink offset entries)
unfolding unlink find_entry
unlink-UnlinkResult offset [] d = refl
unlink-UnlinkResult offset (e ∷ entries) d = elim (Bool-cases (e.offset == offset)) [
  | inl t ↦ rw t (record {
    was = ground arith;
    finds = λ j. ground (arith, Lacks-find_entry e.offset entries d.0);
    lacks = λ j k. k.1;
    distinct = d.1;
  })
  | inr f ↦ rw f (
      unlink-cons offset e entries (unlink offset entries) f d.0
        (unlink-UnlinkResult offset entries d.1))
]
