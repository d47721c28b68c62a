-- ===== src/Shell/Search.antt =====
-- The searches of bin/sh/sh.c for a name in a table.
use myunixlikeos.Shell.{find_entry, Entry, one_further, value_of}
use myunixlikeos.Common.{
  ℕ, List, [], some, suc, zero, ◌∷◌, set, length, ◌≡◌, arith, refl, Bool-cases, ap, get_elem?, inl,
  inr, none, true, ◌<◌, false, if◌then◌else◌, ◌⊎◌, Option, sym, ◌∙◌,
}
use myunixlikeos.Libc.Str.{str_eq}

value_of-one_further : (r : Option (ℕ × Entry)) → value_of (one_further r) ≡ value_of r
value_of-one_further none = refl
value_of-one_further (some (i, e)) = refl

-- A search behind one more entry.
further :
    (x : Entry) (n : ℕ) (es es' : List Entry) (name : List ℕ)
    → value_of (find_entry n es' name) ≡ value_of (find_entry n es name)
    → value_of (find_entry (suc n) (x ∷ es') name) ≡ value_of (find_entry (suc n) (x ∷ es) name)
unfolding find_entry
further x n es es' name h = elim (Bool-cases (str_eq x.name name)) [
  | inl here ↦ rw here refl
  | inr other ↦ rw other (value_of-one_further _ ∙ h ∙ sym (value_of-one_further _))
]

-- What a search finds, what it finds once the entry has another value, and that searches for other
-- names do not see that value.
pub record Found (n : ℕ) (es : List Entry) (name : List ℕ) (k : ℕ) (e : Entry) : Type 0 where
  pub run : find_entry n es name ≡ some (k, e)
  pub at : get_elem? es k ≡ some e
  pub same : str_eq e.name name ≡ true
  pub update : (e' : Entry) → e'.name ≡ e.name → find_entry n (set es k e') name ≡ some (k, e')
  pub others :
      (e' : Entry) (other : List ℕ)
      → e'.name ≡ e.name
      → str_eq e.name other ≡ false
      → value_of (find_entry n (set es k e') other) ≡ value_of (find_entry n es other)

-- What a search finds once the entry behind the others has the name.
pub record Missing (n : ℕ) (es : List Entry) (name : List ℕ) : Type 0 where
  pub run : find_entry n es name ≡ none
  pub add :
      (e' : Entry)
      → n < length es
      → str_eq e'.name name ≡ true
      → find_entry (suc n) (set es n e') name ≡ some (n, e')

pub search :
    (n : ℕ) (es : List Entry) (name : List ℕ)
    → ((k : ℕ) × (e : Entry) × Found n es name k e) ⊎ Missing n es name
unfolding find_entry
search zero [] name = inr (record { run = refl; add = λ e' h. absurd (omega arith) })
search zero (x ∷ es) name = inr (record { run = refl; add = λ e' h same. rw same refl })
search (suc n) [] name = inr (record { run = refl; add = λ e' h. absurd (omega arith) })
search (suc n) (x ∷ es) name = elim (Bool-cases (str_eq x.name name)) [
  | inl here ↦ inl (
    0,
    x,
    record {
      run = rw here refl;
      at = refl;
      same = here;
      update = λ e' same. rw (same, here) refl;
      others = λ e' other same off. rw (same, off) refl;
    },
  )
  | inr differs ↦ elim (search n es name) [
    | inl (k, e, f) ↦ inl (
      suc k,
      e,
      record {
        run = rw (differs, f.run) refl;
        at = f.at;
        same = f.same;
        update = λ e' same. rw (differs, f.update e' same) refl;
        others =
            λ e' other same off. further x n es (set es k e') other (f.others e' other same off);
      },
    )
    | inr m ↦ inr (record {
      run = rw (differs, m.run) refl;
      add = λ e' h same. rw (differs, m.add e' (omega arith) same) refl;
    })
  ]
]

pub find-other-add :
    (n : ℕ) (es : List Entry) (name : List ℕ) (e' : Entry)
    → str_eq e'.name name ≡ false
    → n < length es
    → find_entry (suc n) (set es n e') name ≡ find_entry n es name
unfolding find_entry
find-other-add n [] name e' new fits = absurd (omega arith)
find-other-add zero (x ∷ es) name e' new fits = rw new refl
find-other-add (suc n) (x ∷ es) name e' new fits =
    ap (λ r. if str_eq x.name name then some (0, x) else one_further r)
      (find-other-add n es name e' new (omega arith))
