-- ===== src/Shell/Names.antt =====
-- The environment of bin/sh/sh.c: setting a variable and looking one up.
use myunixlikeos.Shell.{
  Entries, Entry, value_of, env_sizes, find_name, get_env_var, put_new, put_value, set_env_var,
  set_found,
}
use myunixlikeos.Common.{
  ℕ, List, [], some, suc, zero, ◌∷◌, set, length, take, ◌≡◌, arith, refl, AllBelow, All, Bool-cases,
  ap, inl, inr, length-set, true, ◌<◌, ◌≤◌, false, All-get_elem?, All-set, sym, ◌∙◌, ◌≢◌,
  get_elem?_total, ltb,
}
use myunixlikeos.Shell.Copy.{copy_string-Held}
use myunixlikeos.Shell.Search.{Found, Missing, search, find-other-add}
use myunixlikeos.Libc.Str.{str_eq, strlen}
use myunixlikeos.Libc.StrLaws.{c_str, str_eq_iff, strlen-c_str}

-- The arrays of an entry.
pub record IsEntry (e : Entry) : Type 0 where
  pub name_size : length e.name ≡ 64
  pub value_size : length e.value ≡ 256
  pub name_bytes : AllBelow 256 e.name
  pub value_bytes : AllBelow 256 e.value

pub record IsEnvironment (t : Entries) : Type 0 where
  pub sized : length t.slots ≡ 64
  pub fits : t.count ≤ 64
  pub entries : All IsEntry t.slots

-- The variable `name` has the value `value`, cut to 255 characters, and the others are as they were.
pub record Sets (name value : List ℕ) (t t' : Entries) : Type 0 where
  pub good : IsEnvironment t'
  pub found : List ℕ
  pub gets : get_env_var name t' ≡ some found
  pub chars : c_str found ≡ take 255 (c_str value)
  pub others :
      (other : List ℕ)
      → AllBelow 256 other
      → c_str other ≢ c_str name
      → get_env_var other t' ≡ get_env_var other t

take_all : (n : ℕ) (xs : List ℕ) → length xs ≤ n → take n xs ≡ xs
take_all zero [] h = refl
take_all zero (x ∷ xs) h = absurd (omega arith)
take_all (suc n) [] h = refl
take_all (suc n) (x ∷ xs) h = rw (take_all n xs (omega arith)) refl

differs_from :
    (name stored other : List ℕ)
    → AllBelow 256 name
    → AllBelow 256 stored
    → AllBelow 256 other
    → str_eq stored name ≡ true
    → c_str other ≢ c_str name
    → str_eq stored other ≡ false
differs_from name stored other nb sb ob same ne = elim (Bool-cases (str_eq stored other)) [
  | inl both ↦
      absurd
        (ne (sym ((str_eq_iff stored other sb ob).0 both) ∙ (str_eq_iff stored name sb nb).0 same))
  | inr off ↦ off
]

module _ {t : Entries} (g : IsEnvironment t) (name value : List ℕ) (nb : AllBelow 256 name)
    (vb : AllBelow 256 value) where
  put_value-Sets :
      (k : ℕ) (e : Entry)
      → Found t.count t.slots name k e
      → (t' : Entries) × (put_value env_sizes k e value t ≡ some t') × Sets name value t t'
  unfolding put_value get_env_var find_name
  put_value-Sets k e f =
      let ie = All-get_elem? IsEntry t.slots k e g.entries f.at in
      let (v, run, m) =
        copy_string-Held 256 value e.value (omega arith) ie.value_size ie.value_bytes vb in
      let e' = record e { value = v } in
      (
        record t { slots = set t.slots k e' },
        rw run refl,
        record {
          good = record {
            sized = length-set t.slots k e' ∙ g.sized;
            fits = g.fits;
            entries = All-set IsEntry t.slots k e' g.entries (record {
              name_size = ie.name_size;
              value_size = m.sized;
              name_bytes = ie.name_bytes;
              value_bytes = m.bytes;
            });
          };
          found = v;
          gets = rw (f.update e' refl) refl;
          chars = m.chars;
          others = λ other ob ne.
              f.others e' other refl (differs_from name e.name other nb ie.name_bytes ob f.same ne);
        },
      )

  put_new-Sets :
      Missing t.count t.slots name
      → strlen name < 64
      → t.count < 64
      → (t' : Entries) × (put_new env_sizes name value t ≡ some t') × Sets name value t t'
  unfolding put_new get_env_var find_name
  put_new-Sets m short room =
      let (e, at) = get_elem?_total t.slots t.count (omega (arith, g.sized)) in
      let ie = All-get_elem? IsEntry t.slots t.count e g.entries at in
      let (n, run, hn) =
        copy_string-Held 64 name e.name (omega arith) ie.name_size ie.name_bytes nb in
      let (v, run', hv) =
        copy_string-Held 256 value e.value (omega arith) ie.value_size ie.value_bytes vb in
      let e' : Entry = record { name = n; value = v } in
      let whole = take_all 63 (c_str name) (omega (arith, strlen-c_str name)) in
      let same = (str_eq_iff n name hn.bytes nb).1 (hn.chars ∙ whole) in
      let t' : Entries = record { slots = set t.slots t.count e'; count = suc t.count } in
      (
        t',
        rw (at, run, run') refl,
        record {
          good = record {
            sized = length-set t.slots t.count e' ∙ g.sized;
            fits = omega arith;
            entries = All-set IsEntry t.slots t.count e' g.entries (record {
              name_size = hn.sized;
              value_size = hv.sized;
              name_bytes = hn.bytes;
              value_bytes = hv.bytes;
            });
          };
          found = v;
          gets = rw (m.add e' (omega (arith, g.sized)) same) refl;
          chars = hv.chars;
          others = λ other ob ne. ap value_of (
              find-other-add t.count t.slots other e'
                (differs_from name n other nb hn.bytes ob same ne) (omega (arith, g.sized)));
        },
      )

  -- Setting a variable with a name of at most 63 characters, in an environment with a free entry,
  -- succeeds: afterwards the name has the value, cut to 255 characters, every other name has the
  -- value that it had, and the environment is well-formed.
  pub get_env_var-set_env_var :
      strlen name < 64
      → t.count < 64
      → (t' : Entries) × (set_env_var name value t ≡ some t') × Sets name value t t'
  unfolding set_env_var find_name set_found
  get_env_var-set_env_var short room = elim (search t.count t.slots name) [
    | inl (k, e, f) ↦ let (t', run, s) = put_value-Sets k e f in (t', rw f.run run, s)
    | inr m ↦
        let (t', run, s) = put_new-Sets m short room in
        let free : ltb t.count 64 ≡ true = ground arith in (t', rw (m.run, free) run, s)
  ]
