-- ===== src/Vi/Save.antt =====
-- `:w` and `:e ` of bin/vi/vi.c: what the editor writes into a file, and what it reads from it.
use myunixlikeos.Pmm.{Pmm}
use myunixlikeos.Vi.View.{IsEditor, view}
use myunixlikeos.Common.{
  tests, get_or-take, get_or-append, length-take_le, length-drop_add, length-append, inl, inr,
  Bool-cases, ltb, suc, zero, refl, ◌∙◌, ℕ, List, ◌+◌, ◌≡◌, zero, suc, get_or, ◌<◌, ◌≤◌, ltb,
  length, ◌++◌, take, drop, set, if◌then◌else◌, arith, get_or-set, length-set, ◌==◌, true, [], some,
  ◌-◌,
}
use myunixlikeos.Vi.Text.{slice, slice_eq}
use myunixlikeos.Vi.View.{IsEditor, view}
use myunixlikeos.Vi.{OpenFile, load_loop, Editor, OpenFile, load, vi_save, store_text, load_content}

-- The bytes of a file that holds the text.
abbrev saved : (buf : List ℕ) (len : ℕ) (content : List ℕ) → List ℕ
saved buf len content = set (take len buf ++ drop len content) len 0

module _ (buf : List ℕ) (len : ℕ) (content : List ℕ) (h : len < length content)
    (j : len ≤ length buf) where
  copied : len < length (take len buf ++ drop len content)
  copied = omega (
    arith,
    length-append (take len buf) (drop len content),
    length-take_le len buf j,
    length-drop_add len content (omega arith),
  )

  saved-text : (k : ℕ) → k < len → get_or (saved buf len content) k 0 ≡ get_or buf k 0
  saved-text k lt = ground (
    arith,
    get_or-set (take len buf ++ drop len content) len k 0 0 (omega (arith, copied)),
    get_or-append (take len buf) (drop len content) k,
    get_or-take len buf k,
    length-take_le len buf,
  )

  saved-end : get_or (saved buf len content) len 0 ≡ 0
  saved-end =
      ground
        (arith, get_or-set (take len buf ++ drop len content) len len 0 0 (omega (arith, copied)))

length_eq : (b : List ℕ) {i l : ℕ} → i ≡ l → ◌≡◌ {A = List ℕ × ℕ} (b, i) (b, l)
length_eq b e = λ k. (b, e k)

-- What the loop loads of a text of `l` characters, from `i` on.
loaded :
    (n : ℕ) (content buf : List ℕ) (i l : ℕ)
    → ((k : ℕ) → k < l → 0 < get_or content k 0)
    → get_or content l 0 ≡ 0
    → i ≤ l
    → l ≤ i + n
    → l < length buf
    → (b : List ℕ) × (load_loop n content buf i ≡ (b, l))
      × (length b ≡ length buf)
      × ((k : ℕ) → k < l → get_or b k 0 ≡ (if ltb k i then get_or buf k 0 else get_or content k 0))
unfolding load_loop
loaded zero content buf i l text end h j room =
    let all : i ≡ l = omega arith in
    (
      buf,
      length_eq buf all,
      refl,
      λ k lt. let before : ltb k i ≡ true = omega (tests, all) in rw before refl,
    )
loaded (suc n) content buf i l text end h k room =
    let c = get_or content i 0 in
    elim (Bool-cases (get_or content i 0 == 0)) [
      | inl stop ↦
          let all : i ≡ l = ground (arith, text i) in
          rw (stop, load_loop)
            (
              buf,
              length_eq buf all,
              refl,
              λ k lt. let before : ltb k i ≡ true = omega (tests, all) in rw before refl,
            )
      | inr goes ↦
          let more : i < l = ground arith in
          let (b, same, sized, bytes) =
            loaded n content (set buf i c) (i + 1) l text end (omega arith) (omega arith)
              (omega (arith, length-set buf i c)) in
          rw (goes, load_loop)
            (
              b,
              same,
              sized ∙ length-set buf i c,
              λ k lt. ground (arith, bytes k lt, get_or-set buf i k c 0),
            )
    ]

-- An editor with a text of characters other than 0, and a file with room for the text.
pub record CanSave (e : Editor) (content : List ℕ) : Type 0 where
  pub valid : IsEditor e
  pub text : (k : ℕ) → k < e.len → 0 < get_or e.buf k 0
  pub space : e.len < length content

module _ (e other : Editor) (content : List ℕ) (v : CanSave e content) (w : IsEditor other) where
  abbrev file' : OpenFile
  file' = record { content = some (saved e.buf e.len content); size = e.len }

  saves :
      (size : ℕ) (ram : ℕ → ℕ) (pmm : Pmm)
      → vi_save (record { content = some content; size = size }) e.buf e.len ram pmm
        ≡ some (file', pmm)
  unfolding vi_save store_text
  saves size ram pmm =
      let fits : ltb e.len (length content) ≡ true = ground (arith, v.space) in rw fits refl

  -- The load of the saved text.
  abbrev LoadedText : Type 0
  LoadedText =
      (b : List ℕ) × (load_loop 8191 (saved e.buf e.len content) other.buf 0 ≡ (b, e.len))
      × (length b ≡ length other.buf)
      × ((k : ℕ)
          → k < e.len
          → get_or b k 0
            ≡ (if ltb k 0 then get_or other.buf k 0 else get_or (saved e.buf e.len content) k 0))

  fits : e.len ≤ length e.buf
  fits = omega (arith, v.valid.sized, v.valid.room)

  load_saved : LoadedText
  load_saved =
      loaded 8191 (saved e.buf e.len content) other.buf 0 e.len
        (λ k lt. ground (arith, v.text k lt, saved-text e.buf e.len content v.space fits k lt))
        (saved-end e.buf e.len content v.space fits) (omega arith) (omega (arith, v.valid.room))
        (omega (arith, w.sized, v.valid.room))

  reads :
      LoadedText
      → IsEditor (load file' other)
        × (view (load file' other)
            ≡ record { left = slice e.buf 0 e.len; right = []; inserting = other.insert_mode })
  unfolding load load_content view slice
  reads (b, same, sized, bytes) =
      let here : (k : ℕ) → k < e.len → get_or (set b e.len 0) (0 + k) 0 ≡ get_or e.buf (0 + k) 0 =
        λ k lt. ground (
          arith,
          get_or-set b e.len k 0 0 (omega (arith, sized, w.sized, v.valid.room)),
          bytes k lt,
          saved-text e.buf e.len content v.space fits k lt,
        ) in
      let left : slice (set b e.len 0) 0 e.len ≡ slice e.buf 0 e.len =
        slice_eq (set b e.len 0) e.buf 0 0 e.len here in
      let none_left : e.len - e.len ≡ 0 = omega arith in
      let right : slice (set b e.len 0) e.len (e.len - e.len) ≡ [] = rw none_left refl in
      rw same (
        record {
          sized = length-set b e.len 0 ∙ sized ∙ w.sized;
          room = v.valid.room;
          inside = omega arith;
        },
        λ i. record { left = left i; right = right i; inserting = other.insert_mode },
      )

-- Saving a text without the character 0 into a file with room for it succeeds, sets the size to
-- its length, and loading the file into any editor gives the same text, with the cursor behind
-- it.
pub load-vi_save :
    (e other : Editor) (content : List ℕ) (size : ℕ) (ram : ℕ → ℕ) (pmm : Pmm)
    → CanSave e content
    → IsEditor other
    → (file' : OpenFile) × (vi_save
          (record { content = some content; size = size })
          e.buf
          e.len
          ram
          pmm
        ≡ some (file', pmm))
      × (file'.size ≡ e.len)
      × IsEditor (load file' other)
      × (view (load file' other)
          ≡ record { left = slice e.buf 0 e.len; right = []; inserting = other.insert_mode })
load-vi_save e other content size ram pmm v w = (
  file' e other content v w,
  saves e other content v w size ram pmm,
  refl,
  (reads e other content v w (load_saved e other content v w)).0,
  (reads e other content v w (load_saved e other content v w)).1,
)
