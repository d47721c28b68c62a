-- ===== src/Vi/Loop.antt =====
-- The loop of `cmd_vi` in bin/vi/vi.c over a sequence of keys, against the same keys on the text.
use myunixlikeos.Common.{
  Bool, List, Option, [], ◌∷◌, true, false, ◌≡◌, ◌==◌, ◌&&◌, ◌||◌, not, refl, some, arith,
  if◌then◌else◌, ◌∙◌, ap,
}
use myunixlikeos.Vi.{Editor}
use myunixlikeos.Vi.Keys.{Input, Session, Outcome, running, vi_key, vi_loop, edited}
use myunixlikeos.Vi.Refine.{insert_key_lem, command_key_lem}
use myunixlikeos.Vi.Meaning.{on_first_line, Shown, inserted, commanded}
use myunixlikeos.Vi.View.{IsEditor, view, Shows}

-- A key on the text.
unfoldable pub keyed : Input → Shown → Shown
keyed i z = if i.c == 0 then z else if z.inserting then inserted i.c z else commanded i.c i.next z

unfoldable pub all_keyed : List Input → Shown → Shown
all_keyed [] z = z
all_keyed (i ∷ is) z = all_keyed is (keyed i z)

-- In command mode not the colon, and `k` not on the first line behind its start.
abbrev pub plain : Input → Shown → Bool
plain i z = z.inserting || (not (i.c == b':') && not (i.c == b'k' && on_first_line z))

unfoldable pub all_plain : List Input → Shown → Bool
all_plain [] z = true
all_plain (i ∷ is) z = plain i z && all_plain is (keyed i z)

-- The loop goes on with an editor that shows `z`, and with the file as it was.
abbrev pub GoesOn : Option Outcome → Session → Shown → Type 0
GoesOn o s z =
    (s' : Session) × (o ≡ some (running s'))
    × IsEditor s'.editor
    × (view s'.editor ≡ z)
    × (s'.file ≡ s.file)

edited_lem : (s : Session) (o : Option Editor) (z : Shown) → Shows o z → GoesOn (edited s o) s z
unfolding Shows
edited_lem s o z (e, h, v, p) = (record s { editor = e }, rw h refl, v, p, refl)

goes_if :
    (t : Bool) (o o' : Option Outcome) (s : Session) (z z' : Shown)
    → (t ≡ true → GoesOn o s z)
    → (t ≡ false → GoesOn o' s z')
    → GoesOn (if t then o else o') s (if t then z else z')
goes_if true o o' s z z' h k = h refl
goes_if false o o' s z z' h k = k refl

goes_else :
    (t : Bool) (o o' : Option Outcome) (s : Session) (z : Shown)
    → t ≡ false
    → GoesOn o' s z
    → GoesOn (if t then o else o') s z
goes_else t o o' s z h k = rw h k

vi_key_lem :
    (i : Input) (s : Session)
    → IsEditor s.editor
    → plain i (view s.editor) ≡ true
    → GoesOn (vi_key i s) s (keyed i (view s.editor))
unfolding vi_key keyed view
vi_key_lem i s v h =
    goes_if (i.c == 0) _ _ s _ _ (λ t. (s, refl, v, refl, refl))
      (λ t.
        goes_if s.editor.insert_mode _ _ s _ _
          (λ m. edited_lem s _ _ (insert_key_lem s.editor v i.c))
          (λ m.
            goes_else (i.c == b':') _ _ s _ (ground arith)
              (edited_lem s _ _ (command_key_lem s.editor v i.c i.next (ground arith)))))

-- Whatever keys come, the colon in insert mode only and k not on the first line behind its
-- start, vi goes on without an access outside its buffer, and the text before and behind the
-- cursor is what the keys make of it; the file is as it was.
pub vi_loop_lem :
    (is : List Input) (s : Session)
    → IsEditor s.editor
    → all_plain is (view s.editor) ≡ true
    → GoesOn (vi_loop is s) s (all_keyed is (view s.editor))
unfolding vi_loop all_keyed all_plain
vi_loop_lem [] s v h = (s, refl, v, refl, refl)
vi_loop_lem (i ∷ is) s v h =
    let (s', step, v', shown, kept) = vi_key_lem i s v (ground arith) in
    let plain' : all_plain is (view s'.editor) ≡ true = rw shown (ground arith) in
    let (s'', rest, v'', shown', kept') = vi_loop_lem is s' v' plain' in
    (s'', rw step rest, v'', shown' ∙ ap (all_keyed is) shown, kept' ∙ kept)
