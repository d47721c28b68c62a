-- ===== src/Shell/Expand.antt =====
-- The variables in a command line of bin/sh/sh.c.
use myunixlikeos.Common.{
  ℕ, List, [], false, some, ◌+◌, ◌==◌, ◌∷◌, ◌++◌, length, ◌≡◌, ◌≢◌, ◌<◌, arith, refl, All,
  length-append, append_assoc, append-nil, ap, sym, ◌∙◌, leb, ltb,
}
use myunixlikeos.Libc.Str.{strcpy}
use myunixlikeos.Shell.{Entries, expand, expand_env_vars, plain_text}

-- Text in which no variable starts.
abbrev pub NoDollar : ℕ → Type 0
NoDollar c = (c ≢ 0) × (c ≢ b'$')

expand_plain :
    (t : Entries) (w s out : List ℕ)
    → All NoDollar w
    → length out + length w < 256
    → expand 4096 t plain_text (w ++ 0 ∷ s) out ≡ some (out ++ w)
unfolding expand
expand_plain t [] s out h fits =
    let room : ltb 256 (length out + 1) ≡ false = ground arith in
    rw room (ap some (sym (append-nil out)))
expand_plain t (c ∷ w) s out ((ne, plain), h) fits =
    let room : ltb 256 (length out + 1) ≡ false = ground arith in
    let goes : (c == 0) ≡ false = ground arith in
    let no_variable : (c == b'$') ≡ false = ground arith in
    let small : leb 4095 (length out) ≡ false = ground arith in
    let rest = expand_plain t w s (out ++ c ∷ []) h (omega (arith, length-append out (c ∷ []))) in
    rw (no_variable, room, goes, small) (rest ∙ ap some (append_assoc out (c ∷ []) w))

strcpy_self : (w s : List ℕ) → All NoDollar w → strcpy (w ++ s) w ≡ some (w ++ s)
unfolding strcpy
strcpy_self [] s h = refl
strcpy_self (c ∷ w) s ((ne, plain), h) =
    let goes : (c == 0) ≡ false = ground arith in rw (goes, strcpy_self w s h) refl

-- A line of fewer than 256 characters without a dollar sign stays as it is, whatever the variables
-- are.
pub expand_env_vars_lem :
    (t : Entries) (w s : List ℕ)
    → All NoDollar w
    → length w < 256
    → expand_env_vars t (w ++ 0 ∷ s) ≡ some (w ++ 0 ∷ s)
unfolding expand_env_vars
expand_env_vars_lem t w s h short =
    let room : ltb 255 (length w) ≡ false = ground arith in
    rw (expand_plain t w s [] h (omega arith), room) (strcpy_self w (0 ∷ s) h)
