-- ===== src/Libc/Str.antt =====
-- The string functions of lib/libc/string. A pointer to a string is the list of the bytes from it to
-- the end of its object; a read past the end gives the terminator. A function that writes takes the
-- whole target and gives `none` for a write past its end.
use myunixlikeos.Common.{
  ℕ, Bool, List, Option, [], if◌then◌else◌, ltb, none, not, some, suc, true, zero, ◌%◌, ◌&&◌, ◌-◌,
  ◌==◌, ◌∷◌, false,
}
use myunixlikeos.Common.Int.{ℤ, negsuc, pos, ◌-ℤ◌}

-- `*s`
abbrev pub deref : List ℕ → ℕ
deref [] = 0
deref (c ∷ s) = c

unfoldable pub strlen : List ℕ → ℕ
strlen [] = 0
strlen (c ∷ s) = if c == 0 then 0 else suc (strlen s)

-- A `char` is signed.
abbrev pub char_value : ℕ → ℤ
char_value c = if ltb c 128 then pos c else negsuc (255 - c)

unfoldable pub strcmp : List ℕ → List ℕ → ℤ
unfolding ◌-ℤ◌
strcmp [] t = char_value 0 -ℤ char_value (deref t)
strcmp (a ∷ s) [] = char_value a -ℤ char_value 0
strcmp (a ∷ s) (b ∷ t) =
    if not (a == 0) && not (b == 0) && (a == b) then strcmp s t else char_value a -ℤ char_value b

-- Here the bytes are compared as `unsigned char`, and the bound counts down.
unfoldable pub strncmp_loop : ℕ → List ℕ → List ℕ → ℤ
unfolding ◌-ℤ◌
strncmp_loop zero s t = pos (deref s) -ℤ pos (deref t)
strncmp_loop (suc n) [] t = pos 0 -ℤ pos (deref t)
strncmp_loop (suc n) (a ∷ s) [] = pos a -ℤ pos 0
strncmp_loop (suc n) (a ∷ s) (b ∷ t) =
    if not (a == 0) && (a == b) then strncmp_loop n s t else pos a -ℤ pos b

unfoldable pub strncmp : List ℕ → List ℕ → ℕ → ℤ
unfolding strncmp_loop
strncmp s t n = if n == 0 then pos 0 else strncmp_loop n s t

-- One byte put in front of a result that may have failed.
abbrev pub cons? : ℕ → Option (List ℕ) → Option (List ℕ)
cons? c none = none
cons? c (some s) = some (c ∷ s)

-- The loop copies the characters and leaves the byte behind them as it was.
unfoldable pub strcpy : List ℕ → List ℕ → Option (List ℕ)
strcpy dst [] = some dst
strcpy [] (c ∷ s) = if c == 0 then some [] else none
strcpy (d ∷ dst) (c ∷ s) = if c == 0 then some (d ∷ dst) else cons? c (strcpy dst s)

unfoldable pub strncpy_fill : ℕ → List ℕ → Option (List ℕ)
strncpy_fill zero dst = some dst
strncpy_fill (suc n) [] = none
strncpy_fill (suc n) (d ∷ dst) = cons? 0 (strncpy_fill n dst)

unfoldable pub strncpy : List ℕ → List ℕ → ℕ → Option (List ℕ)
unfolding strncpy_fill
strncpy dst s zero = some dst
strncpy dst [] (suc n) = strncpy_fill (suc n) dst
strncpy [] (c ∷ s) (suc n) = none
strncpy (d ∷ dst) (c ∷ s) (suc n) =
    if c == 0 then strncpy_fill (suc n) (d ∷ dst) else cons? c (strncpy dst s n)

-- the copying half of `strcat`, from the end of the target string on
unfoldable pub strcat_copy : List ℕ → List ℕ → Option (List ℕ)
strcat_copy [] s = none
strcat_copy (d ∷ dst) [] = some (0 ∷ dst)
strcat_copy (d ∷ dst) (c ∷ s) = if c == 0 then some (0 ∷ dst) else cons? c (strcat_copy dst s)

unfoldable pub strcat : List ℕ → List ℕ → Option (List ℕ)
unfolding strcat_copy
strcat [] s = none
strcat (d ∷ dst) s = if d == 0 then strcat_copy (d ∷ dst) s else cons? d (strcat dst s)

unfoldable pub strncat_copy : List ℕ → List ℕ → ℕ → Option (List ℕ)
strncat_copy [] s n = none
strncat_copy (d ∷ dst) s zero = some (0 ∷ dst)
strncat_copy (d ∷ dst) [] (suc n) = some (0 ∷ dst)
strncat_copy (d ∷ dst) (c ∷ s) (suc n) =
    if c == 0 then some (0 ∷ dst) else cons? c (strncat_copy dst s n)

unfoldable pub strncat : List ℕ → List ℕ → ℕ → Option (List ℕ)
unfolding strncat_copy
strncat [] s n = none
strncat (d ∷ dst) s n = if d == 0 then strncat_copy (d ∷ dst) s n else cons? d (strncat dst s n)

-- The suffix that the returned pointer leads to.
unfoldable pub strchr : List ℕ → ℕ → Option (List ℕ)
strchr [] c = if c % 256 == 0 then some [] else none
strchr (a ∷ s) c =
    let rest = strchr s c in
    if a == 0
    then (if c % 256 == 0 then some (a ∷ s) else none)
    else if a == c % 256
    then some (a ∷ s)
    else rest

-- the inner loop of `strstr`: whether it ends at the end of `n`
unfoldable pub matches : List ℕ → List ℕ → Bool
matches h [] = true
matches [] (b ∷ n) = b == 0
matches (a ∷ h) (b ∷ n) = if not (a == 0) && not (b == 0) && (a == b) then matches h n else b == 0

unfoldable pub strstr_loop : List ℕ → List ℕ → Option (List ℕ)
strstr_loop [] n = none
strstr_loop (a ∷ s) n =
    let rest = strstr_loop s n in
    if a == 0
    then none
    else if not (a == deref n)
    then rest
    else if matches (a ∷ s) n
    then some (a ∷ s)
    else rest

unfoldable pub strstr : List ℕ → List ℕ → Option (List ℕ)
unfolding matches strstr_loop
strstr s n = if deref n == 0 then some s else strstr_loop s n

-- `memcpy(dst, src, n)` with `src` the bytes from the pointer on; `none` for an access past an end.
unfoldable pub memcpy : List ℕ → List ℕ → ℕ → Option (List ℕ)
memcpy dst src zero = some dst
memcpy [] src (suc n) = none
memcpy (d ∷ dst) [] (suc n) = none
memcpy (d ∷ dst) (s ∷ src) (suc n) = cons? s (memcpy dst src n)

-- The loop never advances its pointer.
unfoldable pub memset : List ℕ → ℕ → ℕ → Option (List ℕ)
memset dst c zero = some dst
memset [] c (suc n) = none
memset (d ∷ dst) c (suc n) = memset (c % 256 ∷ dst) c n

abbrev pub is_zero : ℤ → Bool
is_zero (pos n) = n == 0
is_zero (negsuc n) = false

-- `strcmp(s, t) == 0`
unfoldable pub str_eq : List ℕ → List ℕ → Bool
unfolding strcmp
str_eq s t = is_zero (strcmp s t)
