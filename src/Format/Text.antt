-- ===== src/Format/Text.antt =====
-- What the format loop of vsprintf and vfprintf prints, for any conversions.
use myunixlikeos.Format.{
  Printed, Width, in_text, text_from, no_flag, print_conversion, sprintf_conversion,
}
use myunixlikeos.Common.{
  ℕ, [], refl, some, none, arith, ◌∷◌, ◌≡◌, ◌≢◌, List, ◌++◌, All, Option, ◌>>=◌, append_assoc, ap,
  sym, ◌∙◌,
}

-- Characters that stand for themselves.
abbrev pub Plain : ℕ → Type 0
Plain c = (c ≢ 0) × (c ≢ b'%')

abbrev pub prefixed : List ℕ → Option (List ℕ) → Option (List ℕ)
prefixed t o = o >>= λ u. some (t ++ u)

pub prefixed-prefixed :
    (t u : List ℕ) (o : Option (List ℕ)) → prefixed t (prefixed u o) ≡ prefixed (t ++ u) o
prefixed-prefixed t u none = refl
prefixed-prefixed t u (some v) = ap some (sym (append_assoc t u v))

pub prefixed-nil : (o : Option (List ℕ)) → prefixed [] o ≡ o
prefixed-nil none = refl
prefixed-nil (some v) = refl

module _ (conversion : Width → ℕ → List ℕ → Printed) where
  one_no_flag :
      (c : ℕ) (s args : List ℕ)
      → Plain c
      → text_from conversion in_text (c ∷ s) args
        ≡ prefixed (c ∷ []) (text_from conversion in_text s args)
  unfolding text_from
  one_no_flag c s args (ends, starts) = ground arith

  -- Text without `%` is copied, and the rest of the format is treated as if it stood alone.
  pub text_from-append :
      (t s args : List ℕ)
      → All Plain t
      → text_from conversion in_text (t ++ s) args
        ≡ prefixed t (text_from conversion in_text s args)
  text_from-append [] s args h = sym (prefixed-nil _)
  text_from-append (c ∷ t) s args h =
      one_no_flag c (t ++ s) args h.0
      ∙ rw (text_from-append t s args h.1) (prefixed-prefixed (c ∷ []) t _)

  lone_percent :
      (beyond args : List ℕ)
      → conversion no_flag 0 args ≡ some ([], args)
      → text_from conversion in_text (b'%' ∷ 0 ∷ beyond) args
        ≡ text_from conversion in_text beyond args
  unfolding text_from
  lone_percent beyond args e = rw e (prefixed-prefixed [] [] _ ∙ prefixed-nil _)

  text_from-percent :
      (t beyond args : List ℕ)
      → All Plain t
      → conversion no_flag 0 args ≡ some ([], args)
      → text_from conversion in_text (t ++ b'%' ∷ 0 ∷ beyond) args
        ≡ prefixed t (text_from conversion in_text beyond args)
  text_from-percent t beyond args h e =
      text_from-append t (b'%' ∷ 0 ∷ beyond) args h ∙ ap (prefixed t) (lone_percent beyond args e)

-- A format that ends in a lone `%`, in vsprintf and in vfprintf: the terminator is taken for the
-- character of a conversion, which prints nothing, and the loop goes on with what stands behind the
-- string.
pub text_from_lone_percent :
    (float_arg : Width → ℕ → List ℕ → Printed) (string_at : ℕ → List ℕ) (t beyond args : List ℕ)
    → All Plain t
    → (text_from (sprintf_conversion string_at) in_text (t ++ b'%' ∷ 0 ∷ beyond) args
        ≡ prefixed t (text_from (sprintf_conversion string_at) in_text beyond args))
      × (text_from (print_conversion float_arg string_at) in_text (t ++ b'%' ∷ 0 ∷ beyond) args
          ≡ prefixed t (text_from (print_conversion float_arg string_at) in_text beyond args))
unfolding sprintf_conversion print_conversion
text_from_lone_percent float_arg string_at t beyond args h = (
  text_from-percent (sprintf_conversion string_at) t beyond args h refl,
  text_from-percent (print_conversion float_arg string_at) t beyond args h refl,
)
