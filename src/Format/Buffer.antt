-- ===== src/Format/Buffer.antt =====
-- Where formatted output goes: the target of vsprintf of lib/libc/stdio/sprintf.c and the buffer of
-- a stream of lib/libc/stdio/printf.c.
use myunixlikeos.Format.Text.{prefixed}
use myunixlikeos.Format.{
  in_text, text_from, sprintf_conversion, Place, Printed, Width, fault, print, print_conversion,
  step, stop, after_h, after_l, behind, percent,
}
use myunixlikeos.Common.{
  ℕ, [], refl, some, none, arith, ◌∷◌, ◌≡◌, List, ◌++◌, Option, ◌>>=◌, length, ◌+◌, ◌<◌, ◌≤◌, drop,
  Bool, if◌then◌else◌, ltb, ◌&&◌, ◌==◌, suc, Bool-cases, append-nil, inl, inr, sym, ap,
  append_assoc, false, length-append, ◌∙◌,
}

-- The characters and the terminator, written over the start of the target.
unfoldable pub store : List ℕ → List ℕ → Option (List ℕ)
store t [] = none
store [] (b ∷ buf) = some (0 ∷ buf)
store (c ∷ t) (b ∷ buf) = store t buf >>= λ r. some (c ∷ r)

-- The characters written, without the terminator, and the target afterwards. The strings among the
-- arguments do not stand in the target.
unfoldable pub vsprintf : (ℕ → List ℕ) → (format args buf : List ℕ) → Option (ℕ × List ℕ)
unfolding store text_from sprintf_conversion
vsprintf string_at format args buf =
    text_from (sprintf_conversion string_at) in_text format args >>= λ t.
    store t buf >>= λ r. some (length t, r)

store_fits :
    (t buf : List ℕ)
    → length t < length buf
    → store t buf ≡ some (t ++ 0 ∷ drop (suc (length t)) buf)
unfolding store
store_fits t [] h = absurd (omega arith)
store_fits [] (b ∷ buf) h = refl
store_fits (c ∷ t) (b ∷ buf) h = rw (store_fits t buf (omega arith)) refl

store_full : (t buf : List ℕ) → length buf ≤ length t → store t buf ≡ none
unfolding store
store_full t [] h = refl
store_full [] (b ∷ buf) h = absurd (omega arith)
store_full (c ∷ t) (b ∷ buf) h = rw (store_full t buf (omega arith)) refl

module _ (string_at : ℕ → List ℕ) (format args t buf : List ℕ)
    (text : text_from (sprintf_conversion string_at) in_text format args ≡ some t) where
  -- Where the format gives the text `t`: with room for it and a terminator, vsprintf writes both over
  -- the start of the target, keeps the rest and returns the length of the text; without, it writes
  -- past the end of the target.
  pub vsprintf_lem :
      (length t < length buf
        → vsprintf string_at format args buf ≡ some (length t, t ++ 0 ∷ drop (suc (length t)) buf))
      × (length buf ≤ length t → vsprintf string_at format args buf ≡ none)
  unfolding vsprintf
  vsprintf_lem = (λ h. rw (text, store_fits t buf h) refl, λ h. rw (text, store_full t buf h) refl)

-- A stream: the bytes between `buf` and `bptr`, the size of the buffer, whether it is line-buffered,
-- and the calls of `write` so far, the last one first.
pub record Stream : Type 0 where
  pub pending : List ℕ
  pub size : ℕ
  pub line_buffered : Bool
  pub writes : List (List ℕ)

unfoldable pub flush_stream : Stream → Stream
flush_stream f =
    if ltb 0 (length f.pending) then record f { pending = []; writes = f.pending ∷ f.writes } else f

-- The characters go behind the others; nothing looks at the size of the buffer.
abbrev pub push_bytes : List ℕ → Stream → Option Stream
push_bytes t f =
    if ltb f.size (length f.pending + length t)
    then none
    else some (record f { pending = f.pending ++ t })

-- The flush behind a newline that stands in the format.
abbrev pub newline_flush : Place → ℕ → Stream → Stream
newline_flush in_text c f = if c == 10 && f.line_buffered then flush_stream f else f
newline_flush _ c f = f

-- `none` is a write behind the end of the buffer, or a fault of the format.
unfoldable pub stream_from :
    (Width → ℕ → List ℕ → Printed) → Place → List ℕ → List ℕ → Stream → Option Stream
stream_from conversion in_text [] args f = some f
stream_from conversion _ [] args f = none
stream_from conversion p (c ∷ s) args f = elim (step conversion p c args) [
  | stop ↦ some f
  | fault ↦ none
  | print t p' args' ↦
      push_bytes t f >>= λ g. stream_from conversion p' s args' (newline_flush p c g)
]

-- The result is the stream; the number that vfprintf returns is taken after the flush and always 0.
unfoldable pub vfprintf :
    (Width → ℕ → List ℕ → Printed)
    → (ℕ → List ℕ)
    → (format args : List ℕ) → Stream
    → Option (ℕ × Stream)
unfolding flush_stream stream_from print_conversion
vfprintf float_arg string_at format args f =
    stream_from (print_conversion float_arg string_at) in_text format args f >>= λ g.
    some (length (flush_stream g).pending, flush_stream g)

-- All bytes of the stream in the order in which they go out.
unfoldable pub written : List (List ℕ) → List ℕ
written [] = []
written (w ∷ ws) = written ws ++ w

abbrev pub all_bytes : Stream → List ℕ
all_bytes f = written f.writes ++ f.pending

flush_stream-all_bytes :
    (f : Stream)
    → (all_bytes (flush_stream f) ≡ all_bytes f)
      × (length (flush_stream f).pending ≡ 0)
      × ((flush_stream f).size ≡ f.size)
      × (length (flush_stream f).pending ≤ length f.pending)
unfolding flush_stream written
flush_stream-all_bytes f = elim (Bool-cases (ltb 0 (length f.pending))) [
  | inl some_left ↦ rw some_left (append-nil _, refl, refl, omega arith)
  | inr none_left ↦ rw none_left (refl, ground arith, refl, omega arith)
]

newline_flush-all_bytes :
    (p : Place) (c : ℕ) (f : Stream)
    → (all_bytes (newline_flush p c f) ≡ all_bytes f)
      × ((newline_flush p c f).size ≡ f.size)
      × (length (newline_flush p c f).pending ≤ length f.pending)
newline_flush-all_bytes in_text c f =
    let e = flush_stream-all_bytes f in
    elim (Bool-cases (c == 10 && f.line_buffered)) [
      | inl yes_flush ↦ rw yes_flush (e.0, e.2, e.3)
      | inr no_flush ↦ rw no_flush (refl, refl, omega arith)
    ]
newline_flush-all_bytes percent c f = (refl, refl, omega arith)
newline_flush-all_bytes after_l c f = (refl, refl, omega arith)
newline_flush-all_bytes after_h c f = (refl, refl, omega arith)
newline_flush-all_bytes (behind w) c f = (refl, refl, omega arith)

-- What the loop leaves in the stream: the text behind all earlier bytes.
abbrev Streams : Stream → Option (List ℕ) → Option Stream → Type 0
Streams f none o = Unit
Streams f (some t) o =
    length f.pending + length t ≤ f.size
    → (g : Stream) × (o ≡ some g) × (all_bytes g ≡ all_bytes f ++ t)

module _ (conversion : Width → ℕ → List ℕ → Printed) where
  Streams-step :
      (f : Stream) (p : Place) (c : ℕ) (t : List ℕ) (rest : Option (List ℕ))
      (run : Stream → Option Stream)
      → ((g : Stream) → Streams g rest (run g))
      → Streams f (prefixed t rest) (push_bytes t f >>= λ g. run (newline_flush p c g))
  Streams-step f p c t none run ih = tt
  Streams-step f p c t (some u) run ih = λ fits.
      let len = length-append t u in
      let room : ltb f.size (length f.pending + length t) ≡ false = ground arith in
      let g = record f { pending = f.pending ++ t } in
      let (same, size', less) = newline_flush-all_bytes p c g in
      let (k, e, bytes) = ih (newline_flush p c g) (omega (arith, length-append f.pending t)) in
      rw room (
        k,
        e,
        bytes ∙ ap (λ x. x ++ u) (same ∙ sym (append_assoc _ f.pending t)) ∙ append_assoc _ t u,
      )

  stream_from-Streams :
      (p : Place) (s args : List ℕ) (f : Stream)
      → Streams f (text_from conversion p s args) (stream_from conversion p s args f)
  unfolding text_from stream_from
  stream_from-Streams in_text [] args f = λ fits. (f, refl, sym (append-nil _))
  stream_from-Streams percent [] args f = tt
  stream_from-Streams after_l [] args f = tt
  stream_from-Streams after_h [] args f = tt
  stream_from-Streams (behind w) [] args f = tt
  stream_from-Streams p (c ∷ s) args f =
      elim (step conversion p c args)
        as (λ r.
          Streams f
            (elim r [
              | stop ↦ some []
              | fault ↦ none
              | print t p' args' ↦ prefixed t (text_from conversion p' s args')
            ])
            (elim r [
              | stop ↦ some f
              | fault ↦ none
              | print t p' args' ↦
                  push_bytes t f >>= λ g. stream_from conversion p' s args' (newline_flush p c g)
            ])) [
              | stop ↦ λ fits. (f, refl, sym (append-nil _))
              | fault ↦ tt
              | print t p' args' ↦
                  Streams-step f p c t (text_from conversion p' s args')
                    (stream_from conversion p' s args') (stream_from-Streams p' s args')
            ]

empty : (xs : List ℕ) → length xs ≡ 0 → xs ≡ []
empty [] h = refl
empty (x ∷ xs) h = absurd (omega arith)

no_pending : (f : Stream) → length f.pending ≡ 0 → all_bytes f ≡ written f.writes
no_pending f h = ap (λ x. written f.writes ++ x) (empty f.pending h) ∙ append-nil _

vfprintf_run :
    (float_arg : Width → ℕ → List ℕ → Printed) (string_at : ℕ → List ℕ) (format args : List ℕ)
    (f g : Stream)
    → stream_from (print_conversion float_arg string_at) in_text format args f ≡ some g
    → vfprintf float_arg string_at format args f
      ≡ some (length (flush_stream g).pending, flush_stream g)
unfolding vfprintf
vfprintf_run float_arg string_at format args f g e =
    ap (λ o. o >>= λ k. some (length (flush_stream k).pending, flush_stream k)) e

-- Where the format gives the text `t`, and it fits into the buffer behind what stands there: all of
-- the pending bytes and the text are written, in their order, line-buffered or not; none stays in
-- the buffer, and the result is 0 whatever the length of the text.
pub vfprintf_lem :
    (float_arg : Width → ℕ → List ℕ → Printed) (string_at : ℕ → List ℕ) (format args t : List ℕ)
    (f : Stream)
    → text_from (print_conversion float_arg string_at) in_text format args ≡ some t
    → length f.pending + length t ≤ f.size
    → (g : Stream) × (vfprintf float_arg string_at format args f ≡ some (0, g))
      × (length g.pending ≡ 0)
      × (written g.writes ≡ written f.writes ++ (f.pending ++ t))
unfolding vfprintf
vfprintf_lem float_arg string_at format args t f text fits =
    let conversion = print_conversion float_arg string_at in
    let streams : Streams f (some t) (stream_from conversion in_text format args f) =
      rw text at (stream_from-Streams conversion in_text format args f) in
    let (g, e, bytes) = streams fits in
    let (same, drained, _, _) = flush_stream-all_bytes g in
    (
      flush_stream g,
      vfprintf_run float_arg string_at format args f g e
          ∙ ap (λ n. some (n, flush_stream g)) drained,
      drained,
      sym (no_pending (flush_stream g) drained) ∙ same ∙ bytes ∙ append_assoc _ f.pending t,
    )
