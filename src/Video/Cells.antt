-- ===== src/Video/Cells.antt =====
-- The cells of the screen, by row and column, under a write and under scrolling.
use myunixlikeos.Common.{
  ℕ, zero, suc, ◌+◌, ◌*◌, ◌<◌, ◌≤◌, ◌≡◌, ◌&&◌, ◌++◌, List, get_or, set, take, drop, length,
  length-append, length-take_le, length-drop_add, length-set, get_or-set, if◌then◌else◌, refl,
  arith, ltb, leb, lt→ltb, ◌∙◌, Bool-cases, false, inl, inr, true, ◌==◌, get_or-append, get_or-drop,
  get_or-take,
}
use myunixlikeos.Video.{Terminal, fill_words, colored, vga_scroll_up}

abbrev pub cell : Terminal → (r c : ℕ) → ℕ
cell t r c = get_or t.buffer (r * 80 + c) 0

pub record IsTerminal (t : Terminal) : Type 0 where
  pub sized : length t.buffer ≡ 2000
  pub row : t.row < 25
  pub col : t.col < 80

length-fill_words : (n i v : ℕ) (b : List ℕ) → length (fill_words n i v b) ≡ length b
unfolding fill_words
length-fill_words zero i v b = refl
length-fill_words (suc n) i v b = length-fill_words n (i + 1) v (set b i v) ∙ length-set b i v

get_or-fill_words :
    (n i v : ℕ) (b : List ℕ) (j : ℕ)
    → i + n ≤ length b
    → get_or (fill_words n i v b) j 0 ≡ (if leb i j && ltb j (i + n) then v else get_or b j 0)
unfolding fill_words
get_or-fill_words zero i v b j h = ground arith
get_or-fill_words (suc n) i v b j h =
    ground
      (arith, get_or-fill_words n (i + 1) v (set b i v) j, get_or-set b i j v 0, length-set b i v)

moved : List ℕ → List ℕ
moved b = take 1920 (drop 80 b) ++ drop 1920 b

length-moved : (b : List ℕ) → length b ≡ 2000 → length (moved b) ≡ 2000
unfolding moved
length-moved b h = omega (
  arith,
  length-append (take 1920 (drop 80 b)) (drop 1920 b),
  length-take_le 1920 (drop 80 b) (omega (arith, length-drop_add 80 b (omega arith))),
  length-drop_add 1920 b (omega arith),
)

get_or-moved :
    (b : List ℕ) (j : ℕ) → length b ≡ 2000 → j < 1920 → get_or (moved b) j 0 ≡ get_or b (80 + j) 0
unfolding moved
get_or-moved b j h lt =
    let front =
      length-take_le 1920 (drop 80 b) (omega (arith, length-drop_add 80 b (omega arith))) in
    let inside : ltb j (length (take 1920 (drop 80 b))) ≡ true = rw front (lt→ltb j 1920 lt) in
    get_or-append (take 1920 (drop 80 b)) (drop 1920 b) j
    ∙ rw inside (get_or-take 1920 (drop 80 b) j lt ∙ get_or-drop 80 b j)

scrolled_buffer : Terminal → List ℕ
scrolled_buffer t = fill_words 80 1920 (colored t.color b' ') (moved t.buffer)

vga_scroll_up_lem :
    (t : Terminal) → vga_scroll_up t ≡ record t { buffer = scrolled_buffer t; row = 24; col = 0 }
unfolding vga_scroll_up scrolled_buffer moved
vga_scroll_up_lem t = refl

length-scrolled_buffer : (t : Terminal) → length t.buffer ≡ 2000 → length (scrolled_buffer t) ≡ 2000
unfolding scrolled_buffer
length-scrolled_buffer t h =
    length-fill_words 80 1920 (colored t.color b' ') (moved t.buffer) ∙ length-moved t.buffer h

-- The rows go up by one, and the last is blank.
pub cell-vga_scroll_up :
    (t : Terminal) (r c : ℕ)
    → length t.buffer ≡ 2000
    → r < 25
    → c < 80
    → cell (vga_scroll_up t) r c ≡ (if ltb r 24 then cell t (r + 1) c else colored t.color b' ')
unfolding scrolled_buffer
cell-vga_scroll_up t r c h hr hc =
    let sized = length-moved t.buffer h in
    let fill =
      get_or-fill_words 80 1920 (colored t.color b' ') (moved t.buffer) (r * 80 + c)
        (omega arith) in
    let next : 80 + (r * 80 + c) ≡ (r + 1) * 80 + c = omega arith in
    rw (vga_scroll_up_lem t, fill)
      (elim (Bool-cases (ltb r 24)) [
        | inl e ↦
            let low : (leb 1920 (r * 80 + c) && ltb (r * 80 + c) (1920 + 80)) ≡ false =
              ground arith in
            rw (e, low, get_or-moved t.buffer (r * 80 + c) h (ground arith), next) refl
        | inr e ↦
            let high : (leb 1920 (r * 80 + c) && ltb (r * 80 + c) (1920 + 80)) ≡ true =
              ground arith in
            rw (e, high) refl
      ])

pub vga_scroll_up-IsTerminal :
    (t : Terminal) → length t.buffer ≡ 2000 → IsTerminal (vga_scroll_up t)
vga_scroll_up-IsTerminal t h =
    rw (vga_scroll_up_lem t)
      (record { sized = length-scrolled_buffer t h; row = omega arith; col = omega arith })

-- A write to one cell.
pub cell-set :
    (b : List ℕ) (row col r c v : ℕ)
    → length b ≡ 2000
    → row < 25
    → col < 80
    → c < 80
    → get_or (set b (row * 80 + col) v) (r * 80 + c) 0
      ≡ (if (r == row) && (c == col) then v else get_or b (r * 80 + c) 0)
cell-set b row col r c v h hr hc k = ground (arith, get_or-set b (row * 80 + col) (r * 80 + c) v 0)
