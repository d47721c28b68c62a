-- ===== src/Snake/Body.antt =====
-- The cells of the snake under a move, and the search of a cell.
use myunixlikeos.Common.{
  ℕ, zero, suc, ◌-◌, ◌<◌, ◌≡◌, ◌&&◌, List, get_or, set, length, length-set, get_or-set,
  if◌then◌else◌, refl, arith, ltb, leb, ◌∙◌, Bool-cases, false, inl, inr, ◌+◌, ◌==◌, ◌≤◌,
}
use myunixlikeos.Snake.{Cell, nowhere, shift_snake, Game, has_cell, move_snake, same_cell}

length-shift_snake : (n : ℕ) (cells : List Cell) → length (shift_snake n cells) ≡ length cells
unfolding shift_snake
length-shift_snake zero cells = refl
length-shift_snake (suc i) cells =
    length-shift_snake i (set cells (suc i) (get_or cells i nowhere))
    ∙ length-set cells (suc i) (get_or cells i nowhere)

at_end :
    (i j : ℕ) (cells : List Cell)
    → suc i ≡ j
    → get_or cells (j - 1) nowhere ≡ get_or cells i nowhere
at_end i j cells e = let same : j - 1 ≡ i = omega arith in rw same refl

-- One round of the loop, with the rest of it on `i` cells.
moved_cell :
    (i j : ℕ) (cells : List Cell)
    → suc i < length cells
    → (if (ltb 0 j && leb j i)
        then get_or (set cells (suc i) (get_or cells i nowhere)) (j - 1) nowhere
        else get_or (set cells (suc i) (get_or cells i nowhere)) j nowhere)
      ≡ (if (ltb 0 j && leb j (suc i))
          then get_or cells (j - 1) nowhere
          else get_or cells j nowhere)
moved_cell i j cells h =
    let v = get_or cells i nowhere in
    ground (
      arith,
      get_or-set cells (suc i) j v nowhere h,
      get_or-set cells (suc i) (j - 1) v nowhere h,
      at_end i j cells,
    )

get_or-shift_snake :
    (n : ℕ) (cells : List Cell) (j : ℕ)
    → n < length cells
    → get_or (shift_snake n cells) j nowhere
      ≡ (if (ltb 0 j && leb j n) then get_or cells (j - 1) nowhere else get_or cells j nowhere)
unfolding shift_snake
get_or-shift_snake zero cells zero h = refl
get_or-shift_snake zero cells (suc j) h = ground arith
get_or-shift_snake (suc i) cells j h =
    let moved = get_or cells i nowhere in
    let ih =
      get_or-shift_snake i (set cells (suc i) moved) j
        (omega (arith, length-set cells (suc i) moved)) in
    ih ∙ moved_cell i j cells h

-- After a move the cells are the new one and, one further, those from before.
pub get_or-move_snake :
    (c : Cell) (g : Game) (j : ℕ)
    → g.snake_length < length g.snake
    → j ≤ g.snake_length
    → get_or (move_snake c g).snake j nowhere
      ≡ (if j == 0 then c else get_or g.snake (j - 1) nowhere)
unfolding move_snake
get_or-move_snake c g j h k =
    let cells = shift_snake g.snake_length g.snake in
    ground (
      arith,
      get_or-set cells 0 j c nowhere (omega (arith, length-shift_snake g.snake_length g.snake)),
      get_or-shift_snake g.snake_length g.snake j h,
    )

pub length-move_snake : (c : Cell) (g : Game) → length (move_snake c g).snake ≡ length g.snake
unfolding move_snake
length-move_snake c g =
    length-set (shift_snake g.snake_length g.snake) 0 c ∙ length-shift_snake g.snake_length g.snake

-- A cell that the search does not find is none of those searched.
pub has_cell_sound :
    (n i : ℕ) (cells : List Cell) (c : Cell) (k : ℕ)
    → has_cell n i cells c ≡ false
    → i ≤ k
    → k < i + n
    → same_cell (get_or cells k nowhere) c ≡ false
unfolding has_cell
has_cell_sound zero i cells c k e lo hi = absurd (omega arith)
has_cell_sound (suc n) i cells c k e lo hi =
    elim (Bool-cases (same_cell (get_or cells i nowhere) c)) [
      | inl f ↦ cc (rw f at e)
      | inr f ↦ elim (Bool-cases (i == k)) [
        | inl at ↦ let same : k ≡ i = ground arith in rw same f
        | inr at ↦ has_cell_sound n (i + 1) cells c k (rw f at e) (ground arith) (omega arith)
      ]
    ]

pub same_cell_comm : (a b : Cell) → same_cell a b ≡ same_cell b a
same_cell_comm a b = ground arith

abbrev pub OnBoard : Cell → Type 0
OnBoard c = (1 ≤ c.0) × (c.0 ≤ 78) × (1 ≤ c.1) × (c.1 ≤ 23)

-- The first `n` cells are on the board, no two of them the same, and the array has room for one more.
pub record IsSnake (cells : List Cell) (n : ℕ) : Type 0 where
  pub sized : length cells ≡ 256
  pub long : 1 ≤ n
  pub short : n ≤ 255
  pub on_board : (j : ℕ) → j < n → OnBoard (get_or cells j nowhere)
  pub apart :
      (i j : ℕ)
      → i < j
      → j < n
      → same_cell (get_or cells i nowhere) (get_or cells j nowhere) ≡ false

-- A move to a cell of the board that none of the first `n` - 1 cells is, `n` the new length.
pub move_snake-IsSnake :
    (c : Cell) (g : Game) (n : ℕ)
    → IsSnake g.snake g.snake_length
    → OnBoard c
    → 1 ≤ n
    → n ≤ 255
    → n ≤ g.snake_length + 1
    → ((k : ℕ) → suc k < n → same_cell (get_or g.snake k nowhere) c ≡ false)
    → IsSnake (move_snake c g).snake n
move_snake-IsSnake c g n s on long short le free = record {
  sized = length-move_snake c g ∙ s.sized;
  long = long;
  short = short;
  on_board = on_board;
  apart = apart;
}
  where
    at :
        (j : ℕ)
        → j < n
        → get_or (move_snake c g).snake j nowhere
          ≡ (if j == 0 then c else get_or g.snake (j - 1) nowhere)
    at j h = get_or-move_snake c g j (omega (arith, s.sized, s.short)) (omega arith)

    behind :
        (j : ℕ)
        → suc j < n
        → get_or (move_snake c g).snake (suc j) nowhere ≡ get_or g.snake j nowhere
    behind j h =
        let pred : suc j - 1 ≡ j = omega arith in
        let nonzero : (suc j == 0) ≡ false = ground arith in rw (at (suc j) h, nonzero, pred) refl

    on_board : (j : ℕ) → j < n → OnBoard (get_or (move_snake c g).snake j nowhere)
    on_board zero h = rw (at 0 h) on
    on_board (suc j) h = rw (behind j h) (s.on_board j (omega arith))

    apart :
        (i j : ℕ)
        → i < j
        → j < n
        → same_cell
            (get_or (move_snake c g).snake i nowhere)
            (get_or (move_snake c g).snake j nowhere)
          ≡ false
    apart i zero lt h = absurd (omega arith)
    apart zero (suc j) lt h =
        rw (at 0 (omega arith), behind j h) (same_cell_comm c (get_or g.snake j nowhere) ∙ free j h)
    apart (suc i) (suc j) lt h =
        rw (behind i (omega arith), behind j h) (s.apart i j (omega arith) (omega arith))
