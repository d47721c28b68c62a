-- ===== src/Snake/Safe.antt =====
-- No frame of the snake game leaves the board or the arrays, or lays the snake over itself.
use myunixlikeos.Common.{
  ℕ, zero, suc, ◌-◌, ◌<◌, ◌≤◌, ◌≡◌, ◌&&◌, not, Bool, true, false, Option, none, some, length,
  length-set, if◌then◌else◌, refl, arith, leb, Bool-cases, inl, inr, ◌∙◌, get_or, ltb, set, ◌+◌,
  ◌==◌, ◌||◌,
}
use myunixlikeos.Common.Int.{ℤ, pos, negsuc}
use myunixlikeos.Snake.{
  Cell, Game, has_cell, move_snake, Frame, goes_on, over, out_of_rounds, goes_on_or,
  place_food_loop, snake_place_food, snake_random, random_cell, put_food, remove_food, grow_snake,
  advance, snake_occupies, snake_has_food, find_food, head_x, head_y, inside_border, nowhere,
  same_cell, snake_frame, snake_move, to_cell, turn,
}
use myunixlikeos.Snake.Body.{has_cell_sound, IsSnake, OnBoard, move_snake-IsSnake}

pub record IsGame (g : Game) : Type 0 where
  pub snake : IsSnake g.snake g.snake_length
  pub sized : length g.foods ≡ 5
  pub few : g.food_count ≤ 5

-- If the game goes on, it goes on in such a state.
abbrev pub Safe : Frame → Type 0
Safe (goes_on g) = IsGame g
Safe (over g) = Unit
Safe out_of_rounds = Unit

either_Safe :
    (t : Bool) (a b : Option Game)
    → Safe (goes_on_or a)
    → Safe (goes_on_or b)
    → Safe (goes_on_or (if t then a else b))
either_Safe true a b h k = h
either_Safe false a b h k = k

either_frame :
    (t : Bool) (a b : Frame)
    → (t ≡ true → Safe a)
    → (t ≡ false → Safe b)
    → Safe (if t then a else b)
either_frame true a b h k = h refl
either_frame false a b h k = k refl

put_food-IsGame : (g : Game) (c : Cell) → IsGame g → g.food_count < 5 → IsGame (put_food g c)
put_food-IsGame g c v lt = record {
  snake = v.snake;
  sized = length-set g.foods g.food_count c ∙ v.sized;
  few = omega arith;
}

place_food_loop-Safe :
    (n : ℕ) (g : Game) → IsGame g → g.food_count < 5 → Safe (goes_on_or (place_food_loop n g))
unfolding place_food_loop
place_food_loop-Safe zero g v lt = tt
place_food_loop-Safe (suc n) g v lt =
    let c = random_cell g.rng in
    let g' = record g { rng = snake_random (snake_random g.rng) } in
    let v' : IsGame g' = record { snake = v.snake; sized = v.sized; few = v.few } in
    either_Safe (not (snake_occupies g' c) && not (snake_has_food g' c)) (some (put_food g' c))
      (place_food_loop n g') (put_food-IsGame g' c v' lt) (place_food_loop-Safe n g' v' lt)

pub snake_place_food-Safe : (n : ℕ) (g : Game) → IsGame g → Safe (goes_on_or (snake_place_food n g))
unfolding snake_place_food
snake_place_food-Safe n g v = elim (Bool-cases (leb 5 g.food_count)) [
  | inl e ↦ rw e v
  | inr e ↦ rw e (place_food_loop-Safe n g v (ground arith))
]

module _ (c : Cell) (g : Game) (v : IsGame g) (on : OnBoard c) where
  free_of :
      (n : ℕ)
      → has_cell n 0 g.snake c ≡ false
      → (k : ℕ) → k < n
      → same_cell (get_or g.snake k nowhere) c ≡ false
  free_of n e k h = has_cell_sound n 0 g.snake c k e (omega arith) (omega arith)

  -- The snake behind a move without and with a meal.
  moved-IsSnake :
      has_cell (g.snake_length - 1) 0 g.snake c ≡ false
      → IsSnake (move_snake c g).snake g.snake_length
  moved-IsSnake e =
      move_snake-IsSnake c g g.snake_length v.snake on v.snake.long v.snake.short (omega arith)
        (λ k h. free_of (g.snake_length - 1) e k (omega arith))

  grown-IsSnake :
      has_cell g.snake_length 0 g.snake c ≡ false
      → IsSnake
          (move_snake c g).snake
          (if ltb (g.snake_length + 1) 256 then g.snake_length + 1 else g.snake_length)
  grown-IsSnake e = elim (Bool-cases (ltb (g.snake_length + 1) 256)) [
    | inl f ↦ rw f (
        move_snake-IsSnake c g (g.snake_length + 1) v.snake on (omega arith) (ground arith)
          (omega arith) (λ k h. free_of g.snake_length e k (omega arith)))
    | inr f ↦ rw f (
        move_snake-IsSnake c g g.snake_length v.snake on v.snake.long v.snake.short (omega arith)
          (λ k h. free_of g.snake_length e k (omega arith)))
  ]

  length-remove :
      (i : ℕ) (b : Bool)
      → length (if b then set g.foods i (get_or g.foods (g.food_count - 1) nowhere) else g.foods)
        ≡ 5
  length-remove i true = length-set g.foods i (get_or g.foods (g.food_count - 1) nowhere) ∙ v.sized
  length-remove i false = v.sized

  fed-IsGame :
      (i : ℕ)
      → has_cell g.snake_length 0 g.snake c ≡ false
      → IsGame (grow_snake (remove_food i (move_snake c g)))
  unfolding remove_food move_snake
  fed-IsGame i e = record {
    snake = grown-IsSnake e;
    sized = length-remove i (ltb i (g.food_count - 1));
    few = omega (arith, v.few);
  }

  moved-IsGame : has_cell (g.snake_length - 1) 0 g.snake c ≡ false → IsGame (move_snake c g)
  unfolding move_snake
  moved-IsGame e = record { snake = moved-IsSnake e; sized = v.sized; few = v.few }

  advance-Safe : (rounds : ℕ) (o : Option ℕ) → Safe (advance rounds c o g)
  unfolding advance
  advance-Safe rounds none =
      either_frame (has_cell (g.snake_length - 1) 0 g.snake c) (over g) (goes_on (move_snake c g))
        (λ e. tt) moved-IsGame
  advance-Safe rounds (some i) =
      let fed = grow_snake (remove_food i (move_snake c g)) in
      either_frame (has_cell g.snake_length 0 g.snake c) (over g)
        (goes_on_or (snake_place_food rounds fed)) (λ e. tt)
        (λ e. snake_place_food-Safe rounds fed (fed-IsGame i e))

inside-OnBoard : (x y : ℤ) → inside_border x y ≡ true → OnBoard (to_cell x y)
inside-OnBoard (pos x) (pos y) e = ground arith
inside-OnBoard (pos x) (negsuc y) e = absurd (ground arith)
inside-OnBoard (negsuc x) (pos y) e = absurd (ground arith)
inside-OnBoard (negsuc x) (negsuc y) e = absurd (ground arith)

snake_move-Safe : (rounds : ℕ) (g : Game) → IsGame g → Safe (snake_move rounds g)
snake_move-Safe rounds g v =
    let c = to_cell (head_x g) (head_y g) in
    either_frame (inside_border (head_x g) (head_y g))
      (advance rounds c (find_food g.food_count 0 g.foods c) g) (over g)
      (λ e.
        advance-Safe c g v (inside-OnBoard (head_x g) (head_y g) e) rounds
          (find_food g.food_count 0 g.foods c))
      (λ e. tt)

-- The direction is no part of what must hold.
turned-IsGame :
    (g : Game) (dx dy : ℤ) (n : ℕ)
    → IsGame g
    → IsGame (record g { dx = dx; dy = dy; frame_counter = n })
turned-IsGame g dx dy n v = record { snake = v.snake; sized = v.sized; few = v.few }

either_IsGame : (t : Bool) (a b : Game) → IsGame a → IsGame b → IsGame (if t then a else b)
either_IsGame true a b h k = h
either_IsGame false a b h k = k

turn-IsGame : (c : ℕ) (g : Game) → IsGame g → IsGame (turn c g)
unfolding turn
turn-IsGame c g v =
    let up = turned-IsGame g (pos 0) (negsuc 0) g.frame_counter v in
    let down = turned-IsGame g (pos 0) (pos 1) g.frame_counter v in
    let left = turned-IsGame g (negsuc 0) (pos 0) g.frame_counter v in
    let right = turned-IsGame g (pos 1) (pos 0) g.frame_counter v in
    either_IsGame _ _ _ up
      (either_IsGame _ _ _ down (either_IsGame _ _ _ left (either_IsGame _ _ _ right v)))

-- A frame that goes on leaves the snake with 1 to 255 cells, each inside_border the border, no two of them the
-- same, in an array of 256, and at most 5 foods in their array, if it was so before: for any key, and
-- for any rounds in the search for a free cell.
pub snake_frame-Safe : (rounds c : ℕ) (g : Game) → IsGame g → Safe (snake_frame rounds c g)
unfolding snake_frame
snake_frame-Safe rounds c g v =
    let g' = turn c g in
    let v' = turn-IsGame c g v in
    let waits : Game = record g' { frame_counter = g'.frame_counter + 1 } in
    let moves : Game = record g' { frame_counter = 0 } in
    let next : Frame =
      if ltb (g'.frame_counter + 1) 3 then goes_on waits else snake_move rounds moves in
    either_frame ((c == b'q') || (c == b'Q')) (over g) next (λ e. tt)
      (λ e.
        either_frame (ltb (g'.frame_counter + 1) 3) (goes_on waits) (snake_move rounds moves)
          (λ f. turned-IsGame g' g'.dx g'.dy (g'.frame_counter + 1) v')
          (λ f. snake_move-Safe rounds moves (turned-IsGame g' g'.dx g'.dy 0 v')))
