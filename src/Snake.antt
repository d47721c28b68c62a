-- ===== src/Snake.antt =====
-- The snake game of bin/snake/snake.c: the state of the game and one frame of its loop. The arrays
-- snake_x and snake_y are one list of cells, and so are food_x and food_y.
pub mod Body
pub mod Play
pub mod Safe
mod Tests
use myunixlikeos.Common.{
  ℕ, Bool, List, Option, bit_xor, false, get_or, if◌then◌else◌, leb, ltb, none, not, set, some, suc,
  true, zero, ◌%◌, ◌&&◌, ◌*◌, ◌+◌, ◌-◌, ◌/◌, ◌==◌, ◌^◌, ◌||◌,
}
use myunixlikeos.Common.Int.{ℤ, pos, negsuc, ◌+ℤ◌, ltb_ℤ}

-- The column and the row of a cell.
abbrev pub Cell : Type 0
Cell = ℕ × ℕ

abbrev pub same_cell : Cell → Cell → Bool
same_cell a b = (a.0 == b.0) && (a.1 == b.1)

abbrev pub max_foods : ℕ
max_foods = 5

abbrev pub max_snake : ℕ
max_snake = 256

pub record Game : Type 0 where
  pub snake : List Cell
  pub snake_length : ℕ
  pub foods : List Cell
  pub food_count : ℕ
  pub rng : ℕ
  pub dx : ℤ
  pub dy : ℤ
  pub frame_counter : ℕ
  pub score : ℕ

abbrev pub nowhere : Cell
nowhere = (0, 0)

-- The next number of the generator.
unfoldable pub snake_random : ℕ → ℕ
snake_random r =
    let r1 = bit_xor r (r * 2 ^ 13 % 2 ^ 32) in
    let r2 = bit_xor r1 (r1 / 2 ^ 17) in bit_xor r2 (r2 * 2 ^ 5 % 2 ^ 32)

-- Whether one of `n` cells from index `i` on is `c`, as snake_occupies and snake_has_food search.
unfoldable pub has_cell : (n i : ℕ) → List Cell → Cell → Bool
has_cell zero i cells c = false
has_cell (suc n) i cells c =
    let rest = has_cell n (i + 1) cells c in
    if same_cell (get_or cells i nowhere) c then true else rest

abbrev pub snake_occupies : Game → Cell → Bool
snake_occupies g c = has_cell g.snake_length 0 g.snake c

abbrev pub snake_has_food : Game → Cell → Bool
snake_has_food g c = has_cell g.food_count 0 g.foods c

-- The cell that two numbers of the generator give.
abbrev pub random_cell : ℕ → Cell
random_cell r = (snake_random r % 76 + 2, snake_random (snake_random r) % 21 + 2)

abbrev pub put_food : Game → Cell → Game
put_food g c = record g { foods = set g.foods g.food_count c; food_count = g.food_count + 1 }

-- The loop of snake_place_food; `none` is that the rounds ran out.
unfoldable pub place_food_loop : (rounds : ℕ) → Game → Option Game
unfolding has_cell snake_random
place_food_loop zero g = none
place_food_loop (suc n) g =
    let c = random_cell g.rng in
    let g' = record g { rng = snake_random (snake_random g.rng) } in
    let again = place_food_loop n g' in
    if not (snake_occupies g' c) && not (snake_has_food g' c) then some (put_food g' c) else again

unfoldable pub snake_place_food : (rounds : ℕ) → Game → Option Game
unfolding place_food_loop
snake_place_food rounds g = if leb max_foods g.food_count then some g else place_food_loop rounds g

abbrev pub is_key : ℕ → (lower upper arrow : ℕ) → Bool
is_key c lower upper arrow = (c == lower) || ((c == upper) || (c == arrow))

abbrev pub is_int : ℤ → ℤ → Bool
is_int a b = not (ltb_ℤ a b) && not (ltb_ℤ b a)

unfoldable pub turn : ℕ → Game → Game
turn c g =
    if is_key c b'w' b'W' 0xE0 && not (is_int g.dy (pos 1))
    then record g { dx = pos 0; dy = negsuc 0 }
    else if is_key c b's' b'S' 0xE1 && not (is_int g.dy (negsuc 0))
    then record g { dx = pos 0; dy = pos 1 }
    else if is_key c b'a' b'A' 0xE2 && not (is_int g.dx (pos 1))
    then record g { dx = negsuc 0; dy = pos 0 }
    else if is_key c b'd' b'D' 0xE3 && not (is_int g.dx (negsuc 0))
    then record g { dx = pos 1; dy = pos 0 }
    else g

-- The index of the food in a cell among `n` from index `i` on.
unfoldable pub find_food : (n i : ℕ) → List Cell → Cell → Option ℕ
find_food zero i foods c = none
find_food (suc n) i foods c =
    let rest = find_food n (i + 1) foods c in
    if same_cell (get_or foods i nowhere) c then some i else rest

-- The loop that moves `i` cells up by one, from the last on.
unfoldable pub shift_snake : ℕ → List Cell → List Cell
shift_snake zero cells = cells
shift_snake (suc i) cells = shift_snake i (set cells (suc i) (get_or cells i nowhere))

unfoldable pub move_snake : Cell → Game → Game
unfolding shift_snake
move_snake c g = record g { snake = set (shift_snake g.snake_length g.snake) 0 c }

-- The last food takes the place of the one at index `i`.
unfoldable pub remove_food : ℕ → Game → Game
remove_food i g =
    let last = g.food_count - 1 in
    record g {
      foods = if ltb i last then set g.foods i (get_or g.foods last nowhere) else g.foods;
      food_count = last;
    }

abbrev pub grow_snake : Game → Game
grow_snake g = record g {
  snake_length = if ltb (g.snake_length + 1) max_snake then g.snake_length + 1 else g.snake_length;
  score = g.score + 10;
}

-- How a frame ends: the game goes on, is over, or the rounds ran out in the search for a free cell.
pub data Frame : Type 0 where
  goes_on : Game → Frame
  over : Game → Frame
  out_of_rounds : Frame

abbrev pub goes_on_or : Option Game → Frame
goes_on_or none = out_of_rounds
goes_on_or (some g) = goes_on g

-- The move to a cell inside_border the border, with the food that is there.
unfoldable pub advance : (rounds : ℕ) → Cell → Option ℕ → Game → Frame
unfolding move_snake remove_food snake_place_food has_cell
advance rounds c none g =
    if has_cell (g.snake_length - 1) 0 g.snake c then over g else goes_on (move_snake c g)
advance rounds c (some i) g =
    if has_cell g.snake_length 0 g.snake c
    then over g
    else goes_on_or (snake_place_food rounds (grow_snake (remove_food i (move_snake c g))))

abbrev pub inside_border : (x y : ℤ) → Bool
inside_border x y =
    not (ltb_ℤ x (pos 1))
    && not (ltb_ℤ (pos 78) x)
    && not (ltb_ℤ y (pos 1))
    && not (ltb_ℤ (pos 23) y)

abbrev pub to_cell : ℤ → ℤ → Cell
to_cell (pos x) (pos y) = (x, y)
to_cell _ _ = nowhere

abbrev pub head_x : Game → ℤ
head_x g = pos (get_or g.snake 0 nowhere).0 +ℤ g.dx

abbrev pub head_y : Game → ℤ
head_y g = pos (get_or g.snake 0 nowhere).1 +ℤ g.dy

abbrev pub snake_move : (rounds : ℕ) → Game → Frame
snake_move rounds g =
    let c = to_cell (head_x g) (head_y g) in
    if inside_border (head_x g) (head_y g)
    then advance rounds c (find_food g.food_count 0 g.foods c) g
    else over g

-- One round of the loop of snake_play with the character that the keyboard gives; every third frame
-- moves.
unfoldable pub snake_frame : (rounds c : ℕ) → Game → Frame
unfolding turn find_food advance
snake_frame rounds c g =
    let g' = turn c g in
    let waiting = record g' { frame_counter = g'.frame_counter + 1 } in
    if (c == b'q') || (c == b'Q')
    then over g
    else if ltb (g'.frame_counter + 1) 3
    then goes_on waiting
    else snake_move rounds (record g' { frame_counter = 0 })
