-- ===== src/Snake/Play.antt =====
-- A whole game of bin/snake/snake.c, from its start.
use myunixlikeos.Common.{
  ℕ, zero, suc, ◌+◌, ◌-◌, ◌<◌, ◌≤◌, ◌≡◌, true, List, [], ◌∷◌, Option, none, some, get_or,
  get_or-set, set, length, length-set, if◌then◌else◌, refl, arith, leb, ltb, ◌&&◌, ◌>>=◌, ◌∙◌,
}
use myunixlikeos.Common.Int.{pos}
use myunixlikeos.Snake.{
  Cell, Game, nowhere, Frame, goes_on, over, out_of_rounds, goes_on_or, snake_place_food,
  snake_frame,
}
use myunixlikeos.Snake.Safe.{IsGame, Safe, snake_frame-Safe, snake_place_food-Safe}

-- The first `n` cells behind index `i`, from the middle of the board to the left.
unfoldable pub place_snake : (n i : ℕ) → List Cell → List Cell
place_snake zero i cells = cells
place_snake (suc n) i cells = place_snake n (i + 1) (set cells i (40 - i, 12))

-- The start of snake_play, before the foods.
unfoldable pub new_game : Game → Game
unfolding place_snake
new_game g = record g {
  snake = place_snake 4 0 g.snake;
  snake_length = 4;
  food_count = 0;
  dx = pos 1;
  dy = pos 0;
  frame_counter = 0;
  score = 0;
}

unfoldable pub first_foods : (n rounds : ℕ) → Game → Option Game
unfolding snake_place_food
first_foods zero rounds g = some g
first_foods (suc n) rounds g = snake_place_food rounds g >>= first_foods n rounds

abbrev pub next_frame : Frame → (Game → Frame) → Frame
next_frame (goes_on g) k = k g
next_frame (over g) k = over g
next_frame out_of_rounds k = out_of_rounds

-- The loop of snake_play on the characters that the keyboard gives, one for each frame.
unfoldable pub snake_loop : (rounds : ℕ) → List ℕ → Game → Frame
unfolding snake_frame
snake_loop rounds [] g = goes_on g
snake_loop rounds (c ∷ keys) g =
    next_frame (snake_frame rounds c g) (λ g'. snake_loop rounds keys g')

unfoldable pub snake_play : (rounds : ℕ) → List ℕ → Game → Frame
unfolding new_game first_foods snake_loop
snake_play rounds keys g =
    next_frame (goes_on_or (first_foods 3 rounds (new_game g))) (λ g'. snake_loop rounds keys g')

length-place_snake : (n i : ℕ) (cells : List Cell) → length (place_snake n i cells) ≡ length cells
unfolding place_snake
length-place_snake zero i cells = refl
length-place_snake (suc n) i cells =
    length-place_snake n (i + 1) (set cells i (40 - i, 12)) ∙ length-set cells i (40 - i, 12)

get_or-place_snake :
    (n i : ℕ) (cells : List Cell) (j : ℕ)
    → i + n ≤ length cells
    → get_or (place_snake n i cells) j nowhere
      ≡ (if leb i j && ltb j (i + n) then (40 - j, 12) else get_or cells j nowhere)
unfolding place_snake
get_or-place_snake zero i cells j h = ground arith
get_or-place_snake (suc n) i cells j h = ground (
  arith,
  get_or-place_snake n (i + 1) (set cells i (40 - i, 12)) j,
  get_or-set cells i j (40 - i, 12) nowhere,
  length-set cells i (40 - i, 12),
)

new_cell :
    (g : Game) (j : ℕ)
    → length g.snake ≡ 256
    → j < 4
    → get_or (place_snake 4 0 g.snake) j nowhere ≡ (40 - j, 12)
new_cell g j h lt =
    let first : (leb 0 j && ltb j (0 + 4)) ≡ true = ground arith in
    get_or-place_snake 4 0 g.snake j (omega arith) ∙ rw first refl

new_game-IsGame : (g : Game) → length g.snake ≡ 256 → length g.foods ≡ 5 → IsGame (new_game g)
unfolding new_game
new_game-IsGame g h k = record {
  snake = record {
    sized = length-place_snake 4 0 g.snake ∙ h;
    long = omega arith;
    short = omega arith;
    on_board = λ j lt. rw (new_cell g j h lt) (omega arith, omega arith, omega arith, omega arith);
    apart = λ i j lt le. rw (new_cell g i h (omega arith), new_cell g j h le) (ground arith);
  };
  sized = k;
  few = omega arith;
}

next_frame-Safe :
    (f : Frame) (k : Game → Frame)
    → Safe f
    → ((g : Game) → IsGame g → Safe (k g))
    → Safe (next_frame f k)
next_frame-Safe (goes_on g) k h next = next g h
next_frame-Safe (over g) k h next = tt
next_frame-Safe out_of_rounds k h next = tt

first_foods-Safe : (n rounds : ℕ) (g : Game) → IsGame g → Safe (goes_on_or (first_foods n rounds g))
unfolding first_foods
first_foods-Safe zero rounds g v = v
first_foods-Safe (suc n) rounds g v =
    behind (snake_place_food rounds g) (snake_place_food-Safe rounds g v)
      (first_foods-Safe n rounds)
  where
    behind :
        (o : Option Game)
        → Safe (goes_on_or o)
        → ((g' : Game) → IsGame g' → Safe (goes_on_or (first_foods n rounds g')))
        → Safe (goes_on_or (o >>= first_foods n rounds))
    behind none h next = tt
    behind (some g') h next = next g' h

snake_loop-Safe :
    (rounds : ℕ) (keys : List ℕ) (g : Game) → IsGame g → Safe (snake_loop rounds keys g)
unfolding snake_loop
snake_loop-Safe rounds [] g v = v
snake_loop-Safe rounds (c ∷ keys) g v =
    next_frame-Safe (snake_frame rounds c g) (λ g'. snake_loop rounds keys g')
      (snake_frame-Safe rounds c g v) (λ g' v'. snake_loop-Safe rounds keys g' v')

-- As long as a game goes on, whatever keys come and wherever the foods fall, the snake has 1 to 255
-- cells, each inside_border the border and no two of them the same, in an array of 256, and there are at most
-- 5 foods in an array of 5.
pub snake_play-Safe :
    (rounds : ℕ) (keys : List ℕ) (g : Game)
    → length g.snake ≡ 256
    → length g.foods ≡ 5
    → Safe (snake_play rounds keys g)
unfolding snake_play
snake_play-Safe rounds keys g h k =
    next_frame-Safe (goes_on_or (first_foods 3 rounds (new_game g)))
      (λ g'. snake_loop rounds keys g')
      (first_foods-Safe 3 rounds (new_game g) (new_game-IsGame g h k))
      (λ g' v'. snake_loop-Safe rounds keys g' v')
