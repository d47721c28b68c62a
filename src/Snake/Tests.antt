-- ===== src/Snake/Tests.antt =====
-- The snake game at concrete inputs.
use myunixlikeos.Common.{◌≡◌, [], ◌∷◌, refl, replicate, length-replicate}
use myunixlikeos.Common.Int.{pos, negsuc, ◌+ℤ◌}
use myunixlikeos.Snake.{Cell, Game, over, nowhere, snake_frame, turn, has_cell, find_food, advance}
use myunixlikeos.Snake.Play.{snake_play, snake_play-Safe}
use myunixlikeos.Snake.Safe.{Safe}

abbrev empty_game : Game
empty_game = record {
  snake = replicate 256 nowhere;
  snake_length = 0;
  foods = replicate 5 nowhere;
  food_count = 0;
  rng = 0x12345678;
  dx = pos 0;
  dy = pos 0;
  frame_counter = 0;
  score = 0;
}

snake_play-Safe_example : Safe (snake_play 100 (0 ∷ 0 ∷ 119 ∷ []) empty_game)
snake_play-Safe_example =
    snake_play-Safe 100 (0 ∷ 0 ∷ 119 ∷ []) empty_game (length-replicate {A = Cell} 256 nowhere)
      (length-replicate {A = Cell} 5 nowhere)

-- a snake of three cells that goes to the right
abbrev going_right : Game
going_right = record empty_game {
  snake = (10, 5) ∷ (9, 5) ∷ (8, 5) ∷ [];
  snake_length = 3;
  dx = pos 1;
}

-- up and left before the next move turn it back into its own second cell
turned_back :
    snake_frame 1 97 (turn 119 (record going_right { frame_counter = 2 }))
    ≡ over (record going_right { dx = negsuc 0; frame_counter = 0 })
unfolding snake_frame turn has_cell find_food advance ◌+ℤ◌
turned_back = refl
