-- ===== src/Video/Tests.antt =====
-- The terminal at concrete inputs: the last row of an empty screen.
use myunixlikeos.Common.{ℕ, arith, replicate, length-replicate, ◌<◌}
use myunixlikeos.Video.{Terminal, terminal_putc, terminal_backspace}
use myunixlikeos.Video.Cells.{IsTerminal}
use myunixlikeos.Video.Output.{Puts, terminal_putc_lem}
use myunixlikeos.Video.Text.{Erases, terminal_backspace-terminal_putc}

abbrev empty_at : (row col : ℕ) → Terminal
empty_at row col = record {
  buffer = replicate 2000 0;
  row = row;
  col = col;
  color = 15;
  cursor_high = 7;
  cursor_low = 0x80;
}

empty-IsTerminal : (row col : ℕ) → row < 25 → col < 80 → IsTerminal (empty_at row col)
empty-IsTerminal row col h k = record { sized = length-replicate {A = ℕ} 2000 0; row = h; col = k }

terminal_putc_lem_example : Puts 65 (empty_at 24 79) (terminal_putc 65 (empty_at 24 79))
terminal_putc_lem_example =
    terminal_putc_lem 65 (empty_at 24 79) (empty-IsTerminal 24 79 (omega arith) (omega arith))
      (omega arith)

terminal_backspace-terminal_putc_example :
    Erases (empty_at 3 79) 3 79 (terminal_backspace (terminal_putc 65 (empty_at 3 79)))
terminal_backspace-terminal_putc_example =
    terminal_backspace-terminal_putc 65 (empty_at 3 79)
      (empty-IsTerminal 3 79 (omega arith) (omega arith)) (omega arith, omega arith) (omega arith)
