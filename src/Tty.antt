-- ===== src/Tty.antt =====
-- student-distrib/tty/terminal.c: three terminals over one screen, the keyboard driver with its
-- line editing, and the terminal system calls. The statics of the file are one record; the word
-- arrays of video memory are functions from indices to 16-bit words, and `mem` holds the bytes of
-- `input_buffer_internal` and of user buffers. Interrupt flags are not part of the state.
pub mod State
pub mod Screen
pub mod Keys
pub mod Keyboard
pub mod Calls
mod Tests
