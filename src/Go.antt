-- ===== src/Go.antt =====
-- What the program uses of Go's own packages strconv, time, os, net and strings.
pub mod Strconv
pub mod Duration
pub mod Files
pub mod Address
pub mod Blank
